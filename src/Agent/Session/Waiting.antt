-- ===== src/Agent/Session/Waiting.antt =====
-- The forwarders that wait: how many are of a session that lasts.
use hakuraku.Prelude.{
  ℕ, suc, ◌+◌, ◌≡◌, refl, Bool, true, false, not, List, [], ◌∷◌, ◌++◌, keep_if, arith,
}
use hakuraku.Agent.Session.{closed}

-- The forwarders of sessions that last, and those of sessions that are gone.
abbrev pub live : List Bool → ℕ
live [] = 0
live (true ∷ ws) = suc (live ws)
live (false ∷ ws) = live ws

abbrev pub stray : List Bool → ℕ
stray [] = 0
stray (true ∷ ws) = stray ws
stray (false ∷ ws) = suc (stray ws)

pub live-append : (ws : List Bool) (w : Bool) → live (ws ++ w ∷ []) ≡ live (w ∷ []) + live ws
live-append [] w = ground arith
live-append (true ∷ ws) w = omega (arith, live-append ws w)
live-append (false ∷ ws) w = live-append ws w

pub stray-append : (ws : List Bool) (w : Bool) → stray (ws ++ w ∷ []) ≡ stray (w ∷ []) + stray ws
stray-append [] w = ground arith
stray-append (true ∷ ws) w = stray-append ws w
stray-append (false ∷ ws) w = omega (arith, stray-append ws w)

pub live-closed : (ws : List Bool) → live (closed ws) ≡ 0
live-closed [] = refl
live-closed (w ∷ ws) = live-closed ws

pub stray-closed : (ws : List Bool) → stray (closed ws) ≡ live ws + stray ws
stray-closed [] = refl
stray-closed (true ∷ ws) = omega (arith, stray-closed ws)
stray-closed (false ∷ ws) = omega (arith, stray-closed ws)

pub live-aborted : (ws : List Bool) → live (keep_if not ws) ≡ 0
live-aborted [] = refl
live-aborted (true ∷ ws) = live-aborted ws
live-aborted (false ∷ ws) = live-aborted ws

pub stray-aborted : (ws : List Bool) → stray (keep_if not ws) ≡ stray ws
stray-aborted [] = refl
stray-aborted (true ∷ ws) = stray-aborted ws
stray-aborted (false ∷ ws) = omega (arith, stray-aborted ws)
