-- ===== src/Agent/Backoff.antt =====
-- `ExponentialBackoff` and `rand_simple` of pulse-agent/src/main.rs. A `Duration` is its number of
-- milliseconds: every duration here is a whole number of them.
use native.Mathlib.Nat.{pow-suc}
use hakuraku.Prelude.{
  ℕ, suc, ◌*◌, ◌^◌, ◌≤◌, ◌≡◌, refl, Bool, true, false, List, [], ◌∷◌, min, arith,
}
use hakuraku.Core.Float.{Float, IsFloat}

pub record ExponentialBackoff : Type 0 where
  pub current : ℕ
  pub base : ℕ
  pub limit : ℕ

unfoldable pub new : ExponentialBackoff
new = record { current = 1000; base = 1000; limit = 60000 }

unfoldable pub reset : ExponentialBackoff → ExponentialBackoff
reset b = record b { current = b.base }

module _ {F : Type 0} (f : Float F) where
  -- `buf` is the number in the eight bytes; it stays 0 where the system gives no entropy.
  unfoldable pub rand_simple : ℕ → F
  rand_simple buf = f.div (f.of_u64 buf) (f.of_u64 18446744073709551615)

  unfoldable pub jittered : ℕ → ℕ → ℕ
  jittered delay buf =
      let jitter_range = f.mul (f.of_u64 delay) (f.ratio 3 10) in
      let jitter =
        f.mul (f.sub (f.mul (rand_simple buf) (f.ratio 2 1)) (f.ratio 1 1)) jitter_range in
      f.to_u64 (f.maximum (f.add (f.of_u64 delay) jitter) (f.ratio 100 1))

  -- The delay to wait, and the doubled state.
  unfoldable pub next_delay : ExponentialBackoff → ℕ → ℕ × ExponentialBackoff
  next_delay b buf = (jittered b.current buf, record b { current = min (b.current * 2) b.limit })

  -- The outcomes of the sessions in `run_agent_loop`: true is a clean end.
  unfoldable pub after_session : ExponentialBackoff → Bool × ℕ → ExponentialBackoff
  after_session b (true, buf) = reset b
  after_session b (false, buf) = (next_delay b buf).1

  unfoldable pub after_sessions : ExponentialBackoff → List (Bool × ℕ) → ExponentialBackoff
  after_sessions b [] = b
  after_sessions b (s ∷ ss) = after_sessions (after_session b s) ss

  -- The failures since the last clean end, given those before the list.
  abbrev pub failures : ℕ → List (Bool × ℕ) → ℕ
  failures n [] = n
  failures n ((true, buf) ∷ ss) = failures 0 ss
  failures n ((false, buf) ∷ ss) = failures (suc n) ss

  abbrev pub IsAt : ℕ → ExponentialBackoff → Type 0
  IsAt n b = (b.current ≡ min (1000 * 2 ^ n) 60000) × (b.base ≡ 1000) × (b.limit ≡ 60000)

  pub after_session-IsAt_failed :
      (n : ℕ) (b : ExponentialBackoff) (buf : ℕ)
      → IsAt n b
      → IsAt (suc n) (after_session b (false, buf))
  unfolding after_session next_delay
  after_session-IsAt_failed n b buf h = (omega (arith, h.0, h.2, pow-suc 2 n), h.1, h.2)

  pub after_session-IsAt_clean :
      (n : ℕ) (b : ExponentialBackoff) (buf : ℕ) → IsAt n b → IsAt 0 (after_session b (true, buf))
  unfolding after_session reset
  after_session-IsAt_clean n b buf h = (h.1, h.1, h.2)

  after_sessions-IsAt :
      (n : ℕ) (b : ExponentialBackoff) (ss : List (Bool × ℕ))
      → IsAt n b
      → IsAt (failures n ss) (after_sessions b ss)
  unfolding after_sessions
  after_sessions-IsAt n b [] h = h
  after_sessions-IsAt n b ((true, buf) ∷ ss) h =
      after_sessions-IsAt 0 (after_session b (true, buf)) ss (after_session-IsAt_clean n b buf h)
  after_sessions-IsAt n b ((false, buf) ∷ ss) h =
      after_sessions-IsAt (suc n) (after_session b (false, buf)) ss
        (after_session-IsAt_failed n b buf h)

  pub next_delay_least :
      (ok : IsFloat f) (b : ExponentialBackoff) (buf : ℕ) → 100 ≤ (next_delay b buf).0
  unfolding next_delay jittered
  next_delay_least ok b buf = ok.maximum-ge _ 100 (omega arith)

  -- After any sequence of sessions the base of the next delay is one second doubled once for each
  -- failure since the last clean end, and a minute at most; and the delay that is waited, jitter
  -- included, is 100 milliseconds at least.
  pub next_delay_schedule :
      (ok : IsFloat f) (ss : List (Bool × ℕ)) (buf : ℕ)
      → ((after_sessions new ss).current ≡ min (1000 * 2 ^ failures 0 ss) 60000)
        × (100 ≤ (next_delay (after_sessions new ss) buf).0)
  unfolding new
  next_delay_schedule ok ss buf = (
    (after_sessions-IsAt 0 new ss (refl, refl, refl)).0,
    next_delay_least ok (after_sessions new ss) buf,
  )
