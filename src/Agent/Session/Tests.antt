-- ===== src/Agent/Session/Tests.antt =====
-- A session that forwards two messages, one that fails, and one whose stream takes nothing for a while.
use hakuraku.Prelude.{zero, suc, true, false, ℕ, ◌≡◌, refl, ◌++◌, List, [], ◌∷◌, arith}
use hakuraku.Agent.Buffer.{push, drain}
use hakuraku.Agent.Session.{
  Event, collected, another_sent, streamed, fill, send, drain_and_send, again, forward_round, step,
  steps, session_starts, session_fails,
}
use hakuraku.Agent.Session.Order.{in_order}
use hakuraku.Agent.Session.Loss.{connected, kept_up, steps_lossy}
use hakuraku.Agent.Session.Stalled.{steps-in_order}

abbrev msgs : List ℕ
msgs = 1 ∷ 2 ∷ []

abbrev lost : ℕ
lost = 3

steps_lossy_example :
    (steps (connected 100 []) (kept_up msgs) ≡ connected 100 msgs)
    × (session_starts (step (session_fails (connected 100 [])) (collected lost)) ≡ connected 100 [])
steps_lossy_example = steps_lossy 100 [] msgs lost

abbrev others : ℕ → List (Event ℕ)
others zero = []
others (suc n) = another_sent ∷ others n

-- The channel is full before anything is collected.
abbrev slow : List (Event ℕ)
slow = others 64 ++ collected 1 ∷ collected 2 ∷ collected 3 ∷ streamed false ∷ streamed true ∷ []

steps-in_order_example : in_order (steps (connected 3 (9 ∷ [])) slow) ≡ 9 ∷ 1 ∷ 2 ∷ 3 ∷ []
steps-in_order_example = steps-in_order (connected 3 (9 ∷ [])) slow refl (omega arith)

waits_for_room : (steps (connected 3 []) slow).sending ≡ 2 ∷ 3 ∷ []
unfolding steps step forward_round drain_and_send drain send fill again push
waits_for_room = refl
