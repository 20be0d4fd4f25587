-- ===== src/Agent/Session/Loss.antt =====
-- What a session delivers to a server that keeps up, and what a failed one loses.
use hakuraku.Prelude.{arith, ℕ, ◌≡◌, refl, sym, ap, ◌∙◌, true, false, List, [], ◌∷◌, ◌++◌}
use mathlib.Core.List.{append_assoc, append-nil}
use hakuraku.Agent.Buffer.{push, drain}
use hakuraku.Agent.Session.{
  Agent, Event, collected, streamed, fill, send, drain_and_send, again, forward_round, step, steps,
  session_starts, session_fails,
}

module _ {A : Type 0} where
  -- During a session: its forwarder waits, and the buffer and the channel are empty.
  abbrev pub connected : ℕ → List A → Agent A
  connected capacity taken = record {
    holdback = record { inner = []; capacity = capacity };
    waiting = true ∷ [];
    permit = false;
    sending = [];
    channel = [];
    taken = taken;
  }

  -- The stream takes each message before the next one is collected.
  abbrev pub kept_up : List A → List (Event A)
  kept_up [] = []
  kept_up (m ∷ ms) = collected m ∷ streamed false ∷ kept_up ms

  push_one :
      (capacity : ℕ) (msg : A)
      → push (record { inner = []; capacity = capacity }) msg
        ≡ record { inner = msg ∷ []; capacity = capacity }
  unfolding push
  push_one capacity msg = ground arith

  step-connected :
      (capacity : ℕ) (taken : List A) (msg : A)
      → step (step (connected capacity taken) (collected msg)) (streamed false)
        ≡ connected capacity (taken ++ msg ∷ [])
  unfolding step forward_round drain_and_send drain send fill again
  step-connected capacity taken msg = rw (push_one capacity msg) refl

  steps-connected :
      (capacity : ℕ) (taken msgs : List A)
      → steps (connected capacity taken) (kept_up msgs) ≡ connected capacity (taken ++ msgs)
  unfolding steps
  steps-connected capacity taken [] = ap (connected capacity) (sym (append-nil taken))
  steps-connected capacity taken (m ∷ msgs) =
      ap (λ s. steps s (kept_up msgs)) (step-connected capacity taken m)
      ∙ (steps-connected capacity (taken ++ m ∷ []) msgs
          ∙ ap (connected capacity) (append_assoc taken (m ∷ []) msgs))

  -- While a session lasts and its stream takes each message before the next one is collected, the
  -- stream takes every message, in order. A session that fails leaves its forwarder waiting: the
  -- message that is collected next is in no buffer and no channel and never taken, also after the next
  -- session has started.
  pub steps_lossy :
      (capacity : ℕ) (taken msgs : List A) (lost : A)
      → (steps (connected capacity taken) (kept_up msgs) ≡ connected capacity (taken ++ msgs))
        × (session_starts (step (session_fails (connected capacity taken)) (collected lost))
            ≡ connected capacity taken)
  unfolding step forward_round drain_and_send drain send fill again session_starts session_fails
  steps_lossy capacity taken msgs lost =
      (steps-connected capacity taken msgs, rw (push_one capacity lost) refl)
