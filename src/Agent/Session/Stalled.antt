-- ===== src/Agent/Session/Stalled.antt =====
-- A session whose server is slow: what is collected waits in the channel, with the forwarder and in
-- the buffer.
use hakuraku.Prelude.{
  ℕ, ◌+◌, ◌≤◌, ◌≡◌, refl, sym, ap, ◌∙◌, inl, inr, Bool, true, false, Bool-cases, List, [], ◌∷◌,
  ◌++◌, length, length-append, Option, arith,
}
use mathlib.Core.List.{append_assoc, append-nil}
use hakuraku.Agent.Buffer.{push, drain}
use hakuraku.Agent.Buffer.Kept.{push_room, capacity-push}
use hakuraku.Agent.Session.{
  Agent, Event, collected, another_sent, streamed, room, send, drain_and_send, wait_in, again_in,
  again, forward_round, notify_one, resume_in, stream_takes, step, steps,
}
use hakuraku.Agent.Session.Waiting.{stray, stray-append}
use hakuraku.Agent.Session.Order.{
  all_present, in_order, forward_round-in_order, stream_takes-in_order,
}
use hakuraku.Agent.Session.Delivery.{messages_of, messages_of-step, another_sent-in_order}

module _ {A : Type 0} where
  -- No forwarder is left of a session that is gone, and at most `held` messages are in the buffer.
  record IsAlone (capacity held : ℕ) (s : Agent A) : Type 0 where
    none_stray : stray s.waiting ≡ 0
    capacity_kept : s.holdback.capacity ≡ capacity
    holds : length s.holdback.inner ≤ held

  send-IsAlone :
      (capacity held : ℕ) (s : Agent A) → IsAlone capacity held s → IsAlone capacity held (send s)
  unfolding send
  send-IsAlone capacity held s h = record {
    none_stray = h.none_stray;
    capacity_kept = h.capacity_kept;
    holds = h.holds;
  }

  drain_and_send-IsAlone :
      (capacity held : ℕ) (s : Agent A)
      → IsAlone capacity held s
      → IsAlone capacity held (drain_and_send s)
  unfolding drain_and_send drain send
  drain_and_send-IsAlone capacity held s h = record {
    none_stray = h.none_stray;
    capacity_kept = h.capacity_kept;
    holds = omega arith;
  }

  wait_in-IsAlone :
      (capacity held : ℕ) (ms : List A) (s : Agent A)
      → IsAlone capacity held s
      → IsAlone capacity held (wait_in ms s)
  wait_in-IsAlone capacity held [] s h = record {
    none_stray = omega (arith, stray-append s.waiting true, h.none_stray);
    capacity_kept = h.capacity_kept;
    holds = h.holds;
  }
  wait_in-IsAlone capacity held (m ∷ ms) s h = h

  again_in-IsAlone :
      (capacity held : ℕ) (ms : List A) (permit : Bool) (s : Agent A)
      → IsAlone capacity held s
      → IsAlone capacity held (again_in ms permit s)
  again_in-IsAlone capacity held [] false s h = wait_in-IsAlone capacity held [] s h
  again_in-IsAlone capacity held [] true s h =
      let s' = drain_and_send (record s { permit = false }) in
      wait_in-IsAlone capacity held s'.sending s' (
        drain_and_send-IsAlone capacity held (record s { permit = false })
          (record { none_stray = h.none_stray; capacity_kept = h.capacity_kept; holds = h.holds }))
  again_in-IsAlone capacity held (m ∷ ms) permit s h = h

  again-IsAlone :
      (capacity held : ℕ) (s : Agent A) → IsAlone capacity held s → IsAlone capacity held (again s)
  unfolding again
  again-IsAlone capacity held s h = again_in-IsAlone capacity held s.sending s.permit s h

  resume_in-IsAlone :
      (capacity held : ℕ) (ms : List A) (s : Agent A)
      → IsAlone capacity held s
      → IsAlone capacity held (resume_in ms s)
  resume_in-IsAlone capacity held [] s h = h
  resume_in-IsAlone capacity held (m ∷ ms) s h =
      again-IsAlone capacity held (send s) (send-IsAlone capacity held s h)

  stream_takes-IsAlone :
      (capacity held : ℕ) (other : Bool) (channel : List (Option A)) (s : Agent A)
      → IsAlone capacity held s
      → IsAlone capacity held (stream_takes other channel s)
  stream_takes-IsAlone capacity held other [] s h = h
  stream_takes-IsAlone capacity held true (o ∷ rest) s h = record {
    none_stray = h.none_stray;
    capacity_kept = h.capacity_kept;
    holds = h.holds;
  }
  stream_takes-IsAlone capacity held false (o ∷ rest) s h =
      resume_in-IsAlone capacity held s.sending _
        (record { none_stray = h.none_stray; capacity_kept = h.capacity_kept; holds = h.holds })

  notify_one-IsAlone :
      (capacity held : ℕ) (ws : List Bool) (s : Agent A)
      → s.waiting ≡ ws
      → IsAlone capacity held s
      → IsAlone capacity held (notify_one ws s) × (in_order (notify_one ws s) ≡ in_order s)
  unfolding forward_round
  notify_one-IsAlone capacity held [] s e h =
      (record { none_stray = h.none_stray; capacity_kept = h.capacity_kept; holds = h.holds }, refl)
  notify_one-IsAlone capacity held (false ∷ ws) s e h =
      absurd (omega (arith, h.none_stray, ap stray e))
  notify_one-IsAlone capacity held (true ∷ ws) s e h =
      let s' = record s { waiting = ws } in
      (
        again-IsAlone capacity held (drain_and_send s') (
            drain_and_send-IsAlone capacity held s' (record {
              none_stray = omega (arith, h.none_stray, ap stray e);
              capacity_kept = h.capacity_kept;
              holds = h.holds;
            })),
        forward_round-in_order s',
      )

  append_last :
      (xs ys zs inner : List A) (m : A)
      → xs ++ (ys ++ (zs ++ (inner ++ m ∷ []))) ≡ (xs ++ (ys ++ (zs ++ inner))) ++ m ∷ []
  append_last xs ys zs inner m =
      ap (λ t. xs ++ (ys ++ t)) (sym (append_assoc zs inner (m ∷ [])))
      ∙ (ap (λ t. xs ++ t) (sym (append_assoc ys (zs ++ inner) (m ∷ [])))
          ∙ sym (append_assoc xs (ys ++ (zs ++ inner)) (m ∷ [])))

  step-IsAlone :
      (capacity held : ℕ) (s : Agent A) (e : Event A)
      → held + length (messages_of (e ∷ [])) ≤ capacity
      → IsAlone capacity held s
      → IsAlone capacity (held + length (messages_of (e ∷ []))) (step s e)
        × (in_order (step s e) ≡ in_order s ++ messages_of (e ∷ []))
  unfolding step
  step-IsAlone capacity held s (collected m) free h =
      let b = push s.holdback m in
      let pushed : b.inner ≡ s.holdback.inner ++ m ∷ [] =
        push_room s.holdback m (omega (arith, free, h.holds, h.capacity_kept)) in
      let s' = record s { holdback = b } in
      let (alone, same) = notify_one-IsAlone capacity (held + 1) s.waiting s' refl (record {
        none_stray = h.none_stray;
        capacity_kept = capacity-push s.holdback m ∙ h.capacity_kept;
        holds = omega (arith, h.holds, ap length pushed, length-append s.holdback.inner (m ∷ []));
      }) in
      (
        alone,
        same
            ∙ (ap (λ t. s.taken ++ (all_present s.channel ++ (s.sending ++ t))) pushed
                ∙ append_last s.taken (all_present s.channel) s.sending s.holdback.inner m),
      )
  step-IsAlone capacity held s another_sent free h = (
    elim (Bool-cases (room s.channel)) [
      | inl free' ↦ rw free' (record {
        none_stray = h.none_stray;
        capacity_kept = h.capacity_kept;
        holds = omega (arith, h.holds);
      })
      | inr full ↦ rw full (record {
        none_stray = h.none_stray;
        capacity_kept = h.capacity_kept;
        holds = omega (arith, h.holds);
      })
    ],
    another_sent-in_order s ∙ sym (append-nil (in_order s)),
  )
  step-IsAlone capacity held s (streamed other) free h =
      let alone = stream_takes-IsAlone capacity held other s.channel s h in
      (
        record {
          none_stray = alone.none_stray;
          capacity_kept = alone.capacity_kept;
          holds = omega (arith, alone.holds);
        },
        stream_takes-in_order other s.channel s refl ∙ sym (append-nil (in_order s)),
      )

  steps-IsAlone :
      (capacity held : ℕ) (s : Agent A) (es : List (Event A))
      → held + length (messages_of es) ≤ capacity
      → IsAlone capacity held s
      → in_order (steps s es) ≡ in_order s ++ messages_of es
  unfolding steps
  steps-IsAlone capacity held s [] free h = sym (append-nil (in_order s))
  steps-IsAlone capacity held s (e ∷ es) free h =
      let split = messages_of-step e es in
      let n : length (messages_of (e ∷ es))
          ≡ length (messages_of (e ∷ [])) + length (messages_of es) =
        ap length split ∙ length-append (messages_of (e ∷ [])) (messages_of es) in
      let (alone, same) = step-IsAlone capacity held s e (omega (arith, free, n)) h in
      steps-IsAlone capacity (held + length (messages_of (e ∷ []))) (step s e) es
        (omega (arith, free, n)) alone
      ∙ (ap (λ xs. xs ++ messages_of es) same
          ∙ (append_assoc (in_order s) (messages_of (e ∷ [])) (messages_of es)
              ∙ ap (λ xs. in_order s ++ xs) (sym split)))

  -- While no forwarder of a session that is gone waits, and as long as what the buffer holds and what
  -- is collected fit into it, nothing is lost and the order is kept, however slowly the stream takes
  -- the messages and whatever else is sent into its channel: the messages that the streams took,
  -- those in the channel, those that the forwarder could not send yet and those in the buffer are the
  -- ones that were there before, followed by those that were collected.
  pub steps-in_order :
      (s : Agent A) (es : List (Event A))
      → stray s.waiting ≡ 0
      → length s.holdback.inner + length (messages_of es) ≤ s.holdback.capacity
      → in_order (steps s es) ≡ in_order s ++ messages_of es
  steps-in_order s es alone free =
      steps-IsAlone s.holdback.capacity (length s.holdback.inner) s es free
        (record { none_stray = alone; capacity_kept = refl; holds = omega arith })
