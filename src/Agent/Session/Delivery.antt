-- ===== src/Agent/Session/Delivery.antt =====
-- That what is on its way stays in the order in which it was collected.
use hakuraku.Prelude.{
  ◌≡◌, refl, inl, inr, Bool, true, false, Bool-cases, List, [], ◌∷◌, ◌++◌, length-append, Option,
  none, arith,
}
use mathlib.Core.List.{append_assoc, append-nil, Sublist, nil-sublist}
use mathlib.Core.List.Sublist
use hakuraku.Agent.Buffer.{push, drain}
use hakuraku.Agent.Buffer.Kept.{push-sublist}
use hakuraku.Agent.Session.{
  Agent, Event, collected, another_sent, streamed, room, forward_round, notify_one, step, steps,
  session_starts, session_fails, session_ends,
}
use hakuraku.Agent.Session.Order.{
  all_present, in_order, all_present-append, forward_round-in_order, stream_takes-in_order,
}
use hakuraku.Agent.Session.Room.{IsBounded, forward_round-IsBounded, stream_takes-IsBounded}

module _ {A : Type 0} where
  -- What is on its way is in the order of `all`, and the channel is within its room.
  pub record IsOrdered (all : List A) (s : Agent A) : Type 0 where
    pub order : Sublist (in_order s) all
    pub bounded : IsBounded s

  -- Fewer of what follows keep the order.
  behind :
      (taken : List A) (channel : List (Option A)) (sending before after : List A)
      → Sublist after before
      → Sublist
          (taken ++ (all_present channel ++ (sending ++ after)))
          (taken ++ (all_present channel ++ (sending ++ before)))
  behind taken channel sending before after h = Sublist.append (Sublist.refl taken) (
      Sublist.append (Sublist.refl (all_present channel)) (Sublist.append (Sublist.refl sending) h))

  pushed-order :
      (s : Agent A) (all : List A) (msg : A)
      → Sublist (in_order s) all
      → Sublist (in_order (record s { holdback = push s.holdback msg })) (all ++ msg ∷ [])
  pushed-order s all msg h =
      Sublist.trans
        (behind s.taken s.channel s.sending (s.holdback.inner ++ msg ∷ [])
          (push s.holdback msg).inner (push-sublist s.holdback msg))
        (rw
          (
            ← append_assoc s.sending s.holdback.inner (msg ∷ []),
            ← append_assoc (all_present s.channel) (s.sending ++ s.holdback.inner) (msg ∷ []),
            ← append_assoc s.taken (all_present s.channel ++ (s.sending ++ s.holdback.inner))
                (msg ∷ []),
          )
          (Sublist.append h (Sublist.refl (msg ∷ []))))

  drained-order :
      (s : Agent A) (all : List A)
      → Sublist (in_order s) all
      → Sublist (in_order (forward_round false s)) all
  unfolding forward_round drain
  drained-order s all h =
      Sublist.trans
        (behind s.taken s.channel s.sending s.holdback.inner [] (nil-sublist s.holdback.inner)) h

  notify_one-IsOrdered :
      (ws : List Bool) (s : Agent A) (all : List A)
      → IsOrdered all s
      → IsOrdered all (notify_one ws s)
  notify_one-IsOrdered [] s all h = record { order = h.order; bounded = h.bounded }
  notify_one-IsOrdered (true ∷ ws) s all h = record {
    order = rw (forward_round-in_order (record s { waiting = ws })) h.order;
    bounded = forward_round-IsBounded true (record s { waiting = ws }) h.bounded;
  }
  notify_one-IsOrdered (false ∷ ws) s all h = record {
    order = drained-order (record s { waiting = ws }) all h.order;
    bounded = forward_round-IsBounded false (record s { waiting = ws }) h.bounded;
  }

  abbrev pub messages_of : List (Event A) → List A
  messages_of [] = []
  messages_of (collected m ∷ es) = m ∷ messages_of es
  messages_of (another_sent ∷ es) = messages_of es
  messages_of (streamed other ∷ es) = messages_of es

  pub another_sent-in_order : (s : Agent A) → in_order (step s another_sent) ≡ in_order s
  unfolding step
  another_sent-in_order s = elim (Bool-cases (room s.channel)) [
    | inl free ↦ rw (free, all_present-append s.channel (none ∷ []), append-nil) refl
    | inr full ↦ rw full refl
  ]

  another_sent-IsBounded : (s : Agent A) → IsBounded s → IsBounded (step s another_sent)
  unfolding step
  another_sent-IsBounded s h = elim (Bool-cases (room s.channel)) [
    | inl free ↦ rw free (ground (arith, length-append s.channel (none ∷ [])))
    | inr full ↦ rw full h
  ]

  step-IsOrdered :
      (s : Agent A) (all : List A) (e : Event A)
      → IsOrdered all s
      → IsOrdered (all ++ messages_of (e ∷ [])) (step s e)
  unfolding step
  step-IsOrdered s all (collected m) h =
      notify_one-IsOrdered s.waiting (record s { holdback = push s.holdback m }) (all ++ m ∷ [])
        (record { order = pushed-order s all m h.order; bounded = h.bounded })
  step-IsOrdered s all another_sent h = rw append-nil (record {
    order = rw (another_sent-in_order s) h.order;
    bounded = another_sent-IsBounded s h.bounded;
  })
  step-IsOrdered s all (streamed other) h = rw append-nil (record {
    order = rw (stream_takes-in_order other s.channel s refl) h.order;
    bounded = stream_takes-IsBounded other s.channel s refl h.bounded;
  })

  pub messages_of-step :
      (e : Event A) (es : List (Event A))
      → messages_of (e ∷ es) ≡ messages_of (e ∷ []) ++ messages_of es
  messages_of-step (collected m) es = refl
  messages_of-step another_sent es = refl
  messages_of-step (streamed other) es = refl

  pub steps-IsOrdered :
      (s : Agent A) (all : List A) (es : List (Event A))
      → IsOrdered all s
      → IsOrdered (all ++ messages_of es) (steps s es)
  unfolding steps
  steps-IsOrdered s all [] h = rw append-nil h
  steps-IsOrdered s all (e ∷ es) h =
      rw (messages_of-step e es, ← append_assoc all (messages_of (e ∷ [])) (messages_of es))
        (steps-IsOrdered (step s e) (all ++ messages_of (e ∷ [])) es (step-IsOrdered s all e h))

  pub session_starts-IsOrdered :
      (s : Agent A) (all : List A) → IsOrdered all s → IsOrdered all (session_starts s)
  unfolding session_starts
  session_starts-IsOrdered s all h = record {
    order = rw (forward_round-in_order s) h.order;
    bounded = forward_round-IsBounded true s h.bounded;
  }

  -- What the streams took and what the buffer holds stay.
  left-order :
      (s : Agent A) (all : List A)
      → Sublist (in_order s) all
      → Sublist (s.taken ++ s.holdback.inner) all
  left-order s all h =
      Sublist.trans
        (Sublist.append (Sublist.refl s.taken) (
          Sublist.append (nil-sublist (all_present s.channel))
            (Sublist.append (nil-sublist s.sending) (Sublist.refl s.holdback.inner))))
        h

  pub session_fails-IsOrdered :
      (s : Agent A) (all : List A) → IsOrdered all s → IsOrdered all (session_fails s)
  unfolding session_fails
  session_fails-IsOrdered s all h = record {
    order = left-order s all h.order;
    bounded = omega arith;
  }

  pub session_ends-IsOrdered :
      (s : Agent A) (all : List A) → IsOrdered all s → IsOrdered all (session_ends s)
  unfolding session_ends
  session_ends-IsOrdered s all h = record {
    order = left-order s all h.order;
    bounded = omega arith;
  }
