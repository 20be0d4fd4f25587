-- ===== src/Agent/Session/Order.antt =====
-- What is on its way in an agent, in the order in which it was collected.
use hakuraku.Prelude.{
  ◌≤◌, ◌≡◌, refl, sym, ap, ◌∙◌, inl, inr, Bool, true, false, Bool-cases, List, [], ◌∷◌, ◌++◌,
  length, length-append, Option, none, some, arith,
}
use mathlib.Core.List.{append_assoc, append-nil}
use hakuraku.Agent.Buffer.{drain}
use hakuraku.Agent.Session.{
  Agent, room, present, fill, send, drain_and_send, wait_in, again_in, again, forward_round,
  resume_in, stream_takes,
}

module _ {A : Type 0} where
  abbrev pub all_present : List (Option A) → List A
  all_present [] = []
  all_present (o ∷ os) = present o ++ all_present os

  -- What the streams took, then the channel, the forwarder and the buffer.
  abbrev pub in_order : Agent A → List A
  in_order s = s.taken ++ (all_present s.channel ++ (s.sending ++ s.holdback.inner))

  pub all_present-append :
      (xs ys : List (Option A)) → all_present (xs ++ ys) ≡ all_present xs ++ all_present ys
  all_present-append [] ys = refl
  all_present-append (o ∷ xs) ys =
      ap (λ zs. present o ++ zs) (all_present-append xs ys)
      ∙ sym (append_assoc (present o) (all_present xs) (all_present ys))

  fill-in_order :
      (channel : List (Option A)) (ms : List A)
      → all_present (fill channel ms).0 ++ (fill channel ms).1 ≡ all_present channel ++ ms
  unfolding fill
  fill-in_order channel [] = refl
  fill-in_order channel (m ∷ ms) = elim (Bool-cases (room channel)) [
    | inl free ↦
        rw (fill, free)
          (fill-in_order (channel ++ some m ∷ []) ms
            ∙ (ap (λ xs. xs ++ ms) (all_present-append channel (some m ∷ []))
                ∙ append_assoc (all_present channel) (m ∷ []) ms))
    | inr full ↦ rw (fill, full) refl
  ]

  pub fill-le :
      (channel : List (Option A)) (ms : List A)
      → length channel ≤ 64
      → length (fill channel ms).0 ≤ 64
  unfolding fill
  fill-le channel [] h = h
  fill-le channel (m ∷ ms) h = elim (Bool-cases (room channel)) [
    | inl free ↦
        rw (fill, free)
          (fill-le (channel ++ some m ∷ []) ms
            (ground (arith, length-append channel (some m ∷ []))))
    | inr full ↦ rw (fill, full) h
  ]

  send-in_order : (s : Agent A) → in_order (send s) ≡ in_order s
  unfolding send
  send-in_order s =
      ap (λ xs. s.taken ++ xs)
        (sym (append_assoc _ _ s.holdback.inner)
          ∙ (ap (λ xs. xs ++ s.holdback.inner) (fill-in_order s.channel s.sending)
              ∙ append_assoc (all_present s.channel) s.sending s.holdback.inner))

  drain_and_send-in_order : (s : Agent A) → in_order (drain_and_send s) ≡ in_order s
  unfolding drain_and_send drain
  drain_and_send-in_order s =
      send-in_order _
      ∙ ap (λ xs. s.taken ++ (all_present s.channel ++ xs))
          (append-nil (s.sending ++ s.holdback.inner))

  again_in-in_order :
      (ms : List A) (permit : Bool) (s : Agent A) → in_order (again_in ms permit s) ≡ in_order s
  again_in-in_order [] false s = refl
  again_in-in_order [] true s =
      let s' = drain_and_send (record s { permit = false }) in
      wait_in-in_order s'.sending s' ∙ drain_and_send-in_order (record s { permit = false })
    where
      wait_in-in_order : (ms : List A) (s : Agent A) → in_order (wait_in ms s) ≡ in_order s
      wait_in-in_order [] s = refl
      wait_in-in_order (m ∷ ms) s = refl
  again_in-in_order (m ∷ ms) permit s = refl

  again-in_order : (s : Agent A) → in_order (again s) ≡ in_order s
  unfolding again
  again-in_order s = again_in-in_order s.sending s.permit s

  pub forward_round-in_order : (s : Agent A) → in_order (forward_round true s) ≡ in_order s
  unfolding forward_round
  forward_round-in_order s = again-in_order (drain_and_send s) ∙ drain_and_send-in_order s

  resume_in-in_order : (ms : List A) (s : Agent A) → in_order (resume_in ms s) ≡ in_order s
  resume_in-in_order [] s = refl
  resume_in-in_order (m ∷ ms) s = again-in_order (send s) ∙ send-in_order s

  pub stream_takes-in_order :
      (other : Bool) (channel : List (Option A)) (s : Agent A)
      → s.channel ≡ channel
      → in_order (stream_takes other channel s) ≡ in_order s
  stream_takes-in_order other [] s e = refl
  stream_takes-in_order true (o ∷ rest) s e =
      rw (e, all_present-append rest (none ∷ []), append-nil)
        (append_assoc s.taken (present o) (all_present rest ++ (s.sending ++ s.holdback.inner))
          ∙ ap (λ xs. s.taken ++ xs)
              (sym (append_assoc (present o) (all_present rest) (s.sending ++ s.holdback.inner))))
  stream_takes-in_order false (o ∷ rest) s e =
      resume_in-in_order s.sending _
      ∙ rw e (
          append_assoc s.taken (present o) (all_present rest ++ (s.sending ++ s.holdback.inner))
          ∙ ap (λ xs. s.taken ++ xs)
              (sym (append_assoc (present o) (all_present rest) (s.sending ++ s.holdback.inner))))
