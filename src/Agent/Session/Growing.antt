-- ===== src/Agent/Session/Growing.antt =====
-- That no event takes back what a stream took.
use hakuraku.Prelude.{
  ◌≡◌, refl, Bool, true, false, Bool-cases, inl, inr, List, [], ◌∷◌, ◌++◌, Option,
}
use mathlib.Core.List.{Sublist, sublist-append_left}
use mathlib.Core.List.Sublist
use hakuraku.Agent.Buffer.{push}
use hakuraku.Agent.Session.{
  Agent, Event, collected, another_sent, streamed, room, present, send, drain_and_send, wait_in,
  again_in, again, forward_round, notify_one, resume_in, stream_takes, step, steps, session_starts,
}

module _ {A : Type 0} where
  wait_in-taken : (ms : List A) (s : Agent A) → (wait_in ms s).taken ≡ s.taken
  wait_in-taken [] s = refl
  wait_in-taken (m ∷ ms) s = refl

  again_in-taken :
      (ms : List A) (permit : Bool) (s : Agent A) → (again_in ms permit s).taken ≡ s.taken
  unfolding drain_and_send send
  again_in-taken [] false s = refl
  again_in-taken [] true s =
      let s' = drain_and_send (record s { permit = false }) in wait_in-taken s'.sending s'
  again_in-taken (m ∷ ms) permit s = refl

  forward_round-taken : (lasts : Bool) (s : Agent A) → (forward_round lasts s).taken ≡ s.taken
  unfolding forward_round drain_and_send send again
  forward_round-taken true s = let s' = drain_and_send s in again_in-taken s'.sending s'.permit s'
  forward_round-taken false s = refl

  notify_one-taken : (ws : List Bool) (s : Agent A) → (notify_one ws s).taken ≡ s.taken
  notify_one-taken [] s = refl
  notify_one-taken (w ∷ ws) s = forward_round-taken w (record s { waiting = ws })

  resume_in-taken : (ms : List A) (s : Agent A) → (resume_in ms s).taken ≡ s.taken
  unfolding again send
  resume_in-taken [] s = refl
  resume_in-taken (m ∷ ms) s = again_in-taken (send s).sending (send s).permit (send s)

  stream_takes-taken :
      (other : Bool) (channel : List (Option A)) (s : Agent A)
      → Sublist s.taken (stream_takes other channel s).taken
  stream_takes-taken other [] s = Sublist.refl s.taken
  stream_takes-taken true (o ∷ rest) s = sublist-append_left s.taken (present o)
  stream_takes-taken false (o ∷ rest) s =
      let s' : Agent A = record s { channel = rest; taken = s.taken ++ present o } in
      rw (resume_in-taken s.sending s') (sublist-append_left s.taken (present o))

  step-taken : (s : Agent A) (e : Event A) → Sublist s.taken (step s e).taken
  unfolding step
  step-taken s (collected m) =
      rw (notify_one-taken s.waiting (record s { holdback = push s.holdback m }))
        (Sublist.refl s.taken)
  step-taken s another_sent = elim (Bool-cases (room s.channel)) [
    | inl free ↦ rw free (Sublist.refl s.taken)
    | inr full ↦ rw full (Sublist.refl s.taken)
  ]
  step-taken s (streamed other) = stream_takes-taken other s.channel s

  pub steps-taken : (s : Agent A) (es : List (Event A)) → Sublist s.taken (steps s es).taken
  unfolding steps
  steps-taken s [] = Sublist.refl s.taken
  steps-taken s (e ∷ es) = Sublist.trans (step-taken s e) (steps-taken (step s e) es)

  pub session_starts-taken : (s : Agent A) → (session_starts s).taken ≡ s.taken
  unfolding session_starts
  session_starts-taken s = forward_round-taken true s
