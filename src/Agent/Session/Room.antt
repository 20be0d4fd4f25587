-- ===== src/Agent/Session/Room.antt =====
-- The room of the channel.
use hakuraku.Prelude.{
  ◌≤◌, ◌≡◌, ap, Bool, true, false, List, [], ◌∷◌, ◌++◌, length, length-append, Option, none, arith,
}
use hakuraku.Agent.Buffer.{drain}
use hakuraku.Agent.Session.{
  Agent, send, drain_and_send, wait_in, again_in, again, forward_round, resume_in, stream_takes,
}
use hakuraku.Agent.Session.Order.{fill-le}

module _ {A : Type 0} where
  -- The channel is within its room.
  abbrev pub IsBounded : Agent A → Type 0
  IsBounded s = length s.channel ≤ 64

  drain_and_send-IsBounded : (s : Agent A) → IsBounded s → IsBounded (drain_and_send s)
  unfolding drain_and_send drain send
  drain_and_send-IsBounded s h = fill-le s.channel (s.sending ++ s.holdback.inner) h

  again_in-IsBounded :
      (ms : List A) (permit : Bool) (s : Agent A) → IsBounded s → IsBounded (again_in ms permit s)
  again_in-IsBounded [] false s h = h
  again_in-IsBounded [] true s h =
      let s' = drain_and_send (record s { permit = false }) in
      wait_in-IsBounded s'.sending s' (drain_and_send-IsBounded (record s { permit = false }) h)
    where
      wait_in-IsBounded : (ms : List A) (s : Agent A) → IsBounded s → IsBounded (wait_in ms s)
      wait_in-IsBounded [] s h = h
      wait_in-IsBounded (m ∷ ms) s h = h
  again_in-IsBounded (m ∷ ms) permit s h = h

  pub forward_round-IsBounded :
      (lasts : Bool) (s : Agent A) → IsBounded s → IsBounded (forward_round lasts s)
  unfolding forward_round again
  forward_round-IsBounded true s h =
      let s' = drain_and_send s in
      again_in-IsBounded s'.sending s'.permit s' (drain_and_send-IsBounded s h)
  forward_round-IsBounded false s h = h

  resume_in-IsBounded : (ms : List A) (s : Agent A) → IsBounded s → IsBounded (resume_in ms s)
  unfolding again send
  resume_in-IsBounded [] s h = h
  resume_in-IsBounded (m ∷ ms) s h =
      again_in-IsBounded (send s).sending (send s).permit (send s) (fill-le s.channel s.sending h)

  pub stream_takes-IsBounded :
      (other : Bool) (channel : List (Option A)) (s : Agent A)
      → s.channel ≡ channel
      → IsBounded s
      → IsBounded (stream_takes other channel s)
  stream_takes-IsBounded other [] s e h = h
  stream_takes-IsBounded true (o ∷ rest) s e h =
      omega (arith, h, ap length e, length-append rest (none ∷ []))
  stream_takes-IsBounded false (o ∷ rest) s e h =
      resume_in-IsBounded s.sending _ (omega (arith, h, ap length e))
