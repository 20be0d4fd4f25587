-- ===== src/Agent/Session.antt =====
-- pulse-agent/src/main.rs: the way of a message from collection_loop over the holdback buffer and the
-- task that run_session spawns to forward it into the session's channel, to the gRPC stream, across
-- sessions. The channel has room for 64 messages, heartbeats and probe results among them; while it
-- is full the forwarder waits inside `send`. A task that wakes runs until it waits again.
pub mod Loss
pub mod Stalled
pub mod Order
pub mod Room
pub mod Waiting
pub mod Growing
pub mod Delivery
mod Tests
use hakuraku.Prelude.{
  ℕ, Bool, true, false, not, List, [], ◌∷◌, ◌++◌, keep_if, if◌then◌else◌, Option, none, some, ltb,
  length,
}
use hakuraku.Agent.Buffer.{TelemetryBuffer, push, drain}

-- The forwarders that wait for a notification, first come first, each with whether its session
-- lasts; the permit that `notify_one` stores while none of them waits; of the session that lasts,
-- what its forwarder has drained and not sent (nothing, while it waits for a notification) and its
-- channel, where a heartbeat or a probe result is `none`; and all that the streams have taken.
pub record Agent (A : Type 0) : Type 0 where
  pub holdback : TelemetryBuffer A
  pub waiting : List Bool
  pub permit : Bool
  pub sending : List A
  pub channel : List (Option A)
  pub taken : List A

pub data Event (A : Type 0) : Type 0 where
  -- collection_loop pushes a message and calls notify_one.
  collected : A → Event A
  -- A heartbeat or a probe result is sent, if there is room.
  another_sent : Event A
  -- The stream takes a message from the channel; true says that a heartbeat or a probe result has
  -- waited longer than the forwarder for the room.
  streamed : Bool → Event A

abbrev pub closed : List Bool → List Bool
closed [] = []
closed (w ∷ ws) = false ∷ closed ws

module _ {A : Type 0} where
  abbrev pub room : List (Option A) → Bool
  room channel = ltb (length channel) 64

  -- `for msg in messages`: the channel, and what waits for room.
  unfoldable pub fill : List (Option A) → List A → List (Option A) × List A
  fill channel [] = (channel, [])
  fill channel (m ∷ ms) =
      let rest = fill (channel ++ some m ∷ []) ms in
      if room channel then rest else (channel, m ∷ ms)

  unfoldable pub send : Agent A → Agent A
  send s =
      let (channel, rest) = fill s.channel s.sending in
      record s { channel = channel; sending = rest }

  unfoldable pub drain_and_send : Agent A → Agent A
  drain_and_send s =
      let (messages, b) = drain s.holdback in
      send (record s { holdback = b; sending = s.sending ++ messages })

  -- `notified()`, once all is sent.
  abbrev pub wait_in : List A → Agent A → Agent A
  wait_in [] s = record s { waiting = s.waiting ++ true ∷ [] }
  wait_in (m ∷ ms) s = s

  -- The same where a permit may be stored, with which the forwarder goes round again.
  abbrev pub again_in : List A → Bool → Agent A → Agent A
  again_in [] false s = record s { waiting = s.waiting ++ true ∷ [] }
  again_in [] true s =
      let s' = drain_and_send (record s { permit = false }) in wait_in s'.sending s'
  again_in (m ∷ ms) permit s = s

  unfoldable pub again : Agent A → Agent A
  again s = again_in s.sending s.permit s

  -- A round of the forwarder's loop: on a session that is gone the first send fails and the task
  -- returns, with the drained messages.
  unfoldable pub forward_round : Bool → Agent A → Agent A
  forward_round lasts s =
      if lasts then again (drain_and_send s) else record s { holdback = (drain s.holdback).1 }

  -- `notify_one` wakes the first that waits.
  abbrev pub notify_one : List Bool → Agent A → Agent A
  notify_one [] s = record s { permit = true }
  notify_one (lasts ∷ others) s = forward_round lasts (record s { waiting = others })

  -- The forwarder goes on sending where there is room again.
  abbrev pub resume_in : List A → Agent A → Agent A
  resume_in [] s = s
  resume_in (m ∷ ms) s = again (send s)

  abbrev pub present : Option A → List A
  present none = []
  present (some m) = m ∷ []

  abbrev pub stream_takes : Bool → List (Option A) → Agent A → Agent A
  stream_takes other [] s = s
  stream_takes true (o ∷ rest) s = record s {
    channel = rest ++ none ∷ [];
    taken = s.taken ++ present o;
  }
  stream_takes false (o ∷ rest) s =
      resume_in s.sending (record s { channel = rest; taken = s.taken ++ present o })

  unfoldable pub step : Agent A → Event A → Agent A
  step s (collected msg) = notify_one s.waiting (record s { holdback = push s.holdback msg })
  step s another_sent = if room s.channel then record s { channel = s.channel ++ none ∷ [] } else s
  step s (streamed other) = stream_takes other s.channel s

  unfoldable pub steps : Agent A → List (Event A) → Agent A
  steps s [] = s
  steps s (e ∷ es) = steps (step s e) es

  -- run_session connects and spawns its forwarder.
  unfoldable pub session_starts : Agent A → Agent A
  session_starts s = forward_round true s

  -- run_session returns an error: the channel goes with what is in it, a forwarder that waits for
  -- room returns, and one that waits for a notification is left behind.
  unfoldable pub session_fails : Agent A → Agent A
  session_fails s = record s { waiting = closed s.waiting; sending = []; channel = [] }

  -- run_session ends and aborts its forwarder.
  unfoldable pub session_ends : Agent A → Agent A
  session_ends s = record s { waiting = keep_if not s.waiting; sending = []; channel = [] }
