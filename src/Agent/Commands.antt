-- ===== src/Agent/Commands.antt =====
-- pulse-agent/src/main.rs: what a session does with the commands of the server, and the messages
-- that the loops of the agent make.
pub mod Folded
mod Tests
use hakuraku.Prelude.{
  ℕ, ◌%◌, Bool, true, false, List, [], ◌∷◌, ◌++◌, Option, none, some, Text, ℤ, Result, ok, err,
  if◌then◌else◌,
}
use hakuraku.Core.Float.{Float}
use hakuraku.Core.Proto.{
  TcpProbe, ProbeResult, stats, heartbeat, probe_result, TelemetryMessage, heartbeat_ack,
  add_ping_target, add_tcp_probe, config_update, ServerCommand,
}
use hakuraku.Server.Grpc.{now_ms}
use hakuraku.Agent.Buffer.{TelemetryBuffer, push}
use hakuraku.Agent.Collector.{SystemCollector, Kernel, Collecting}
use hakuraku.Agent.Collector.Collect.{collect}
use hakuraku.Agent.Prober.{Network, Target, probe_tcp_targets}
use hakuraku.Core.Proto.{NodeStats}

-- The shared interval, and the tasks that were spawned for probes.
pub record Commanded : Type 0 where
  pub interval_ms : ℕ
  pub probes : List TcpProbe

unfoldable pub handle_command : Commanded → ServerCommand → Commanded
handle_command st none = st
handle_command st (some (heartbeat_ack server_timestamp_ms)) = st
handle_command st (some (config_update interval_ms)) = record st { interval_ms = interval_ms }
handle_command st (some (add_tcp_probe probe)) = record st { probes = st.probes ++ probe ∷ [] }
handle_command st (some (add_ping_target host timeout_ms count)) = st

-- `inbound.message()`, or the agent's shutdown.
pub data Incoming : Type 0 where
  message : Result Text (Option ServerCommand) → Incoming
  cancelled : Incoming

pub data Ending : Type 0 where
  waits : Ending
  ends_ok : Ending
  ends_err : Text → Ending

unfoldable pub command_loop : Commanded → List Incoming → Commanded × Ending
command_loop st [] = (st, waits)
command_loop st (message (ok (some cmd)) ∷ is) = command_loop (handle_command st cmd) is
command_loop st (message (ok none) ∷ is) = (st, ends_ok)
command_loop st (message (err e) ∷ is) = (st, ends_err e)
command_loop st (cancelled ∷ is) = (st, ends_ok)

-- The target that the task of a probe tries: the port is cut to sixteen bits.
unfoldable pub probe_target : TcpProbe → Target
probe_target probe = (probe.host, probe.port % 65536, probe.timeout_ms)

module _ {F A : Type 0} (net : Network A) where
  abbrev first_result : List ProbeResult → List (TelemetryMessage F)
  first_result [] = []
  first_result (r ∷ rs) = some (probe_result r) ∷ []

  -- What the task of a probe sends; `e` is the error of the task inside, if it does not finish.
  unfoldable pub probe_messages : TcpProbe → Option Text → List (TelemetryMessage F)
  probe_messages probe e = first_result (probe_tcp_targets net ((probe_target probe, e) ∷ []))

-- One round for each tick: the clock, and whether the session takes the message.
unfoldable pub heartbeat_loop :
    {F : Type 0} → Text → List (Option ℕ × Bool) → List (TelemetryMessage F)
heartbeat_loop node_id [] = []
heartbeat_loop node_id ((clock, taken) ∷ ticks) =
    let rest = heartbeat_loop node_id ticks in
    if taken
    then some (heartbeat (record { node_id = node_id; timestamp_ms = now_ms clock })) ∷ rest
    else []

module _ {F : Type 0} (f : Float F) where
  abbrev keep :
      TelemetryBuffer (TelemetryMessage F)
      → Collecting (NodeStats F)
      → SystemCollector × TelemetryBuffer (TelemetryMessage F)
  keep b (c, ok s) = (c, push b (some (stats s)))
  keep b (c, err e) = (c, b)

  -- One round of the collection loop.
  unfoldable pub collection_round :
      Kernel
      → ℕ
      → Option ℕ
      → Text
      → SystemCollector
      → TelemetryBuffer (TelemetryMessage F)
      → SystemCollector × TelemetryBuffer (TelemetryMessage F)
  collection_round k now clock node_id c b = keep b (collect f k now clock node_id c)
