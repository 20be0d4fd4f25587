-- ===== src/Agent/Commands/Tests.antt =====
-- An update, a probe and the end of a stream.
use hakuraku.Prelude.{ℕ, ◌≡◌, refl, List, [], ◌∷◌, ◌++◌, some, none, true, false, codes, pos, err}
use hakuraku.Core.Proto.{
  TcpProbe, heartbeat, heartbeat_ack, add_tcp_probe, config_update, ServerCommand,
}
use hakuraku.Server.Grpc.{now_ms}
use hakuraku.Agent.Commands.{
  Commanded, message, cancelled, ends_err, command_loop, probe_target, heartbeat_loop,
}
use hakuraku.Agent.Commands.Folded.{commands, command_loop_lem}

abbrev idle : Commanded
idle = record { interval_ms = 1000; probes = [] }

abbrev far_port : TcpProbe
far_port = record { host = codes "h"; port = 65616; timeout_ms = 5 }

abbrev sent : List ServerCommand
sent =
    some (heartbeat_ack (pos 3))
    ∷ some (config_update 500)
    ∷ none
    ∷ some (add_tcp_probe far_port)
    ∷ some (config_update 250)
    ∷ []

command_loop_lem_example :
    command_loop idle (commands sent ++ message (err (codes "reset")) ∷ cancelled ∷ [])
    ≡ (record { interval_ms = 250; probes = far_port ∷ [] }, ends_err (codes "reset"))
command_loop_lem_example =
    command_loop_lem idle sent (message (err (codes "reset"))) (cancelled ∷ [])
      (ends_err (codes "reset")) refl

-- A port that does not fit is another port.
other_port : probe_target far_port ≡ (codes "h", 80, 5)
unfolding probe_target
other_port = refl

two_beats :
    heartbeat_loop {F = ℕ} (codes "a") ((some 1, true) ∷ (some 2, false) ∷ (some 3, true) ∷ [])
    ≡ some (heartbeat (record { node_id = codes "a"; timestamp_ms = pos 1 })) ∷ []
unfolding heartbeat_loop now_ms
two_beats = refl
