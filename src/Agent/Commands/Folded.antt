-- ===== src/Agent/Commands/Folded.antt =====
-- What a session makes of all its commands.
use hakuraku.Prelude.{ℕ, ◌≡◌, sym, ◌∙◌, ap, List, [], ◌∷◌, ◌++◌, Option, none, some, ok, err}
use mathlib.Core.List.{append_assoc, append-nil}
use hakuraku.Core.Proto.{
  TcpProbe, heartbeat_ack, add_ping_target, add_tcp_probe, config_update, ServerCommand,
}
use hakuraku.Agent.Commands.{
  Commanded, handle_command, Incoming, message, cancelled, Ending, ends_ok, ends_err, command_loop,
}

-- The interval of the last update, or the one before all.
abbrev pub last_interval : ℕ → List ServerCommand → ℕ
last_interval ms [] = ms
last_interval ms (some (config_update new) ∷ cs) = last_interval new cs
last_interval ms (none ∷ cs) = last_interval ms cs
last_interval ms (some (heartbeat_ack t) ∷ cs) = last_interval ms cs
last_interval ms (some (add_tcp_probe p) ∷ cs) = last_interval ms cs
last_interval ms (some (add_ping_target host t n) ∷ cs) = last_interval ms cs

abbrev pub probes_of : List ServerCommand → List TcpProbe
probes_of [] = []
probes_of (some (add_tcp_probe p) ∷ cs) = p ∷ probes_of cs
probes_of (none ∷ cs) = probes_of cs
probes_of (some (heartbeat_ack t) ∷ cs) = probes_of cs
probes_of (some (config_update ms) ∷ cs) = probes_of cs
probes_of (some (add_ping_target host t n) ∷ cs) = probes_of cs

abbrev pub commands : List ServerCommand → List Incoming
commands [] = []
commands (c ∷ cs) = message (ok (some c)) ∷ commands cs

-- How an end of the stream ends the session; a command does not.
abbrev pub ends_with : Incoming → Option Ending
ends_with (message (ok (some c))) = none
ends_with (message (ok none)) = some ends_ok
ends_with (message (err e)) = some (ends_err e)
ends_with cancelled = some ends_ok

stops :
    (st : Commanded) (stop : Incoming) (is : List Incoming) (e : Ending)
    → ends_with stop ≡ some e
    → command_loop st (stop ∷ is) ≡ (st, e)
unfolding command_loop
stops st (message (ok (some c))) is e h = cc
stops st (message (ok none)) is e h = cc
stops st (message (err x)) is e h = cc
stops st cancelled is e h = cc

-- When the server's stream ends, breaks or is cancelled after some commands, the session ends
-- without an error unless it broke; the interval is then the one of the last update, if there was
-- one, and there is one more task for each probe that was asked for, in their order; what comes
-- after the end is not looked at, and no other command changes anything.
pub command_loop_lem :
    (st : Commanded) (cs : List ServerCommand) (stop : Incoming) (is : List Incoming) (e : Ending)
    → ends_with stop ≡ some e
    → command_loop st (commands cs ++ stop ∷ is) ≡ (
      record { interval_ms = last_interval st.interval_ms cs; probes = st.probes ++ probes_of cs },
      e,
    )
unfolding command_loop handle_command
command_loop_lem st [] stop is e h =
    stops st stop is e h
    ∙ ap (λ ps. (record { interval_ms = st.interval_ms; probes = ps }, e))
        (sym (append-nil st.probes))
command_loop_lem st (none ∷ cs) stop is e h = command_loop_lem st cs stop is e h
command_loop_lem st (some (heartbeat_ack t) ∷ cs) stop is e h = command_loop_lem st cs stop is e h
command_loop_lem st (some (add_ping_target host t n) ∷ cs) stop is e h =
    command_loop_lem st cs stop is e h
command_loop_lem st (some (config_update ms) ∷ cs) stop is e h =
    command_loop_lem (record st { interval_ms = ms }) cs stop is e h
command_loop_lem st (some (add_tcp_probe p) ∷ cs) stop is e h =
    command_loop_lem (record st { probes = st.probes ++ p ∷ [] }) cs stop is e h
    ∙ ap (λ ps. (record { interval_ms = last_interval st.interval_ms cs; probes = ps }, e))
        (append_assoc st.probes (p ∷ []) (probes_of cs))
