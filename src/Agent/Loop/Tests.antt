-- ===== src/Agent/Loop/Tests.antt =====
-- An agent that cannot connect, loses a session, runs one to its end, and is shut down.
use hakuraku.Prelude.{
  true, false, ℕ, ◌*◌, ◌^◌, ◌≤◌, ◌≡◌, refl, List, [], ◌∷◌, All, min, length, ok, none, codes,
}
use mathlib.Core.List.{Sublist}
use hakuraku.Core.Toys.{whole, whole-IsFloat}
use hakuraku.Agent.Backoff.{failures, next_delay}
use hakuraku.Agent.Buffer.{push, drain}
use hakuraku.Agent.Buffer
use hakuraku.Agent.Session.{
  collected, another_sent, streamed, fill, send, drain_and_send, again, session_starts,
  session_fails, session_ends, step, steps, forward_round,
}
use hakuraku.Agent.Session.Order.{in_order}
use hakuraku.Agent.Commands.{message, command_loop}
use hakuraku.Agent.Loop.{
  run_session, Turn, runs, shuts_down, unreachable, refused, established, run_agent_loop, initial,
}
use hakuraku.Agent.Loop.Outcomes.{collected_in}
use hakuraku.Agent.Loop.Delivery.{run_agent_loop_delivers}
use hakuraku.Agent.Loop.Schedule.{delays, ends_in, stops_in, failed, run_agent_loop_schedule}

-- The first three messages go with the stream that was refused, and the fourth to the forwarder that
-- was left behind; the stream does not take the last two in time.
abbrev turns : List (Turn ℕ)
turns =
    runs (unreachable (1 ∷ []) (codes "refused")) 7
    ∷ runs (refused (2 ∷ []) (streamed false ∷ collected 3 ∷ []) (codes "unauthenticated")) 9
    ∷ runs
        (established (4 ∷ 5 ∷ [])
          (collected 6
            ∷ another_sent
            ∷ streamed false
            ∷ streamed true
            ∷ collected 7
            ∷ streamed false
            ∷ streamed false
            ∷ collected 8
            ∷ [])
          (message (ok none) ∷ []))
        0
    ∷ shuts_down
    ∷ []

taken : (run_agent_loop whole (initial 5000) turns).0.agent.taken ≡ 5 ∷ 6 ∷ []
unfolding run_agent_loop run_session initial step steps forward_round drain_and_send send fill again
    session_starts session_fails session_ends push drain Buffer.new next_delay command_loop
taken = refl

run_agent_loop_delivers_example :
    let a = (run_agent_loop whole (initial 5000) turns).0.agent in
    Sublist (in_order a) (collected_in turns) × (length a.channel ≤ 64)
run_agent_loop_delivers_example = run_agent_loop_delivers whole 5000 turns

run_agent_loop_schedule_example :
    let (d, ended) = run_agent_loop whole (initial 5000) turns in
    (d.slept ≡ delays whole 0 (ends_in turns))
    × (length d.slept ≡ failed (ends_in turns))
    × All (λ n. 100 ≤ n) d.slept
    × (d.backoff.current ≡ min (1000 * 2 ^ failures whole 0 (ends_in turns)) 60000)
    × (ended ≡ stops_in turns)
run_agent_loop_schedule_example = run_agent_loop_schedule whole whole-IsFloat 5000 turns
