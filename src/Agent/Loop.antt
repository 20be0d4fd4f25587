-- ===== src/Agent/Loop.antt =====
-- pulse-agent/src/main.rs: run_agent_loop, which runs one session after another until the agent is
-- shut down, and how run_session ends. What the collection task collects meanwhile, what the server
-- answers and when the shutdown comes are arguments. A shutdown while a session is under way drops
-- the session where it waits, and leaves its tasks to the end of the process.
pub mod Outcomes
pub mod Delivery
pub mod Schedule
mod Tests
use hakuraku.Prelude.{ℕ, Bool, true, false, List, [], ◌∷◌, ◌++◌, Text, Result, ok, err, map}
use hakuraku.Core.Float.{Float}
use hakuraku.Agent.Backoff.{ExponentialBackoff, reset, next_delay}
use hakuraku.Agent.Backoff
use hakuraku.Agent.Buffer
use hakuraku.Agent.Commands.{Commanded, Incoming, Ending, waits, ends_ok, ends_err, command_loop}
use hakuraku.Agent.Session.{
  Agent, Event, collected, session_starts, session_fails, session_ends, steps,
}

-- What `run_session` meets: what is collected since the session before until it is connected, and
-- what happens from then on until it ends, with the commands that it reads.
pub data Session (A : Type 0) : Type 0 where
  -- `from_shared` or `connect` fails.
  unreachable : List A → Text → Session A
  -- `stream_telemetry` fails: the channel goes with it, and all that was taken from it.
  refused : List A → List (Event A) → Text → Session A
  established : List A → List (Event A) → List Incoming → Session A

-- The variables of `run_agent_loop`, with the delays that it slept.
pub record Looping (A : Type 0) : Type 0 where
  pub backoff : ExponentialBackoff
  pub commanded : Commanded
  pub agent : Agent A
  pub slept : List ℕ

-- A session with the entropy of the delay after it, or the shutdown.
pub data Turn (A : Type 0) : Type 0 where
  runs : Session A → ℕ → Turn A
  shuts_down : Turn A

module _ {A : Type 0} where
  unfoldable pub initial : ℕ → Looping A
  initial interval_ms = record {
    backoff = Backoff.new;
    commanded = record { interval_ms = interval_ms; probes = [] };
    agent = record {
      holdback = Buffer.new 100;
      waiting = [];
      permit = false;
      sending = [];
      channel = [];
      taken = [];
    };
    slept = [];
  }

  -- How the forwarder of a session ends with it.
  abbrev pub leave : Ending → Agent A → Agent A
  leave waits a = a
  leave ends_ok a = session_ends a
  leave (ends_err e) a = session_fails a

  abbrev pub collects : List A → Agent A → Agent A
  collects msgs a = steps a (map collected msgs)

  unfoldable pub run_session : Looping A → Session A → Looping A × Ending
  run_session d (unreachable before e) = (record d { agent = collects before d.agent }, ends_err e)
  run_session d (refused before opening e) =
      let failed = session_fails (steps (session_starts (collects before d.agent)) opening) in
      (record d { agent = record failed { taken = d.agent.taken } }, ends_err e)
  run_session d (established before during incoming) =
      let met = steps (session_starts (collects before d.agent)) during in
      let (commanded, ending) = command_loop d.commanded incoming in
      (record d { commanded = commanded; agent = leave ending met }, ending)

  -- The loop's `select!` while a session waits: a shutdown drops it.
  abbrev pub stops_now : List (Turn A) → Bool
  stops_now [] = false
  stops_now (runs s buf ∷ ts) = false
  stops_now (shuts_down ∷ ts) = true

module _ {F A : Type 0} (f : Float F) where
  abbrev pub delayed : ℕ → Looping A → Looping A
  delayed buf d =
      let (delay, b) = next_delay f d.backoff buf in
      record d { backoff = b; slept = d.slept ++ delay ∷ [] }

  -- The state, and whether the loop has ended.
  unfoldable pub run_agent_loop : Looping A → List (Turn A) → Looping A × Bool
  run_agent_loop d [] = (d, false)
  run_agent_loop d (shuts_down ∷ ts) = (d, true)
  run_agent_loop d (runs s buf ∷ ts) =
      let (d', ending) = run_session d s in
      elim ending [
        | waits ↦ (d', stops_now ts)
        | ends_ok ↦ run_agent_loop (record d' { backoff = reset d'.backoff }) ts
        | ends_err e ↦ run_agent_loop (delayed buf d') ts
      ]
