-- ===== src/Agent/Loop/Outcomes.antt =====
-- What a list of sessions amounts to, read off the list alone.
use hakuraku.Prelude.{◌≡◌, refl, List, [], ◌∷◌, ◌++◌, ok, err, none, some, Text, ◌⊎◌, inl, inr}
use hakuraku.Agent.Commands.{
  Commanded, Incoming, message, cancelled, Ending, waits, ends_ok, ends_err, handle_command,
  command_loop,
}
use hakuraku.Agent.Session.Delivery.{messages_of}
use hakuraku.Agent.Loop.{
  Session, unreachable, refused, established, Looping, Turn, runs, shuts_down, run_session,
}

-- How the commands of a session end; the state has no say in it.
abbrev pub ending_of : List Incoming → Ending
ending_of [] = waits
ending_of (message (ok (some c)) ∷ is) = ending_of is
ending_of (message (ok none) ∷ is) = ends_ok
ending_of (message (err e) ∷ is) = ends_err e
ending_of (cancelled ∷ is) = ends_ok

pub command_loop-ending :
    (st : Commanded) (is : List Incoming) → (command_loop st is).1 ≡ ending_of is
unfolding command_loop
command_loop-ending st [] = refl
command_loop-ending st (message (ok (some c)) ∷ is) = command_loop-ending (handle_command st c) is
command_loop-ending st (message (ok none) ∷ is) = refl
command_loop-ending st (message (err e) ∷ is) = refl
command_loop-ending st (cancelled ∷ is) = refl

pub Ending-cases : (e : Ending) → (e ≡ waits) ⊎ (e ≡ ends_ok) ⊎ ((x : Text) × (e ≡ ends_err x))
Ending-cases waits = inl refl
Ending-cases ends_ok = inr (inl refl)
Ending-cases (ends_err e) = inr (inr (e, refl))

module _ {A : Type 0} where
  abbrev pub session_ending : Session A → Ending
  session_ending (unreachable before e) = ends_err e
  session_ending (refused before opening e) = ends_err e
  session_ending (established before during incoming) = ending_of incoming

  pub run_session-session_ending :
      (d : Looping A) (s : Session A) → (run_session d s).1 ≡ session_ending s
  unfolding run_session
  run_session-session_ending d (unreachable before e) = refl
  run_session-session_ending d (refused before opening e) = refl
  run_session-session_ending d (established before during incoming) =
      command_loop-ending d.commanded incoming

  -- The messages that are collected until a session ends.
  abbrev pub messages : Session A → List A
  messages (unreachable before e) = before
  messages (refused before opening e) = before ++ messages_of opening
  messages (established before during incoming) = before ++ messages_of during

  -- What is collected up to the shutdown or to a session that does not end.
  abbrev pub collected_in : List (Turn A) → List A
  collected_in [] = []
  collected_in (shuts_down ∷ ts) = []
  collected_in (runs s buf ∷ ts) =
      let rest = collected_in ts in
      elim (session_ending s) [
        | waits ↦ messages s
        | ends_ok ↦ messages s ++ rest
        | ends_err e ↦ messages s ++ rest
      ]
