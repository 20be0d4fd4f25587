-- ===== src/Agent/Loop/Delivery.antt =====
-- What the streams of an agent take of all that it collects.
use hakuraku.Prelude.{
  subst, ℕ, ◌≤◌, ◌≡◌, refl, ap, inl, inr, List, [], ◌∷◌, ◌++◌, length, map, arith,
}
use mathlib.Core.List.{append_assoc, append-nil, Sublist}
use mathlib.Core.List.Sublist
use hakuraku.Agent.Backoff.{reset}
use hakuraku.Agent.Buffer
use hakuraku.Core.Float.{Float}
use hakuraku.Agent.Commands.{Ending, waits, ends_ok, ends_err, command_loop}
use hakuraku.Agent.Session.{Event, Agent, collected, steps, session_starts, session_fails}
use hakuraku.Agent.Session.Order.{in_order}
use hakuraku.Agent.Session.Delivery.{
  IsOrdered, messages_of, steps-IsOrdered, session_starts-IsOrdered, session_fails-IsOrdered,
  session_ends-IsOrdered,
}
use hakuraku.Agent.Session.Growing.{steps-taken, session_starts-taken}
use hakuraku.Agent.Loop.{
  Session, unreachable, refused, established, Looping, Turn, runs, shuts_down, leave, collects,
  run_session, run_agent_loop, delayed, initial,
}
use hakuraku.Agent.Loop.Outcomes.{
  Ending-cases, session_ending, run_session-session_ending, messages, collected_in,
}

module _ {A : Type 0} where
  messages_of-collected : (msgs : List A) → messages_of (map collected msgs) ≡ msgs
  messages_of-collected [] = refl
  messages_of-collected (m ∷ msgs) = ap (λ ms. m ∷ ms) (messages_of-collected msgs)

  collects-IsOrdered :
      (a : Agent A) (all msgs : List A)
      → IsOrdered all a
      → IsOrdered (all ++ msgs) (collects msgs a)
  collects-IsOrdered a all msgs h =
      subst (λ ms. IsOrdered (all ++ ms) (collects msgs a)) (messages_of-collected msgs)
        (steps-IsOrdered a all (map collected msgs) h)

  leave-IsOrdered :
      (e : Ending) (a : Agent A) (all : List A) → IsOrdered all a → IsOrdered all (leave e a)
  leave-IsOrdered waits a all h = h
  leave-IsOrdered ends_ok a all h = session_ends-IsOrdered a all h
  leave-IsOrdered (ends_err e) a all h = session_fails-IsOrdered a all h

  -- A stream that was refused took nothing.
  forgets :
      (taken all : List A) (a : Agent A)
      → Sublist taken a.taken
      → IsOrdered all a
      → IsOrdered all (record (session_fails a) { taken = taken })
  unfolding session_fails
  forgets taken all a fewer h = record {
    order =
        Sublist.trans (Sublist.append fewer (Sublist.refl a.holdback.inner))
          (session_fails-IsOrdered a all h).order;
    bounded = omega arith;
  }

  taken-steps :
      (a : Agent A) (before : List A) (opening : List (Event A))
      → Sublist a.taken (steps (session_starts (collects before a)) opening).taken
  taken-steps a before opening =
      Sublist.trans
        (rw (session_starts-taken (collects before a)) (steps-taken a (map collected before)))
        (steps-taken (session_starts (collects before a)) opening)

  met-IsOrdered :
      (a : Agent A) (all before : List A) (es : List (Event A))
      → IsOrdered all a
      → IsOrdered
          (all ++ (before ++ messages_of es))
          (steps (session_starts (collects before a)) es)
  met-IsOrdered a all before es h = rw (← append_assoc all before (messages_of es)) (
      steps-IsOrdered (session_starts (collects before a)) (all ++ before) es (
        session_starts-IsOrdered (collects before a) (all ++ before)
          (collects-IsOrdered a all before h)))

  run_session-IsOrdered :
      (d : Looping A) (s : Session A) (all : List A)
      → IsOrdered all d.agent
      → IsOrdered (all ++ messages s) (run_session d s).0.agent
  unfolding run_session
  run_session-IsOrdered d (unreachable before e) all h = collects-IsOrdered d.agent all before h
  run_session-IsOrdered d (refused before opening e) all h =
      forgets d.agent.taken (all ++ (before ++ messages_of opening))
        (steps (session_starts (collects before d.agent)) opening)
        (taken-steps d.agent before opening) (met-IsOrdered d.agent all before opening h)
  run_session-IsOrdered d (established before during is) all h =
      leave-IsOrdered (command_loop d.commanded is).1
        (steps (session_starts (collects before d.agent)) during)
        (all ++ (before ++ messages_of during)) (met-IsOrdered d.agent all before during h)

module _ {F A : Type 0} (f : Float F) where
  turns-IsOrdered :
      (d : Looping A) (ts : List (Turn A)) (all : List A)
      → IsOrdered all d.agent
      → IsOrdered (all ++ collected_in ts) (run_agent_loop f d ts).0.agent
  unfolding run_agent_loop
  turns-IsOrdered d [] all h = rw append-nil h
  turns-IsOrdered d (shuts_down ∷ ts) all h = rw append-nil h
  turns-IsOrdered d (runs s buf ∷ ts) all h =
      let d' = (run_session d s).0 in
      let kept = run_session-IsOrdered d s all h in
      elim (Ending-cases (session_ending s)) [
        | inl e ↦ rw (run_session-session_ending d s, e, run_agent_loop, collected_in) kept
        | inr (inl e) ↦
            rw
              (
                run_session-session_ending d s,
                e,
                run_agent_loop,
                collected_in,
                ← append_assoc all (messages s) (collected_in ts),
              )
              (turns-IsOrdered (record d' { backoff = reset d'.backoff }) ts (all ++ messages s)
                kept)
        | inr (inr (x, e)) ↦
            rw
              (
                run_session-session_ending d s,
                e,
                run_agent_loop,
                collected_in,
                ← append_assoc all (messages s) (collected_in ts),
              )
              (turns-IsOrdered (delayed f buf d') ts (all ++ messages s) kept)
      ]

  -- Over any sequence of sessions, however each of them ends: the established streams take messages
  -- in the order in which they were collected, none twice; after them come, in that order too, those
  -- in the channel, those that the forwarder could not send yet and those in the buffer; and at most
  -- 64 messages are in the channel.
  pub run_agent_loop_delivers :
      (interval_ms : ℕ) (ts : List (Turn A))
      → let a = (run_agent_loop f (initial interval_ms) ts).0.agent in
        Sublist (in_order a) (collected_in ts) × (length a.channel ≤ 64)
  unfolding initial Buffer.new
  run_agent_loop_delivers interval_ms ts =
      let h =
        turns-IsOrdered (initial interval_ms) ts []
          (record { order = Sublist.refl []; bounded = omega arith }) in
      (h.order, h.bounded)
