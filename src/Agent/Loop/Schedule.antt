-- ===== src/Agent/Loop/Schedule.antt =====
-- When the next session comes: at once, after a delay, or never.
use hakuraku.Prelude.{
  sym, ◌++◌, ℕ, suc, ◌+◌, ◌*◌, ◌^◌, ◌≤◌, ◌≡◌, refl, ap, ◌∙◌, inl, inr, Bool, true, false, List, [],
  ◌∷◌, min, length, length-append, All, All-append, arith,
}
use hakuraku.Core.Float.{Float, IsFloat}
use mathlib.Core.List.{append_assoc, append-nil}
use hakuraku.Agent.Backoff
use hakuraku.Agent.Backoff.{
  jittered, rand_simple, ExponentialBackoff, IsAt, after_session-IsAt_failed, reset, next_delay,
  next_delay_least, after_session, after_sessions, failures, next_delay_schedule,
}
use hakuraku.Agent.Commands.{waits, ends_ok, ends_err}
use hakuraku.Agent.Loop.{
  Session, unreachable, refused, established, Looping, Turn, runs, shuts_down, stops_now, delayed,
  run_session, run_agent_loop, initial,
}
use hakuraku.Agent.Loop.Outcomes.{Ending-cases, session_ending, run_session-session_ending}

module _ {A : Type 0} where
  -- The ends of the sessions: true is a clean one.
  abbrev pub ends_in : List (Turn A) → List (Bool × ℕ)
  ends_in [] = []
  ends_in (shuts_down ∷ ts) = []
  ends_in (runs s buf ∷ ts) =
      let rest = ends_in ts in
      elim (session_ending s) [
        | waits ↦ []
        | ends_ok ↦ (true, buf) ∷ rest
        | ends_err e ↦ (false, buf) ∷ rest
      ]

  -- Whether the shutdown comes.
  abbrev pub stops_in : List (Turn A) → Bool
  stops_in [] = false
  stops_in (shuts_down ∷ ts) = true
  stops_in (runs s buf ∷ ts) =
      let rest = stops_in ts in
      elim (session_ending s) [ waits ↦ stops_now ts | ends_ok ↦ rest | ends_err e ↦ rest ]

abbrev pub failed : List (Bool × ℕ) → ℕ
failed [] = 0
failed ((true, buf) ∷ ss) = failed ss
failed ((false, buf) ∷ ss) = suc (failed ss)

run_session-keeps :
    {A : Type 0} (d : Looping A) (s : Session A)
    → ((run_session d s).0.backoff ≡ d.backoff) × ((run_session d s).0.slept ≡ d.slept)
unfolding run_session
run_session-keeps d (unreachable before e) = (refl, refl)
run_session-keeps d (refused before opening e) = (refl, refl)
run_session-keeps d (established before during is) = (refl, refl)

module _ {F : Type 0} (f : Float F) where
  clean-IsAt : (n : ℕ) (b : ExponentialBackoff) → IsAt f n b → IsAt f 0 (reset b)
  unfolding reset
  clean-IsAt n b h = (h.1, h.1, h.2)

  failed-IsAt :
      (n : ℕ) (b : ExponentialBackoff) (buf : ℕ)
      → IsAt f n b
      → IsAt f (suc n) (next_delay f b buf).1
  unfolding after_session
  failed-IsAt n b buf h = after_session-IsAt_failed f n b buf h

  -- A delay: the base, moved by at most three tenths of it as the entropy says, 100 milliseconds at
  -- least.
  abbrev pub delay_of : ℕ → ℕ → ℕ
  delay_of base buf =
      let share = f.div (f.of_u64 buf) (f.of_u64 18446744073709551615) in
      let swing = f.sub (f.mul share (f.ratio 2 1)) (f.ratio 1 1) in
      let most = f.mul (f.of_u64 base) (f.ratio 3 10) in
      f.to_u64 (f.maximum (f.add (f.of_u64 base) (f.mul swing most)) (f.ratio 100 1))

  -- The delays after the sessions, given the failures before them.
  abbrev pub delays : ℕ → List (Bool × ℕ) → List ℕ
  delays n [] = []
  delays n ((true, buf) ∷ ss) = delays 0 ss
  delays n ((false, buf) ∷ ss) = delay_of (min (1000 * 2 ^ n) 60000) buf ∷ delays (suc n) ss

  jittered-delay_of :
      (b : ExponentialBackoff) (n buf : ℕ)
      → IsAt f n b
      → (next_delay f b buf).0 ≡ delay_of (min (1000 * 2 ^ n) 60000) buf
  unfolding next_delay jittered rand_simple
  jittered-delay_of b n buf h = ap (λ c. delay_of c buf) h.0

module _ {F A : Type 0} (f : Float F) (ok : IsFloat f) where
  -- The state of the backoff, the delays and the end of the loop.
  turns-delays :
      (d : Looping A) (ts : List (Turn A))
      → All (λ n. 100 ≤ n) d.slept
      → ((run_agent_loop f d ts).0.backoff ≡ after_sessions f d.backoff (ends_in ts))
        × All (λ n. 100 ≤ n) (run_agent_loop f d ts).0.slept
        × (length (run_agent_loop f d ts).0.slept ≡ length d.slept + failed (ends_in ts))
        × ((run_agent_loop f d ts).1 ≡ stops_in ts)
  unfolding run_agent_loop after_sessions after_session
  turns-delays d [] h = (refl, h, omega arith, refl)
  turns-delays d (shuts_down ∷ ts) h = (refl, h, omega arith, refl)
  turns-delays d (runs s buf ∷ ts) h =
      let d' = (run_session d s).0 in
      let (same, slept) = run_session-keeps d s in
      let least : All (λ n. 100 ≤ n) d'.slept = rw slept h in
      elim (Ending-cases (session_ending s)) [
        | inl e ↦
            rw (run_session-session_ending d s, e, run_agent_loop, ends_in, stops_in, same, slept)
              (refl, h, omega arith, refl)
        | inr (inl e) ↦
            let (b, l, n, stops) =
              turns-delays (record d' { backoff = reset d'.backoff }) ts least in
            rw (run_session-session_ending d s, e, run_agent_loop, ends_in, stops_in)
              (
                b ∙ ap (λ x. after_sessions f (reset x) (ends_in ts)) same,
                l,
                omega (arith, n, ap length slept),
                stops,
              )
        | inr (inr (x, e)) ↦
            let delay = (next_delay f d'.backoff buf).0 in
            let (b, l, n, stops) = turns-delays (delayed f buf d') ts (
              All-append (λ n. 100 ≤ n) d'.slept (delay ∷ []) least
                (next_delay_least f ok d'.backoff buf, tt)) in
            rw (run_session-session_ending d s, e, run_agent_loop, ends_in, stops_in)
              (
                b ∙ ap (λ x. after_sessions f (next_delay f x buf).1 (ends_in ts)) same,
                l,
                omega (arith, n, ap length slept, length-append d'.slept (delay ∷ [])),
                stops,
              )
      ]

  turns-slept :
      (n : ℕ) (d : Looping A) (ts : List (Turn A))
      → IsAt f n d.backoff
      → (run_agent_loop f d ts).0.slept ≡ d.slept ++ delays f n (ends_in ts)
  unfolding run_agent_loop
  turns-slept n d [] h = sym (append-nil d.slept)
  turns-slept n d (shuts_down ∷ ts) h = sym (append-nil d.slept)
  turns-slept n d (runs s buf ∷ ts) h =
      let d' = (run_session d s).0 in
      let (same, slept) = run_session-keeps d s in
      let h' : IsAt f n d'.backoff = rw same h in
      elim (Ending-cases (session_ending s)) [
        | inl e ↦
            rw (run_session-session_ending d s, e, run_agent_loop, ends_in, slept)
              (sym (append-nil d.slept))
        | inr (inl e) ↦
            rw (run_session-session_ending d s, e, run_agent_loop, ends_in)
              (turns-slept 0 (record d' { backoff = reset d'.backoff }) ts
                  (clean-IsAt f n d'.backoff h')
                ∙ ap (λ l. l ++ delays f 0 (ends_in ts)) slept)
        | inr (inr (x, e)) ↦
            rw (run_session-session_ending d s, e, run_agent_loop, ends_in)
              (turns-slept (suc n) (delayed f buf d') ts (failed-IsAt f n d'.backoff buf h')
                ∙ (append_assoc d'.slept ((next_delay f d'.backoff buf).0 ∷ [])
                      (delays f (suc n) (ends_in ts))
                    ∙ (ap
                          (λ l.
                            l ++ (next_delay f d'.backoff buf).0 ∷ delays f (suc n) (ends_in ts))
                          slept
                        ∙ ap (λ t. d.slept ++ t ∷ delays f (suc n) (ends_in ts))
                            (jittered-delay_of f d'.backoff n buf h'))))
      ]

  -- Over any sequence of sessions, however each of them ends: the agent sleeps once after each
  -- session that failed and never after a clean end; the base of a delay is one second doubled once
  -- for each failure since the last clean end, and a minute at most, and the delay is that base with
  -- its jitter of three tenths, 100 milliseconds at least; and the loop ends exactly if the shutdown comes, after the end of a session or
  -- while the last one waits.
  pub run_agent_loop_schedule :
      (interval_ms : ℕ) (ts : List (Turn A))
      → let (d, ended) = run_agent_loop f (initial interval_ms) ts in
        (d.slept ≡ delays f 0 (ends_in ts))
        × (length d.slept ≡ failed (ends_in ts))
        × All (λ n. 100 ≤ n) d.slept
        × (d.backoff.current ≡ min (1000 * 2 ^ failures f 0 (ends_in ts)) 60000)
        × (ended ≡ stops_in ts)
  unfolding initial Backoff.new
  run_agent_loop_schedule interval_ms ts =
      let (backoff, least, slept, ended) = turns-delays (initial interval_ms) ts tt in
      (
        turns-slept 0 (initial interval_ms) ts (refl, refl, refl),
        omega (arith, slept),
        least,
        ap (λ b. b.current) backoff ∙ (next_delay_schedule f ok (ends_in ts) 0).0,
        ended,
      )
