-- ===== src/Core/Auth/Replay.antt =====
-- Replays: what the nonce tracker of pulse-core/src/auth.rs refuses, and the two ways round it.
use hakuraku.Prelude.{
  ℕ, ◌≡◌, ◌≢◌, refl, ◌∙◌, ap, true, false, List, [], ◌∷◌, Text, text_eq_refl, ℤ, ltb_ℤ, sub_i64,
  Result, ok, err, ◌>>=◌, arith, All, Bool-cases, inl, inr, Result-cases,
}
use hakuraku.Core.Auth.{
  Bytes, Crates, IsDocumented, Status, Request, Reading, NonceTracker, AuthInterceptor, Claim,
  new_interceptor, new_tracker, check_fresh, contains, purge, insert_nonce, check_and_insert,
  now_or_zero, purge_after,
}
use hakuraku.Core.Auth.Interceptor.{
  Readings, read_claim, verify_claim, call, grpc_intercept, check_nonce, check_nonce_new,
  count_failure,
}
use hakuraku.Core.Auth.Verify.{IsGenuine, IsGenuine-verify_request, call_sound}

-- A clock reading at which the tracker does not purge.
abbrev pub IsQuiet : ℤ → Reading → Type 0
IsQuiet last_purge t = ltb_ℤ purge_after (sub_i64 (now_or_zero t) last_purge) ≡ false

-- The interceptor holds the nonce, and purged last at the given time.
pub record Holds (nonce : Text) (last_purge : ℤ) (a : AuthInterceptor) : Type 0 where
  pub held : contains nonce a.tracker.nonces ≡ true
  pub purged : a.tracker.last_purge ≡ last_purge

purge_quiet :
    (t : NonceTracker) (r : Reading) → IsQuiet t.last_purge r → purge t (now_or_zero r) ≡ t
unfolding purge
purge_quiet t r h = rw h

check_nonce-Holds :
    {nonce : Text} {p : ℤ} {a : AuthInterceptor} (t : Reading) (n : Text)
    → IsQuiet p t
    → Holds nonce p a
    → Holds nonce p (check_nonce a t n).0
unfolding check_nonce check_and_insert insert_nonce contains
check_nonce-Holds {nonce} {p} {a} t n quiet h =
    let same = purge_quiet a.tracker t (rw h.purged quiet) in
    rw same (record { held = ground arith; purged = ground arith })

insert_nonce-Holds :
    (t : NonceTracker) (nonce : Text) (a : AuthInterceptor)
    → a.tracker ≡ (insert_nonce t nonce).0
    → Holds nonce a.tracker.last_purge a
unfolding insert_nonce contains
insert_nonce-Holds t nonce a e = elim (Bool-cases (contains nonce t.nonces)) [
  | inl old ↦ record { held = ground arith; purged = refl }
  | inr new ↦ record { held = ground (arith, text_eq_refl nonce); purged = refl }
]

module _ (c : Crates) where
  call-Holds :
      {nonce : Text} {p : ℤ} {a : AuthInterceptor} (clock : Readings) (req : Request)
      → IsQuiet p clock.tracking
      → Holds nonce p a
      → Holds nonce p (call c a clock req).0
  unfolding call
  call-Holds {a = a} clock req quiet h =
      elim (Result-cases (read_claim c req >>= verify_claim c a.secret clock.verifying)) [
        | inl (claim, e) ↦ rw e (check_nonce-Holds clock.tracking claim.nonce quiet h)
        | inr (s, e) ↦ rw e h
      ]

  -- The calls that one interceptor sees, in order.
  pub calls : AuthInterceptor → List (Readings × Request) → AuthInterceptor
  calls a [] = a
  calls a ((clock, req) ∷ cs) = calls (call c a clock req).0 cs

  calls-Holds :
      {nonce : Text} {p : ℤ} (a : AuthInterceptor) (cs : List (Readings × Request))
      → All (λ e. IsQuiet p e.0.tracking) cs
      → Holds nonce p a
      → Holds nonce p (calls a cs)
  unfolding calls
  calls-Holds a [] quiet h = h
  calls-Holds a ((clock, req) ∷ cs) quiet h =
      calls-Holds (call c a clock req).0 cs quiet.1 (call-Holds clock req quiet.0 h)

count_failure-eq-ok :
    (failures : ℕ) (r : Result Status Request) (q : Request)
    → (count_failure failures r).0 ≡ ok q
    → r ≡ ok q
count_failure-eq-ok failures (ok r) q h = h
count_failure-eq-ok failures (err e) q h = cc

contains-purge_nil :
    (t : Reading) (now : ℤ) (nonce : Text)
    → contains nonce (purge (new_tracker t) now).nonces ≡ false
unfolding contains purge new_tracker
contains-purge_nil t now nonce = ground arith

module _ (c : Crates) (doc : IsDocumented c) where
  call_held :
      {nonce : Text} {p : ℤ} (a : AuthInterceptor) (clock : Readings) (req q : Request)
      (claim : Claim)
      → Holds nonce p a
      → IsQuiet p clock.tracking
      → read_claim c req ≡ ok claim
      → claim.nonce ≡ nonce
      → (call c a clock req).1 ≢ ok q
  call_held {nonce} {p} a clock req q claim h quiet read same e =
      let (claim', read', _, new, _, _, _) = call_sound c doc a clock req q e in
      let still = purge_quiet a.tracker clock.tracking (rw h.purged quiet) in ground (arith, h.held)

  -- Once a request is accepted it is refused again, whatever other calls the interceptor sees in
  -- between, until a clock reading makes the tracker purge.
  pub replay_refused :
      (a : AuthInterceptor) (clock again : Readings) (req q r : Request)
      (cs : List (Readings × Request))
      → (call c a clock req).1 ≡ ok q
      → All (λ e. IsQuiet (call c a clock req).0.tracker.last_purge e.0.tracking) cs
      → IsQuiet (call c a clock req).0.tracker.last_purge again.tracking
      → (call c (calls c (call c a clock req).0 cs) again req).1 ≢ ok r
  replay_refused a clock again req q r cs accepted quiet still =
      let (claim, read, _, _, after, _, _) = call_sound c doc a clock req q accepted in
      call_held _ again req r claim
        (calls-Holds c _ cs quiet (
          insert_nonce-Holds (purge a.tracker (now_or_zero clock.tracking)) claim.nonce _
            (ap (λ b. b.tracker) after)))
        still read refl

  -- An accepted request is accepted by any interceptor with the same secret and a sound lock whose
  -- tracker is due for a purge, or does not hold the nonce, as long as its timestamp is fresh.
  accepted_elsewhere :
      (a b : AuthInterceptor) (clock again : Readings) (req q : Request) (claim : Claim)
      → (call c a clock req).1 ≡ ok q
      → read_claim c req ≡ ok claim
      → b.secret ≡ a.secret
      → b.poisoned ≡ false
      → check_fresh again.verifying claim.timestamp ≡ ok tt
      → contains claim.nonce (purge b.tracker (now_or_zero again.tracking)).nonces ≡ false
      → (call c b again req).1 ≡ ok req
  unfolding call verify_claim
  accepted_elsewhere a b clock again req q claim accepted read secret sound fresh new =
      let (claim', read', (_, decoded), _, _, _, _) = call_sound c doc a clock req q accepted in
      let same : claim' ≡ claim = ground arith in
      let genuine : IsGenuine c doc b.secret again.verifying claim =
        (fresh, rw secret (rw same at decoded)) in
      rw (
        read,
        IsGenuine-verify_request c doc b.secret again.verifying claim genuine,
        check_nonce_new b again.tracking claim.nonce sound new,
      )

  call_keeps :
      (a : AuthInterceptor) (clock : Readings) (req q : Request)
      → (call c a clock req).1 ≡ ok q
      → ((call c a clock req).0.secret ≡ a.secret) × ((call c a clock req).0.poisoned ≡ false)
  call_keeps a clock req q accepted =
      let (_, _, _, _, after, _, sound) = call_sound c doc a clock req q accepted in
      (ap (λ b. b.secret) after, ap (λ b. b.poisoned) after ∙ sound)

  -- The purge forgets nonces whose requests are still fresh: an accepted request is accepted a
  -- second time by the same interceptor if its timestamp is still fresh and more than 120 seconds
  -- have passed since the last purge, however short the time between the two.
  pub replay_after_purge :
      (a : AuthInterceptor) (clock again : Readings) (req q : Request) (claim : Claim)
      → (call c a clock req).1 ≡ ok q
      → read_claim c req ≡ ok claim
      → check_fresh again.verifying claim.timestamp ≡ ok tt
      → ltb_ℤ purge_after
          (sub_i64 (now_or_zero again.tracking) (call c a clock req).0.tracker.last_purge)
        ≡ true
      → (call c (call c a clock req).0 again req).1 ≡ ok req
  unfolding purge contains
  replay_after_purge a clock again req q claim accepted read fresh due =
      let (secret, sound) = call_keeps a clock req q accepted in
      accepted_elsewhere a (call c a clock req).0 clock again req q claim accepted read secret sound
        fresh (rw due refl)

  -- The server's closure forgets every nonce: a request that it accepts is accepted again at any
  -- later run whose clock still finds the timestamp fresh, and no failure is counted.
  pub grpc_intercept_replay :
      (secret : Bytes) (created created' : Reading) (clock again : Readings) (req q : Request)
      (claim : Claim) (failures failures' : ℕ)
      → (grpc_intercept c secret created clock req failures).0 ≡ ok q
      → read_claim c req ≡ ok claim
      → check_fresh again.verifying claim.timestamp ≡ ok tt
      → grpc_intercept c secret created' again req failures' ≡ (ok req, failures')
  unfolding grpc_intercept new_interceptor new_tracker contains purge
  grpc_intercept_replay secret created created' clock again req q claim failures failures' accepted
        read fresh =
      rw (
        accepted_elsewhere (new_interceptor secret created) (new_interceptor secret created') clock
          again req q claim (count_failure-eq-ok failures _ q accepted) read refl refl fresh
          (contains-purge_nil created' (now_or_zero again.tracking) claim.nonce))
