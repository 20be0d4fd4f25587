-- ===== src/Core/Auth/Interceptor.antt =====
-- `AuthInterceptor::call` and `inject_auth_headers` of pulse-core/src/auth.rs, and the closure of
-- pulse-server/src/main.rs that the gRPC server runs on each request.
use hakuraku.Prelude.{
  ℕ, ◌+◌, ◌≡◌, refl, arith, false, Option, none, some, Text, codes, insert, ℤ, as_i64, print_i64,
  parse_i64, Result, ok, err, ◌>>=◌, map_err, ok_or, if◌then◌else◌,
}
use hakuraku.Core.Auth.{
  Bytes, Crates, Status, unauthenticated, internal, unauthenticated_by, Request, Reading, contains,
  purge, now_or_zero, insert_nonce, AuthInterceptor, new_interceptor, Claim, check_and_insert,
  verify_request, extract_header, sign_request,
}

abbrev pub id_key : Text
id_key = codes "x-pulse-node-id"

abbrev pub timestamp_key : Text
timestamp_key = codes "x-pulse-timestamp"

abbrev pub nonce_key : Text
nonce_key = codes "x-pulse-nonce"

abbrev pub signature_key : Text
signature_key = codes "x-pulse-signature"

-- The clock is read once by `verify_request` and once by the nonce tracker.
pub record Readings : Type 0 where
  pub verifying : Reading
  pub tracking : Reading

unfoldable pub check_nonce :
    AuthInterceptor → Reading → Text → AuthInterceptor × Result Status (Unit {0})
check_nonce a clock nonce =
    let (t, is_new) = check_and_insert a.tracker clock nonce in
    if a.poisoned
    then (a, err (internal (codes "nonce tracker lock poisoned")))
    else if is_new
    then (record a { tracker = t }, ok tt)
    else (record a { tracker = t }, err (unauthenticated (codes "replayed nonce")))

-- A failure before the nonce check leaves the interceptor as it was.
abbrev pub settle :
    {A : Type 0}
    → AuthInterceptor
    → Request
    → Result Status A
    → (A → AuthInterceptor × Result Status (Unit {0}))
    → AuthInterceptor × Result Status Request
settle a req (err e) k = (a, err e)
settle a req (ok x) k = let (b, r) = k x in (b, r >>= λ _. ok req)

abbrev pub count_failure : ℕ → Result Status Request → Result Status Request × ℕ
count_failure failures (ok r) = (ok r, failures)
count_failure failures (err e) = (err e, failures + 1)

-- What a settled success tells of its parts.
pub settle-eq-ok :
    {A : Type 0} (a : AuthInterceptor) (req q : Request) (r : Result Status A)
    (k : A → AuthInterceptor × Result Status (Unit {0}))
    → (settle a req r k).1 ≡ ok q
    → (x : A) × (r ≡ ok x) × ((k x).1 ≡ ok tt) × ((settle a req r k).0 ≡ (k x).0) × (q ≡ req)
settle-eq-ok a req q (ok x) k h = (x, refl, ground arith, refl, ground arith)
settle-eq-ok a req q (err e) k h = cc

pub check_nonce-ok :
    (a : AuthInterceptor) (clock : Reading) (nonce : Text)
    → (check_nonce a clock nonce).1 ≡ ok tt
    → (contains nonce (purge a.tracker (now_or_zero clock)).nonces ≡ false)
      × ((check_nonce a clock nonce).0
          ≡ record a { tracker = (insert_nonce (purge a.tracker (now_or_zero clock)) nonce).0 })
      × (a.poisoned ≡ false)
unfolding check_nonce check_and_insert insert_nonce
check_nonce-ok a clock nonce h = (ground arith, ground arith, ground arith)

pub check_nonce_new :
    (a : AuthInterceptor) (clock : Reading) (nonce : Text)
    → a.poisoned ≡ false
    → contains nonce (purge a.tracker (now_or_zero clock)).nonces ≡ false
    → (check_nonce a clock nonce).1 ≡ ok tt
unfolding check_nonce check_and_insert insert_nonce
check_nonce_new a clock nonce sound new = rw (sound, new)

module _ (c : Crates) where
  unfoldable pub read_claim : Request → Result Status Claim
  read_claim req = do
    node_id ← map_err unauthenticated_by (extract_header c req id_key)
    timestamp_text ← map_err unauthenticated_by (extract_header c req timestamp_key)
    nonce ← map_err unauthenticated_by (extract_header c req nonce_key)
    signature ← map_err unauthenticated_by (extract_header c req signature_key)
    timestamp ←
        ok_or (unauthenticated (codes "invalid timestamp format")) (parse_i64 timestamp_text)
    ok (record { node_id = node_id; timestamp = timestamp; nonce = nonce; signature = signature })

  unfoldable pub verify_claim : Bytes → Reading → Claim → Result Status Claim
  verify_claim secret clock claim = do
    _ ←
        map_err unauthenticated_by
          (verify_request c secret claim.node_id claim.timestamp claim.nonce claim.signature clock)
    ok claim

  unfoldable pub call :
      AuthInterceptor → Readings → Request → AuthInterceptor × Result Status Request
  call a clock req =
      settle a req (read_claim req >>= verify_claim a.secret clock.verifying)
        (λ claim. check_nonce a clock.tracking claim.nonce)

  -- The server's closure makes an interceptor of its own for every request. The count is that of
  -- AUTH_FAILURES.
  unfoldable pub grpc_intercept :
      Bytes → Reading → Readings → Request → ℕ → Result Status Request × ℕ
  grpc_intercept secret created clock req failures =
      count_failure failures (call (new_interceptor secret created) clock req).1

  unfoldable pub insert_header : Text → Text → Text → Request → Result Status Request
  insert_header key value failure req = do
    v ← ok_or (internal failure) (c.from_str value)
    ok (insert key v req)

  unfoldable pub attach : Claim → Request → Result Status Request
  unfolding insert_header
  attach claim req = do
    r ← insert_header id_key claim.node_id (codes "invalid node id") req
    s ← insert_header timestamp_key (print_i64 claim.timestamp) (codes "timestamp format error") r
    t ← insert_header nonce_key claim.nonce (codes "nonce format error") s
    insert_header signature_key claim.signature (codes "signature format error") t

  abbrev inject_signed : Text → ℤ → Text → Request → Option Text → Option (Result Status Request)
  inject_signed node_id timestamp nonce req none = none
  inject_signed node_id timestamp nonce req (some signature) = some (
      attach
        (record { node_id = node_id; timestamp = timestamp; nonce = nonce; signature = signature })
        req)

  -- `none` is the panic of `sign_request`.
  unfoldable pub inject_auth_headers :
      Bytes → Text → Request → Reading → Text → Option (Result Status Request)
  inject_auth_headers secret node_id req none nonce =
      some (err (internal (codes "system clock error")))
  inject_auth_headers secret node_id req (some s) nonce =
      inject_signed node_id (as_i64 s) nonce req (sign_request c secret node_id (as_i64 s) nonce)
