-- ===== src/Core/Auth.antt =====
-- pulse-core/src/auth.rs: signing, verification, the nonce tracker and the two interceptors.
-- The `hmac`, `sha2`, `hex` and `tonic` crates are the parameter `Crates`; clock readings, entropy
-- and the poisoning of the mutex are arguments. Seconds and timestamps are `i64` with wrap-around.
pub mod Interceptor
pub mod RoundTrip
pub mod Replay
pub mod Verify
mod Tests
use hakuraku.Prelude.{
  ℕ, ◌+◌, ◌-◌, ◌≤◌, ◌<◌, ◌≡◌, ◌↔◌, Bool, true, false, ◌||◌, List, [], ◌∷◌, ◌++◌, Option, none, some,
  Text, codes, text_eq, lookup, insert, ℤ, pos, ltb_ℤ, as_i64, sub_i64, abs_i64, print_i64,
  parse_i64, Result, ok, err, ◌>>=◌, map_err, ok_or, if◌then◌else◌, take, All, IsVisible,
}
use hakuraku.Core.Error.{
  AuthError, missing_header, invalid_signature, expired_timestamp, invalid_key, clock_error,
  display,
}

abbrev pub Bytes : Type 0
Bytes = List ℕ

-- The crates that the module calls. A tag is what `finalize` yields.
pub record Crates : Type 0 where
  pub key_ok : Bytes → Bool
  pub tag : Bytes → Text → Bytes
  pub verify_slice : Bytes → Text → Bytes → Bool
  pub digest : Text → Bytes
  pub encode : Bytes → Text
  pub decode : Text → Option Bytes
  pub from_str : Text → Option Bytes
  pub to_str : Bytes → Option Text

-- What the crates document.
pub record IsDocumented (c : Crates) : Type 0 where
  pub any_key : (k : Bytes) → c.key_ok k ≡ true
  pub verify_iff :
      (k : Bytes) (m : Text) (t : Bytes) → (c.verify_slice k m t ≡ true) ↔ (c.tag k m ≡ t)
  pub decode-encode : (b : Bytes) → c.decode (c.encode b) ≡ some b
  pub encode-IsVisible : (b : Bytes) → All IsVisible (c.encode b)
  pub to_str-from_str :
      (s : Text) → All IsVisible s → (v : Bytes) × (c.from_str s ≡ some v) × (c.to_str v ≡ some s)

pub data Status : Type 0 where
  unauthenticated : Text → Status
  internal : Text → Status

abbrev pub unauthenticated_by : AuthError → Status
unauthenticated_by e = unauthenticated (display e)

-- The metadata of a `tonic::Request<()>`.
abbrev pub Request : Type 0
Request = List (Text × Bytes)

-- A clock reading in whole seconds; `none` is a clock that stands before the epoch.
abbrev pub Reading : Type 0
Reading = Option ℕ

abbrev pub max_clock_skew : ℤ
max_clock_skew = pos 60

abbrev pub purge_after : ℤ
purge_after = pos 120

-- `unwrap_or_default().as_secs() as i64`.
unfoldable pub now_or_zero : Reading → ℤ
now_or_zero none = pos 0
now_or_zero (some s) = as_i64 s

unfoldable pub message : Text → ℤ → Text → Text
message node_id timestamp nonce = node_id ++ (b':' ∷ print_i64 timestamp ++ (b':' ∷ nonce))

pub record NonceTracker : Type 0 where
  pub nonces : List Text
  pub last_purge : ℤ

unfoldable pub new_tracker : Reading → NonceTracker
unfolding now_or_zero
new_tracker t = record { nonces = []; last_purge = now_or_zero t }

unfoldable pub contains : Text → List Text → Bool
contains n [] = false
contains n (m ∷ ms) = text_eq m n || contains n ms

unfoldable pub purge : NonceTracker → ℤ → NonceTracker
purge t now =
    if ltb_ℤ purge_after (sub_i64 now t.last_purge)
    then record t { nonces = []; last_purge = now }
    else t

-- `HashSet::insert` is true for a new nonce only.
unfoldable pub insert_nonce : NonceTracker → Text → NonceTracker × Bool
insert_nonce t nonce =
    if contains nonce t.nonces then (t, false) else (record t { nonces = nonce ∷ t.nonces }, true)

unfoldable pub check_and_insert : NonceTracker → Reading → Text → NonceTracker × Bool
check_and_insert t clock nonce = insert_nonce (purge t (now_or_zero clock)) nonce

pub record AuthInterceptor : Type 0 where
  pub secret : Bytes
  pub tracker : NonceTracker
  pub poisoned : Bool

unfoldable pub new_interceptor : Bytes → Reading → AuthInterceptor
new_interceptor secret t = record { secret = secret; tracker = new_tracker t; poisoned = false }

-- The freshness test of `verify_request`.
unfoldable pub check_fresh : Reading → ℤ → Result AuthError (Unit {0})
check_fresh none timestamp = err clock_error
check_fresh (some s) timestamp =
    let drift = abs_i64 (sub_i64 (as_i64 s) timestamp) in
    if ltb_ℤ max_clock_skew drift then err (expired_timestamp drift max_clock_skew) else ok tt

-- What the four headers carry.
pub record Claim : Type 0 where
  pub node_id : Text
  pub timestamp : ℤ
  pub nonce : Text
  pub signature : Text

module _ (c : Crates) where
  -- The entropy, or the digest of the seed where the system gives none.
  unfoldable pub generate_nonce : Option Bytes → Text → Text
  generate_nonce (some entropy) seed = c.encode entropy
  generate_nonce none seed = c.encode (take 16 (c.digest seed))

  -- `none` is the panic of `expect`.
  unfoldable pub sign_request : Bytes → Text → ℤ → Text → Option Text
  sign_request secret node_id timestamp nonce =
      if c.key_ok secret
      then some (c.encode (c.tag secret (message node_id timestamp nonce)))
      else none

  unfoldable pub check_key : Bytes → Result AuthError (Unit {0})
  check_key secret = if c.key_ok secret then ok tt else err invalid_key

  unfoldable pub check_tag : Bytes → Text → Bytes → Result AuthError (Unit {0})
  check_tag secret m expected =
      if c.verify_slice secret m expected then ok tt else err invalid_signature

  unfoldable pub verify_request :
      Bytes → Text → ℤ → Text → Text → Reading → Result AuthError (Unit {0})
  unfolding check_key check_tag
  verify_request secret node_id timestamp nonce signature clock = do
    _ ← check_fresh clock timestamp
    _ ← check_key secret
    expected ← ok_or invalid_signature (c.decode signature)
    check_tag secret (message node_id timestamp nonce) expected

  unfoldable pub extract_header : Request → Text → Result AuthError Text
  extract_header req key = do
    value ← ok_or (missing_header key) (lookup key req)
    ok_or (missing_header key) (c.to_str value)
