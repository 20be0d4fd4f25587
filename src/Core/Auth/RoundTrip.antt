-- ===== src/Core/Auth/RoundTrip.antt =====
-- What `inject_auth_headers` signs, `AuthInterceptor::call` accepts.
use hakuraku.Prelude.{
  ℕ, ◌+◌, ◌≤◌, ◌<◌, ◌≡◌, refl, false, Option, none, some, Text, text_eq, ℤ, pos, IsI64, as_i64-pos,
  sub_i64, sub_i64-pos, abs_i64, lookup-insert, print_i64, lookup, parse_i64-print_i64,
  print_i64-IsVisible, ok, arith, All, IsVisible, insert,
}
use hakuraku.Core.Auth.{
  Bytes, Crates, IsDocumented, Request, Reading, AuthInterceptor, NonceTracker, Claim,
  generate_nonce, verify_request, extract_header, sign_request, check_fresh, message, contains,
  purge, now_or_zero,
}
use hakuraku.Core.Auth.Interceptor.{
  id_key, timestamp_key, nonce_key, signature_key, read_claim, verify_claim, call, attach,
  inject_auth_headers, check_nonce_new,
}

-- A reading less than a skew away from the signer's is fresh.
pub check_fresh-ok :
    (s t : ℕ)
    → s < 9223372036854775808
    → t < 9223372036854775808
    → s ≤ t + 60
    → t ≤ s + 60
    → check_fresh (some t) (pos s) ≡ ok tt
unfolding check_fresh abs_i64 sub_i64
check_fresh-ok s t hs ht h k = ground (arith, sub_i64-pos t s, as_i64-pos t)

module _ (c : Crates) (doc : IsDocumented c) where
  extract_header-found :
      (req : Request) (key value : Text) (v : Bytes)
      → lookup key req ≡ some v
      → c.to_str v ≡ some value
      → extract_header c req key ≡ ok value
  unfolding extract_header
  extract_header-found req key value v found read = rw (found, read)

  read_claim-attach :
      (claim : Claim) (req : Request)
      → All IsVisible claim.node_id
      → IsI64 claim.timestamp
      → All IsVisible claim.nonce
      → All IsVisible claim.signature
      → (r : Request) × (attach c claim req ≡ ok r) × (read_claim c r ≡ ok claim)
  unfolding attach read_claim extract_header text_eq
  read_claim-attach claim req hi ht hn hs =
      let (i, i_in, i_out) = doc.to_str-from_str claim.node_id hi in
      let (n, n_in, n_out) = doc.to_str-from_str claim.nonce hn in
      let (s, s_in, s_out) = doc.to_str-from_str claim.signature hs in
      let (t, t_in, t_out) =
        doc.to_str-from_str (print_i64 claim.timestamp) (print_i64-IsVisible claim.timestamp) in
      (
        insert signature_key s (insert nonce_key n (insert timestamp_key t (insert id_key i req))),
        rw (i_in, t_in, n_in, s_in),
        simp (lookup-insert, i_out, t_out, n_out, s_out, parse_i64-print_i64 claim.timestamp ht),
      )

  generate_nonce-IsVisible :
      (entropy : Option Bytes) (seed : Text) → All IsVisible (generate_nonce c entropy seed)
  unfolding generate_nonce
  generate_nonce-IsVisible none seed = doc.encode-IsVisible _
  generate_nonce-IsVisible (some entropy) seed = doc.encode-IsVisible entropy

  sign_request-ok :
      (secret : Bytes) (node_id : Text) (timestamp : ℤ) (nonce : Text)
      → sign_request c secret node_id timestamp nonce
        ≡ some (c.encode (c.tag secret (message node_id timestamp nonce)))
  unfolding sign_request
  sign_request-ok secret node_id timestamp nonce = rw (doc.any_key secret)

  -- The tag of the message under the same secret passes once the timestamp is fresh.
  verify_request-sign :
      (secret : Bytes) (node_id : Text) (timestamp : ℤ) (nonce : Text) (clock : Reading)
      → check_fresh clock timestamp ≡ ok tt
      → verify_request c secret node_id timestamp nonce
          (c.encode (c.tag secret (message node_id timestamp nonce)))
          clock
        ≡ ok tt
  unfolding verify_request
  verify_request-sign secret node_id timestamp nonce clock fresh = rw (
    fresh,
    doc.any_key secret,
    doc.decode-encode (c.tag secret (message node_id timestamp nonce)),
    (doc.verify_iff secret (message node_id timestamp nonce) _).1 refl,
  )

contains-purge :
    (t : NonceTracker) (now : ℤ) (nonce : Text)
    → contains nonce t.nonces ≡ false
    → contains nonce (purge t now).nonces ≡ false
unfolding purge contains
contains-purge t now nonce new = ground arith

module _ (c : Crates) (doc : IsDocumented c) where
  -- A request that the agent signs is accepted, whatever headers it had before, when the server's
  -- clock is at most 60 seconds away from the agent's, the node id is visible ASCII, the nonce is new
  -- to the interceptor and its lock is sound.
  pub call-inject_auth_headers :
      (a : AuthInterceptor) (node_id : Text) (req : Request) (entropy : Option Bytes) (seed : Text)
      (s t : ℕ) (tracking : Reading)
      → All IsVisible node_id
      → s < 9223372036854775808
      → t < 9223372036854775808
      → s ≤ t + 60
      → t ≤ s + 60
      → a.poisoned ≡ false
      → contains (generate_nonce c entropy seed) a.tracker.nonces ≡ false
      → (r : Request) × (inject_auth_headers c a.secret node_id req
            (some s)
            (generate_nonce c entropy seed)
          ≡ some (ok r))
        × ((call c a (record { verifying = some t; tracking = tracking }) r).1 ≡ ok r)
  unfolding inject_auth_headers call verify_claim
  call-inject_auth_headers a node_id req entropy seed s t tracking hi hs ht behind ahead sound new =
      let nonce = generate_nonce c entropy seed in
      let claim : Claim = record {
        node_id = node_id;
        timestamp = pos s;
        nonce = nonce;
        signature = c.encode (c.tag a.secret (message node_id (pos s) nonce));
      } in
      let (r, sent, received) =
        read_claim-attach c doc claim req hi (hs, omega arith)
          (generate_nonce-IsVisible c doc entropy seed) (doc.encode-IsVisible _) in
      (
        r,
        rw (as_i64-pos s hs, sign_request-ok c doc a.secret node_id (pos s) nonce, sent),
        rw (
          received,
          verify_request-sign c doc a.secret node_id (pos s) nonce (some t)
              (check_fresh-ok s t hs ht behind ahead),
          check_nonce_new a tracking nonce sound
              (contains-purge a.tracker (now_or_zero tracking) nonce new),
        ),
      )
