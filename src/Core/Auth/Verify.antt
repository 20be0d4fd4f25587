-- ===== src/Core/Auth/Verify.antt =====
-- What an accepted request has proved, and where the freshness test of pulse-core/src/auth.rs gives
-- way.
use hakuraku.Prelude.{
  ℕ, ◌+◌, ◌-◌, ◌≤◌, ◌<◌, ◌≡◌, refl, ◌∙◌, false, Option, some, ℤ, pos, negsuc, pos_part, neg_part,
  IsI64, sub_i64, abs_i64, Result, ok, ◌>>=◌, ok_or, arith, inl, inr, Text, Result-cases, >>=-eq-ok,
}
use hakuraku.Core.Error.{AuthError, invalid_signature}
use hakuraku.Core.Auth.{
  Bytes, Crates, IsDocumented, Request, Reading, AuthInterceptor, Claim, verify_request,
  check_fresh, check_key, check_tag, message, contains, purge, insert_nonce, now_or_zero,
}
use hakuraku.Core.Auth.Interceptor.{
  Readings, read_claim, verify_claim, call, settle-eq-ok, check_nonce-ok,
}

-- The freshness test bounds the distance in either direction, where the subtraction does not wrap.
pub check_fresh_drift :
    (s : ℕ) (z : ℤ)
    → s < 9223372036854775808
    → IsI64 z
    → s + neg_part z < 9223372036854775808
    → check_fresh (some s) z ≡ ok tt
    → (s + neg_part z ≤ pos_part z + 60) × (pos_part z ≤ s + neg_part z + 60)
unfolding check_fresh sub_i64 abs_i64
check_fresh_drift s (pos n) hs hz fits h = ground arith
check_fresh_drift s (negsuc n) hs hz fits h = ground arith

-- The overflow: a timestamp of exactly 2^63 seconds before the server's clock is taken for fresh,
-- whatever the clock says.
pub check_fresh_overflow :
    (s : ℕ)
    → s < 9223372036854775808
    → check_fresh (some s) (negsuc (9223372036854775807 - s)) ≡ ok tt
unfolding check_fresh sub_i64 abs_i64
check_fresh_overflow s h = ground arith

module _ (c : Crates) (doc : IsDocumented c) where
  abbrev pub IsGenuine : Bytes → Reading → Claim → Type 0
  IsGenuine secret clock claim =
      (check_fresh clock claim.timestamp ≡ ok tt)
      × (c.decode claim.signature
          ≡ some (c.tag secret (message claim.node_id claim.timestamp claim.nonce)))

  pub IsGenuine-verify_request :
      (secret : Bytes) (clock : Reading) (claim : Claim)
      → IsGenuine secret clock claim
      → verify_request c secret claim.node_id claim.timestamp claim.nonce claim.signature clock
        ≡ ok tt
  unfolding verify_request
  IsGenuine-verify_request secret clock claim (fresh, decoded) = rw (
    fresh,
    doc.any_key secret,
    decoded,
    (doc.verify_iff secret (message claim.node_id claim.timestamp claim.nonce) _).1 refl,
  )

  decoded_tag :
      (secret : Bytes) (m : Text) (expected : Bytes) (o : Option Bytes)
      → ok_or invalid_signature o ≡ ok expected
      → check_tag c secret m expected ≡ ok tt
      → o ≡ some (c.tag secret m)
  unfolding check_tag
  decoded_tag secret m expected o decoded tagged = ground (arith, doc.verify_iff secret m expected)

  verify_request-IsGenuine :
      (secret : Bytes) (clock : Reading) (claim : Claim)
      → verify_request c secret claim.node_id claim.timestamp claim.nonce claim.signature clock
        ≡ ok tt
      → IsGenuine secret clock claim
  unfolding verify_request
  verify_request-IsGenuine secret clock claim h =
      let m = message claim.node_id claim.timestamp claim.nonce in
      let (_, fresh, h₁) = >>=-eq-ok (check_fresh clock claim.timestamp) _ h in
      let (_, _, h₂) = >>=-eq-ok (check_key c secret) _ h₁ in
      let (expected, decoded, tagged) =
        >>=-eq-ok (ok_or invalid_signature (c.decode claim.signature)) _ h₂ in
      (fresh, decoded_tag secret m expected (c.decode claim.signature) decoded tagged)

  verify_claim-ok :
      (secret : Bytes) (clock : Reading) (claim claim' : Claim)
      → verify_claim c secret clock claim ≡ ok claim'
      → (claim ≡ claim') × IsGenuine secret clock claim
  unfolding verify_claim
  verify_claim-ok secret clock claim claim' h = elim (Result-cases (verified claim)) [
    | inl (_, e) ↦ (ground arith, verify_request-IsGenuine secret clock claim e)
    | inr (f, e) ↦ (ground arith, absurd (ground arith))
  ]
    where
      verified : Claim → Result AuthError (Unit {0})
      verified x = verify_request c secret x.node_id x.timestamp x.nonce x.signature clock

  -- What an accepted call has shown of the request, and what it leaves behind: the claim in the
  -- headers is fresh and signed under the secret, its nonce was not among those seen since the last
  -- purge, and is among them afterwards. The request is passed on as it came.
  pub call_sound :
      (a : AuthInterceptor) (clock : Readings) (req q : Request)
      → (call c a clock req).1 ≡ ok q
      → (claim : Claim) × (read_claim c req ≡ ok claim)
        × IsGenuine a.secret clock.verifying claim
        × (contains claim.nonce (purge a.tracker (now_or_zero clock.tracking)).nonces ≡ false)
        × ((call c a clock req).0 ≡ record a {
          tracker = (insert_nonce (purge a.tracker (now_or_zero clock.tracking)) claim.nonce).0;
        })
        × (q ≡ req)
        × (a.poisoned ≡ false)
  unfolding call verify_claim
  call_sound a clock req q h =
      let (claim, verified, new, after, same) =
        settle-eq-ok a req q (read_claim c req >>= verify_claim c a.secret clock.verifying) _ h in
      let (claim', read, passed) =
        >>=-eq-ok (read_claim c req) (verify_claim c a.secret clock.verifying) verified in
      let (e, genuine) = verify_claim-ok a.secret clock.verifying claim' claim passed in
      let (fresh, tracked, sound) = check_nonce-ok a clock.tracking claim.nonce new in
      (claim, rw (← e) read, rw (← e) genuine, fresh, after ∙ tracked, same, sound)
