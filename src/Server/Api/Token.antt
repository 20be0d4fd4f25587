-- ===== src/Server/Api/Token.antt =====
-- The constant-time comparison, and who passes the extractor.
use Prim.Native.Nat.{bit_or, bit_xor}
use hakuraku.Prelude.Bits.{bit_or-eq-zero, bit_xor-eq-zero, bit_xor_self}
use hakuraku.Prelude.{
  ℕ, ◌≡◌, ◌≢◌, ◌↔◌, refl, sym, ap, ◌∙◌, Bool, true, false, [], ◌∷◌, Option, none, some, Text, codes,
  length, trim, split_on, Result, ok, err, arith, Bool-cases, ◌⊎◌, inl, inr,
}
use hakuraku.Core.Auth.{Bytes}
use hakuraku.Server.Api.{
  bytes, difference, validate_token, Parts, passes, after_prefix, token_of, query_text,
  from_request_parts, StatusCode, unauthorized,
}

difference-eq-zero :
    (n : ℕ) (as' bs : Bytes)
    → length as' ≡ length bs
    → difference n as' bs ≡ 0
    → (n ≡ 0) × (as' ≡ bs)
unfolding difference
difference-eq-zero n [] [] h e = (e, refl)
difference-eq-zero n [] (b ∷ bs) h e = absurd (omega arith)
difference-eq-zero n (a ∷ as') [] h e = absurd (omega arith)
difference-eq-zero n (a ∷ as') (b ∷ bs) h e =
    let (so_far, rest) = difference-eq-zero (bit_or n (bit_xor a b)) as' bs (omega arith) e in
    let (low, here) = bit_or-eq-zero n (bit_xor a b) so_far in
    (low, cc (bit_xor-eq-zero a b here, rest))

difference_self : (as' : Bytes) → difference 0 as' as' ≡ 0
unfolding difference
difference_self [] = refl
difference_self (a ∷ as') = rw (bit_xor_self a) (difference_self as')

-- The comparison, which reads every byte, accepts a token exactly if its bytes are those of the
-- secret.
pub validate_token_iff :
    (token expected : Text)
    → (validate_token token expected ≡ true) ↔ (bytes token ≡ bytes expected)
unfolding validate_token
validate_token_iff token expected = (
  λ h. (difference-eq-zero 0 (bytes token) (bytes expected) (ground arith) (ground arith)).1,
  λ e. rw (e, difference_self (bytes expected)) (ground arith),
)

-- A text that a request offers as its token.
abbrev pub IsOffered : Text → Option Text → Type 0
IsOffered secret none = ⊥
IsOffered secret (some token) = bytes (trim token) ≡ bytes secret

passes_iff : (secret : Text) (o : Option Text) → (passes secret o ≡ true) ↔ IsOffered secret o
passes_iff secret none = (λ h. cc, λ h. absurd h)
passes_iff secret (some token) = validate_token_iff (trim token) secret

true≢false : true ≢ false
true≢false e = cc

refused :
    {r : Result StatusCode (Unit {0}) × Bool} → r ≡ (err unauthorized, true) → r ≢ (ok tt, false)
refused e h = true≢false (ap (λ r. r.1) (sym e ∙ h))

-- With the secret set, a request passes exactly if its bearer token, its `x-pulse-auth-token` header
-- or the first `token=` of its query, trimmed, has the bytes of the secret; otherwise it is refused
-- as unauthorized, and only then is a failure counted.
pub from_request_parts_iff :
    (secret : Text) (parts : Parts)
    → ((from_request_parts (some secret) parts ≡ (ok tt, false)) ↔ (
        IsOffered secret (after_prefix (codes "Bearer ") parts.authorization)
        ⊎ (IsOffered secret parts.auth_token
            ⊎ IsOffered secret (token_of (split_on b'&' (query_text parts.query))))))
      × ((from_request_parts (some secret) parts ≡ (ok tt, false))
          ⊎ (from_request_parts (some secret) parts ≡ (err unauthorized, true)))
unfolding from_request_parts
from_request_parts_iff secret parts =
    let bearer = after_prefix (codes "Bearer ") parts.authorization in
    let query = token_of (split_on b'&' (query_text parts.query)) in
    let by_bearer = passes_iff secret bearer in
    let by_header = passes_iff secret parts.auth_token in
    let by_query = passes_iff secret query in
    elim (Bool-cases (passes secret bearer)) [
      | inl y ↦ ((λ h. inl (by_bearer.0 y), λ h. rw y refl), inl (rw y refl))
      | inr n ↦ elim (Bool-cases (passes secret parts.auth_token)) [
        | inl y ↦ ((λ h. inr (inl (by_header.0 y)), λ h. rw (n, y) refl), inl (rw (n, y) refl))
        | inr n' ↦ elim (Bool-cases (passes secret query)) [
          | inl y ↦
              ((λ h. inr (inr (by_query.0 y)), λ h. rw (n, n', y) refl), inl (rw (n, n', y) refl))
          | inr n'' ↦ (
            (
              λ h. absurd (refused (rw (n, n', n'') refl) h),
              λ h. absurd (elim h [
                | inl o ↦ true≢false (sym (by_bearer.1 o) ∙ n)
                | inr (inl o) ↦ true≢false (sym (by_header.1 o) ∙ n')
                | inr (inr o) ↦ true≢false (sym (by_query.1 o) ∙ n'')
              ]),
            ),
            inr (rw (n, n', n'') refl),
          )
        ]
      ]
    ]
