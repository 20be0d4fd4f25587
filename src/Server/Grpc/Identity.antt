-- ===== src/Server/Grpc/Identity.antt =====
-- The name that a stream trusts, and the check of the interceptor in front of it.
use hakuraku.Prelude.{
  ◌≡◌, ap, ◌∙◌, Option-cases, inl, inr, Text, lookup, Result, ok, err, >>=-eq-ok, map_err, ok_or,
  arith, codes, parse_i64,
}
use hakuraku.Core.Auth.{
  unauthenticated_by, Crates, IsDocumented, unauthenticated, Request, Claim, AuthInterceptor,
  extract_header,
}
use hakuraku.Core.Auth.Interceptor.{
  id_key, timestamp_key, nonce_key, signature_key, Readings, read_claim, call,
}
use hakuraku.Core.Auth.Verify.{IsGenuine, call_sound}
use hakuraku.Server.Grpc.{authenticated_node_id}

map_err-eq-ok :
    {E F A : Type 0} (f : E → F) (r : Result E A) (x : A) → map_err f r ≡ ok x → r ≡ ok x
map_err-eq-ok f (ok a) x h = cc
map_err-eq-ok f (err e) x h = cc

module _ (c : Crates) (doc : IsDocumented c) where
  authenticated_node_id-extract_header :
      (req : Request) (id : Text)
      → extract_header c req id_key ≡ ok id
      → authenticated_node_id c req ≡ ok id
  unfolding extract_header authenticated_node_id
  authenticated_node_id-extract_header req id h = elim (Option-cases (lookup id_key req)) [
    | inl e ↦ absurd (ground arith)
    | inr (value, e) ↦ elim (Option-cases (c.to_str value)) [
      | inl k ↦ absurd (ground arith)
      | inr (t, k) ↦ ground arith
    ]
  ]

  authenticated_node_id-read_claim :
      (req : Request) (claim : Claim)
      → read_claim c req ≡ ok claim
      → authenticated_node_id c req ≡ ok claim.node_id
  unfolding read_claim
  authenticated_node_id-read_claim req claim h =
      let (id, e, h₁) = >>=-eq-ok (map_err unauthenticated_by (extract_header c req id_key)) _ h in
      let (t, _, h₂) =
        >>=-eq-ok (map_err unauthenticated_by (extract_header c req timestamp_key)) _ h₁ in
      let (n, _, h₃) =
        >>=-eq-ok (map_err unauthenticated_by (extract_header c req nonce_key)) _ h₂ in
      let (g, _, h₄) =
        >>=-eq-ok (map_err unauthenticated_by (extract_header c req signature_key)) _ h₃ in
      let (i, _, h₅) =
        >>=-eq-ok (ok_or (unauthenticated (codes "invalid timestamp format")) (parse_i64 t)) _ h₄ in
      let same : id ≡ claim.node_id = cc in
      authenticated_node_id-extract_header req id (map_err-eq-ok unauthenticated_by _ id e)
      ∙ ap ok same

  -- Whatever request the interceptor lets through, the stream finds a name in its headers, without
  -- an error, and that name is the one in the claim that the request's headers carry, which is signed
  -- under the secret.
  pub authenticated_node_id-call :
      (a : AuthInterceptor) (clock : Readings) (req q : Request)
      → (call c a clock req).1 ≡ ok q
      → (claim : Claim) × (read_claim c req ≡ ok claim)
        × (authenticated_node_id c q ≡ ok claim.node_id)
        × IsGenuine c doc a.secret clock.verifying claim
  authenticated_node_id-call a clock req q h =
      let (claim, read, genuine, _, _, same, _) = call_sound c doc a clock req q h in
      (claim, read, rw same (authenticated_node_id-read_claim req claim read), genuine)
