-- ===== src/Server/Router/Guarded.antt =====
-- What a request without the secret can see and change.
use hakuraku.Prelude.{
  ◌≡◌, refl, Bool, true, false, Option, none, some, Text, Result, ok, err, ◌⊎◌, inl, inr, codes,
  Bool-cases, split_on,
}
use hakuraku.Server.State.{AppState}
use hakuraku.Server.Db.{Database}
use hakuraku.Server.Api.{
  StatusCode, Unicode, Parts, from_request_parts, after_prefix, token_of, query_text,
}
use hakuraku.Server.Api.Token.{IsOffered, from_request_parts_iff}
use hakuraku.Server.Router.{
  Route, nodes, node, history, ws, health, healthz, readyz, metrics, Request, Axum, Response,
  no_route, wrong_method, panics, refuses, rejects, replies, alive, readiness, exposes, upgrades,
  Context, with_claims, Answer, handle, dispatch, respond, routes,
}

-- The secret is offered in one of the three places.
abbrev pub Offers : Text → Parts → Type 0
Offers secret parts =
    IsOffered secret (after_prefix (codes "Bearer ") parts.authorization)
    ⊎ (IsOffered secret parts.auth_token
        ⊎ IsOffered secret (token_of (split_on b'&' (query_text parts.query))))

-- A response that says nothing of a node or of the metrics: that there is no such route or method,
-- that the token is missing, or the health of the server.
abbrev pub IsPublic : {J : Type 0} → Response J → Type 0
IsPublic no_route = Unit
IsPublic wrong_method = Unit
IsPublic panics = ⊥
IsPublic (refuses code) = Unit
IsPublic (rejects e) = ⊥
IsPublic (replies r) = ⊥
IsPublic (alive fields) = Unit
IsPublic (readiness r) = Unit
IsPublic (exposes e) = ⊥
IsPublic (upgrades node_id) = ⊥

passed :
    (env : Option Text) (parts : Parts) (counted : Bool)
    → from_request_parts env parts ≡ (ok tt, counted)
    → (secret : Text) × (env ≡ some secret) × Offers secret parts
unfolding from_request_parts
passed none parts counted e = cc
passed (some secret) parts counted e =
    let (offered, decided) = from_request_parts_iff secret parts in
    elim decided [ inl let_in ↦ (secret, refl, offered.0 let_in) | inr refused ↦ cc ]

-- The response is public and nothing but a counter has changed, or the secret was offered.
unfoldable pub IsGuarded :
    {J Q : Type 0} → Option Text → Request → AppState J Q → Database J → Answer J Q → Type 0
IsGuarded env req st db out =
    (IsPublic out.2
      × (out.0.nodes ≡ st.nodes)
      × (out.0.sent ≡ st.sent)
      × (out.0.worker_txs ≡ st.worker_txs)
      × (out.1 ≡ db))
    ⊎ ((secret : Text) × (env ≡ some secret) × Offers secret req.parts)

module _ {J Q : Type 0} (ax : Axum) (u : Unicode) (c : Context) where
  claims_guard :
      (r : Result StatusCode (Unit {0}) × Bool) (req : Request) (st : AppState J Q)
      (db : Database J) (next : Answer J Q)
      → from_request_parts c.secret req.parts ≡ r
      → IsGuarded c.secret req st db (with_claims r st db next)
  unfolding IsGuarded
  claims_guard (ok _, counted) req st db next e = inr (passed c.secret req.parts counted e)
  claims_guard (err code, true) req st db next e = inl (tt, refl, refl, refl, refl)
  claims_guard (err code, false) req st db next e = inl (tt, refl, refl, refl, refl)

  handle-IsGuarded :
      (r : Route) (req : Request) (st : AppState J Q) (db : Database J)
      → IsGuarded c.secret req st db (handle ax u c r req st db)
  unfolding handle IsGuarded
  handle-IsGuarded nodes req st db = claims_guard _ req st db _ refl
  handle-IsGuarded node req st db = claims_guard _ req st db _ refl
  handle-IsGuarded history req st db = claims_guard _ req st db _ refl
  handle-IsGuarded ws req st db = claims_guard _ req st db _ refl
  handle-IsGuarded metrics req st db = claims_guard _ req st db _ refl
  handle-IsGuarded health req st db = inl (tt, refl, refl, refl, refl)
  handle-IsGuarded healthz req st db = inl (tt, refl, refl, refl, refl)
  handle-IsGuarded readyz req st db = inl (tt, refl, refl, refl, refl)

  dispatch-IsGuarded :
      (o : Option Route) (req : Request) (st : AppState J Q) (db : Database J)
      → IsGuarded c.secret req st db (dispatch ax u c o req st db)
  unfolding IsGuarded
  dispatch-IsGuarded none req st db = inl (tt, refl, refl, refl, refl)
  dispatch-IsGuarded (some r) req st db = elim (Bool-cases (ax.is_get req.method)) [
    | inl get ↦ rw get (handle-IsGuarded r req st db)
    | inr other ↦ rw other (inl (tt, refl, refl, refl, refl))
  ]

  -- Whatever path, method and parameters a request has, and however axum matches and extracts
  -- them: the server's secret was offered in one of the three places, or the response says nothing
  -- but that there is no such route or method, that the token is missing, or how the server's health
  -- is, and registry, broadcasts, queues and database are as before.
  pub respond-IsGuarded :
      (req : Request) (st : AppState J Q) (db : Database J)
      → IsGuarded c.secret req st db (respond ax u c req st db)
  unfolding respond
  respond-IsGuarded req st db = dispatch-IsGuarded (ax.find routes req.path) req st db
