-- ===== src/Server/Router.antt =====
-- pulse-server/src/main.rs: the routes of the HTTP server, with the extractors of each handler in
-- the order of its parameters (pulse-server/src/api.rs and ws.rs). What axum does is the parameter
-- `Axum`. The layers around the router (CORS, body limit, rate limit, timeout, trace) may answer in
-- its place, and are left out.
pub mod Guarded
mod Tests
use hakuraku.Prelude.{
  ℕ, suc, Bool, true, false, List, [], ◌∷◌, ◌++◌, Option, none, some, Text, codes, ℤ, Result, ok,
  err, if◌then◌else◌,
}
use hakuraku.Core.Auth.{Bytes}
use hakuraku.Server.State.{AppState}
use hakuraku.Server.Db.{Database}
use hakuraku.Server.Api.{StatusCode, Unicode, Parts, from_request_parts}
use hakuraku.Server.Api.Handlers.{
  Body, Reply, default_range, default_limit, list_nodes, get_node, get_node_history,
  readiness_check,
}
use hakuraku.Server.Api.Health.{health_check, liveness_check, Exposition, metrics_handler}

pub data Route : Type 0 where
  nodes node history ws health healthz readyz metrics : Route

abbrev pub routes : List (Text × Route)
routes =
    (codes "/api/v1/nodes", nodes)
    ∷ (codes "/api/v1/nodes/{id}", node)
    ∷ (codes "/api/v1/nodes/{id}/history", history)
    ∷ (codes "/ws", ws)
    ∷ (codes "/health", health)
    ∷ (codes "/healthz", healthz)
    ∷ (codes "/readyz", readyz)
    ∷ (codes "/metrics", metrics)
    ∷ []

pub record Request : Type 0 where
  pub method : Text
  pub path : Text
  pub parts : Parts

-- The router's choice among the patterns, the methods that `get` serves, and the extractors `Path`,
-- `Query` and `WebSocketUpgrade`, which may reject a request. A query's field may be absent.
pub record Axum : Type 0 where
  pub find : List (Text × Route) → Text → Option Route
  pub is_get : Text → Bool
  pub path_id : Text → Result Text Text
  pub history_query : Option Text → Result Text (Option Text × Option ℤ)
  pub ws_query : Option Text → Result Text (Option Text)
  pub upgrade : Request → Result Text (Unit {0})

pub data Response (J : Type 0) : Type 0 where
  no_route wrong_method panics : Response J
  refuses : StatusCode → Response J
  rejects : Text → Response J
  replies : Reply J → Response J
  alive : List (Text × Text) → Response J
  readiness : Result StatusCode (Body J) → Response J
  exposes : Exposition → Response J
  -- `handle_socket` takes over, with its filter.
  upgrades : Option Text → Response J

-- What the handlers read besides the request: the secret, the build, the clock, whether the
-- database answers, and the encoded metrics.
pub record Context : Type 0 where
  pub secret : Option Text
  pub version : Text
  pub clock : Option ℕ
  pub answers : Bool
  pub encoded : Result Text Bytes

abbrev pub range_or : Option Text → Text
range_or none = default_range
range_or (some range) = range

abbrev pub limit_or : Option ℤ → ℤ
limit_or none = default_limit
limit_or (some limit) = limit

-- The state that a handler shares, and its response.
abbrev pub Answer : Type 0 → Type 0 → Type 0
Answer J Q = AppState J Q × Database J × Response J

module _ {J Q : Type 0} where
  abbrev pub count_unauthorized : AppState J Q → AppState J Q
  count_unauthorized st = record st {
    metrics = record (st.metrics) {
      auth_failures = st.metrics.auth_failures ++ (codes "http", codes "unauthorized") ∷ [];
    };
  }

  -- The extractor `Claims`, the first of its handler, before what comes after it.
  abbrev pub with_claims :
      Result StatusCode (Unit {0}) × Bool → AppState J Q → Database J → Answer J Q → Answer J Q
  with_claims (ok _, counted) st db next = next
  with_claims (err code, true) st db next = (count_unauthorized st, db, refuses code)
  with_claims (err code, false) st db next = (st, db, refuses code)

  abbrev pub history_reply : AppState J Q → Database J → Option (Database J × Reply J) → Answer J Q
  history_reply st db none = (st, db, panics)
  history_reply st db (some (db', r)) = (st, db', replies r)

  abbrev pub socket :
      AppState J Q → Database J → Result Text (Unit {0}) → Result Text (Option Text) → Answer J Q
  socket st db (err e) q = (st, db, rejects e)
  socket st db (ok _) (err e) = (st, db, rejects e)
  socket st db (ok _) (ok node_id) = (st, db, upgrades node_id)

module _ {J Q : Type 0} (ax : Axum) (u : Unicode) (c : Context) where
  abbrev pub one_node : AppState J Q → Database J → Result Text Text → Answer J Q
  one_node st db (err e) = (st, db, rejects e)
  one_node st db (ok id) =
      let (st', db', r) = get_node u c.answers st db id in (st', db', replies r)

  abbrev pub one_history :
      AppState J Q
      → Database J
      → Result Text Text
      → Result Text (Option Text × Option ℤ)
      → Answer J Q
  one_history st db (err e) q = (st, db, rejects e)
  one_history st db (ok id) (err e) = (st, db, rejects e)
  one_history st db (ok id) (ok (range, limit)) =
      history_reply st db
        (get_node_history u c.answers c.clock db id (range_or range) (limit_or limit))

  -- The handler of a route with its extractors.
  unfoldable pub handle : Route → Request → AppState J Q → Database J → Answer J Q
  handle nodes req st db =
      with_claims (from_request_parts c.secret req.parts) st db (st, db, replies (list_nodes st))
  handle node req st db =
      with_claims (from_request_parts c.secret req.parts) st db
        (one_node st db (ax.path_id req.path))
  handle history req st db =
      with_claims (from_request_parts c.secret req.parts) st db
        (one_history st db (ax.path_id req.path) (ax.history_query req.parts.query))
  handle ws req st db =
      with_claims (from_request_parts c.secret req.parts) st db
        (socket st db (ax.upgrade req) (ax.ws_query req.parts.query))
  handle health req st db = (st, db, alive (health_check c.version))
  handle healthz req st db = (st, db, alive (liveness_check c.version))
  handle readyz req st db = (st, db, readiness (readiness_check c.answers))
  handle metrics req st db =
      with_claims (from_request_parts c.secret req.parts) st db
        (st, db, exposes (metrics_handler c.encoded))

  abbrev pub dispatch : Option Route → Request → AppState J Q → Database J → Answer J Q
  dispatch none req st db = (st, db, no_route)
  dispatch (some r) req st db =
      if ax.is_get req.method then handle r req st db else (st, db, wrong_method)

  unfoldable pub respond : Request → AppState J Q → Database J → Answer J Q
  respond req st db = dispatch (ax.find routes req.path) req st db
