-- ===== src/Server/Api/Handlers.antt =====
-- pulse-server/src/api.rs: the handlers of the REST routes, after the extractor let the request in.
-- A reply is a JSON body or a status code, with the labels it adds to HTTP_REQUESTS. The registry's
-- order of iteration, which DashMap leaves open, is the order of the list.
use hakuraku.Prelude.{
  ℕ, not, Bool, List, Option, none, some, map, Text, codes, lookup, insert, length, all, len, ltb,
  ℤ, pos, sub_i64, ◌&&◌, Result, ok, err, if◌then◌else◌,
}
use hakuraku.Server.State.{AppState, NodeInfo}
use hakuraku.Server.Db.{Database, DbError, SnapshotRecord, get_snapshots}
use hakuraku.Server.Db
use hakuraku.Server.Grpc.{now_ms}
use hakuraku.Server.Api.{
  StatusCode, bad_request, unauthorized, not_found, internal_server_error, service_unavailable,
  Unicode, is_valid_node_id, parse_range_to_ms, clamp_limit,
}

-- The fields of a node's body are those of its entry.
pub data Body (J : Type 0) : Type 0 where
  nodes_body : List (NodeInfo J) → ℕ → Body J
  node_body : NodeInfo J → Body J
  history_body : Text → Text → ℤ → ℤ → ℕ → List (SnapshotRecord J) → Body J
  ready_body : Body J

abbrev pub as_str : StatusCode → Text
as_str bad_request = codes "400"
as_str unauthorized = codes "401"
as_str not_found = codes "404"
as_str internal_server_error = codes "500"
as_str service_unavailable = codes "503"

abbrev pub status_text {ℓ} : {A : Type ℓ} → Result StatusCode A → Text
status_text (ok a) = codes "200"
status_text (err code) = as_str code

pub record Reply (J : Type 0) : Type 0 where
  pub res : Result StatusCode (Body J)
  pub counted : Text × Text × Text

abbrev pub reply : {J : Type 0} → Text → Result StatusCode (Body J) → Reply J
reply route r = record { res = r; counted = (route, codes "GET", status_text r) }

-- The parameters that serde fills in.
abbrev pub default_range : Text
default_range = codes "1h"

abbrev pub default_limit : ℤ
default_limit = pos 360

abbrev pub node_route : Text
node_route = codes "/api/v1/nodes/:id"

abbrev pub history_route : Text
history_route = codes "/api/v1/nodes/:id/history"

abbrev pub is_valid_range : Unicode → Text → Bool
is_valid_range u range = all u.is_alphanumeric range && not (ltb 8 (len range))

module _ {J Q : Type 0} where
  unfoldable pub list_nodes : AppState J Q → Reply J
  list_nodes st =
      let nodes = map (λ e. e.1) st.nodes in
      reply (codes "/api/v1/nodes") (ok (nodes_body nodes (length nodes)))

  -- The answer of the database, which also fills the registry.
  abbrev pub from_database :
      AppState J Q
      → Result DbError (Option (NodeInfo J))
      → AppState J Q × Result StatusCode (Body J)
  from_database st (ok (some n)) =
      (record st { nodes = insert n.node_id n st.nodes }, ok (node_body n))
  from_database st (ok none) = (st, err not_found)
  from_database st (err e) = (st, err internal_server_error)

  abbrev pub from_registry :
      Bool
      → AppState J Q
      → Database J
      → Text
      → Option (NodeInfo J)
      → AppState J Q × Database J × Result StatusCode (Body J)
  from_registry answers st db node_id (some n) = (st, db, ok (node_body n))
  from_registry answers st db node_id none =
      let (db', found) = Db.get_node answers db node_id in
      let (st', r) = from_database st found in (st', db', r)

  unfoldable pub get_node :
      Unicode → Bool → AppState J Q → Database J → Text → AppState J Q × Database J × Reply J
  get_node u answers st db node_id =
      let (st', db', r) =
        if not (is_valid_node_id u node_id)
        then (st, db, err bad_request)
        else from_registry answers st db node_id (lookup node_id st.nodes) in
      (st', db', reply node_route r)

module _ {J : Type 0} where
  abbrev pub history :
      Text → Text → ℤ → ℤ → Result DbError (List (SnapshotRecord J)) → Result StatusCode (Body J)
  history node_id range from_ms now (ok snapshots) =
      ok (history_body node_id range from_ms now (length snapshots) snapshots)
  history node_id range from_ms now (err e) = err internal_server_error

  -- From the parsed range on; without it the range has panicked.
  abbrev pub query_history :
      Bool → Database J → Text → Text → ℤ → ℤ → Option ℤ → Option (Database J × Reply J)
  query_history answers db node_id range limit now none = none
  query_history answers db node_id range limit now (some width) =
      let (db', rows) =
        get_snapshots answers db node_id (sub_i64 now width) now (clamp_limit limit) in
      some (db', reply history_route (history node_id range (sub_i64 now width) now rows))

  -- `none` is the panic while the range is parsed.
  unfoldable pub get_node_history :
      Unicode → Bool → Option ℕ → Database J → Text → Text → ℤ → Option (Database J × Reply J)
  get_node_history u answers clock db node_id range limit =
      if not (is_valid_node_id u node_id)
      then some (db, reply history_route (err bad_request))
      else if not (is_valid_range u range)
      then some (db, reply history_route (err bad_request))
      else query_history answers db node_id range limit (now_ms clock) (parse_range_to_ms u range)

  unfoldable pub readiness_check : Bool → Result StatusCode (Body J)
  readiness_check answers = if answers then ok ready_body else err service_unavailable
