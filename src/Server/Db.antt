-- ===== src/Server/Db.antt =====
-- pulse-server/src/db.rs: the repository, over the tables of
-- pulse-server/migrations/001_init.sql. PostgreSQL runs each statement as a whole or refuses it; the
-- Boolean argument of an operation says whether the database answers. The order
-- of rows with equal timestamps, which SQL leaves open, is any function of the rows.
pub mod Queries
pub mod Retention
mod Tests
use hakuraku.Prelude.{
  ℕ, ◌+◌, Bool, true, false, ◌&&◌, List, [], ◌∷◌, ◌++◌, Option, none, some, map, Text, codes,
  text_eq, lookup, insert, length, take, keep_if, ℤ, pos, pos_part, leb_ℤ, ltb_ℤ, Result, ok, err,
  if◌then◌else◌, not,
}
use hakuraku.Server.State.{Json, NodeStatus, online, offline, unknown, NodeInfo}
use hakuraku.Server.Grpc.{now_ms}

pub data DbError : Type 0 where
  unreachable foreign_key negative_limit : DbError

-- The row of a node. Its key in the table is its id.
pub record NodeEntry : Type 0 where
  pub hostname : Text
  pub last_seen : ℤ
  pub status : Text

pub record SnapshotRecord (J : Type 0) : Type 0 where
  pub node_id : Text
  pub timestamp : ℤ
  pub stats_json : J

pub record ProbeRow : Type 0 where
  pub node_id : Text
  pub target : Text
  pub success : Bool
  pub latency_us : ℤ
  pub error_message : Text
  pub timestamp : ℤ

abbrev pub Tie : Type 0 → Type 0
Tie J = SnapshotRecord J → SnapshotRecord J → Bool

-- The tables, newest row first, the counter DB_ERRORS, and which of two rows with equal timestamps a
-- sorted query gives first.
pub record Database (J : Type 0) : Type 0 where
  pub nodes : List (Text × NodeEntry)
  pub snapshots : List (SnapshotRecord J)
  pub probe_results : List ProbeRow
  pub db_errors : List Text
  pub tie : Tie J

pub record NodeRow (J : Type 0) : Type 0 where
  pub id : Text
  pub hostname : Text
  pub last_seen : ℤ
  pub status : Text
  pub stats_json : Option J

unfoldable pub status_of : Text → NodeStatus
status_of s =
    if text_eq s (codes "online")
    then online
    else if text_eq s (codes "offline")
    then offline
    else unknown

unfoldable pub info_of_row : {J : Type 0} → NodeRow J → NodeInfo J
unfolding status_of
info_of_row r = record {
  node_id = r.id;
  hostname = r.hostname;
  last_seen_ms = r.last_seen;
  status = status_of r.status;
  latest_stats = r.stats_json;
}

module _ {J : Type 0} where
  abbrev pub failed : Text → DbError → Database J → Database J × Result DbError (Unit {0})
  failed operation e db = (record db { db_errors = db.db_errors ++ operation ∷ [] }, err e)

  unfoldable pub upsert_node :
      Bool → Option ℕ → Database J → Text → Text → Text → Database J × Result DbError (Unit {0})
  upsert_node answers clock db node_id hostname status =
      if answers
      then (
        record db {
          nodes =
              insert node_id
                (record { hostname = hostname; last_seen = now_ms clock; status = status })
                db.nodes;
        },
        ok tt,
      )
      else failed (codes "upsert_node") unreachable db

  -- `REFERENCES nodes(id)`.
  abbrev pub referenced :
      Text → Database J → Option NodeEntry → Database J → Database J × Result DbError (Unit {0})
  referenced operation db none written = failed operation foreign_key db
  referenced operation db (some n) written = (written, ok tt)

  -- `unwrap_or_default()`.
  abbrev pub value_or_null : Json J → Option J → J
  value_or_null json none = json.null
  value_or_null json (some v) = v

  unfoldable pub insert_snapshot :
      Json J → Bool → Database J → Text → ℤ → Text → Database J × Result DbError (Unit {0})
  insert_snapshot json answers db node_id timestamp_ms stats_text =
      if answers
      then referenced (codes "insert_snapshot") db (lookup node_id db.nodes) (record db {
        snapshots =
            record {
              node_id = node_id;
              timestamp = timestamp_ms;
              stats_json = value_or_null json (json.from_str stats_text);
            }
            ∷ db.snapshots;
      })
      else failed (codes "insert_snapshot") unreachable db

  unfoldable pub insert_probe_result :
      Bool → Database J → ProbeRow → Database J × Result DbError (Unit {0})
  insert_probe_result answers db row =
      if answers
      then referenced (codes "insert_probe_result") db (lookup row.node_id db.nodes)
          (record db { probe_results = row ∷ db.probe_results })
      else failed (codes "insert_probe_result") unreachable db

  abbrev pub stands_before : Tie J → SnapshotRecord J → SnapshotRecord J → Bool
  stands_before tie r x =
      if ltb_ℤ x.timestamp r.timestamp then true else leb_ℤ x.timestamp r.timestamp && tie r x

  -- `ORDER BY timestamp DESC`.
  unfoldable pub insert_desc :
      Tie J → SnapshotRecord J → List (SnapshotRecord J) → List (SnapshotRecord J)
  insert_desc tie r [] = r ∷ []
  insert_desc tie r (x ∷ xs) =
      if stands_before tie r x then r ∷ x ∷ xs else x ∷ insert_desc tie r xs

  unfoldable pub order_desc : Tie J → List (SnapshotRecord J) → List (SnapshotRecord J)
  unfolding insert_desc
  order_desc tie [] = []
  order_desc tie (r ∷ rs) = insert_desc tie r (order_desc tie rs)

  abbrev pub snapshots_of : Text → Database J → List (SnapshotRecord J)
  snapshots_of node_id db = keep_if (λ r. text_eq r.node_id node_id) db.snapshots

  abbrev pub first_stats : List (SnapshotRecord J) → Option J
  first_stats [] = none
  first_stats (r ∷ rs) = some r.stats_json

  -- A node's row joined to its latest snapshot.
  abbrev pub joined : Database J → Text × NodeEntry → NodeRow J
  joined db (node_id, n) = record {
    id = node_id;
    hostname = n.hostname;
    last_seen = n.last_seen;
    status = n.status;
    stats_json = first_stats (order_desc db.tie (snapshots_of node_id db));
  }

  abbrev pub failed_query {ℓ} :
      {A : Type ℓ} → Text → DbError → Database J → Database J × Result DbError A
  failed_query operation e db = (record db { db_errors = db.db_errors ++ operation ∷ [] }, err e)

  unfoldable pub get_all_nodes : Bool → Database J → Database J × Result DbError (List (NodeInfo J))
  get_all_nodes answers db =
      if answers
      then (db, ok (map (λ e. info_of_row (joined db e)) db.nodes))
      else failed_query (codes "get_all_nodes") unreachable db

  abbrev pub row_of : Database J → Text → Option NodeEntry → Option (NodeInfo J)
  row_of db node_id none = none
  row_of db node_id (some n) = some (info_of_row (joined db (node_id, n)))

  unfoldable pub get_node :
      Bool → Database J → Text → Database J × Result DbError (Option (NodeInfo J))
  get_node answers db node_id =
      if answers
      then (db, ok (row_of db node_id (lookup node_id db.nodes)))
      else failed_query (codes "get_node") unreachable db

  abbrev pub in_range : ℤ → ℤ → SnapshotRecord J → Bool
  in_range from_ms to_ms r = leb_ℤ from_ms r.timestamp && leb_ℤ r.timestamp to_ms

  unfoldable pub get_snapshots :
      Bool → Database J → Text → ℤ → ℤ → ℤ → Database J × Result DbError (List (SnapshotRecord J))
  unfolding order_desc
  get_snapshots answers db node_id from_ms to_ms limit =
      if not answers
      then failed_query (codes "get_snapshots") unreachable db
      else if ltb_ℤ limit (pos 0)
      then failed_query (codes "get_snapshots") negative_limit db
      else (
        db,
        ok (
            take (pos_part limit)
              (order_desc db.tie (keep_if (in_range from_ms to_ms) (snapshots_of node_id db)))),
      )

  -- Two statements: when the second is refused the first has been done.
  unfoldable pub cleanup_old_snapshots :
      Bool → Bool → Database J → ℤ → Database J × Result DbError ℕ
  cleanup_old_snapshots answers answers' db before_ms =
      let old = keep_if (λ r. ltb_ℤ r.timestamp before_ms) db.snapshots in
      let kept = keep_if (λ r. not (ltb_ℤ r.timestamp before_ms)) db.snapshots in
      let old' = keep_if (λ r. ltb_ℤ r.timestamp before_ms) db.probe_results in
      let kept' = keep_if (λ r. not (ltb_ℤ r.timestamp before_ms)) db.probe_results in
      if not answers
      then failed_query (codes "cleanup_old_snapshots") unreachable db
      else if not answers'
      then failed_query (codes "cleanup_old_snapshots") unreachable (record db { snapshots = kept })
      else (record db { snapshots = kept; probe_results = kept' }, ok (length old + length old'))
