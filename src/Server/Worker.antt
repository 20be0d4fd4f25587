-- ===== src/Server/Worker.antt =====
-- pulse-server/src/main.rs: the ingestion worker, the loading of the registry at the start, and the
-- clean-up task. What the worker exports to VictoriaMetrics is in Server/Victoria.
pub mod Refinement
mod Tests
use hakuraku.Prelude.{
  ℕ, ◌+◌, ◌*◌, ◌≡◌, Bool, List, [], ◌∷◌, ◌++◌, Option, none, some, Text, codes, insert, ℤ, pos,
  sub_i64, mul_i64, Result, ok, err,
}
use hakuraku.Server.State.{AppState, NodeInfo, Json, IngestionItem, stats_item, probe_item}
use hakuraku.Server.Db.{
  Database, DbError, ProbeRow, upsert_node, insert_snapshot, insert_probe_result, get_all_nodes,
  cleanup_old_snapshots,
}
use hakuraku.Server.Grpc.{now_ms}

-- Whether the database answers the (at most two) statements of an item, and its clock.
pub record Answers : Type 0 where
  pub first : Bool
  pub second : Bool
  pub clock : Option ℕ

abbrev pub probe_row : Text → Text → Bool → ℤ → Text → ℤ → ProbeRow
probe_row node_id target success latency_us error_message timestamp = record {
  node_id = node_id;
  target = target;
  success = success;
  latency_us = latency_us;
  error_message = error_message;
  timestamp = timestamp;
}

module _ {J : Type 0} where
  -- What the worker writes for an item; what it exports is push_item of Server/Victoria. Errors are
  -- logged, and the worker goes on.
  unfoldable pub store_item : Json J → Answers → Database J → IngestionItem J → Database J
  store_item json a db (stats_item node_id timestamp_ms stats_str stats_json) =
      let (db', r) = upsert_node a.first a.clock db node_id node_id (codes "online") in
      let (db'', r') = insert_snapshot json a.second db' node_id timestamp_ms stats_str in db''
  store_item json a db (probe_item node_id target success latency_us error_message timestamp) =
      let row = probe_row node_id target success latency_us error_message timestamp in
      let (db', r) = insert_probe_result a.first db row in db'

  -- What the items that the worker receives until its queue closes make of the database; the loop
  -- itself is run_worker of Server/System/Shutdown.
  unfoldable pub work : Json J → Database J → List (Answers × IngestionItem J) → Database J
  work json db [] = db
  work json db ((a, item) ∷ items) = work json (store_item json a db item) items

  abbrev pub enter : {Q : Type 0} → AppState J Q → List (NodeInfo J) → AppState J Q
  enter st [] = st
  enter st (n ∷ ns) = enter (record st { nodes = insert n.node_id n st.nodes }) ns

  abbrev entered : {Q : Type 0} → AppState J Q → Result DbError (List (NodeInfo J)) → AppState J Q
  entered st (ok ns) = enter st ns
  entered st (err e) = st

  unfoldable pub load_nodes : {Q : Type 0} → Bool → AppState J Q → Database J → AppState J Q
  load_nodes answers st db = let (db', r) = get_all_nodes answers db in entered st r

  -- One tick of the clean-up task: what is older than seven days goes.
  unfoldable pub cleanup_tick : Bool → Bool → Option ℕ → Database J → Database J
  cleanup_tick answers answers' clock db =
      let (db', r) =
        cleanup_old_snapshots answers answers' db (sub_i64 (now_ms clock) (pos 604800000)) in
      db'
