-- ===== src/Server/Liveness.antt =====
-- pulse-server/src/main.rs: one tick of the loop that takes silent nodes offline. The gauges
-- are counts.
pub mod Ticks
mod Tests
use hakuraku.Prelude.{
  ℕ, ◌+◌, ◌-◌, Bool, true, false, ◌&&◌, List, [], ◌∷◌, ◌++◌, Option, none, some, Text, codes, ℤ,
  pos, sub_i64, ltb_ℤ, if◌then◌else◌,
}
use hakuraku.Server.State.{
  AppState, NodeInfo, NodeStatus, online, offline, unknown, NodeUpdate, Json,
}
use hakuraku.Server.Db.{Database, upsert_node}
use hakuraku.Server.Grpc.{now_ms}

abbrev pub is_online : NodeStatus → Bool
is_online online = true
is_online offline = false
is_online unknown = false

abbrev pub is_offline : NodeStatus → Bool
is_offline online = false
is_offline offline = true
is_offline unknown = false

-- What the loop over the registry builds.
pub record Sweep (J : Type 0) : Type 0 where
  pub nodes : List (Text × NodeInfo J)
  pub transitions : List (NodeInfo J)
  pub online : ℕ
  pub offline : ℕ

pub record Ticked (J Q : Type 0) : Type 0 where
  pub app : AppState J Q
  pub db : Database J
  pub nodes_online : ℕ
  pub nodes_offline : ℕ

module _ {J : Type 0} where
  -- The test of an entry, with the subtraction of the release profile.
  abbrev pub timed_out : ℤ → NodeInfo J → Bool
  timed_out now n = is_online n.status && ltb_ℤ (pos 30000) (sub_i64 now n.last_seen_ms)

  abbrev pub checked : ℤ → NodeInfo J → NodeInfo J
  checked now n = if timed_out now n then record n { status = offline } else n

  unfoldable pub sweep : ℤ → List (Text × NodeInfo J) → Sweep J
  sweep now [] = record { nodes = []; transitions = []; online = 0; offline = 0 }
  sweep now ((k, n) ∷ entries) =
      let rest = sweep now entries in
      let n' = checked now n in
      record {
        nodes = (k, n') ∷ rest.nodes;
        transitions = if timed_out now n then n ∷ rest.transitions else rest.transitions;
        online = if is_online n'.status then rest.online + 1 else rest.online;
        offline = if is_offline n'.status then rest.offline + 1 else rest.offline;
      }

  abbrev pub stats_or_null : Json J → Option J → J
  stats_or_null json none = json.null
  stats_or_null json (some j) = j

  abbrev pub update_for : Json J → NodeInfo J → NodeUpdate J
  update_for json n = record {
    node_id = n.node_id;
    timestamp_ms = n.last_seen_ms;
    stats = stats_or_null json n.latest_stats;
  }

  -- One transition after the other: the database, then the subscribers. An error is logged.
  unfoldable pub announce :
      Json J
      → Bool
      → Option ℕ
      → List (NodeInfo J)
      → Database J × List (NodeUpdate J)
      → Database J × List (NodeUpdate J)
  announce json answers clock [] (db, sent) = (db, sent)
  announce json answers clock (n ∷ ns) (db, sent) =
      let (db', r) = upsert_node answers clock db n.node_id n.node_id (codes "offline") in
      announce json answers clock ns (db', sent ++ update_for json n ∷ [])

  unfoldable pub tick :
      {Q : Type 0} → Json J → Bool → Option ℕ → AppState J Q → Database J → Ticked J Q
  tick json answers clock st db =
      let swept = sweep (now_ms clock) st.nodes in
      let (db', sent) = announce json answers clock swept.transitions (db, st.sent) in
      record {
        app = record st { nodes = swept.nodes; sent = sent };
        db = db';
        nodes_online = swept.online;
        nodes_offline = swept.offline;
      }

-- The gauge of the queues: `capacity` is the room that is left in one of 1024.
unfoldable pub ingestion_depth : {Q : Type 0} → (Q → ℕ) → List Q → ℕ
ingestion_depth capacity [] = 0
ingestion_depth capacity (q ∷ qs) = (1024 - capacity q) + ingestion_depth capacity qs
