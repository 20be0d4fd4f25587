-- ===== src/Server/Liveness/Tests.antt =====
-- A tick over a silent node.
use hakuraku.Prelude.{List, ℕ, ◌≡◌, true, [], ◌∷◌, ◌++◌, some, codes, pos, length, keep_if}
use hakuraku.Server.State.{NodeUpdate, AppState, NodeInfo, online}
use hakuraku.Server.Toys.{Items, numbers}
use hakuraku.Server.Db.{Database}
use hakuraku.Server.Grpc.{now_ms}
use hakuraku.Server.Liveness.{Ticked, tick}
use hakuraku.Server.Liveness.Ticks.{
  values, AllBecome, AllTold, stands_online, stands_offline, tick_sound,
}

abbrev silent : NodeInfo ℕ
silent = record {
  node_id = codes "a";
  hostname = codes "a";
  last_seen_ms = pos 1000;
  status = online;
  latest_stats = some 4;
}

abbrev app : AppState ℕ Items
app = record {
  sent = [];
  nodes = (codes "a", silent) ∷ [];
  worker_txs = [];
  metrics = record { auth_failures = []; grpc_messages = []; ingestion_drops = 0; db_errors = [] };
}

abbrev empty : Database ℕ
empty = record { nodes = []; snapshots = []; probe_results = []; db_errors = []; tie = λ r x. true }

tick_sound_example :
    (t : Ticked ℕ Items) × (tick numbers true (some 40000) app empty ≡ t)
    × AllBecome (now_ms (some 40000)) app.nodes t.app.nodes
    × ((us : List (NodeUpdate ℕ)) × (t.app.sent ≡ [] ++ us)
        × AllTold numbers (now_ms (some 40000)) app.nodes us)
    × (t.nodes_online ≡ length (keep_if stands_online (values t.app.nodes)))
    × (t.nodes_offline ≡ length (keep_if stands_offline (values t.app.nodes)))
tick_sound_example = tick_sound numbers true (some 40000) app empty
