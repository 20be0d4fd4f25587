-- ===== src/Server/Grpc/Tests.antt =====
-- Streams, queues and shards at concrete messages.
use hakuraku.Prelude.{
  ℕ, zero, suc, ◌≡◌, ◌≢◌, true, List, [], ◌∷◌, Option, none, some, Text, codes, length, get_elem?,
  pos, arith,
}
use hakuraku.Core.Proto.{Heartbeat, stats, heartbeat, Payload}
use hakuraku.Server.State.{AppState, IngestionItem, probe_item, NodeInfo, offline, Metrics}
use hakuraku.Server.Toys.{Items, pair, pair-IsChannel, numbers, snapshot}
use hakuraku.Server.Grpc.{StatsSerializable, Inbound, Task, reject, stream}
use hakuraku.Server.Grpc.Own.{IsOwn, Leaves}
use hakuraku.Server.Grpc.Stream.{stream-IsOwn}
use hakuraku.Server.Grpc.Effects.{stream_forged}

abbrev me : Text
me = codes "a"

abbrev by_length : Text → ℕ
by_length = length

abbrev no_metrics : Metrics
no_metrics = record { auth_failures = []; grpc_messages = []; ingestion_drops = 0; db_errors = [] }

abbrev registered : NodeInfo ℕ
registered = record {
  node_id = me;
  hostname = me;
  last_seen_ms = pos 5;
  status = offline;
  latest_stats = none;
}

abbrev app : AppState ℕ Items
app = record {
  sent = [];
  nodes = (me, registered) ∷ [];
  worker_txs = [] ∷ [] ∷ [];
  metrics = no_metrics;
}

abbrev task : Task ℕ Items
task = record { app = app; acks = [] }

abbrev item : IngestionItem ℕ
item = probe_item me (codes "t") true (pos 3) [] (pos 4)

empty_queues : (i : ℕ) (q : Items) → get_elem? app.worker_txs i ≡ some q → q ≡ []
empty_queues zero q h = ground arith
empty_queues (suc zero) q h = ground arith
empty_queues (suc (suc i)) q h = cc

abbrev to_value : StatsSerializable ℕ → Option ℕ
to_value s = some s.cpu_percent

abbrev beat : Text → Heartbeat
beat node_id = record { node_id = node_id; timestamp_ms = pos 2000 }

abbrev arrives : Payload ℕ → Inbound ℕ
arrives p = record { received = some (some p); clock = some 2001; agent_reads = true }

abbrev forged : Inbound ℕ
forged = arrives (stats (snapshot (codes "b")))

abbrev inbound : List (Inbound ℕ)
inbound = arrives (stats (snapshot me)) ∷ arrives (heartbeat (beat me)) ∷ forged ∷ []

stream-IsOwn_example :
    Leaves
      (λ u. IsOwn pair pair-IsChannel by_length me app u.app)
      (stream numbers to_value pair by_length me task inbound)
stream-IsOwn_example =
    stream-IsOwn numbers to_value pair pair-IsChannel by_length me task inbound (omega arith)

not_me : codes "b" ≢ me
not_me h = ground arith

stream_forged_example :
    (stream numbers to_value pair by_length me task (forged ∷ inbound) ≡ reject task)
    × (stream numbers to_value pair by_length me task
          (arrives (heartbeat (beat me)) ∷ forged ∷ inbound)
        ≡ stream numbers to_value pair by_length me task
            (arrives (heartbeat (beat me)) ∷ forged ∷ []))
stream_forged_example =
    stream_forged numbers to_value pair pair-IsChannel by_length me task
      (arrives (heartbeat (beat me)) ∷ []) inbound forged not_me
