-- ===== src/Server/Metrics.antt =====
-- pulse-server/src/metrics.rs: the metrics and their registration. Each is a `LazyLock`, so that it
-- is made and registered when it is first used, and an error is a panic.
pub mod Registration
mod Tests
use hakuraku.Prelude.{
  ℕ, ◌+◌, ◌==◌, ◌||◌, Bool, true, false, List, [], ◌∷◌, Text, codes, Result, ok, err, ◌>>=◌, length,
  if◌then◌else◌,
}

pub data Metric : Type 0 where
  http_requests http_duration grpc_messages auth_failures ingestion_depth ingestion_drops : Metric
  db_latency db_errors ws_connections nodes_online nodes_offline : Metric

pub data Kind : Type 0 where
  counter gauge histogram : Kind

-- What a collector is made from.
pub record Opts : Type 0 where
  pub kind : Kind
  pub name : Text
  pub help : Text
  pub labels : List Text

unfoldable pub opts : Metric → Opts
opts http_requests = record {
  kind = counter;
  name = codes "http_requests_total";
  help = codes "Total number of HTTP requests processed";
  labels = codes "path" ∷ codes "method" ∷ codes "status" ∷ [];
}
opts http_duration = record {
  kind = histogram;
  name = codes "http_request_duration_seconds";
  help = codes "HTTP request durations in seconds";
  labels = codes "path" ∷ codes "method" ∷ [];
}
opts grpc_messages = record {
  kind = counter;
  name = codes "grpc_messages_received_total";
  help = codes "Total number of gRPC messages received from agents";
  labels = codes "node_id" ∷ codes "message_type" ∷ [];
}
opts auth_failures = record {
  kind = counter;
  name = codes "auth_failures_total";
  help = codes "Total number of authentication failures";
  labels = codes "client_type" ∷ codes "reason" ∷ [];
}
opts ingestion_depth = record {
  kind = gauge;
  name = codes "ingestion_queue_depth";
  help = codes "Current number of items in the bounded database ingestion queue";
  labels = [];
}
opts ingestion_drops = record {
  kind = counter;
  name = codes "ingestion_drops_total";
  help = codes "Total number of ingestion items dropped due to queue saturation";
  labels = [];
}
opts db_latency = record {
  kind = histogram;
  name = codes "db_query_duration_seconds";
  help = codes "Database query duration in seconds";
  labels = codes "operation" ∷ [];
}
opts db_errors = record {
  kind = counter;
  name = codes "db_errors_total";
  help = codes "Total number of database errors encountered";
  labels = codes "operation" ∷ [];
}
opts ws_connections = record {
  kind = gauge;
  name = codes "websocket_connections_active";
  help = codes "Active real-time WebSocket dashboard connections";
  labels = [];
}
opts nodes_online = record {
  kind = gauge;
  name = codes "nodes_online_count";
  help = codes "Current number of active online monitored agents";
  labels = [];
}
opts nodes_offline = record {
  kind = gauge;
  name = codes "nodes_offline_count";
  help = codes "Current number of configured offline monitored agents";
  labels = [];
}

-- The registry of the prometheus crate: making a collector may fail, and so may registering it.
pub record Prometheus (R C : Type 0) : Type 0 where
  pub make : Opts → Result Text C
  pub register : R → C → Result Text R

-- The metrics that were used so far, the last first, and the registry.
pub record Statics (R : Type 0) : Type 0 where
  pub made : List Metric
  pub registry : R

abbrev pub index : Metric → ℕ
index http_requests = 0
index http_duration = 1
index grpc_messages = 2
index auth_failures = 3
index ingestion_depth = 4
index ingestion_drops = 5
index db_latency = 6
index db_errors = 7
index ws_connections = 8
index nodes_online = 9
index nodes_offline = 10

abbrev pub is_made : Metric → List Metric → Bool
is_made m [] = false
is_made m (x ∷ xs) = (index m == index x) || is_made m xs

-- The places where the server uses a metric, with what varies there.
pub data Use : Type 0 where
  -- A handler has answered: the path, and the status.
  request_counted : Text → Text → Use
  request_timed : Text → Use
  -- The node and the type of the message.
  message_counted : Text → Text → Use
  -- The kind of the client and the reason.
  failure_counted : Text → Text → Use
  depth_set drop_counted : Use
  -- The operation.
  query_timed error_counted : Text → Use
  connection_counted online_set offline_set : Use

abbrev pub metric_of : Use → Metric
metric_of (request_counted path status) = http_requests
metric_of (request_timed path) = http_duration
metric_of (message_counted node_id kind) = grpc_messages
metric_of (failure_counted client reason) = auth_failures
metric_of depth_set = ingestion_depth
metric_of drop_counted = ingestion_drops
metric_of (query_timed operation) = db_latency
metric_of (error_counted operation) = db_errors
metric_of connection_counted = ws_connections
metric_of online_set = nodes_online
metric_of offline_set = nodes_offline

abbrev pub label_values : Use → List Text
label_values (request_counted path status) = path ∷ codes "GET" ∷ status ∷ []
label_values (request_timed path) = path ∷ codes "GET" ∷ []
label_values (message_counted node_id kind) = node_id ∷ kind ∷ []
label_values (failure_counted client reason) = client ∷ reason ∷ []
label_values depth_set = []
label_values drop_counted = []
label_values (query_timed operation) = operation ∷ []
label_values (error_counted operation) = operation ∷ []
label_values connection_counted = []
label_values online_set = []
label_values offline_set = []

module _ {R C : Type 0} (crate : Prometheus R C) where
  -- The first use; `unwrap` makes an error a panic.
  unfoldable pub init : Metric → Statics R → Result Text (Statics R)
  init m s = do
    c ← crate.make (opts m)
    r ← crate.register s.registry c
    ok (record { made = m ∷ s.made; registry = r })

  unfoldable pub force : Metric → Statics R → Result Text (Statics R)
  force m s = if is_made m s.made then ok s else init m s

  abbrev pub checked_labels : Bool → Statics R → Result Text (Statics R)
  checked_labels true s = ok s
  checked_labels false s = err (codes "InconsistentCardinality")

  -- `with_label_values`, which panics unless there is a value for each label.
  unfoldable pub perform : Use → Statics R → Result Text (Statics R)
  perform u s = do
    s' ← force (metric_of u) s
    checked_labels (length (label_values u) == length (opts (metric_of u)).labels) s'

  unfoldable pub performs : List Use → Statics R → Result Text (Statics R)
  performs [] s = ok s
  performs (u ∷ us) s = do s' ← perform u s; performs us s'
