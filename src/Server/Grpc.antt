-- ===== src/Server/Grpc.antt =====
-- pulse-server/src/grpc.rs: `stream_telemetry`. What the agent sends is a list of inbound results,
-- each with the clock (milliseconds, `none` before the epoch) and whether the agent still reads its
-- commands; `serde_json::to_value` is the argument `to_value`.
pub mod Serial
pub mod Own
pub mod Stream
pub mod Effects
pub mod Identity
mod Tests
unfoldable pub use Serial.*
use hakuraku.Prelude.{
  ℕ, ◌+◌, ◌≡◌, Bool, true, false, List, [], ◌∷◌, ◌++◌, Option, none, some, map, Text, codes,
  text_eq, lookup, insert, ℤ, pos, as_i64, Result, ok, err, if◌then◌else◌,
}
use hakuraku.Core.Proto.{
  NetworkInterface, TemperatureSensor, NodeStats, ProbeResult, Heartbeat, Payload, stats, heartbeat,
  probe_result, TelemetryMessage,
}
use hakuraku.Core.Auth.{Bytes, Crates, Status, unauthenticated, Request}
use hakuraku.Core.Auth.Interceptor.{id_key}
use hakuraku.Server.State.{
  Channel, Json, NodeUpdate, online, NodeInfo, IngestionItem, stats_item, probe_item, Metrics,
  AppState, send_to_worker,
}

-- One result of `inbound.next()`, with what the handler meets while it serves it.
pub record Inbound (F : Type 0) : Type 0 where
  pub received : Option (TelemetryMessage F)
  pub clock : Option ℕ
  pub agent_reads : Bool

-- The state of one stream's task: the shared state, and the acknowledgements sent to the agent.
pub record Task (J Q : Type 0) : Type 0 where
  pub app : AppState J Q
  pub acks : List ℤ

-- What one message leads to: the next round, the end of the task, or a panic of it.
pub data Outcome (J Q : Type 0) : Type 0 where
  goes_on : Task J Q → Outcome J Q
  ends : Task J Q → Outcome J Q
  panics : Outcome J Q

-- `unwrap_or_default().as_millis() as i64`.
unfoldable pub now_ms : Option ℕ → ℤ
now_ms none = pos 0
now_ms (some t) = as_i64 t

abbrev pub spoofing : Metrics → Metrics
spoofing m = record m {
  auth_failures = m.auth_failures ++ (codes "grpc", codes "node_id_spoofing") ∷ [];
}

abbrev pub counted : Text → Text → Metrics → Metrics
counted node_id kind m = record m { grpc_messages = m.grpc_messages ++ (node_id, kind) ∷ [] }

-- `nodes.get_mut`: only a registered node is touched.
abbrev pub touch :
    {J : Type 0}
    → Text
    → Heartbeat
    → Option (NodeInfo J)
    → List (Text × NodeInfo J)
    → List (Text × NodeInfo J)
touch me hb none nodes = nodes
touch me hb (some n) nodes =
    insert me (record n { last_seen_ms = hb.timestamp_ms; status = online }) nodes

-- The check on the header that the interceptor let through.
unfoldable pub authenticated_node_id : Crates → Request → Result Status Text
authenticated_node_id c req = elim (lookup id_key req) [
  | none ↦ err (unauthenticated (codes "missing x-pulse-node-id header"))
  | some value ↦ elim (c.to_str value) [
    | none ↦ err (unauthenticated (codes "invalid x-pulse-node-id header"))
    | some id ↦ ok id
  ]
]

module _ {J Q : Type 0} where
  abbrev pub count : Text → Text → Task J Q → Task J Q
  count me kind t = record t { app = record (t.app) { metrics = counted me kind t.app.metrics } }

  abbrev pub reject : Task J Q → Outcome J Q
  reject t = ends (record t { app = record (t.app) { metrics = spoofing t.app.metrics } })

  abbrev pub register : Text → NodeInfo J → Task J Q → Task J Q
  register me n t = record t { app = record (t.app) { nodes = insert me n t.app.nodes } }

  abbrev pub broadcast : NodeUpdate J → Task J Q → Task J Q
  broadcast u t = record t { app = record (t.app) { sent = t.app.sent ++ u ∷ [] } }

  abbrev pub queued_as : Task J Q → Option (AppState J Q) → (Task J Q → Outcome J Q) → Outcome J Q
  queued_as t none k = panics
  queued_as t (some st) k = k (record t { app = st })

  abbrev pub acknowledge : Bool → ℤ → Task J Q → Outcome J Q
  acknowledge reads now t =
      if reads then goes_on (record t { acks = t.acks ++ now ∷ [] }) else ends t

  abbrev pub refresh : Text → Heartbeat → Task J Q → Task J Q
  refresh me hb t = record t {
    app = record (t.app) { nodes = touch me hb (lookup me t.app.nodes) t.app.nodes };
  }

  unfoldable pub handle_heartbeat : Text → Task J Q → Heartbeat → Option ℕ → Bool → Outcome J Q
  handle_heartbeat me t hb clock reads =
      if text_eq hb.node_id me
      then acknowledge reads (now_ms clock) (refresh me hb (count me (codes "heartbeat") t))
      else reject t

  abbrev pub then_serve : Outcome J Q → (Task J Q → Outcome J Q) → Outcome J Q
  then_serve (goes_on t) k = k t
  then_serve (ends t) k = ends t
  then_serve panics k = panics

abbrev pub info_of : {J : Type 0} → Text → ℤ → J → NodeInfo J
info_of me timestamp_ms value = record {
  node_id = me;
  hostname = me;
  last_seen_ms = timestamp_ms;
  status = online;
  latest_stats = some value;
}

abbrev pub update_of : {J : Type 0} → Text → ℤ → J → NodeUpdate J
update_of me timestamp_ms value = record {
  node_id = me;
  timestamp_ms = timestamp_ms;
  stats = value;
}

module _ {J Q : Type 0} (ch : Channel Q (IngestionItem J)) (hash : Text → ℕ) (me : Text) where
  abbrev pub enqueue : Task J Q → IngestionItem J → (Task J Q → Outcome J Q) → Outcome J Q
  enqueue t item k = queued_as t (send_to_worker ch hash t.app me item) k

  unfoldable pub store_stats : Json J → Task J Q → ℤ → Option J → Outcome J Q
  store_stats json t timestamp_ms none = goes_on t
  store_stats json t timestamp_ms (some value) =
      enqueue (register me (info_of me timestamp_ms value) t)
        (stats_item me timestamp_ms (json.to_string value) value)
        (λ t'. goes_on (broadcast (update_of me timestamp_ms value) t'))

  unfoldable pub handle_probe : Task J Q → ProbeResult → Option ℕ → Outcome J Q
  handle_probe t p clock =
      enqueue (count me (codes "probe_result") t)
        (probe_item me p.target p.success (as_i64 p.latency_us) p.error_message (now_ms clock))
        goes_on

module _ {F J Q : Type 0} (json : Json J) (to_value : StatsSerializable F → Option J)
    (ch : Channel Q (IngestionItem J)) (hash : Text → ℕ) (me : Text) where
  unfoldable pub handle_stats : Task J Q → NodeStats F → Outcome J Q
  handle_stats t s =
      if text_eq s.node_id me
      then store_stats ch hash me json (count me (codes "stats") t) s.timestamp_ms
          (to_value (serializable s))
      else reject t

  -- One round of the loop; `none` is an error of the transport.
  unfoldable pub serve_message :
      Task J Q → Option (TelemetryMessage F) → Option ℕ → Bool → Outcome J Q
  serve_message t none clock reads = ends t
  serve_message t (some none) clock reads = goes_on t
  serve_message t (some (some (stats s))) clock reads = handle_stats t s
  serve_message t (some (some (heartbeat hb))) clock reads = handle_heartbeat me t hb clock reads
  serve_message t (some (some (probe_result p))) clock reads = handle_probe ch hash me t p clock

  abbrev pub serve : Task J Q → Inbound F → Outcome J Q
  serve t i = serve_message t i.received i.clock i.agent_reads

  -- The loop: it ends with the agent's stream.
  unfoldable pub stream : Task J Q → List (Inbound F) → Outcome J Q
  stream t [] = ends t
  stream t (i ∷ is) = then_serve (serve t i) (λ t'. stream t' is)
