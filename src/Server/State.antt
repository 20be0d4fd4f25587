-- ===== src/Server/State.antt =====
-- pulse-server/src/state.rs: the state that the handlers share, and the way to the workers.
-- A counter with labels (pulse-server/src/metrics.rs) is the list of the labels it was raised with.
pub mod Shards
use hakuraku.Prelude.{
  ℕ, ◌+◌, ◌%◌, ◌≤◌, ◌<◌, ◌≡◌, ◌≢◌, Bool, List, [], ◌∷◌, ◌++◌, Option, none, some, Text, codes, ℤ,
  length, get_elem?, set,
}

-- `tokio::sync::mpsc` with a bound: `try_send` fails on a full or closed channel.
pub record Channel (Q A : Type 0) : Type 0 where
  pub try_send : Q → A → Option Q
  pub recv : Q → Option (A × Q)
  pub contents : Q → List A

pub record IsChannel {Q A : Type 0} (capacity : ℕ) (ch : Channel Q A) : Type 0 where
  pub sent :
      (q q' : Q) (a : A) → ch.try_send q a ≡ some q' → ch.contents q' ≡ ch.contents q ++ a ∷ []
  pub bounded : (q q' : Q) (a : A) → ch.try_send q a ≡ some q' → length (ch.contents q') ≤ capacity
  pub received : (q q' : Q) (a : A) → ch.recv q ≡ some (a, q') → ch.contents q ≡ a ∷ ch.contents q'

-- `serde_json`: the type of values, their text, and null.
pub record Json (J : Type 0) : Type 0 where
  pub to_string : J → Text
  pub from_str : Text → Option J
  pub null : J

pub record NodeUpdate (J : Type 0) : Type 0 where
  pub node_id : Text
  pub timestamp_ms : ℤ
  pub stats : J

pub data NodeStatus : Type 0 where
  online offline unknown : NodeStatus

unfoldable pub display : NodeStatus → Text
display online = codes "online"
display offline = codes "offline"
display unknown = codes "unknown"

pub record NodeInfo (J : Type 0) : Type 0 where
  pub node_id : Text
  pub hostname : Text
  pub last_seen_ms : ℤ
  pub status : NodeStatus
  pub latest_stats : Option J

pub data IngestionItem (J : Type 0) : Type 0 where
  stats_item : Text → ℤ → Text → J → IngestionItem J
  probe_item : Text → Text → Bool → ℤ → Text → ℤ → IngestionItem J

-- `id_of` is the item's node.
abbrev pub id_of : {J : Type 0} → IngestionItem J → Text
id_of (stats_item node_id t s j) = node_id
id_of (probe_item node_id target success latency e t) = node_id

pub record Metrics : Type 0 where
  pub auth_failures : List (Text × Text)
  pub grpc_messages : List (Text × Text)
  pub ingestion_drops : ℕ
  pub db_errors : List Text

-- `sent` is all that went into the broadcast channel, oldest first.
pub record AppState (J Q : Type 0) : Type 0 where
  pub sent : List (NodeUpdate J)
  pub nodes : List (Text × NodeInfo J)
  pub worker_txs : List Q
  pub metrics : Metrics

-- The index of the worker; `DefaultHasher` is the hash.
unfoldable pub shard : {J Q : Type 0} → (Text → ℕ) → AppState J Q → Text → ℕ
shard hash st node_id = hash node_id % length st.worker_txs

abbrev pub after_offer : {J Q : Type 0} → AppState J Q → ℕ → Option Q → AppState J Q
after_offer st i none = record st {
  metrics = record (st.metrics) { ingestion_drops = st.metrics.ingestion_drops + 1 };
}
after_offer st i (some q') = record st { worker_txs = set st.worker_txs i q' }

module _ {J Q : Type 0} (ch : Channel Q (IngestionItem J)) where
  abbrev pub offer : AppState J Q → ℕ → IngestionItem J → Q → AppState J Q
  offer st i item q = after_offer st i (ch.try_send q item)

  abbrev offer_to : AppState J Q → ℕ → IngestionItem J → Option Q → Option (AppState J Q)
  offer_to st i item none = none
  offer_to st i item (some q) = some (offer st i item q)

  -- `none` is the panic when there is no worker.
  unfoldable pub send_to_worker :
      (Text → ℕ) → AppState J Q → Text → IngestionItem J → Option (AppState J Q)
  unfolding shard
  send_to_worker hash st node_id item =
      offer_to st (shard hash st node_id) item (get_elem? st.worker_txs (shard hash st node_id))
