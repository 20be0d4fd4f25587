-- ===== src/Server/System.antt =====
-- pulse-server/src/main.rs: the server as a whole. Its parts run as tasks that share the registry,
-- the queues and the database, so a run is a sequence of steps of theirs, in any order. A task that
-- waits for the database between two changes of the registry has a step for each part; the two
-- statements with which a worker stores an item are one step.
pub mod Counting
pub mod Keeping
pub mod Queries
pub mod Sound
pub mod Invariant
pub mod Unlost
pub mod Accounts
pub mod Shutdown
pub mod Interleaving
pub mod Orders
pub mod Stale
pub mod Late
pub mod Toys
mod Tests
use hakuraku.Prelude.{
  ◌<◌, length, ℕ, zero, suc, ◌≡◌, ◌⊎◌, Bool, List, [], ◌∷◌, Option, some, Text, lookup, true, none,
  ℤ, ◌++◌, Result, ok, err, get_elem?, set,
}
use hakuraku.Core.Proto.{TelemetryMessage}
use hakuraku.Server.State.{Channel, Json, IngestionItem, AppState, Metrics, NodeInfo}
use hakuraku.Server.Grpc.{StatsSerializable, Task, goes_on, ends, now_ms, serve_message}
use hakuraku.Server.Db.{Database, DbError}
use hakuraku.Server.Liveness.{sweep, announce}
use hakuraku.Server.Victoria.{Value, Pushes, no_pushes, push_item, finish, remove_at}
use hakuraku.Server.Worker.{Answers, store_item, load_nodes, cleanup_tick}
use hakuraku.Server.Api.{Unicode, is_valid_node_id}
use hakuraku.Server.Api.Handlers.{Reply, from_database, get_node_history}
use hakuraku.Server.Db

-- A request for a node that the registry does not have: it waits for the database, or it has the
-- answer and will write it into the registry.
pub data NodeRequest (J : Type 0) : Type 0 where
  waits : Text → NodeRequest J
  caches : NodeInfo J → NodeRequest J

pub record System (J Q : Type 0) : Type 0 where
  pub app : AppState J Q
  pub db : Database J
  pub requests : List (NodeRequest J)
  pub pushes : Pushes
  -- The nodes that the liveness loop took offline and will announce.
  pub leaving : List (NodeInfo J)

-- `worker_count`.
abbrev pub worker_count : ℕ
worker_count = 4

abbrev pub replicate {ℓ} : {A : Type ℓ} → ℕ → A → List A
replicate zero x = []
replicate (suc n) x = x ∷ replicate n x

abbrev pub no_metrics : Metrics
no_metrics = record { auth_failures = []; grpc_messages = []; ingestion_drops = 0; db_errors = [] }

-- `AppState::new`, with one queue for each worker.
abbrev pub new_state : {J Q : Type 0} → Q → AppState J Q
new_state q = record {
  sent = [];
  nodes = [];
  worker_txs = replicate worker_count q;
  metrics = no_metrics;
}

-- The start: new queues, and the registry from the database.
unfoldable pub start : {J Q : Type 0} → Q → Bool → Database J → System J Q
start q answers db = record {
  app = load_nodes answers (new_state q) db;
  db = db;
  requests = [];
  pushes = no_pushes;
  leaving = [];
}

-- What a request goes on with after the database's answer.
abbrev pub after_query : {J : Type 0} → Result DbError (Option (NodeInfo J)) → List (NodeRequest J)
after_query (ok (some n)) = caches n ∷ []
after_query (ok none) = []
after_query (err e) = []

module _ {F J O Q : Type 0} (json : Json J) (values : Value J O F) (url : Option Text)
    (to_value : StatsSerializable F → Option J) (ch : Channel Q (IngestionItem J)) (hash : Text → ℕ)
    (u : Unicode) where
  pub data Step : System J Q → System J Q → Type 0 where
    -- The task of a stream signed by `me` serves a message, and goes on or ends.
    serves :
        (s : System J Q) (me : Text) (t t' : Task J Q) (msg : Option (TelemetryMessage F))
        (clock : Option ℕ) (reads : Bool)
        → t.app ≡ s.app
        → (serve_message json to_value ch hash me t msg clock reads ≡ goes_on t')
          ⊎ (serve_message json to_value ch hash me t msg clock reads ≡ ends t')
        → Step s (record s { app = t'.app })
    -- The worker of queue `i` takes an item and stores it.
    works :
        (s : System J Q) (i : ℕ) (q q' : Q) (item : IngestionItem J) (a : Answers)
        → get_elem? s.app.worker_txs i ≡ some q
        → ch.recv q ≡ some (item, q')
        → Step s (record s {
          app = record (s.app) { worker_txs = set s.app.worker_txs i q' };
          db = store_item json a s.db item;
          pushes = push_item values url item s.pushes;
        })
    -- A post of a snapshot ends.
    posts :
        (s : System J Q) (i : ℕ) (sent : Bool)
        → i < length s.pushes.in_flight
        → Step s (record s { pushes = finish i sent s.pushes })
    -- The liveness loop goes over the registry.
    ticks :
        (s : System J Q) (clock : Option ℕ)
        → Step s (record s {
          app = record (s.app) { nodes = (sweep (now_ms clock) s.app.nodes).nodes };
          leaving = s.leaving ++ (sweep (now_ms clock) s.app.nodes).transitions;
        })
    -- It announces the first node that it took offline.
    announces :
        (s : System J Q) (up : Bool) (clock : Option ℕ) (n : NodeInfo J) (ns : List (NodeInfo J))
        → s.leaving ≡ n ∷ ns
        → Step s (record s {
          app = record (s.app) { sent = (announce json up clock (n ∷ []) (s.db, s.app.sent)).1 };
          db = (announce json up clock (n ∷ []) (s.db, s.app.sent)).0;
          leaving = ns;
        })
    -- The clean-up ticks.
    cleans :
        (s : System J Q) (answers answers' : Bool) (clock : Option ℕ)
        → Step s (record s { db = cleanup_tick answers answers' clock s.db })
    -- A client asks for a node that the registry does not have.
    asks :
        (s : System J Q) (node_id : Text)
        → is_valid_node_id u node_id ≡ true
        → lookup node_id s.app.nodes ≡ none
        → Step s (record s { requests = s.requests ++ waits node_id ∷ [] })
    -- The database answers a request.
    gets :
        (s : System J Q) (i : ℕ) (node_id : Text) (up : Bool)
        → get_elem? s.requests i ≡ some (waits node_id)
        → Step s (record s {
          db = (Db.get_node up s.db node_id).0;
          requests = remove_at i s.requests ++ after_query (Db.get_node up s.db node_id).1;
        })
    -- A request writes its answer into the registry.
    fills :
        (s : System J Q) (i : ℕ) (n : NodeInfo J)
        → get_elem? s.requests i ≡ some (caches n)
        → Step s (record s {
          app = (from_database s.app (ok (some n))).0;
          requests = remove_at i s.requests;
        })
    -- A client asks for a node's history, and the handler does not panic.
    reads_history :
        (s : System J Q) (up : Bool) (clock : Option ℕ) (node_id range : Text) (limit : ℤ)
        (db : Database J) (r : Reply J)
        → get_node_history u up clock s.db node_id range limit ≡ some (db, r)
        → Step s (record s { db = db })

  pub data Reach (s : System J Q) : System J Q → Type 0 where
    here : Reach s s
    next : {t v : System J Q} → Reach s t → Step t v → Reach s v
