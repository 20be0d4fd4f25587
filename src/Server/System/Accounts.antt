-- ===== src/Server/System/Accounts.antt =====
-- That no item is lost on its way, where the database answers and every snapshot has a JSON value.
use hakuraku.Prelude.{
  ℕ, ◌+◌, ◌≤◌, ◌<◌, ◌≡◌, refl, ap, Bool, true, false, Option, some, Text, codes, length, lookup,
  arith, ℤ, map, keep_if, [], ◌∷◌, lookup-insert_self,
}
use hakuraku.Server.State.{Channel, IsChannel, Json, IngestionItem, stats_item, probe_item}
use hakuraku.Server.Grpc.{StatsSerializable, now_ms, serve_message}
use hakuraku.Server.Db.{
  get_all_nodes, info_of_row, joined, ProbeRow, Database, NodeEntry, upsert_node, insert_snapshot,
  insert_probe_result,
}
use hakuraku.Server.Worker.{load_nodes, probe_row, Answers, store_item, cleanup_tick}
use hakuraku.Server.System.Counting.{load, received, is_item}
use hakuraku.Server.System.Keeping.{
  rows, upsert_node-rows, queued-recv, announce-keeps, enter-queues,
}
use hakuraku.Server.Api.{Unicode}
use hakuraku.Server.Victoria.{Value}
use hakuraku.Server.Db.Retention.{IsReferenced}
use hakuraku.Server.System.Queries.{get_node-SameRows, get_node_history-SameRows}
use hakuraku.Server.System.Invariant.{left, Reach-IsSound}
use hakuraku.Server.System.{
  System, new_state, start, Step, serves, works, posts, ticks, announces, cleans, asks, gets, fills,
  reads_history, Reach, here, next,
}
use hakuraku.Server.System.Unlost.{Unlost, IsTotal, serve_message-Unlost}

module _ {J : Type 0} where
  -- The database takes an item: it answers, and it knows the node of a probe result.
  abbrev pub Takes : Answers → Database J → IngestionItem J → Type 0
  Takes a db (stats_item node_id t s j) = (a.first ≡ true) × (a.second ≡ true)
  Takes a db (probe_item node_id target success l e t) =
      (a.first ≡ true) × ((n : NodeEntry) × (lookup node_id db.nodes ≡ some n))

  upsert_node_knows :
      (answers : Bool) (clock : Option ℕ) (db : Database J) (node_id hostname status : Text)
      → answers ≡ true
      → (n : NodeEntry) × (lookup node_id
            (upsert_node answers clock db node_id hostname status).0.nodes
          ≡ some n)
  unfolding upsert_node
  upsert_node_knows answers clock db node_id hostname status e =
      let n : NodeEntry = record {
        hostname = hostname;
        last_seen = now_ms clock;
        status = status;
      } in
      (n, rw e (lookup-insert_self node_id n db.nodes))

  insert_snapshot_grows :
      (json : Json J) (answers : Bool) (db : Database J) (node_id : Text) (t : ℤ) (s : Text)
      (n : NodeEntry)
      → answers ≡ true
      → lookup node_id db.nodes ≡ some n
      → rows (insert_snapshot json answers db node_id t s).0 ≡ rows db + 1
  unfolding insert_snapshot
  insert_snapshot_grows json answers db node_id t s n e known = rw (e, known) (omega arith)

  insert_probe_result_grows :
      (answers : Bool) (db : Database J) (row : ProbeRow) (n : NodeEntry)
      → answers ≡ true
      → lookup row.node_id db.nodes ≡ some n
      → rows (insert_probe_result answers db row).0 ≡ rows db + 1
  unfolding insert_probe_result
  insert_probe_result_grows answers db row n e known = rw (e, known) (omega arith)

  pub store_item_grows :
      (json : Json J) (a : Answers) (db : Database J) (item : IngestionItem J)
      → Takes a db item
      → rows (store_item json a db item) ≡ rows db + 1
  unfolding store_item
  store_item_grows json a db (stats_item node_id t s j) (first, second) =
      let db' = (upsert_node a.first a.clock db node_id node_id (codes "online")).0 in
      let (n, known) =
        upsert_node_knows a.first a.clock db node_id node_id (codes "online") first in
      omega (
        arith,
        insert_snapshot_grows json a.second db' node_id t s n second known,
        upsert_node-rows a.first a.clock db node_id node_id (codes "online"),
      )
  store_item_grows json a db (probe_item node_id target success l e t) (first, (n, known)) =
      insert_probe_result_grows a.first db (probe_row node_id target success l e t) n first known

module _ {F J O Q : Type 0} {capacity : ℕ} (json : Json J) (values : Value J O F)
    (url : Option Text) (to_value : StatsSerializable F → Option J)
    (ch : Channel Q (IngestionItem J)) (doc : IsChannel capacity ch) (hash : Text → ℕ)
    (u : Unicode) where
  -- The database takes the item that a worker stores, and the clean-up finds nothing that is old.
  abbrev pub Quiet : {s v : System J Q} → Step json values url to_value ch hash u s v → Type 0
  Quiet (works s i q q' item a found e) = Takes a s.db item
  Quiet (cleans s answers answers' clock) =
      rows (cleanup_tick answers answers' clock s.db) ≡ rows s.db
  Quiet (serves s me t t' msg clock reads same o) = Unit
  Quiet (posts s i sent under_way) = Unit
  Quiet (ticks s clock) = Unit
  Quiet (announces s up clock n ns first) = Unit
  Quiet (asks s node_id valid missing) = Unit
  Quiet (gets s i node_id up found) = Unit
  Quiet (fills s i n found) = Unit
  Quiet (reads_history s up clock node_id range limit db r e) = Unit

  abbrev pub AllQuiet : {s v : System J Q} → Reach json values url to_value ch hash u s v → Type 0
  AllQuiet here = Unit
  AllQuiet (next run step) = AllQuiet run × Quiet step

  -- The rows and the items that wait or were dropped.
  abbrev accounted : System J Q → ℕ
  accounted s = rows s.db + load ch doc hash s.app

  Step-least :
      {s v : System J Q}
      → IsTotal to_value
      → (step : Step json values url to_value ch hash u s v) → Quiet step
      → 0 < length s.app.worker_txs
      → IsReferenced s.db
      → accounted s + received v.app ≤ accounted v + received s.app
  Step-least all (serves s me t w msg clock reads same o) quiet h known =
      let more : Unlost ch doc hash t.app w.app =
        left (λ x. Unlost ch doc hash t.app x.app)
          (serve_message json to_value ch hash me t msg clock reads) w
          (serve_message-Unlost json to_value ch doc hash me t msg clock reads all
            (omega (arith, ap (λ a. length a.worker_txs) same, h)))
          o in
      omega (arith, more, ap (λ a. load ch doc hash a) same, ap (λ a. received a) same)
  Step-least all (works s i q q' item a found e) quiet h known = omega (
    arith,
    store_item_grows json a s.db item quiet,
    queued-recv ch doc s.app.worker_txs i q q' item found e,
  )
  Step-least all (posts s i sent under_way) quiet h known = omega arith
  Step-least all (ticks s clock) quiet h known = omega arith
  Step-least all (announces s up clock n ns first) quiet h known =
      omega (arith, (announce-keeps json up clock (n ∷ []) s.db s.app.sent known).1)
  Step-least all (cleans s answers answers' clock) quiet h known = omega (arith, quiet)
  Step-least all (asks s node_id valid missing) quiet h known = omega arith
  Step-least all (gets s i node_id up found) quiet h known =
      omega (arith, (get_node-SameRows up s.db node_id).0)
  Step-least all (fills s i n found) quiet h known = omega arith
  Step-least all (reads_history s up clock node_id range limit db r e) quiet h known =
      omega (arith, (get_node_history-SameRows u up clock s.db db node_id range limit r e).0)

  start-counts :
      (q : Q) (answers : Bool) (db : Database J)
      → (received (start q answers db).app ≡ 0) × (rows (start q answers db).db ≡ rows db)
  unfolding start load_nodes get_all_nodes
  start-counts q false db = (refl, refl)
  start-counts q true db = (
    ap (λ m. length (keep_if is_item m.grpc_messages))
        (enter-queues (new_state q) (map (λ e. info_of_row (joined db e)) db.nodes)).1,
    refl,
  )

  -- From a database in which every snapshot and probe result is of a known node, and with empty
  -- queues, in every run of the server in which the database takes each item that a worker stores
  -- and the clean-up finds nothing that is old, where every snapshot has a JSON value: the new rows in
  -- the database, the waiting items and the dropped items are together exactly as many as the
  -- statistics and probe results that were received.
  pub Reach-accounts :
      (q : Q) (answers : Bool) (db : Database J) (s : System J Q)
      → IsTotal to_value
      → ch.contents q ≡ []
      → IsReferenced db
      → (run : Reach json values url to_value ch hash u (start q answers db) s) → AllQuiet run
      → rows s.db + load ch doc hash s.app ≡ rows db + received s.app
  Reach-accounts q answers db s all empty h run quiet =
      let sound = Reach-IsSound json values url to_value ch doc hash u q answers db s empty h run in
      omega (arith, sound.once, least s run quiet)
    where
      least :
          (s : System J Q) (run : Reach json values url to_value ch hash u (start q answers db) s)
          → AllQuiet run
          → rows db + received s.app ≤ accounted s
      least s here quiet = omega (arith, start-counts q answers db)
      least s (next {t} run step) (before, quiet) =
          let sound =
            Reach-IsSound json values url to_value ch doc hash u q answers db t empty h run in
          omega (
            arith,
            least t run before,
            Step-least all step quiet (omega (arith, sound.workers)) sound.referenced,
          )
