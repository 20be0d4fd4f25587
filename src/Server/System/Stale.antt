-- ===== src/Server/System/Stale.antt =====
-- A request for a node and the node's own stream, when they cross.
use hakuraku.Prelude.{
  List, ℕ, ◌<◌, ◌≡◌, refl, ap, true, [], ◌∷◌, Option, none, some, Text, lookup, lookup-insert_self,
  get_elem?, length, inl, ok,
}
use hakuraku.Core.Proto.{NodeStats, stats}
use hakuraku.Server.State.{NodeInfo, Channel, IsChannel, Json, IngestionItem, AppState}
use hakuraku.Server.Grpc.{StatsSerializable, serializable, info_of}
use hakuraku.Server.Grpc.Effects.{serve_stats}
use hakuraku.Server.Db.{Database, DbError, NodeEntry, info_of_row, joined, row_of}
use hakuraku.Server.Db
use hakuraku.Server.Victoria.{Value, Pushes}
use hakuraku.Server.Api.{Unicode, is_valid_node_id}
use hakuraku.Server.System.{
  System, Step, asks, gets, serves, fills, waits, caches, after_query, Reach, here, next,
}

module _ {F J O Q : Type 0} {capacity : ℕ} (json : Json J) (values : Value J O F)
    (url : Option Text) (to_value : StatsSerializable F → Option J)
    (ch : Channel Q (IngestionItem J)) (doc : IsChannel capacity ch) (hash : Text → ℕ)
    (u : Unicode) where
  stored :
      (db : Database J) (me : Text) (e : NodeEntry)
      → lookup me db.nodes ≡ some e
      → (Db.get_node true db me).1 ≡ ok (some (info_of_row (joined db (me, e))))
  unfolding Db.get_node
  stored db me e known = rw known refl

  -- Where a request finds that the registry does not have a node which the database knows, there is
  -- a run in which a later snapshot of the node's own agent stands in the registry and the request
  -- then overwrites it with the row that it read before.
  pub stale_answer :
      (app : AppState J Q) (db : Database J) (p : Pushes) (ns : List (NodeInfo J)) (me : Text)
      (e : NodeEntry) (s : NodeStats F) (value : J) (clock : Option ℕ)
      → is_valid_node_id u me ≡ true
      → lookup me app.nodes ≡ none
      → lookup me db.nodes ≡ some e
      → s.node_id ≡ me
      → to_value (serializable s) ≡ some value
      → 0 < length app.worker_txs
      → (a b : System J Q) × Reach json values url to_value ch hash u
          (record { app = app; db = db; requests = []; pushes = p; leaving = ns })
          a
        × (lookup me a.app.nodes ≡ some (info_of me s.timestamp_ms value))
        × Step json values url to_value ch hash u a b
        × (lookup me b.app.nodes ≡ some (info_of_row (joined db (me, e))))
  unfolding info_of_row
  stale_answer app db p ns me e s value clock valid missing known own represented h =
      let n = info_of_row (joined db (me, e)) in
      let s0 : System J Q = record {
        app = app;
        db = db;
        requests = [];
        pushes = p;
        leaving = ns;
      } in
      let s1 : System J Q = record {
        app = app;
        db = db;
        requests = waits me ∷ [];
        pushes = p;
        leaving = ns;
      } in
      let s2 : System J Q = record {
        app = app;
        db = (Db.get_node true db me).0;
        requests = after_query (Db.get_node true db me).1;
        pushes = p;
        leaving = ns;
      } in
      let (t, served, newest, _, _, _) =
        serve_stats json to_value ch doc hash me (record { app = app; acks = [] }) s value clock
          true own represented h in
      let a : System J Q = record s2 { app = t.app } in
      let first : Reach json values url to_value ch hash u s0 s1 =
        next here (asks s0 me valid missing) in
      let second : Reach json values url to_value ch hash u s0 s2 =
        next first (gets s1 0 me true refl) in
      let third : Reach json values url to_value ch hash u s0 a = next second (
        serves s2 me (record { app = app; acks = [] }) t (some (some (stats s))) clock true refl
          (inl served)) in
      let ready : get_elem? s2.requests 0 ≡ some (caches n) =
        ap (λ r. get_elem? (after_query r) 0) (stored db me e known) in
      (a, _, third, newest, fills a 0 n ready, lookup-insert_self me n t.app.nodes)
