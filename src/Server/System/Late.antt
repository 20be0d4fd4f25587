-- ===== src/Server/System/Late.antt =====
-- The announcement of a silent node and the node's own stream, when they cross.
use hakuraku.Prelude.{
  List, ℕ, ◌<◌, ◌≡◌, refl, ap, ◌∙◌, true, [], ◌∷◌, ◌++◌, Option, some, Text, codes, lookup,
  lookup-insert_self, length, inl, subst,
}
use mathlib.Core.List.{append_assoc}
use hakuraku.Core.Proto.{NodeStats, stats}
use hakuraku.Server.State.{NodeInfo, NodeUpdate, Channel, IsChannel, Json, IngestionItem, AppState}
use hakuraku.Server.Grpc.{StatsSerializable, serializable, info_of, update_of, now_ms}
use hakuraku.Server.Grpc.Effects.{serve_stats}
use hakuraku.Server.Db.{Database, NodeEntry, upsert_node}
use hakuraku.Server.Liveness.{sweep, announce, update_for}
use hakuraku.Server.Victoria.{Value, Pushes}
use hakuraku.Server.Api.{Unicode}
use hakuraku.Server.System.{System, serves, ticks, announces, Reach, here, next}

-- The row of a node that was announced.
abbrev pub gone_at : Text → Option ℕ → NodeEntry
gone_at node_id clock = record {
  hostname = node_id;
  last_seen = now_ms clock;
  status = codes "offline";
}

announced :
    {J : Type 0} (json : Json J) (clock : Option ℕ) (n : NodeInfo J) (db : Database J)
    (sent : List (NodeUpdate J))
    → (lookup n.node_id (announce json true clock (n ∷ []) (db, sent)).0.nodes
        ≡ some (gone_at n.node_id clock))
      × ((announce json true clock (n ∷ []) (db, sent)).1 ≡ sent ++ update_for json n ∷ [])
unfolding announce upsert_node
announced json clock n db sent = (lookup-insert_self n.node_id _ db.nodes, refl)

module _ {F J O Q : Type 0} {capacity : ℕ} (json : Json J) (values : Value J O F)
    (url : Option Text) (to_value : StatsSerializable F → Option J)
    (ch : Channel Q (IngestionItem J)) (doc : IsChannel capacity ch) (hash : Text → ℕ)
    (u : Unicode) where
  -- Where the liveness loop takes a node offline, there is a run in which the node's next statistics
  -- arrive before the loop gets to its announcement: in the end the registry has the node online with
  -- the new statistics, the subscribers were sent these and then the old ones, and the row in the
  -- database says offline, last seen when the announcement was made.
  pub late_announcement :
      (app : AppState J Q) (db : Database J) (p : Pushes) (me : Text) (n : NodeInfo J)
      (ns : List (NodeInfo J)) (s : NodeStats F) (value : J) (clock clock' : Option ℕ)
      → (sweep (now_ms clock) app.nodes).transitions ≡ n ∷ ns
      → n.node_id ≡ me
      → s.node_id ≡ me
      → to_value (serializable s) ≡ some value
      → 0 < length app.worker_txs
      → (b : System J Q) × Reach json values url to_value ch hash u
          (record { app = app; db = db; requests = []; pushes = p; leaving = [] })
          b
        × (lookup me b.app.nodes ≡ some (info_of me s.timestamp_ms value))
        × (b.app.sent ≡ app.sent ++ update_of me s.timestamp_ms value ∷ update_for json n ∷ [])
        × (lookup me b.db.nodes ≡ some (gone_at me clock'))
  late_announcement app db p me n ns s value clock clock' silent its own represented h =
      let s0 : System J Q = record {
        app = app;
        db = db;
        requests = [];
        pushes = p;
        leaving = [];
      } in
      let swept : AppState J Q = record app { nodes = (sweep (now_ms clock) app.nodes).nodes } in
      let s1 : System J Q = record s0 {
        app = swept;
        leaving = (sweep (now_ms clock) app.nodes).transitions;
      } in
      let (t, served, newest, told, _, _) =
        serve_stats json to_value ch doc hash me (record { app = swept; acks = [] }) s value clock
          true own represented h in
      let s2 : System J Q = record s1 { app = t.app } in
      let (row, sent) = announced json clock' n db t.app.sent in
      let run : Reach json values url to_value ch hash u s0 s2 = next (next here (ticks s0 clock)) (
        serves s1 me (record { app = swept; acks = [] }) t (some (some (stats s))) clock true refl
          (inl served)) in
      (
        _,
        next run (announces s2 true clock' n ns silent),
        newest,
        sent
            ∙ (ap (λ l. l ++ update_for json n ∷ []) told
                ∙ append_assoc app.sent (update_of me s.timestamp_ms value ∷ [])
                    (update_for json n ∷ [])),
        subst
            (λ k.
              lookup k (announce json true clock' (n ∷ []) (db, t.app.sent)).0.nodes
              ≡ some (gone_at k clock'))
            its row,
      )
