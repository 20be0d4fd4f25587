-- ===== src/Server/System/Invariant.antt =====
-- What every run of the server keeps, whichever task moves next.
use hakuraku.Prelude.{
  List, ◌∷◌, ℕ, ◌<◌, ◌≡◌, refl, sym, ap, subst, ◌∙◌, ◌⊎◌, inl, inr, Bool, [], Option, Text, length,
  length-set, arith,
}
use hakuraku.Server.State.{Channel, IsChannel, Json, IngestionItem}
use hakuraku.Server.State.Shards.{IsPlaced}
use hakuraku.Server.Grpc.{StatsSerializable, Task, Outcome, goes_on, ends, now_ms, serve_message}
use hakuraku.Server.Grpc.Own.{IsKeyed, insert-IsKeyed, IsOwn, Leaves}
use hakuraku.Server.Grpc.Stream.{serve_message-IsOwn}
use hakuraku.Server.Db.{Database, get_all_nodes, info_of_row, joined}
use hakuraku.Server.Db.Retention.{IsReferenced}
use hakuraku.Server.Api.{Unicode}
use hakuraku.Server.Db
use hakuraku.Server.System.Queries.{SameRows, get_node-SameRows, get_node_history-SameRows}
use hakuraku.Server.System.{
  System, NodeRequest, start, Step, serves, works, posts, ticks, announces, cleans, asks, gets,
  fills, reads_history, Reach, here, next,
}
use hakuraku.Server.System.Sound.{IsSound, start-IsSound}
use hakuraku.Server.Victoria.{Value}
use hakuraku.Server.Victoria.Permits.{push_item-IsWhole, finish-IsWhole}
use hakuraku.Server.System.Counting.{load, received, Balanced, serve_message-Balanced}
use hakuraku.Server.System.Keeping.{
  rows, queued-recv, recv-IsPlaced, store_item-rows, store_item-IsReferenced, cleanup_tick-rows,
  cleanup_tick-IsReferenced, sweep-IsKeyed, announce-keeps,
}

-- The task that an outcome leaves.
pub left :
    {J Q : Type 0} (P : Task J Q → Type 0) (o : Outcome J Q) (v : Task J Q)
    → Leaves P o
    → (o ≡ goes_on v) ⊎ (o ≡ ends v)
    → P v
left P o v p (inl e) = subst (Leaves P) e p
left P o v p (inr e) = subst (Leaves P) e p

module _ {F J O Q : Type 0} {capacity : ℕ} (json : Json J) (values : Value J O F)
    (url : Option Text) (to_value : StatsSerializable F → Option J)
    (ch : Channel Q (IngestionItem J)) (doc : IsChannel capacity ch) (hash : Text → ℕ)
    (u : Unicode) where
  serves-IsSound :
      (base : ℕ) (s : System J Q) (me : Text) (t v : Task J Q)
      → t.app ≡ s.app
      → IsOwn ch doc hash me t.app v.app
      → Balanced ch doc hash t.app v.app
      → IsSound ch doc hash base s
      → IsSound ch doc hash base (record s { app = v.app })
  serves-IsSound base s me t v e own more h = record {
    keyed = own.keyed (subst (λ a. IsKeyed a.nodes) (sym e) h.keyed);
    workers = own.workers ∙ (ap (λ a. length a.worker_txs) e ∙ h.workers);
    placed =
        own.placed
          (subst (λ a. IsPlaced ch doc hash (length a.worker_txs) a.worker_txs) (sym e) h.placed);
    referenced = h.referenced;
    posts = h.posts;
    once = omega (arith, h.once, more, ap (λ a. load ch doc hash a) e, ap (λ a. received a) e);
  }

  queries-IsSound :
      (base : ℕ) (s : System J Q) (db : Database J) (requests : List (NodeRequest J))
      → SameRows s.db db
      → IsSound ch doc hash base s
      → IsSound ch doc hash base (record s { db = db; requests = requests })
  queries-IsSound base s db requests (same, known) h = record {
    keyed = h.keyed;
    workers = h.workers;
    placed = h.placed;
    referenced = known h.referenced;
    posts = h.posts;
    once = omega (arith, h.once, same);
  }

  Step-IsSound :
      {s v : System J Q} (base : ℕ)
      → Step json values url to_value ch hash u s v
      → IsSound ch doc hash base s
      → IsSound ch doc hash base v
  Step-IsSound base (serves s me t w msg clock reads same o) h =
      let some_worker : 0 < length t.app.worker_txs =
        omega (arith, ap (λ a. length a.worker_txs) same, h.workers) in
      let out = serve_message json to_value ch hash me t msg clock reads in
      serves-IsSound base s me t w same
        (left (λ x. IsOwn ch doc hash me t.app x.app) out w
          (serve_message-IsOwn json to_value ch doc hash me t msg clock reads some_worker) o)
        (left (λ x. Balanced ch doc hash t.app x.app) out w
          (serve_message-Balanced json to_value ch doc hash me t msg clock reads some_worker) o)
        h
  Step-IsSound base (works s i q q' item a found e) h = record {
    keyed = h.keyed;
    workers = length-set s.app.worker_txs i q' ∙ h.workers;
    placed = rw (length-set s.app.worker_txs i q') (
        recv-IsPlaced ch doc hash (length s.app.worker_txs) s.app.worker_txs i q q' item found e
          h.placed);
    referenced = store_item-IsReferenced json a s.db item h.referenced;
    posts = push_item-IsWhole values url item s.pushes h.posts;
    once = omega (
      arith,
      h.once,
      store_item-rows json a s.db item,
      queued-recv ch doc s.app.worker_txs i q q' item found e,
    );
  }
  Step-IsSound base (posts s i sent under_way) h = record {
    keyed = h.keyed;
    workers = h.workers;
    placed = h.placed;
    referenced = h.referenced;
    posts = finish-IsWhole i sent s.pushes under_way h.posts;
    once = h.once;
  }
  Step-IsSound base (ticks s clock) h = record {
    keyed = sweep-IsKeyed (now_ms clock) s.app.nodes h.keyed;
    workers = h.workers;
    placed = h.placed;
    referenced = h.referenced;
    posts = h.posts;
    once = h.once;
  }
  Step-IsSound base (announces s up clock n ns first) h =
      let (r, same) = announce-keeps json up clock (n ∷ []) s.db s.app.sent h.referenced in
      record {
        keyed = h.keyed;
        workers = h.workers;
        placed = h.placed;
        referenced = r;
        posts = h.posts;
        once = omega (arith, h.once, same);
      }
  Step-IsSound base (cleans s answers answers' clock) h = record {
    keyed = h.keyed;
    workers = h.workers;
    placed = h.placed;
    referenced = cleanup_tick-IsReferenced json answers answers' clock s.db h.referenced;
    posts = h.posts;
    once = omega (arith, h.once, cleanup_tick-rows answers answers' clock s.db);
  }
  Step-IsSound base (asks s node_id valid missing) h = record {
    keyed = h.keyed;
    workers = h.workers;
    placed = h.placed;
    referenced = h.referenced;
    posts = h.posts;
    once = h.once;
  }
  Step-IsSound base (gets s i node_id up found) h =
      queries-IsSound base s (Db.get_node up s.db node_id).0 _ (get_node-SameRows up s.db node_id) h
  Step-IsSound base (fills s i n found) h = record {
    keyed = insert-IsKeyed n.node_id n s.app.nodes refl h.keyed;
    workers = h.workers;
    placed = h.placed;
    referenced = h.referenced;
    posts = h.posts;
    once = h.once;
  }
  Step-IsSound base (reads_history s up clock node_id range limit db r e) h =
      queries-IsSound base s db s.requests
        (get_node_history-SameRows u up clock s.db db node_id range limit r e) h

  -- From a database in which every snapshot and probe result is of a known node, and with empty
  -- queues, every run of the server keeps the following, in whatever order its tasks move and
  -- whatever the agents send and the database answers: each registry entry stands under its own
  -- node, no worker is lost, each waiting item is in the queue of its node and no queue exceeds its
  -- capacity, snapshots and probe results are of known nodes, the posts under way and the permits
  -- that are left are the 64 of the semaphore, and the rows in the database, the
  -- waiting items and the dropped items are together no more than the rows at the start and the
  -- statistics and probe results received since.
  pub Reach-IsSound :
      (q : Q) (answers : Bool) (db : Database J) (s : System J Q)
      → ch.contents q ≡ []
      → IsReferenced db
      → Reach json values url to_value ch hash u (start q answers db) s
      → IsSound ch doc hash (rows db) s
  Reach-IsSound q answers db s empty h here = start-IsSound ch doc hash q answers db empty h
  Reach-IsSound q answers db s empty h (next {t} run step) =
      Step-IsSound (rows db) step (Reach-IsSound q answers db t empty h run)
