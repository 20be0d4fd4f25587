-- ===== src/Server/System/Sound.antt =====
-- What is true of the server at any time, and that it is true at the start.
use hakuraku.Prelude.{
  [], ℕ, zero, suc, ◌+◌, ◌≤◌, ◌≡◌, refl, ap, subst, Bool, true, false, [], some, Text, lookup,
  length, get_elem?, map, arith,
}
use hakuraku.Server.State.{Channel, IsChannel, IngestionItem, AppState}
use hakuraku.Server.State.Shards.{IsPlaced, queued}
use hakuraku.Server.Grpc.Own.{IsKeyed}
use hakuraku.Server.Db.{Database, get_all_nodes, info_of_row, joined}
use hakuraku.Server.Db.Retention.{IsReferenced}
use hakuraku.Server.Worker.{load_nodes, enter}
use hakuraku.Server.System.{System, worker_count, replicate, no_metrics, new_state, start}
use hakuraku.Server.Victoria.{no_pushes}
use hakuraku.Server.Victoria.Permits.{IsWhole}
use hakuraku.Server.System.Counting.{load, received}
use hakuraku.Server.System.Keeping.{rows, enter-IsKeyed, enter-queues}

get_elem?-replicate :
    {A : Type 0} (n i : ℕ) (x y : A) → get_elem? (replicate n x) i ≡ some y → y ≡ x
get_elem?-replicate zero i x y h = cc
get_elem?-replicate (suc n) zero x y h = ground arith
get_elem?-replicate (suc n) (suc i) x y h = get_elem?-replicate n i x y h

module _ {J Q : Type 0} {capacity : ℕ} (ch : Channel Q (IngestionItem J))
    (doc : IsChannel capacity ch) (hash : Text → ℕ) where
  pub record IsSound (base : ℕ) (s : System J Q) : Type 0 where
    -- Each registry entry stands under its own node.
    pub keyed : IsKeyed s.app.nodes
    -- No worker is lost.
    pub workers : length s.app.worker_txs ≡ worker_count
    -- Each waiting item is in the queue of its node, within the bound.
    pub placed : IsPlaced ch doc hash (length s.app.worker_txs) s.app.worker_txs
    -- Snapshots and probe results are of nodes that exist.
    pub referenced : IsReferenced s.db
    -- The permits that are left and the posts under way are those of the semaphore.
    pub posts : IsWhole s.pushes
    -- The new rows, the waiting items and the dropped items are no more than the messages received.
    pub once : rows s.db + load ch doc hash s.app ≤ base + received s.app

  fresh-IsSound :
      (q : Q) (st : AppState J Q) (db : Database J)
      → ch.contents q ≡ []
      → IsKeyed st.nodes
      → (st.worker_txs ≡ replicate worker_count q) × (st.metrics ≡ no_metrics)
      → IsReferenced db
      → IsSound
          (rows db)
          (record { app = st; db = db; requests = []; pushes = no_pushes; leaving = [] })
  fresh-IsSound q st db empty keyed (qs, ms) h = record {
    keyed = keyed;
    workers = ap length qs;
    placed = record {
      placed = λ i r found. rw (ap ch.contents (elem i r found), empty) tt;
      bounded = λ i r found. rw (ap ch.contents (elem i r found), empty) (omega arith);
    };
    referenced = h;
    posts = refl;
    once = omega (arith, ap (queued ch doc) qs, ap length empty, ap (λ m. m.ingestion_drops) ms);
  }
    where
      elem : (i : ℕ) (r : Q) → get_elem? st.worker_txs i ≡ some r → r ≡ q
      elem i r found =
          get_elem?-replicate worker_count i q r (subst (λ l. get_elem? l i ≡ some r) qs found)

  new_state-IsKeyed : (q : Q) → IsKeyed (new_state {J = J} q).nodes
  unfolding lookup
  new_state-IsKeyed q j n e = cc

  pub start-IsSound :
      (q : Q) (answers : Bool) (db : Database J)
      → ch.contents q ≡ []
      → IsReferenced db
      → IsSound (rows db) (start q answers db)
  unfolding start load_nodes get_all_nodes
  start-IsSound q false db empty h =
      fresh-IsSound q (new_state q) db empty (new_state-IsKeyed q) (refl, refl) h
  start-IsSound q true db empty h =
      let ns = map (λ e. info_of_row (joined db e)) db.nodes in
      fresh-IsSound q (enter (new_state q) ns) db empty
        (enter-IsKeyed (new_state q) ns (new_state-IsKeyed q)) (enter-queues (new_state q) ns) h
