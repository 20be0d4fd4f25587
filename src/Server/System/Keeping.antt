-- ===== src/Server/System/Keeping.antt =====
-- What the workers, the timers and the handlers keep.
use hakuraku.Prelude.{
  ℕ, zero, suc, ◌+◌, ◌%◌, ◌≤◌, ◌≡◌, refl, sym, ap, subst, ◌∙◌, Bool, true, false, List, [], ◌∷◌,
  Option, some, map, Text, codes, length, length-keep_if-le, get_elem?, set, arith, Option-cases,
  Bool-cases, inl, inr, ℤ, lookup, insert, All, text_eq,
}
use hakuraku.Server.State.{
  Channel, IsChannel, Json, IngestionItem, stats_item, probe_item, id_of, AppState, NodeInfo,
  NodeUpdate,
}
use hakuraku.Server.State.Shards.{queued, IsPlaced, set-cases}
use hakuraku.Server.Grpc.Own.{IsKeyed, insert-IsKeyed}
use hakuraku.Server.Db.{
  Database, ProbeRow, upsert_node, insert_snapshot, insert_probe_result, cleanup_old_snapshots,
}
use hakuraku.Server.Db.Retention.{IsReferenced, writes-IsReferenced}
use hakuraku.Server.Liveness.{checked, sweep, announce}
use hakuraku.Server.Liveness.Ticks.{on_entry, sweep_lem}
use hakuraku.Server.Worker.{Answers, store_item, cleanup_tick, enter}

module _ {J : Type 0} where
  -- The rows of snapshots and probe results.
  abbrev pub rows : Database J → ℕ
  rows db = length db.snapshots + length db.probe_results

  pub upsert_node-rows :
      (answers : Bool) (clock : Option ℕ) (db : Database J) (node_id hostname status : Text)
      → rows (upsert_node answers clock db node_id hostname status).0 ≡ rows db
  unfolding upsert_node
  upsert_node-rows true clock db node_id hostname status = refl
  upsert_node-rows false clock db node_id hostname status = refl

  insert_snapshot-rows :
      (json : Json J) (answers : Bool) (db : Database J) (node_id : Text) (t : ℤ) (s : Text)
      → rows (insert_snapshot json answers db node_id t s).0 ≤ rows db + 1
  unfolding insert_snapshot
  insert_snapshot-rows json false db node_id t s = omega arith
  insert_snapshot-rows json true db node_id t s = elim (Option-cases (lookup node_id db.nodes)) [
    | inl e ↦ rw e (omega arith)
    | inr (n, e) ↦ rw e (omega arith)
  ]

  insert_probe_result-rows :
      (answers : Bool) (db : Database J) (row : ProbeRow)
      → rows (insert_probe_result answers db row).0 ≤ rows db + 1
  unfolding insert_probe_result
  insert_probe_result-rows false db row = omega arith
  insert_probe_result-rows true db row = elim (Option-cases (lookup row.node_id db.nodes)) [
    | inl e ↦ rw e (omega arith)
    | inr (n, e) ↦ rw e (omega arith)
  ]

  pub store_item-rows :
      (json : Json J) (a : Answers) (db : Database J) (item : IngestionItem J)
      → rows (store_item json a db item) ≤ rows db + 1
  unfolding store_item
  store_item-rows json a db (stats_item node_id t s j) = omega (
    arith,
    upsert_node-rows a.first a.clock db node_id node_id (codes "online"),
    insert_snapshot-rows json a.second
        (upsert_node a.first a.clock db node_id node_id (codes "online")).0 node_id t s,
  )
  store_item-rows json a db (probe_item node_id target success l e t) =
      insert_probe_result-rows a.first db _

  pub cleanup_tick-rows :
      (answers answers' : Bool) (clock : Option ℕ) (db : Database J)
      → rows (cleanup_tick answers answers' clock db) ≤ rows db
  unfolding cleanup_tick cleanup_old_snapshots
  cleanup_tick-rows false answers' clock db = omega arith
  cleanup_tick-rows true false clock db = omega (arith, length-keep_if-le _ db.snapshots)
  cleanup_tick-rows true true clock db =
      omega (arith, length-keep_if-le _ db.snapshots, length-keep_if-le _ db.probe_results)

  pub store_item-IsReferenced :
      (json : Json J) (a : Answers) (db : Database J) (item : IngestionItem J)
      → IsReferenced db
      → IsReferenced (store_item json a db item)
  unfolding store_item
  store_item-IsReferenced json a db (stats_item node_id t s j) h =
      (writes-IsReferenced json _ a.second
          ((writes-IsReferenced json db a.first h).0 a.clock node_id node_id (codes "online"))).1
        node_id t s
  store_item-IsReferenced json a db (probe_item node_id target success l e t) h =
      (writes-IsReferenced json db a.first h).2 _

  pub cleanup_tick-IsReferenced :
      (json : Json J) (answers answers' : Bool) (clock : Option ℕ) (db : Database J)
      → IsReferenced db
      → IsReferenced (cleanup_tick answers answers' clock db)
  unfolding cleanup_tick
  cleanup_tick-IsReferenced json answers answers' clock db h =
      (writes-IsReferenced json db answers h).3 answers' _

  -- Marking nodes offline writes no rows.
  pub announce-keeps :
      (json : Json J) (answers : Bool) (clock : Option ℕ) (ns : List (NodeInfo J)) (db : Database J)
      (sent : List (NodeUpdate J))
      → IsReferenced db
      → IsReferenced (announce json answers clock ns (db, sent)).0
        × (rows (announce json answers clock ns (db, sent)).0 ≡ rows db)
  unfolding announce
  announce-keeps json answers clock [] db sent h = (h, refl)
  announce-keeps json answers clock (n ∷ ns) db sent h =
      let (r, e) =
        announce-keeps json answers clock ns _ _
          ((writes-IsReferenced json db answers h).0 clock n.node_id n.node_id (codes "offline")) in
      (r, e ∙ upsert_node-rows answers clock db n.node_id n.node_id (codes "offline"))

  lookup-map :
      (f : NodeInfo J → NodeInfo J) (j : Text) (n : NodeInfo J) (nodes : List (Text × NodeInfo J))
      → lookup j (map (on_entry f) nodes) ≡ some n
      → (m : NodeInfo J) × (lookup j nodes ≡ some m) × (n ≡ f m)
  unfolding lookup
  lookup-map f j n [] h = cc
  lookup-map f j n ((k, m) ∷ nodes) h = elim (Bool-cases (text_eq k j)) [
    | inl e ↦ rw e (m, refl, ground arith)
    | inr e ↦ rw e (lookup-map f j n nodes (ground arith))
  ]

  checked-node_id : (now : ℤ) (n : NodeInfo J) → (checked now n).node_id ≡ n.node_id
  checked-node_id now n = ground arith

  map-IsKeyed :
      (now : ℤ) (nodes : List (Text × NodeInfo J))
      → IsKeyed nodes
      → IsKeyed (map (on_entry (checked now)) nodes)
  map-IsKeyed now nodes h j n found =
      let (m, there, e) = lookup-map (checked now) j n nodes found in
      ap (λ k. k.node_id) e ∙ (checked-node_id now m ∙ h j m there)

  pub sweep-IsKeyed :
      (now : ℤ) (nodes : List (Text × NodeInfo J)) → IsKeyed nodes → IsKeyed (sweep now nodes).nodes
  sweep-IsKeyed now nodes h = subst IsKeyed (sym (sweep_lem now nodes).0) (map-IsKeyed now nodes h)

  pub enter-IsKeyed :
      {Q : Type 0} (st : AppState J Q) (ns : List (NodeInfo J))
      → IsKeyed st.nodes
      → IsKeyed (enter st ns).nodes
  enter-IsKeyed st [] h = h
  enter-IsKeyed st (n ∷ ns) h =
      enter-IsKeyed (record st { nodes = insert n.node_id n st.nodes }) ns
        (insert-IsKeyed n.node_id n st.nodes refl h)

  pub enter-queues :
      {Q : Type 0} (st : AppState J Q) (ns : List (NodeInfo J))
      → ((enter st ns).worker_txs ≡ st.worker_txs) × ((enter st ns).metrics ≡ st.metrics)
  enter-queues st [] = (refl, refl)
  enter-queues st (n ∷ ns) = enter-queues (record st { nodes = insert n.node_id n st.nodes }) ns

module _ {J Q : Type 0} {capacity : ℕ} (ch : Channel Q (IngestionItem J))
    (doc : IsChannel capacity ch) where
  pub queued-recv :
      (qs : List Q) (i : ℕ) (q q' : Q) (item : IngestionItem J)
      → get_elem? qs i ≡ some q
      → ch.recv q ≡ some (item, q')
      → queued ch doc (set qs i q') + 1 ≡ queued ch doc qs
  queued-recv [] i q q' item h e = cc
  queued-recv (p ∷ qs) zero q q' item h e =
      let same : p ≡ q = cc in
      omega (arith, ap (λ r. length (ch.contents r)) same, ap length (doc.received q q' item e))
  queued-recv (p ∷ qs) (suc i) q q' item h e = omega (arith, queued-recv qs i q q' item h e)

  pub recv-IsPlaced :
      (hash : Text → ℕ) (n : ℕ) (qs : List Q) (i : ℕ) (q q' : Q) (item : IngestionItem J)
      → get_elem? qs i ≡ some q
      → ch.recv q ≡ some (item, q')
      → IsPlaced ch doc hash n qs
      → IsPlaced ch doc hash n (set qs i q')
  recv-IsPlaced hash n qs i q q' item found e h = record {
    placed = λ j r at_j. (part j r at_j).0;
    bounded = λ j r at_j. (part j r at_j).1;
  }
    where
      part :
          (j : ℕ) (r : Q)
          → get_elem? (set qs i q') j ≡ some r
          → All (λ it. hash (id_of it) % n ≡ j) (ch.contents r)
            × (length (ch.contents r) ≤ capacity)
      part j r at_j = elim (set-cases ch doc qs i j q' r at_j) [
        | inr there ↦ (h.placed j r there, h.bounded j r there)
        | inl (here, same) ↦
            let split = doc.received q q' item e in
            let all : All (λ it. hash (id_of it) % n ≡ i) (item ∷ ch.contents q') =
              subst (All (λ it. hash (id_of it) % n ≡ i)) split (h.placed i q found) in
            let long : length (ch.contents q') ≤ capacity =
              omega (arith, h.bounded i q found, ap length split) in
            rw (same, sym here) (all.1, long)
      ]
