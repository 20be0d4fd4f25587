-- ===== src/Server/Db/Retention.antt =====
-- What the clean-up deletes, and that no row ever refers to a node that is not stored.
use mathlib.Core.List.{Perm, perm_middle}
use mathlib.Core.List.Perm
use hakuraku.Prelude.{
  ℕ, ◌+◌, ◌≡◌, ◌≢◌, refl, Bool, true, false, not, List, [], ◌∷◌, ◌++◌, Option, none, Text, lookup,
  insert, lookup-insert, length, keep_if, ℤ, ltb_ℤ, ◌<ℤ◌, ◌≤ℤ◌, ok, arith, All, All-keep_if,
  All-map, All-trivial, Bool-cases, inl, inr, Option-cases,
}
use hakuraku.Server.State.{Json}
use hakuraku.Server.Db.{
  Database, NodeEntry, SnapshotRecord, ProbeRow, upsert_node, insert_snapshot, insert_probe_result,
  cleanup_old_snapshots,
}

module _ {ℓ} {A : Type ℓ} where
  keep_if-perm :
      (p : A → Bool) (xs : List A) → Perm (keep_if p xs ++ keep_if (λ x. not (p x)) xs) xs
  keep_if-perm p [] = Perm.refl []
  keep_if-perm p (x ∷ xs) = elim (Bool-cases (p x)) [
    | inl e ↦ rw e (Perm.cons x (keep_if-perm p xs))
    | inr e ↦ rw e (
        Perm.trans (perm_middle (keep_if p xs) (keep_if (λ y. not (p y)) xs))
          (Perm.cons x (keep_if-perm p xs)))
  ]

known-insert :
    (node_id key : Text) (n : NodeEntry) (nodes : List (Text × NodeEntry))
    → lookup key nodes ≢ none
    → lookup key (insert node_id n nodes) ≢ none
known-insert node_id key n nodes h = ground (arith, lookup-insert node_id key n nodes)

module _ {J : Type 0} where
  -- With the database up for both statements, the rows that the clean-up leaves, together with those
  -- that it deletes, are the rows there were; every deleted row is older than the given time, no row
  -- that stays is, the nodes are untouched, and the count is that of the deleted rows of both tables.
  pub cleanup_exact :
      (db : Database J) (before_ms : ℤ)
      → (deleted : List (SnapshotRecord J)) × (deleted' : List ProbeRow) × (db' : Database J)
        × (cleanup_old_snapshots true true db before_ms
            ≡ (db', ok (length deleted + length deleted')))
        × Perm (deleted ++ db'.snapshots) db.snapshots
        × Perm (deleted' ++ db'.probe_results) db.probe_results
        × All (λ r. r.timestamp <ℤ before_ms) deleted
        × All (λ r. r.timestamp <ℤ before_ms) deleted'
        × All (λ r. before_ms ≤ℤ r.timestamp) db'.snapshots
        × All (λ r. before_ms ≤ℤ r.timestamp) db'.probe_results
        × (db'.nodes ≡ db.nodes)
  unfolding cleanup_old_snapshots
  cleanup_exact db before_ms =
      let old : SnapshotRecord J → Bool = λ r. ltb_ℤ r.timestamp before_ms in
      let old' : ProbeRow → Bool = λ r. ltb_ℤ r.timestamp before_ms in
      (
        keep_if old db.snapshots,
        keep_if old' db.probe_results,
        record db {
          snapshots = keep_if (λ r. not (old r)) db.snapshots;
          probe_results = keep_if (λ r. not (old' r)) db.probe_results;
        },
        refl,
        keep_if-perm old db.snapshots,
        keep_if-perm old' db.probe_results,
        All-keep_if (λ _. Unit {0}) _ old (λ r e _. ground arith) db.snapshots (All-trivial _),
        All-keep_if (λ _. Unit {0}) _ old' (λ r e _. ground arith) db.probe_results (All-trivial _),
        All-keep_if (λ _. Unit {0}) _ _ (λ r e _. ground arith) db.snapshots (All-trivial _),
        All-keep_if (λ _. Unit {0}) _ _ (λ r e _. ground arith) db.probe_results (All-trivial _),
        refl,
      )

  -- Every snapshot and every probe result belongs to a stored node.
  pub record IsReferenced (db : Database J) : Type 0 where
    pub snapshots : All (λ r. lookup r.node_id db.nodes ≢ none) db.snapshots
    pub probes : All (λ r. lookup r.node_id db.nodes ≢ none) db.probe_results

  written :
      (db : Database J) (node_id : Text) (n : NodeEntry)
      → IsReferenced db
      → IsReferenced (record db { nodes = insert node_id n db.nodes })
  written db node_id n h = record {
    snapshots =
        All-map _ _ (λ r. known-insert node_id r.node_id n db.nodes) db.snapshots h.snapshots;
    probes = All-map _ _ (λ r. known-insert node_id r.node_id n db.nodes) db.probe_results h.probes;
  }

  upsert_node-IsReferenced :
      (db : Database J) (answers : Bool) (clock : Option ℕ) (node_id hostname status : Text)
      → IsReferenced db
      → IsReferenced (upsert_node answers clock db node_id hostname status).0
  unfolding upsert_node
  upsert_node-IsReferenced db true clock node_id hostname status h = written db node_id _ h
  upsert_node-IsReferenced db false clock node_id hostname status h = record {
    snapshots = h.snapshots;
    probes = h.probes;
  }

  insert_snapshot-IsReferenced :
      (json : Json J) (db : Database J) (answers : Bool) (node_id : Text) (timestamp_ms : ℤ)
      (stats_text : Text)
      → IsReferenced db
      → IsReferenced (insert_snapshot json answers db node_id timestamp_ms stats_text).0
  unfolding insert_snapshot
  insert_snapshot-IsReferenced json db false node_id timestamp_ms stats_text h = record {
    snapshots = h.snapshots;
    probes = h.probes;
  }
  insert_snapshot-IsReferenced json db true node_id timestamp_ms stats_text h =
      elim (Option-cases (lookup node_id db.nodes)) [
        | inl e ↦ rw e (record { snapshots = h.snapshots; probes = h.probes })
        | inr (n, e) ↦
            rw e (record { snapshots = ((λ f. ground arith), h.snapshots); probes = h.probes })
      ]

  insert_probe_result-IsReferenced :
      (db : Database J) (answers : Bool) (row : ProbeRow)
      → IsReferenced db
      → IsReferenced (insert_probe_result answers db row).0
  unfolding insert_probe_result
  insert_probe_result-IsReferenced db false row h = record {
    snapshots = h.snapshots;
    probes = h.probes;
  }
  insert_probe_result-IsReferenced db true row h =
      elim (Option-cases (lookup row.node_id db.nodes)) [
        | inl e ↦ rw e (record { snapshots = h.snapshots; probes = h.probes })
        | inr (n, e) ↦
            rw e (record { snapshots = h.snapshots; probes = ((λ f. ground arith), h.probes) })
      ]

  cleanup-IsReferenced :
      (db : Database J) (answers answers' : Bool) (before_ms : ℤ)
      → IsReferenced db
      → IsReferenced (cleanup_old_snapshots answers answers' db before_ms).0
  unfolding cleanup_old_snapshots
  cleanup-IsReferenced db false answers' before_ms h = record {
    snapshots = h.snapshots;
    probes = h.probes;
  }
  cleanup-IsReferenced db true false before_ms h = record {
    snapshots = All-keep_if _ _ _ (λ r e k. k) db.snapshots h.snapshots;
    probes = h.probes;
  }
  cleanup-IsReferenced db true true before_ms h = record {
    snapshots = All-keep_if _ _ _ (λ r e k. k) db.snapshots h.snapshots;
    probes = All-keep_if _ _ _ (λ r e k. k) db.probe_results h.probes;
  }

  -- Every write keeps it that each snapshot and each probe result belongs to a stored node, whether
  -- the database answers the statement or not.
  pub writes-IsReferenced :
      (json : Json J) (db : Database J) (answers : Bool)
      → IsReferenced db
      → ((clock : Option ℕ) (node_id hostname status : Text)
          → IsReferenced (upsert_node answers clock db node_id hostname status).0)
        × ((node_id : Text) (timestamp_ms : ℤ) (stats_text : Text)
            → IsReferenced (insert_snapshot json answers db node_id timestamp_ms stats_text).0)
        × ((row : ProbeRow) → IsReferenced (insert_probe_result answers db row).0)
        × ((answers' : Bool) (before_ms : ℤ)
            → IsReferenced (cleanup_old_snapshots answers answers' db before_ms).0)
  writes-IsReferenced json db answers h = (
    λ clock node_id hostname status.
        upsert_node-IsReferenced db answers clock node_id hostname status h,
    λ node_id timestamp_ms stats_text.
        insert_snapshot-IsReferenced json db answers node_id timestamp_ms stats_text h,
    λ row. insert_probe_result-IsReferenced db answers row h,
    λ answers' before_ms. cleanup-IsReferenced db answers answers' before_ms h,
  )
