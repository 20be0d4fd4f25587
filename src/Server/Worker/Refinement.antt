-- ===== src/Server/Worker/Refinement.antt =====
-- What the database holds after the worker's items.
use hakuraku.Prelude.{
  ℕ, ◌≡◌, refl, ap, ◌∙◌, Bool, true, false, Option-cases, inl, inr, ℤ, List, [], ◌∷◌, Option, some,
  Text, codes, lookup, lookup-insert_self, All,
}
use hakuraku.Server.State.{Json, IngestionItem, stats_item, probe_item}
use hakuraku.Server.Db.{
  Database, SnapshotRecord, ProbeRow, NodeEntry, upsert_node, insert_snapshot, insert_probe_result,
  value_or_null,
}
use hakuraku.Server.Db.Retention.{IsReferenced, writes-IsReferenced}
use hakuraku.Server.Worker.{Answers, store_item, work}

abbrev pub IsUp : {J : Type 0} → Answers × IngestionItem J → Type 0
IsUp (a, item) = (a.first ≡ true) × (a.second ≡ true)

module _ {J : Type 0} (json : Json J) where
  -- The table of snapshots as the items alone make it: one row for each set of statistics.
  abbrev pub recorded :
      List (SnapshotRecord J) → List (Answers × IngestionItem J) → List (SnapshotRecord J)
  recorded rows [] = rows
  recorded rows ((a, stats_item node_id timestamp_ms stats_str stats_json) ∷ items) =
      recorded
        (record {
          node_id = node_id;
          timestamp = timestamp_ms;
          stats_json = value_or_null json (json.from_str stats_str);
        }
          ∷ rows)
        items
  recorded rows ((a, probe_item node_id target success latency_us e t) ∷ items) =
      recorded rows items

  probe-snapshots :
      (answers : Bool) (db : Database J) (row : ProbeRow)
      → (insert_probe_result answers db row).0.snapshots ≡ db.snapshots
  unfolding insert_probe_result
  probe-snapshots true db row = elim (Option-cases (lookup row.node_id db.nodes)) [
    | inl unknown_node ↦ rw unknown_node refl
    | inr (n, known) ↦ rw known refl
  ]
  probe-snapshots false db row = refl

  insert_snapshot-snapshots :
      (db : Database J) (node_id : Text) (t : ℤ) (s : Text) (n : NodeEntry)
      → lookup node_id db.nodes ≡ some n
      → (insert_snapshot json true db node_id t s).0.snapshots
        ≡ record {
          node_id = node_id;
          timestamp = t;
          stats_json = value_or_null json (json.from_str s);
        }
          ∷ db.snapshots
  unfolding insert_snapshot
  insert_snapshot-snapshots db node_id t s n known = rw known refl

  -- The upsert makes the node known, so that the row is not refused.
  upsert-insert_snapshot :
      (first second : Bool) (clock : Option ℕ) (db : Database J) (node_id : Text) (t : ℤ) (s : Text)
      → first ≡ true
      → second ≡ true
      → (insert_snapshot json second
          (upsert_node first clock db node_id node_id (codes "online")).0
          node_id
          t
          s).0.snapshots
        ≡ record {
          node_id = node_id;
          timestamp = t;
          stats_json = value_or_null json (json.from_str s);
        }
          ∷ db.snapshots
  unfolding upsert_node
  upsert-insert_snapshot true true clock db node_id t s h k =
      insert_snapshot-snapshots _ node_id t s _ (lookup-insert_self node_id _ db.nodes)
  upsert-insert_snapshot true false clock db node_id t s h k = cc
  upsert-insert_snapshot false second clock db node_id t s h k = cc

  stats-snapshots :
      (a : Answers) (db : Database J) (node_id : Text) (t : ℤ) (s : Text) (j : J)
      → a.first ≡ true
      → a.second ≡ true
      → (store_item json a db (stats_item node_id t s j)).snapshots
        ≡ record {
          node_id = node_id;
          timestamp = t;
          stats_json = value_or_null json (json.from_str s);
        }
          ∷ db.snapshots
  unfolding store_item
  stats-snapshots a db node_id t s j h k =
      upsert-insert_snapshot a.first a.second a.clock db node_id t s h k

  -- While the database answers, the worker's items leave one snapshot row for each set of
  -- statistics, none refused for a node that is not known, in the order of the items.
  pub work-recorded :
      (items : List (Answers × IngestionItem J)) (db : Database J)
      → All IsUp items
      → (work json db items).snapshots ≡ recorded db.snapshots items
  unfolding work store_item
  work-recorded [] db h = refl
  work-recorded ((a, stats_item node_id t s j) ∷ items) db h =
      work-recorded items (store_item json a db (stats_item node_id t s j)) h.1
      ∙ ap (λ rows. recorded rows items) (stats-snapshots a db node_id t s j h.0.0 h.0.1)
  work-recorded ((a, probe_item node_id target success l e t) ∷ items) db h =
      work-recorded items (store_item json a db (probe_item node_id target success l e t)) h.1
      ∙ ap (λ rows. recorded rows items) (probe-snapshots a.first db _)

  -- Whatever the database answers, no row of an unknown node comes in by the worker's items.
  pub work-IsReferenced :
      (items : List (Answers × IngestionItem J)) (db : Database J)
      → IsReferenced db
      → IsReferenced (work json db items)
  unfolding work store_item
  work-IsReferenced [] db h = h
  work-IsReferenced ((a, stats_item node_id t s j) ∷ items) db h = work-IsReferenced items _ (
      (writes-IsReferenced json _ a.second
          ((writes-IsReferenced json db a.first h).0 a.clock node_id node_id (codes "online"))).1
        node_id t s)
  work-IsReferenced ((a, probe_item node_id target success l e t) ∷ items) db h =
      work-IsReferenced items _ ((writes-IsReferenced json db a.first h).2 _)
