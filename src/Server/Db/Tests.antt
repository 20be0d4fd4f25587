-- ===== src/Server/Db/Tests.antt =====
-- The repository at a small database.
use mathlib.Core.List.{Perm}
use hakuraku.Prelude.{
  ℕ, ◌+◌, ◌≡◌, refl, true, List, [], ◌∷◌, ◌++◌, Text, codes, text_eq, length, pos, ◌<ℤ◌, ◌≤ℤ◌, ok,
  All,
}
use hakuraku.Server.Db.{
  Database, NodeEntry, SnapshotRecord, ProbeRow, get_snapshots, cleanup_old_snapshots, order_desc,
}
use hakuraku.Server.Db.Retention.{cleanup_exact}

abbrev node : Text
node = codes "a"

abbrev entry : NodeEntry
entry = record { hostname = node; last_seen = pos 9; status = codes "online" }

abbrev row : ℕ → ℕ → SnapshotRecord ℕ
row t v = record { node_id = node; timestamp = pos t; stats_json = v }

abbrev probe : ProbeRow
probe = record {
  node_id = node;
  target = codes "x:1";
  success = true;
  latency_us = pos 7;
  error_message = [];
  timestamp = pos 30;
}

abbrev db : Database ℕ
db = record {
  nodes = (node, entry) ∷ [];
  snapshots = row 20 2 ∷ row 40 4 ∷ row 10 1 ∷ [];
  probe_results = probe ∷ [];
  db_errors = [];
  tie = λ r x. true;
}

sorted : get_snapshots true db node (pos 15) (pos 50) (pos 5) ≡ (db, ok (row 40 4 ∷ row 20 2 ∷ []))
unfolding get_snapshots order_desc text_eq
sorted = refl

cleanup_exact_example :
    (deleted : List (SnapshotRecord ℕ)) × (deleted' : List ProbeRow) × (db' : Database ℕ)
    × (cleanup_old_snapshots true true db (pos 25) ≡ (db', ok (length deleted + length deleted')))
    × Perm (deleted ++ db'.snapshots) db.snapshots
    × Perm (deleted' ++ db'.probe_results) db.probe_results
    × All (λ r. r.timestamp <ℤ pos 25) deleted
    × All (λ r. r.timestamp <ℤ pos 25) deleted'
    × All (λ r. pos 25 ≤ℤ r.timestamp) db'.snapshots
    × All (λ r. pos 25 ≤ℤ r.timestamp) db'.probe_results
    × (db'.nodes ≡ db.nodes)
cleanup_exact_example = cleanup_exact db (pos 25)
