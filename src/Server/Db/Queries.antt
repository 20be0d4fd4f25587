-- ===== src/Server/Db/Queries.antt =====
-- What the repository's reads return.
use mathlib.Core.List.{Perm}
use mathlib.Core.List.Perm
use hakuraku.Prelude.{
  ℕ, zero, suc, ◌≡◌, refl, true, false, List, [], ◌∷◌, ◌++◌, some, Text, text_eq, text_eq_iff,
  text_eq_refl, lookup, length, min, take, drop, keep_if, ℤ, pos, ltb_ℤ, ◌≤ℤ◌, ok, arith, All,
  All-keep_if, All-trivial, All-take, All-drop, take-append-drop, Bool-cases, inl, inr,
}
use hakuraku.Server.State.{Json}
use hakuraku.Server.Db.{
  Tie, Database, NodeEntry, SnapshotRecord, status_of, info_of_row, stands_before, insert_desc,
  order_desc, snapshots_of, in_range, get_snapshots, get_node, insert_snapshot, value_or_null,
}

not_negative : (n : ℕ) → ltb_ℤ (pos n) (pos 0) ≡ false
not_negative n = ground arith

module _ {J : Type 0} where
  -- No later row is newer.
  abbrev pub IsDesc : List (SnapshotRecord J) → Type 0
  IsDesc [] = Unit
  IsDesc (x ∷ xs) = All (λ y. y.timestamp ≤ℤ x.timestamp) xs × IsDesc xs

  not_after :
      (tie : Tie J) (r x : SnapshotRecord J)
      → stands_before tie r x ≡ true
      → x.timestamp ≤ℤ r.timestamp
  not_after tie r x h = ground (arith, h)

  not_before :
      (tie : Tie J) (r x : SnapshotRecord J)
      → stands_before tie r x ≡ false
      → r.timestamp ≤ℤ x.timestamp
  not_before tie r x h = ground (arith, h)

  insert_desc-perm :
      (tie : Tie J) (r : SnapshotRecord J) (xs : List (SnapshotRecord J))
      → Perm (insert_desc tie r xs) (r ∷ xs)
  unfolding insert_desc
  insert_desc-perm tie r [] = Perm.refl (r ∷ [])
  insert_desc-perm tie r (x ∷ xs) = elim (Bool-cases (stands_before tie r x)) [
    | inl here ↦ rw here (Perm.refl (r ∷ x ∷ xs))
    | inr later ↦ rw later (Perm.trans (Perm.cons x (insert_desc-perm tie r xs)) (Perm.swap r x xs))
  ]

  order_desc-perm : (tie : Tie J) (xs : List (SnapshotRecord J)) → Perm (order_desc tie xs) xs
  unfolding order_desc
  order_desc-perm tie [] = Perm.refl []
  order_desc-perm tie (x ∷ xs) =
      Perm.trans (insert_desc-perm tie x (order_desc tie xs)) (Perm.cons x (order_desc-perm tie xs))

  All-insert_desc {κ} :
      (tie : Tie J) (P : SnapshotRecord J → Type κ) (r : SnapshotRecord J)
      (xs : List (SnapshotRecord J))
      → P r
      → All P xs
      → All P (insert_desc tie r xs)
  unfolding insert_desc
  All-insert_desc tie P r [] h hs = (h, tt)
  All-insert_desc tie P r (x ∷ xs) h hs = elim (Bool-cases (stands_before tie r x)) [
    | inl here ↦ rw here (h, hs)
    | inr later ↦ rw later (hs.0, All-insert_desc tie P r xs h hs.1)
  ]

  All-order_desc {κ} :
      (tie : Tie J) (P : SnapshotRecord J → Type κ) (xs : List (SnapshotRecord J))
      → All P xs
      → All P (order_desc tie xs)
  unfolding order_desc
  All-order_desc tie P [] h = tt
  All-order_desc tie P (x ∷ xs) h =
      All-insert_desc tie P x (order_desc tie xs) h.0 (All-order_desc tie P xs h.1)

  All-below :
      (r x : SnapshotRecord J) (xs : List (SnapshotRecord J))
      → x.timestamp ≤ℤ r.timestamp
      → All (λ y. y.timestamp ≤ℤ x.timestamp) xs
      → All (λ y. y.timestamp ≤ℤ r.timestamp) xs
  All-below r x [] h hs = tt
  All-below r x (y ∷ ys) h hs = (omega arith, All-below r x ys h hs.1)

  insert_desc-IsDesc :
      (tie : Tie J) (r : SnapshotRecord J) (xs : List (SnapshotRecord J))
      → IsDesc xs
      → IsDesc (insert_desc tie r xs)
  unfolding insert_desc
  insert_desc-IsDesc tie r [] h = (tt, tt)
  insert_desc-IsDesc tie r (x ∷ xs) h = elim (Bool-cases (stands_before tie r x)) [
    | inl here ↦
        rw here ((not_after tie r x here, All-below r x xs (not_after tie r x here) h.0), h)
    | inr later ↦ rw later (
      All-insert_desc tie (λ y. y.timestamp ≤ℤ x.timestamp) r xs (not_before tie r x later) h.0,
      insert_desc-IsDesc tie r xs h.1,
    )
  ]

  order_desc-IsDesc : (tie : Tie J) (xs : List (SnapshotRecord J)) → IsDesc (order_desc tie xs)
  unfolding order_desc
  order_desc-IsDesc tie [] = tt
  order_desc-IsDesc tie (x ∷ xs) =
      insert_desc-IsDesc tie x (order_desc tie xs) (order_desc-IsDesc tie xs)

  IsDesc-take : (n : ℕ) (xs : List (SnapshotRecord J)) → IsDesc xs → IsDesc (take n xs)
  IsDesc-take zero xs h = tt
  IsDesc-take (suc n) [] h = tt
  IsDesc-take (suc n) (x ∷ xs) h =
      (All-take (λ y. y.timestamp ≤ℤ x.timestamp) n xs h.0, IsDesc-take n xs h.1)

  length-take : (n : ℕ) (xs : List (SnapshotRecord J)) → length (take n xs) ≡ min n (length xs)
  length-take zero xs = omega arith
  length-take (suc n) [] = omega arith
  length-take (suc n) (x ∷ xs) = omega (arith, length-take n xs)

  -- What the limit cuts off is not newer than anything that stays.
  drop-below :
      (n : ℕ) (xs : List (SnapshotRecord J))
      → IsDesc xs
      → All (λ kept. All (λ cut. cut.timestamp ≤ℤ kept.timestamp) (drop n xs)) (take n xs)
  drop-below zero xs h = tt
  drop-below (suc n) [] h = tt
  drop-below (suc n) (x ∷ xs) h =
      (All-drop (λ y. y.timestamp ≤ℤ x.timestamp) n xs h.0, drop-below n xs h.1)

  abbrev pub IsAsked : Text → ℤ → ℤ → SnapshotRecord J → Type 0
  IsAsked node_id from_ms to_ms r =
      (r.node_id ≡ node_id) × (from_ms ≤ℤ r.timestamp) × (r.timestamp ≤ℤ to_ms)

  asked :
      (node_id : Text) (from_ms to_ms : ℤ) (rows : List (SnapshotRecord J))
      → All
          (IsAsked node_id from_ms to_ms)
          (keep_if (in_range from_ms to_ms) (keep_if (λ r. text_eq r.node_id node_id) rows))
  asked node_id from_ms to_ms rows =
      All-keep_if (λ r. r.node_id ≡ node_id) (IsAsked node_id from_ms to_ms)
        (in_range from_ms to_ms) (λ r e own. (own, ground arith, ground arith)) _
        (All-keep_if (λ _. Unit {0}) (λ r. r.node_id ≡ node_id) (λ r. text_eq r.node_id node_id)
          (λ r e _. (text_eq_iff r.node_id node_id).0 e) rows (All-trivial rows))

  -- With the database up and a limit that is not negative, a history query returns rows of the node
  -- within the two times, both included, newest first, `limit` of them or all if they are fewer. Together with the
  -- rows that the limit cut off, none of which is newer than a row that is returned, they are all the
  -- stored rows of the node in that range, each as often as it is stored.
  pub get_snapshots_newest :
      (db : Database J) (node_id : Text) (from_ms to_ms : ℤ) (limit : ℕ)
      → (rows cut : List (SnapshotRecord J)) × (get_snapshots true db node_id from_ms to_ms
            (pos limit)
          ≡ (db, ok rows))
        × IsDesc rows
        × (length rows ≡ min limit (length (rows ++ cut)))
        × All (IsAsked node_id from_ms to_ms) rows
        × All (λ kept. All (λ row. row.timestamp ≤ℤ kept.timestamp) cut) rows
        × Perm (rows ++ cut) (keep_if (in_range from_ms to_ms) (snapshots_of node_id db))
  unfolding get_snapshots
  get_snapshots_newest db node_id from_ms to_ms limit =
      let found = keep_if (in_range from_ms to_ms) (snapshots_of node_id db) in
      let sorted = order_desc db.tie found in
      (
        take limit sorted,
        drop limit sorted,
        rw (not_negative limit) refl,
        IsDesc-take limit sorted (order_desc-IsDesc db.tie found),
        rw (take-append-drop limit sorted) (length-take limit sorted),
        All-take (IsAsked node_id from_ms to_ms) limit sorted (
            All-order_desc db.tie (IsAsked node_id from_ms to_ms) found
              (asked node_id from_ms to_ms db.snapshots)),
        drop-below limit sorted (order_desc-IsDesc db.tie found),
        rw (take-append-drop limit sorted) (order_desc-perm db.tie found),
      )

  order_desc-first :
      (tie : Tie J) (r : SnapshotRecord J) (xs : List (SnapshotRecord J))
      → All (λ y. ltb_ℤ y.timestamp r.timestamp ≡ true) xs
      → (rest : List (SnapshotRecord J)) × (order_desc tie (r ∷ xs) ≡ r ∷ rest)
  unfolding order_desc
  order_desc-first tie r xs h = insert_desc-first (order_desc tie xs) (All-order_desc tie _ xs h)
    where
      insert_desc-first :
          (ys : List (SnapshotRecord J))
          → All (λ y. ltb_ℤ y.timestamp r.timestamp ≡ true) ys
          → (rest : List (SnapshotRecord J)) × (insert_desc tie r ys ≡ r ∷ rest)
      insert_desc-first [] h = ([], refl)
      insert_desc-first (y ∷ ys) h = (y ∷ ys, rw h.0 refl)

  -- With the database up, a snapshot stored for a known node, with a time after that of every other of
  -- the node's snapshots, is what the node's query then shows as its latest value: the value that
  -- serde reads back from the stored text, or null where that text is no JSON.
  pub get_node-insert_snapshot :
      (json : Json J) (db : Database J) (node_id : Text) (timestamp_ms : ℤ) (stats_text : Text)
      (n : NodeEntry)
      → lookup node_id db.nodes ≡ some n
      → All (λ r. ltb_ℤ r.timestamp timestamp_ms ≡ true) (snapshots_of node_id db)
      → (get_node true (insert_snapshot json true db node_id timestamp_ms stats_text).0 node_id).1
        ≡ ok (
            some (record {
              node_id = node_id;
              hostname = n.hostname;
              last_seen_ms = n.last_seen;
              status = status_of n.status;
              latest_stats = some (value_or_null json (json.from_str stats_text));
            }))
  unfolding get_node insert_snapshot info_of_row
  get_node-insert_snapshot json db node_id timestamp_ms stats_text n known newest =
      let r : SnapshotRecord J = record {
        node_id = node_id;
        timestamp = timestamp_ms;
        stats_json = value_or_null json (json.from_str stats_text);
      } in
      let (rest, first) = order_desc-first db.tie r (snapshots_of node_id db) newest in
      rw (known, known, text_eq_refl node_id, first) refl
