-- ===== src/Server/System/Queries.antt =====
-- What the handlers that ask the database keep.
use hakuraku.Prelude.{
  ℕ, List, ◌≡◌, refl, subst, Bool, true, false, Option, none, some, Text, Bool-cases, inl, inr, ℤ,
  pos, ltb_ℤ, sub_i64, arith,
}
use hakuraku.Server.Grpc.{now_ms}
use hakuraku.Server.Db.{Database, get_snapshots}
use hakuraku.Server.Db
use hakuraku.Server.Db.Retention.{IsReferenced}
use hakuraku.Server.Api.{Unicode, is_valid_node_id, clamp_limit}
use hakuraku.Server.Api.Handlers.{Reply, is_valid_range, query_history, get_node_history}
use hakuraku.Server.System.Keeping.{rows}

module _ {J : Type 0} where
  -- What a query leaves as it was.
  abbrev pub SameRows : Database J → Database J → Type 0
  SameRows db db' = (rows db' ≡ rows db) × (IsReferenced db → IsReferenced db')

  untouched : (db : Database J) → SameRows db db
  untouched db = (refl, λ h. h)

  only_errors :
      (db : Database J) (errors : List Text) → SameRows db (record db { db_errors = errors })
  only_errors db errors = (refl, λ h. record { snapshots = h.snapshots; probes = h.probes })

  pub get_node-SameRows :
      (answers : Bool) (db : Database J) (node_id : Text)
      → SameRows db (Db.get_node answers db node_id).0
  unfolding Db.get_node
  get_node-SameRows true db node_id = untouched db
  get_node-SameRows false db node_id = only_errors db _

  get_snapshots-SameRows :
      (answers : Bool) (db : Database J) (node_id : Text) (from_ms to_ms limit : ℤ)
      → SameRows db (get_snapshots answers db node_id from_ms to_ms limit).0
  unfolding get_snapshots
  get_snapshots-SameRows false db node_id from_ms to_ms limit = only_errors db _
  get_snapshots-SameRows true db node_id from_ms to_ms limit =
      elim (Bool-cases (ltb_ℤ limit (pos 0))) [
        | inl e ↦ rw e (only_errors db _)
        | inr e ↦ rw e (untouched db)
      ]

  query_history-SameRows :
      (answers : Bool) (db db' : Database J) (node_id range : Text) (limit now : ℤ) (o : Option ℤ)
      (r : Reply J)
      → query_history answers db node_id range limit now o ≡ some (db', r)
      → SameRows db db'
  query_history-SameRows answers db db' node_id range limit now none r e = absurd (ground arith)
  query_history-SameRows answers db db' node_id range limit now (some width) r e =
      let found = get_snapshots answers db node_id (sub_i64 now width) now (clamp_limit limit) in
      let same : found.0 ≡ db' = cc in
      subst (SameRows db) same (get_snapshots-SameRows answers db node_id _ now _)

  pub get_node_history-SameRows :
      (u : Unicode) (answers : Bool) (clock : Option ℕ) (db db' : Database J) (node_id range : Text)
      (limit : ℤ) (r : Reply J)
      → get_node_history u answers clock db node_id range limit ≡ some (db', r)
      → SameRows db db'
  unfolding get_node_history
  get_node_history-SameRows u answers clock db db' node_id range limit r e =
      elim (Bool-cases (is_valid_node_id u node_id)) [
        | inr bad ↦ unchanged _ (rw bad at e)
        | inl good ↦ elim (Bool-cases (is_valid_range u range)) [
          | inr bad ↦ unchanged _ (rw (good, bad) at e)
          | inl fine ↦
              query_history-SameRows answers db db' node_id range limit (now_ms clock) _ r
                (rw (good, fine) at e)
        ]
      ]
    where
      unchanged :
          (s : Reply J)
          → ◌≡◌ {A = Option (Database J × Reply J)} (some (db, s)) (some (db', r))
          → SameRows db db'
      unchanged s same = let t : db ≡ db' = cc in subst (SameRows db) t (untouched db)
