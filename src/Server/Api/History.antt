-- ===== src/Server/Api/History.antt =====
-- The history handler: what it returns, and when it panics.
use hakuraku.Prelude.{
  map, ℕ, zero, suc, ◌-◌, ◌≤◌, ◌<◌, ◌≡◌, ◌≢◌, refl, ap, ◌∙◌, Bool, true, false, List, [], ◌∷◌, ◌++◌,
  Option, none, some, Text, length, keep_if, ℤ, pos, negsuc, leb, ◌&&◌, sub_i64, ◌≤ℤ◌, ok, arith,
  All, trim, trim_start, len, Bool-cases, inl, inr, ltb_ℤ, is_whitespace, min, max, pos_part,
}
use mathlib.Core.List.{Perm, reverse_aux}
use hakuraku.Server.Db.{Database, SnapshotRecord, in_range, snapshots_of}
use hakuraku.Server.Db.Queries.{IsDesc, IsAsked, get_snapshots_newest}
use hakuraku.Server.Grpc.{now_ms}
use hakuraku.Server.Api.{
  Unicode, IsUnicode, is_valid_node_id, ascii_lowercase, split_at, split_range, parse_range_to_ms,
  clamp_limit,
}
use hakuraku.Server.Api.Handlers.{
  history_body, get_node_history, is_valid_range, reply, history_route, query_history,
}

clamp_limit-min :
    (limit : ℤ) → (n : ℕ) × (clamp_limit limit ≡ pos n) × (n ≡ max 1 (min (pos_part limit) 1000))
unfolding clamp_limit
clamp_limit-min (negsuc n) = (1, ground arith, omega arith)
clamp_limit-min (pos n) = elim (Bool-cases (ltb_ℤ (pos n) (pos 1))) [
  | inl low ↦ (1, rw low refl, ground (arith, low))
  | inr h ↦ elim (Bool-cases (ltb_ℤ (pos 1000) (pos n))) [
    | inl high ↦ (1000, rw (h, high) refl, ground (arith, high))
    | inr l ↦ (n, rw (h, l) refl, ground (arith, h, l))
  ]
]

abbrev pub IsAscii : Text → Type 0
IsAscii s = All (λ c. c < 128) s

split_at-IsAscii : (s : Text) (n : ℕ) → IsAscii s → n ≤ len s → split_at s n ≢ none
unfolding split_at
split_at-IsAscii [] n h k = ground arith
split_at-IsAscii (c ∷ s) zero h k = ground arith
split_at-IsAscii (c ∷ s) (suc n) h k = ground (arith, h.0, split_at-IsAscii s n h.1)

reverse_aux-IsAscii : (s t : Text) → IsAscii s → IsAscii t → IsAscii (reverse_aux s t)
reverse_aux-IsAscii [] t h k = k
reverse_aux-IsAscii (c ∷ s) t h k = reverse_aux-IsAscii s (c ∷ t) h.1 (h.0, k)

trim_start-IsAscii : (s : Text) → IsAscii s → IsAscii (trim_start s)
unfolding trim_start
trim_start-IsAscii [] h = tt
trim_start-IsAscii (c ∷ s) h = elim (Bool-cases (is_whitespace c)) [
  | inl space ↦ rw space (trim_start-IsAscii s h.1)
  | inr other ↦ rw other h
]

trim-IsAscii : (s : Text) → IsAscii s → IsAscii (trim s)
unfolding trim
trim-IsAscii s h =
    reverse_aux-IsAscii _ []
      (trim_start-IsAscii _ (reverse_aux-IsAscii _ [] (trim_start-IsAscii s h) tt)) tt

module _ (u : Unicode) (law : IsUnicode u) where
  map-IsAscii : (s : Text) → IsAscii s → IsAscii (map ascii_lowercase s)
  map-IsAscii [] h = tt
  map-IsAscii (c ∷ s) h = elim (Bool-cases (leb b'A' c && leb c b'Z')) [
    | inl upper ↦ rw upper (ground arith, map-IsAscii s h.1)
    | inr other ↦ rw other (h.0, map-IsAscii s h.1)
  ]

  to_lowercase-IsAscii : (s : Text) → IsAscii s → IsAscii (u.to_lowercase s)
  to_lowercase-IsAscii s h = rw (law.lowercase_ascii s h) (map-IsAscii s h)

  parse_range_to_ms-IsAscii : (range : Text) → IsAscii range → parse_range_to_ms u range ≢ none
  unfolding parse_range_to_ms split_range
  parse_range_to_ms-IsAscii range h =
      let low = u.to_lowercase (trim range) in
      ground (
        arith,
        split_at-IsAscii low (len low - 1)
            (to_lowercase-IsAscii (trim range) (trim-IsAscii range h)) (omega arith),
      )

  -- A request for the history with an ASCII range, valid or not, does not panic.
  pub get_node_history_total :
      {J : Type 0} (answers : Bool) (clock : Option ℕ) (db : Database J) (node_id range : Text)
      (limit : ℤ)
      → IsAscii range
      → get_node_history u answers clock db node_id range limit ≢ none
  unfolding get_node_history
  get_node_history_total answers clock db node_id range limit h =
      ground (arith, parse_range_to_ms-IsAscii range h)

trim_one : (c : ℕ) → is_whitespace c ≡ false → trim (c ∷ []) ≡ c ∷ []
unfolding trim trim_start
trim_one c h = rw h (rw h refl)

split_range_one : (c : ℕ) → 128 ≤ c → split_range (c ∷ []) ≡ none
unfolding split_range split_at
split_range_one c h = ground arith

module _ (u : Unicode) {J : Type 0} (clock : Option ℕ) (db : Database J) (node_id : Text)
    (limit : ℤ) where
  is_valid_one : (c : ℕ) → u.is_alphanumeric c ≡ true → is_valid_range u (c ∷ []) ≡ true
  is_valid_one c h = rw h (ground arith)

  parse_range_to_ms_one :
      (c : ℕ)
      → 128 ≤ c
      → is_whitespace c ≡ false
      → u.to_lowercase (c ∷ []) ≡ c ∷ []
      → parse_range_to_ms u (c ∷ []) ≡ none
  unfolding parse_range_to_ms
  parse_range_to_ms_one c wide visible same =
      ap (λ s. split_range (u.to_lowercase s)) (trim_one c visible)
      ∙ (ap split_range same ∙ split_range_one c wide)

  -- A request for the history of a valid name whose range is one letter outside ASCII, of which the
  -- lower case is itself, panics.
  pub get_node_history_panics :
      (answers : Bool) (c : ℕ)
      → is_valid_node_id u node_id ≡ true
      → 128 ≤ c
      → u.is_alphanumeric c ≡ true
      → is_whitespace c ≡ false
      → u.to_lowercase (c ∷ []) ≡ c ∷ []
      → get_node_history u answers clock db node_id (c ∷ []) limit ≡ none
  unfolding get_node_history
  get_node_history_panics answers c v wide letter visible same =
      rw (v, is_valid_one c letter, parse_range_to_ms_one c wide visible same) refl

  -- With the database up, a request with a valid name and a range that parses is answered with rows
  -- of that node from the range's start up to now, newest first, as many as the limit says, taken as 1 if
  -- it is less and as 1000 if it is more, or all if they are fewer, and as many as the count says. With the rows that the limit cut off, none newer than a returned one, they are
  -- all the stored rows of the node in that range, each as often as it is stored.
  pub get_node_history_newest :
      (range : Text) (width : ℤ)
      → is_valid_node_id u node_id ≡ true
      → is_valid_range u range ≡ true
      → parse_range_to_ms u range ≡ some width
      → (rows cut : List (SnapshotRecord J)) × (get_node_history u true clock db node_id range limit
          ≡ some (
            db,
            reply history_route (
                ok (
                  history_body node_id range
                    (sub_i64 (now_ms clock) width)
                    (now_ms clock)
                    (length rows)
                    rows)),
          ))
        × IsDesc rows
        × (length rows ≡ min (max 1 (min (pos_part limit) 1000)) (length (rows ++ cut)))
        × All (IsAsked node_id (sub_i64 (now_ms clock) width) (now_ms clock)) rows
        × All (λ kept. All (λ row. row.timestamp ≤ℤ kept.timestamp) cut) rows
        × Perm (rows ++ cut) (
            keep_if
              (in_range (sub_i64 (now_ms clock) width) (now_ms clock))
              (snapshots_of node_id db))
  unfolding get_node_history
  get_node_history_newest range width v r parsed =
      let (n, clamped, bound) = clamp_limit-min limit in
      let (rows, cut, found, sorted, short, asked, below, whole) =
        get_snapshots_newest db node_id (sub_i64 (now_ms clock) width) (now_ms clock) n in
      (
        rows,
        cut,
        rw (v, r, parsed, query_history, clamped, found) refl,
        sorted,
        short ∙ ap (λ m. min m (length (rows ++ cut))) bound,
        asked,
        below,
        whole,
      )
