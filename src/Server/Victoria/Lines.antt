-- ===== src/Server/Victoria/Lines.antt =====
-- The payload of a push, read back: one line for each metric that the snapshot has, in the order of
-- a table of the names.
use hakuraku.Prelude.{
  ℕ, ◌≡◌, ◌≢◌, refl, sym, ◌∙◌, Bool, true, false, List, [], ◌∷◌, ◌++◌, Option, none, some, Text,
  codes, ℤ, ◌==◌, split_on, All, arith, Bool-cases, inl, inr,
}
use mathlib.Core.List.{append_assoc, append-nil}
use hakuraku.Server.Victoria.{
  Value, join, metric_line, add_metric, float_at, count_at, object_lines, serialize_to_vm_jsonl,
}

-- The metrics: the key of the snapshot, the name, and whether it is a count.
abbrev pub table : List (Text × Text × Bool)
table =
    (codes "cpu_percent", codes "hakuraku_cpu_percent", false)
    ∷ (codes "mem_total", codes "hakuraku_mem_total_bytes", true)
    ∷ (codes "mem_used", codes "hakuraku_mem_used_bytes", true)
    ∷ (codes "mem_free", codes "hakuraku_mem_free_bytes", true)
    ∷ (codes "mem_available", codes "hakuraku_mem_available_bytes", true)
    ∷ (codes "swap_total", codes "hakuraku_swap_total_bytes", true)
    ∷ (codes "swap_used", codes "hakuraku_swap_used_bytes", true)
    ∷ (codes "disk_read_bytes_sec", codes "hakuraku_disk_read_bytes_sec", true)
    ∷ (codes "disk_write_bytes_sec", codes "hakuraku_disk_write_bytes_sec", true)
    ∷ (codes "tcp_connections", codes "hakuraku_tcp_connections", true)
    ∷ (codes "udp_connections", codes "hakuraku_udp_connections", true)
    ∷ (codes "uptime_seconds", codes "hakuraku_uptime_seconds", true)
    ∷ []

-- A line without the separator.
abbrev pub IsUnbroken : ℕ → Text → Type 0
IsUnbroken sep = All (λ c. (c == sep) ≡ false)

split_on_head : (sep : ℕ) (s : Text) → (p : Text) × (ps : List Text) × (split_on sep s ≡ p ∷ ps)
unfolding split_on
split_on_head sep [] = ([], [], refl)
split_on_head sep (c ∷ s) =
    let (p, ps, e) = split_on_head sep s in
    elim (Bool-cases (c == sep)) [
      | inl b ↦ ([], p ∷ ps, rw (e, b) refl)
      | inr b ↦ (c ∷ p, ps, rw (e, b) refl)
    ]

-- The pieces of joined lines are the lines.
split_on-append :
    (sep : ℕ) (l s : Text) → IsUnbroken sep l → split_on sep (l ++ sep ∷ s) ≡ l ∷ split_on sep s
unfolding split_on
split_on-append sep [] s h = let (p, ps, e) = split_on_head sep s in rw (e, same) refl
  where
    same : (sep == sep) ≡ true
    same = ground arith
split_on-append sep (c ∷ l) s h = rw (split_on-append sep l s h.1, h.0) refl

split_on-join :
    (sep : ℕ) (l : Text) (ls : List Text)
    → All (IsUnbroken sep) (l ∷ ls)
    → split_on sep (join (sep ∷ []) (l ∷ ls) ++ sep ∷ []) ≡ (l ∷ ls) ++ [] ∷ []
unfolding split_on
split_on-join sep l [] h = split_on-append sep l [] h.0
split_on-join sep l (m ∷ ls) h =
    rw
      (
        joined,
        split_on-append sep l (join (sep ∷ []) (m ∷ ls) ++ sep ∷ []) h.0,
        split_on-join sep m ls h.1,
      )
      refl
  where
    joined :
        ((l ++ sep ∷ []) ++ join (sep ∷ []) (m ∷ ls)) ++ sep ∷ []
        ≡ l ++ sep ∷ (join (sep ∷ []) (m ∷ ls) ++ sep ∷ [])
    joined =
        append_assoc (l ++ sep ∷ []) (join (sep ∷ []) (m ∷ ls)) (sep ∷ [])
        ∙ append_assoc l (sep ∷ []) (join (sep ∷ []) (m ∷ ls) ++ sep ∷ [])

module _ {J O F : Type 0} (v : Value J O F) (node_id : Text) (timestamp_ms : ℤ) where
  abbrev pub reads : O → Bool → Text → Option F
  reads obj true key = count_at v node_id timestamp_ms obj key
  reads obj false key = float_at v node_id timestamp_ms obj key

  abbrev pub line_before : Text → Option F → List Text → List Text
  line_before name none ls = ls
  line_before name (some val) ls = metric_line v node_id timestamp_ms name val ∷ ls

  -- The lines that the table asks for.
  abbrev pub exported : O → List (Text × Text × Bool) → List Text
  exported obj [] = []
  exported obj ((key, name, count) ∷ es) = line_before name (reads obj count key) (exported obj es)

  abbrev add_all : O → List (Text × Text × Bool) → List Text → List Text
  add_all obj [] lines = lines
  add_all obj ((key, name, count) ∷ es) lines =
      add_all obj es (add_metric v node_id timestamp_ms name (reads obj count key) lines)

  add_metric-before :
      (name : Text) (o : Option F) (lines ls : List Text)
      → add_metric v node_id timestamp_ms name o lines ++ ls ≡ lines ++ line_before name o ls
  add_metric-before name none lines ls = refl
  add_metric-before name (some val) lines ls = append_assoc lines _ ls

  add_all-exported :
      (obj : O) (es : List (Text × Text × Bool)) (lines : List Text)
      → add_all obj es lines ≡ lines ++ exported obj es
  add_all-exported obj [] lines = sym (append-nil lines)
  add_all-exported obj ((key, name, count) ∷ es) lines =
      add_all-exported obj es (add_metric v node_id timestamp_ms name (reads obj count key) lines)
      ∙ add_metric-before name (reads obj count key) lines (exported obj es)

  object_lines-exported : (obj : O) → object_lines v node_id timestamp_ms obj ≡ exported obj table
  unfolding object_lines
  object_lines-exported obj = add_all-exported obj table []

  line_before-IsUnbroken :
      (name : Text) (o : Option F) (ls : List Text)
      → ((x : J) → IsUnbroken b'\n' (v.to_string x))
      → All (IsUnbroken b'\n') ls
      → All (IsUnbroken b'\n') (line_before name o ls)
  unfolding metric_line
  line_before-IsUnbroken name none ls h rest = rest
  line_before-IsUnbroken name (some val) ls h rest = (h _, rest)

  exported-IsUnbroken :
      (obj : O) (es : List (Text × Text × Bool))
      → ((x : J) → IsUnbroken b'\n' (v.to_string x))
      → All (IsUnbroken b'\n') (exported obj es)
  exported-IsUnbroken obj [] h = tt
  exported-IsUnbroken obj ((key, name, count) ∷ es) h =
      line_before-IsUnbroken name (reads obj count key) (exported obj es) h
        (exported-IsUnbroken obj es h)

  payload :
      (ls : List Text)
      → All (IsUnbroken b'\n') ls
      → ((ls ≢ []) → split_on b'\n' (join (codes "\n") ls ++ codes "\n") ≡ ls ++ [] ∷ [])
        × ((ls ≡ []) → join (codes "\n") ls ++ codes "\n" ≡ codes "\n")
  payload [] h = (λ some_line. absurd (some_line refl), λ e. refl)
  payload (l ∷ ls) h = (λ some_line. split_on-join b'\n' l ls h, λ e. cc)

  -- When `serde_json` writes a value in one line, the lines of the payload of an object are exactly
  -- those of the metrics that it has, with the right kind of number, in the order of the table, and
  -- the last is terminated; an object with none of them makes a payload of one empty line.
  pub serialize-table :
      (stats : J) (obj : O)
      → ((x : J) → IsUnbroken b'\n' (v.to_string x))
      → v.as_object stats ≡ some obj
      → ((exported obj table ≢ [])
          → split_on b'\n' (serialize_to_vm_jsonl v node_id timestamp_ms stats)
            ≡ exported obj table ++ [] ∷ [])
        × ((exported obj table ≡ [])
            → serialize_to_vm_jsonl v node_id timestamp_ms stats ≡ codes "\n")
  unfolding serialize_to_vm_jsonl
  serialize-table stats obj h e =
      rw (e, object_lines-exported obj)
        (payload (exported obj table) (exported-IsUnbroken obj table h))
