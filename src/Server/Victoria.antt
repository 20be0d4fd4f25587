-- ===== src/Server/Victoria.antt =====
-- pulse-server/src/main.rs: the export of snapshots to VictoriaMetrics. `serialize_to_vm_jsonl`
-- writes the lines, and a worker posts them in a task of its own while the semaphore has a permit.
-- The JSON values are serde_json's and the numbers are f64's, so both are parameters.
pub mod Lines
pub mod Export
pub mod Permits
mod Tests
use hakuraku.Prelude.{
  ℕ, zero, suc, ◌+◌, ◌-◌, ◌≡◌, Bool, true, false, List, [], ◌∷◌, ◌++◌, Option, none, some, Text,
  codes, ℤ, ◌==◌, if◌then◌else◌, trim,
}
use mathlib.Core.List.{reverse}
use mathlib.Core.Option
use hakuraku.Server.State.{IngestionItem, stats_item, probe_item}

-- `trim_end_matches` of one character.
abbrev pub strip_start : ℕ → Text → Text
strip_start sep [] = []
strip_start sep (c ∷ s) = let rest = strip_start sep s in if c == sep then rest else c ∷ s

abbrev pub trim_end_matches : ℕ → Text → Text
trim_end_matches sep s = reverse (strip_start sep (reverse s))

-- The import address, of the environment's variable if it is set.
unfoldable pub vm_url : Option Text → Option Text
vm_url none = none
vm_url (some url) = some (trim_end_matches b'/' (trim url) ++ codes "/api/v1/import")

-- `serde_json::Value` and its objects.
pub record Value (J O F : Type 0) : Type 0 where
  pub as_object : J → Option O
  pub get : O → Text → Option J
  pub as_f64 : J → Option F
  pub as_u64 : J → Option ℕ
  pub from_u64 : ℕ → F
  pub object : List (Text × J) → J
  pub array : List J → J
  pub string : Text → J
  pub number : F → J
  pub integer : ℤ → J
  pub to_string : J → Text

-- `join`.
abbrev pub join : Text → List Text → Text
join sep [] = []
join sep (l ∷ []) = l
join sep (l ∷ m ∷ ls) = l ++ sep ++ join sep (m ∷ ls)

module _ {J O F : Type 0} (v : Value J O F) (node_id : Text) (timestamp_ms : ℤ) where
  unfoldable pub metric_line : Text → F → Text
  metric_line name val = v.to_string (
      v.object (
        (
          codes "metric",
          v.object ((codes "__name__", v.string name) ∷ (codes "node_id", v.string node_id) ∷ []),
        )
        ∷ (codes "values", v.array (v.number val ∷ []))
        ∷ (codes "timestamps", v.array (v.integer timestamp_ms ∷ []))
        ∷ []))

  abbrev pub add_metric : Text → Option F → List Text → List Text
  add_metric name none lines = lines
  add_metric name (some val) lines = lines ++ metric_line name val ∷ []

  abbrev pub float_at : O → Text → Option F
  float_at obj key = elim (v.get obj key) [ none ↦ none | some x ↦ v.as_f64 x ]

  abbrev pub count_at : O → Text → Option F
  count_at obj key = elim (v.get obj key) [
    | none ↦ none
    | some x ↦ Option.map v.from_u64 (v.as_u64 x)
  ]

  unfoldable pub object_lines : O → List Text
  object_lines obj =
      let lines =
        add_metric (codes "hakuraku_cpu_percent") (float_at obj (codes "cpu_percent")) [] in
      let lines =
        add_metric (codes "hakuraku_mem_total_bytes") (count_at obj (codes "mem_total")) lines in
      let lines =
        add_metric (codes "hakuraku_mem_used_bytes") (count_at obj (codes "mem_used")) lines in
      let lines =
        add_metric (codes "hakuraku_mem_free_bytes") (count_at obj (codes "mem_free")) lines in
      let lines =
        add_metric (codes "hakuraku_mem_available_bytes") (count_at obj (codes "mem_available"))
          lines in
      let lines =
        add_metric (codes "hakuraku_swap_total_bytes") (count_at obj (codes "swap_total")) lines in
      let lines =
        add_metric (codes "hakuraku_swap_used_bytes") (count_at obj (codes "swap_used")) lines in
      let lines =
        add_metric (codes "hakuraku_disk_read_bytes_sec")
          (count_at obj (codes "disk_read_bytes_sec")) lines in
      let lines =
        add_metric (codes "hakuraku_disk_write_bytes_sec")
          (count_at obj (codes "disk_write_bytes_sec")) lines in
      let lines =
        add_metric (codes "hakuraku_tcp_connections") (count_at obj (codes "tcp_connections"))
          lines in
      let lines =
        add_metric (codes "hakuraku_udp_connections") (count_at obj (codes "udp_connections"))
          lines in
      add_metric (codes "hakuraku_uptime_seconds") (count_at obj (codes "uptime_seconds")) lines

  abbrev pub value_lines : Option O → List Text
  value_lines none = []
  value_lines (some obj) = object_lines obj

  unfoldable pub serialize_to_vm_jsonl : J → Text
  serialize_to_vm_jsonl stats = join (codes "\n") (value_lines (v.as_object stats)) ++ codes "\n"

-- The semaphore, the posts under way, and what was counted by DB_ERRORS.
pub record Pushes : Type 0 where
  pub permits : ℕ
  pub in_flight : List Text
  pub posted : ℕ
  pub db_errors : List Text

abbrev pub no_pushes : Pushes
no_pushes = record { permits = 64; in_flight = []; posted = 0; db_errors = [] }

-- `try_acquire_owned` with so many permits left, and the task that holds the permit.
abbrev pub acquire : ℕ → Text → Pushes → Pushes
acquire zero payload p = record p {
  db_errors = p.db_errors ++ codes "victoriametrics_backpressure" ∷ [];
}
acquire (suc n) payload p = record p { permits = n; in_flight = p.in_flight ++ payload ∷ [] }

unfoldable pub push : Text → Pushes → Pushes
push payload p = acquire p.permits payload p

abbrev pub remove_at : {A : Type 0} → ℕ → List A → List A
remove_at i [] = []
remove_at zero (x ∷ xs) = xs
remove_at (suc i) (x ∷ xs) = x ∷ remove_at i xs

-- The end of the task of index `i`: the permit is given back.
unfoldable pub finish : ℕ → Bool → Pushes → Pushes
finish i sent p =
    let done = record p {
      permits = p.permits + 1;
      in_flight = remove_at i p.in_flight;
      posted = p.posted + 1;
    } in
    if sent
    then done
    else record done { db_errors = p.db_errors ++ codes "victoriametrics_post" ∷ [] }

-- What a worker does with an item beside storing it; without an address there is no client.
unfoldable pub push_item :
    {J O F : Type 0} → Value J O F → Option Text → IngestionItem J → Pushes → Pushes
push_item v none item p = p
push_item v (some url) (stats_item node_id timestamp_ms stats_str stats_json) p =
    push (serialize_to_vm_jsonl v node_id timestamp_ms stats_json) p
push_item v (some url) (probe_item node_id target success latency_us error_message timestamp) p = p
