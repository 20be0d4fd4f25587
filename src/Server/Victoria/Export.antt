-- ===== src/Server/Victoria/Export.antt =====
-- What VictoriaMetrics is sent of a node's statistics. The value is the one that serde's derived
-- `Serialize` makes of StatsSerializable (pulse-server/src/grpc.rs): an object with the names of the
-- fields as its keys, in which a float that is not finite is null.
use hakuraku.Prelude.{
  ℕ, suc, ◌≡◌, ◌≢◌, refl, sym, ap, ◌∙◌, Bool, true, false, List, [], ◌∷◌, ◌++◌, Option, none, some,
  Text, codes, ℤ, lookup, text_eq, split_on, All, if◌then◌else◌,
}
use mathlib.Core.Option
use hakuraku.Core.Proto.{NodeStats}
use hakuraku.Server.State.{stats_item}
use hakuraku.Server.Grpc.{StatsSerializable, serializable}
use hakuraku.Server.Victoria.{Value, metric_line, Pushes, push, push_item, serialize_to_vm_jsonl}
use hakuraku.Server.Victoria.Lines.{
  table, IsUnbroken, reads, line_before, exported, serialize-table,
}

-- The fields of a number type, by their names.
abbrev pub counts : {F : Type 0} → StatsSerializable F → List (Text × ℕ)
counts s =
    (codes "mem_total", s.mem_total)
    ∷ (codes "mem_used", s.mem_used)
    ∷ (codes "mem_free", s.mem_free)
    ∷ (codes "mem_available", s.mem_available)
    ∷ (codes "mem_buffers", s.mem_buffers)
    ∷ (codes "mem_cached", s.mem_cached)
    ∷ (codes "swap_total", s.swap_total)
    ∷ (codes "swap_used", s.swap_used)
    ∷ (codes "disk_read_bytes_sec", s.disk_read_bytes_sec)
    ∷ (codes "disk_write_bytes_sec", s.disk_write_bytes_sec)
    ∷ (codes "tcp_connections", s.tcp_connections)
    ∷ (codes "udp_connections", s.udp_connections)
    ∷ (codes "uptime_seconds", s.uptime_seconds)
    ∷ []

abbrev pub floats : {F : Type 0} → StatsSerializable F → List (Text × F)
floats s =
    (codes "cpu_percent", s.cpu_percent)
    ∷ (codes "load_avg_1", s.load_avg_1)
    ∷ (codes "load_avg_5", s.load_avg_5)
    ∷ (codes "load_avg_15", s.load_avg_15)
    ∷ []

abbrev pub when_finite : {F : Type 0} → (F → Bool) → F → Option F
when_finite finite x = if finite x then some x else none

module _ {J O F : Type 0} (v : Value J O F) (finite : F → Bool) where
  -- An object with the fields of the statistics.
  pub record HasFields (s : StatsSerializable F) (obj : O) : Type 0 where
    pub count :
        (key : Text) (n : ℕ)
        → lookup key (counts s) ≡ some n
        → (x : J) × (v.get obj key ≡ some x) × (v.as_u64 x ≡ some n)
    pub float :
        (key : Text) (r : F)
        → lookup key (floats s) ≡ some r
        → (x : J) × (v.get obj key ≡ some x) × (v.as_f64 x ≡ when_finite finite r)

  pub record IsDerived (to_value : StatsSerializable F → Option J) : Type 0 where
    pub fields :
        (s : StatsSerializable F) (value : J)
        → to_value s ≡ some value
        → (obj : O) × (v.as_object value ≡ some obj) × HasFields s obj
    pub unbroken : (x : J) → IsUnbroken b'\n' (v.to_string x)

module _ {J O F : Type 0} (v : Value J O F) (finite : F → Bool) (me : Text) (timestamp_ms : ℤ) where
  abbrev finite_one : Option F → Option F
  finite_one none = none
  finite_one (some r) = when_finite finite r

  -- What the field of an entry of the table holds.
  abbrev held_by : StatsSerializable F → Bool → Text → Option F
  held_by s true key = Option.map v.from_u64 (lookup key (counts s))
  held_by s false key = finite_one (lookup key (floats s))

  abbrev IsField : StatsSerializable F → Text × Text × Bool → Type 0
  IsField s (key, name, true) = (n : ℕ) × (lookup key (counts s) ≡ some n)
  IsField s (key, name, false) = (r : F) × (lookup key (floats s) ≡ some r)

  abbrev asked : StatsSerializable F → List (Text × Text × Bool) → List Text
  asked s [] = []
  asked s ((key, name, count) ∷ es) =
      line_before v me timestamp_ms name (held_by s count key) (asked s es)

  reads-held_by :
      (s : StatsSerializable F) (obj : O) (e : Text × Text × Bool)
      → HasFields v finite s obj
      → IsField s e
      → reads v me timestamp_ms obj e.2 e.0 ≡ held_by s e.2 e.0
  reads-held_by s obj (key, name, true) h (n, e) =
      let (x, got, is) = h.count key n e in
      ap (λ o. elim o [ none ↦ none | some y ↦ Option.map v.from_u64 (v.as_u64 y) ]) got
      ∙ (ap (Option.map v.from_u64) is ∙ sym (ap (Option.map v.from_u64) e))
  reads-held_by s obj (key, name, false) h (r, e) =
      let (x, got, is) = h.float key r e in
      ap (λ o. elim o [ none ↦ none | some y ↦ v.as_f64 y ]) got ∙ (is ∙ sym (ap finite_one e))

  exported-asked :
      (s : StatsSerializable F) (obj : O) (es : List (Text × Text × Bool))
      → HasFields v finite s obj
      → All (IsField s) es
      → exported v me timestamp_ms obj es ≡ asked s es
  exported-asked s obj [] h all = refl
  exported-asked s obj (e ∷ es) h all =
      rw (reads-held_by s obj e h all.0, exported-asked s obj es h all.1) refl

  table-IsField : (s : StatsSerializable F) → All (IsField s) table
  unfolding lookup text_eq
  table-IsField s = (
    (_, refl),
    (
      (_, refl),
      (
        (_, refl),
        (
          (_, refl),
          (
            (_, refl),
            (
              (_, refl),
              ((_, refl), ((_, refl), ((_, refl), ((_, refl), ((_, refl), ((_, refl), tt)))))),
            ),
          ),
        ),
      ),
    ),
  )

  abbrev pub line : Text → ℕ → Text
  line name n = metric_line v me timestamp_ms name (v.from_u64 n)

  abbrev pub cpu_line : Option F → List Text
  cpu_line none = []
  cpu_line (some x) = metric_line v me timestamp_ms (codes "hakuraku_cpu_percent") x ∷ []

  -- The lines for a node's statistics.
  abbrev pub lines_of : NodeStats F → List Text
  lines_of s =
      cpu_line (when_finite finite s.cpu_percent)
      ++ line (codes "hakuraku_mem_total_bytes") s.mem_total
        ∷ line (codes "hakuraku_mem_used_bytes") s.mem_used
        ∷ line (codes "hakuraku_mem_free_bytes") s.mem_free
        ∷ line (codes "hakuraku_mem_available_bytes") s.mem_available
        ∷ line (codes "hakuraku_swap_total_bytes") s.swap_total
        ∷ line (codes "hakuraku_swap_used_bytes") s.swap_used
        ∷ line (codes "hakuraku_disk_read_bytes_sec") s.disk_read_bytes_sec
        ∷ line (codes "hakuraku_disk_write_bytes_sec") s.disk_write_bytes_sec
        ∷ line (codes "hakuraku_tcp_connections") s.tcp_connections
        ∷ line (codes "hakuraku_udp_connections") s.udp_connections
        ∷ line (codes "hakuraku_uptime_seconds") s.uptime_seconds
        ∷ []

  cpu_line-before :
      (o : Option F) (ls : List Text)
      → line_before v me timestamp_ms (codes "hakuraku_cpu_percent") o ls ≡ cpu_line o ++ ls
  cpu_line-before none ls = refl
  cpu_line-before (some x) ls = refl

  asked-lines : (s : NodeStats F) → asked (serializable s) table ≡ lines_of s
  unfolding serializable lookup text_eq
  asked-lines s = cpu_line-before (when_finite finite s.cpu_percent) _

  some_line : (o : Option F) (l : Text) (ls : List Text) → cpu_line o ++ l ∷ ls ≢ []
  some_line none l ls e = cc
  some_line (some x) l ls e = cc

  -- While a permit is left, the worker posts a payload for each set of statistics that a node
  -- reported: read back, it has one line for each of eleven counts with the value that the node
  -- reported, and before them one for the processor load if it is a finite number, in the order of the
  -- table, and nothing else. serde's object has the fields of the statistics under their names, and
  -- `serde_json` writes a value in one line.
  pub push_item-exports :
      (to_value : StatsSerializable F → Option J) (url str : Text) (s : NodeStats F) (value : J)
      (p : Pushes) (n : ℕ)
      → IsDerived v finite to_value
      → to_value (serializable s) ≡ some value
      → p.permits ≡ suc n
      → (payload : Text) × ((push_item v
            (some url)
            (stats_item me timestamp_ms str value)
            p).in_flight
          ≡ p.in_flight ++ payload ∷ [])
        × (split_on b'\n' payload ≡ lines_of s ++ [] ∷ [])
  unfolding push_item push
  push_item-exports to_value url str s value p n doc made free =
      let (obj, is_object, h) = doc.fields (serializable s) value made in
      let lines : exported v me timestamp_ms obj table ≡ lines_of s =
        exported-asked (serializable s) obj table h (table-IsField (serializable s))
        ∙ asked-lines s in
      let (read_back, _) = serialize-table v me timestamp_ms value obj doc.unbroken is_object in
      (
        serialize_to_vm_jsonl v me timestamp_ms value,
        rw free refl,
        read_back (λ e. some_line (when_finite finite s.cpu_percent) _ _ (sym lines ∙ e))
            ∙ ap (λ ls. ls ++ [] ∷ []) lines,
      )
