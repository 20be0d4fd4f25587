-- ===== src/Agent/Collector/Proc.antt =====
-- pulse-agent/src/collector.rs: the readers that compute no differences: memory, load, connections,
-- uptime and temperatures.
use hakuraku.Prelude.{
  ℕ, ◌+◌, ◌-◌, ◌*◌, not, List, [], ◌∷◌, ◌++◌, Option, none, some, Text, codes, text_eq, length,
  drop, keep_if, if◌then◌else◌, Result, ok, ◌>>=◌, split_on, split_whitespace, trim, starts_with,
  parse_u64, parse_i32, get_elem?, to_option, ok_or,
}
use hakuraku.Core.Float.{Float}
use hakuraku.Core.Error.{CollectorError, parse}
use hakuraku.Core.Proto.{TemperatureSensor}
use hakuraku.Agent.Collector.{
  Kernel, Zone, read_file, lines, wrap, wrap_32, text_or, number_or, field,
}

pub record Memory : Type 0 where
  pub mem_total : ℕ
  pub mem_free : ℕ
  pub mem_available : ℕ
  pub buffers : ℕ
  pub cached : ℕ
  pub swap_total : ℕ
  pub swap_free : ℕ

abbrev pub no_memory : Memory
no_memory = record {
  mem_total = 0;
  mem_free = 0;
  mem_available = 0;
  buffers = 0;
  cached = 0;
  swap_total = 0;
  swap_free = 0;
}

abbrev number_of : Text → Option Text → Option (Text × ℕ)
number_of key none = none
number_of key (some num) = elim (parse_u64 num) [ none ↦ none | some v ↦ some (key, v) ]

-- The pieces of the line between colons.
abbrev pub meminfo_pieces : List Text → Option (Text × ℕ)
meminfo_pieces [] = none
meminfo_pieces (key ∷ []) = none
meminfo_pieces (key ∷ val ∷ ps) = number_of (trim key) (get_elem? (split_whitespace (trim val)) 0)

unfoldable pub parse_meminfo_line : Text → Option (Text × ℕ)
parse_meminfo_line line = meminfo_pieces (split_on b':' line)

abbrev pub remember : Memory → Text → ℕ → Memory
remember m key v =
    if text_eq key (codes "MemTotal")
    then record m { mem_total = v }
    else if text_eq key (codes "MemFree")
    then record m { mem_free = v }
    else if text_eq key (codes "MemAvailable")
    then record m { mem_available = v }
    else if text_eq key (codes "Buffers")
    then record m { buffers = v }
    else if text_eq key (codes "Cached")
    then record m { cached = v }
    else if text_eq key (codes "SwapTotal")
    then record m { swap_total = v }
    else if text_eq key (codes "SwapFree")
    then record m { swap_free = v }
    else m

abbrev pub remember_line : Memory → Option (Text × ℕ) → Memory
remember_line m none = m
remember_line m (some (key, val_kb)) = remember m key (wrap (val_kb * 1024))

unfoldable pub meminfo : Memory → List Text → Memory
meminfo m [] = m
meminfo m (l ∷ ls) = meminfo (remember_line m (parse_meminfo_line l)) ls

-- What the reader returns: the figures with the two amounts in use.
pub record Usage : Type 0 where
  pub figures : Memory
  pub mem_used : ℕ
  pub swap_used : ℕ

abbrev pub usage : Memory → Usage
usage m = record {
  figures = m;
  mem_used = m.mem_total - wrap (m.mem_free + m.buffers + m.cached);
  swap_used = m.swap_total - m.swap_free;
}

unfoldable pub read_meminfo : Kernel → Result CollectorError Usage
read_meminfo k = do
  text ← read_file k (codes "/proc/meminfo")
  ok (usage (meminfo no_memory (lines text)))

-- Without the header, the lines that are not blank.
abbrev pub connections : Text → ℕ
connections text = wrap_32 (length (keep_if (λ l. not (text_eq (trim l) [])) (drop 1 (lines text))))

unfoldable pub count_connections : Kernel → Text → Result CollectorError ℕ
count_connections k path = do text ← read_file k path; ok (connections text)

-- The files of the second protocol version may be missing.
unfoldable pub both : Kernel → Text → Text → Result CollectorError ℕ
both k path path6 = do
  n ← count_connections k path
  ok (wrap_32 (n + number_or 0 (to_option (count_connections k path6))))

unfoldable pub read_connections : Kernel → Result CollectorError (ℕ × ℕ)
read_connections k = do
  tcp ← both k (codes "/proc/net/tcp") (codes "/proc/net/tcp6")
  udp ← both k (codes "/proc/net/udp") (codes "/proc/net/udp6")
  ok (tcp, udp)

abbrev pub sensor : Zone → Option Text → List TemperatureSensor
sensor z none = []
sensor z (some temp) = elim (parse_i32 (trim temp)) [
  | none ↦ []
  | some t ↦ record { label = trim (text_or z.name z.kind); temp_millicelsius = t } ∷ []
]

abbrev pub sensors : List Zone → List TemperatureSensor
sensors [] = []
sensors (z ∷ zs) =
    let rest = sensors zs in
    if starts_with (codes "thermal_zone") z.name then sensor z z.temp ++ rest else rest

-- There may be no thermal directory.
unfoldable pub read_temperatures : Kernel → List TemperatureSensor
read_temperatures k = elim k.thermal [ none ↦ [] | some zs ↦ sensors zs ]

module _ {F : Type 0} (f : Float F) where
  abbrev pub load : List Text → ℕ → Text → Result CollectorError F
  load ws i name =
      field f.parse (codes "/proc/loadavg") name (codes "not a valid f64") (get_elem? ws i)

  unfoldable pub read_loadavg : Kernel → Result CollectorError (F × F × F)
  read_loadavg k = do
    text ← read_file k (codes "/proc/loadavg")
    l1 ← load (split_whitespace text) 0 (codes "load1")
    l5 ← load (split_whitespace text) 1 (codes "load5")
    l15 ← load (split_whitespace text) 2 (codes "load15")
    ok (l1, l5, l15)

  unfoldable pub read_uptime : Kernel → Result CollectorError ℕ
  read_uptime k = do
    text ← read_file k (codes "/proc/uptime")
    uptime_str ←
        ok_or (parse (codes "/proc/uptime") (codes "uptime") (codes "empty file"))
          (get_elem? (split_whitespace text) 0)
    uptime ←
        ok_or (parse (codes "/proc/uptime") (codes "uptime") (codes "not a valid f64"))
          (f.parse uptime_str)
    ok (f.to_u64 uptime)
