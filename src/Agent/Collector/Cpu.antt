-- ===== src/Agent/Collector/Cpu.antt =====
-- pulse-agent/src/collector.rs: the processor load from /proc/stat.
use hakuraku.Prelude.{
  ℕ, ◌+◌, ◌-◌, List, [], ◌∷◌, ◌++◌, Option, none, some, Text, codes, length, drop, get_elem?,
  lookup, insert, Result, ok, err, ◌>>=◌, to_option, split_whitespace, starts_with, strip_prefix,
  parse_u64, ltb, ◌==◌, if◌then◌else◌,
}
use hakuraku.Core.Float.{Float}
use hakuraku.Core.Error.{CollectorError}
use hakuraku.Agent.Collector.{
  CpuJiffies, SystemCollector, Kernel, read_file, lines, wrap, wrap_32, sub_u64, number_or, field,
  Collecting,
}

unfoldable pub total : CpuJiffies → ℕ
total j = wrap (j.user + j.nice + j.system + j.idle + j.iowait + j.irq + j.softirq + j.steal)

unfoldable pub active : CpuJiffies → ℕ
active j = sub_u64 (sub_u64 (total j) j.idle) j.iowait

abbrev pub jiffy_field : List Text → ℕ → Text → Result CollectorError ℕ
jiffy_field ws i name =
    field parse_u64 (codes "/proc/stat") name (codes "not a valid u64") (get_elem? ws i)

abbrev optional : Result CollectorError ℕ → ℕ
optional r = number_or 0 (to_option r)

unfoldable pub parse_cpu_line : Text → Result CollectorError CpuJiffies
parse_cpu_line line =
    let parts = drop 1 (split_whitespace line) in
    do
      user ← jiffy_field parts 0 (codes "user")
      nice ← jiffy_field parts 1 (codes "nice")
      system ← jiffy_field parts 2 (codes "system")
      idle ← jiffy_field parts 3 (codes "idle")
      ok (record {
        user = user;
        nice = nice;
        system = system;
        idle = idle;
        iowait = optional (jiffy_field parts 4 (codes "iowait"));
        irq = optional (jiffy_field parts 5 (codes "irq"));
        softirq = optional (jiffy_field parts 6 (codes "softirq"));
        steal = optional (jiffy_field parts 7 (codes "steal"));
      })

abbrev pub u32_or : ℕ → Option ℕ → ℕ
u32_or d none = d
u32_or d (some n) = if ltb n 4294967296 then n else d

abbrev parse_first : Option Text → Option ℕ
parse_first none = none
parse_first (some s) = parse_u64 s

-- The number of the core, or of the cores before it.
abbrev pub core_of : Text → ℕ → ℕ
core_of stripped before =
    u32_or (wrap_32 before) (parse_first (get_elem? (split_whitespace stripped) 0))

module _ {F : Type 0} (f : Float F) where
  unfoldable pub compute_cpu_percent : CpuJiffies → CpuJiffies → F
  compute_cpu_percent prev curr =
      let total_delta = total curr - total prev in
      let active_delta = active curr - active prev in
      if total_delta == 0
      then f.ratio 0 1
      else f.mul (f.div (f.of_u64 active_delta) (f.of_u64 total_delta)) (f.ratio 100 1)

  abbrev pub percent_or : F → Option CpuJiffies → CpuJiffies → F
  percent_or x none jiffies = x
  percent_or x (some prev) jiffies = compute_cpu_percent prev jiffies

  -- A line of the whole machine or of a core. A line that is refused leaves what was read before it.
  abbrev pub overall :
      SystemCollector
      → F
      → Result CollectorError CpuJiffies
      → (SystemCollector → F → Collecting (F × List F))
      → Collecting (F × List F)
  overall c percent (err e) k = (c, err e)
  overall c percent (ok j) k = k (record c { prev_cpu = some j }) (percent_or percent c.prev_cpu j)

  abbrev pub core :
      SystemCollector
      → ℕ
      → List F
      → Result CollectorError CpuJiffies
      → (SystemCollector → List F → Collecting (F × List F))
      → Collecting (F × List F)
  core c n cores (err e) k = (c, err e)
  core c n cores (ok j) k =
      k (record c { prev_cpu_per_core = insert (n ∷ []) j c.prev_cpu_per_core })
        (cores ++ percent_or (f.ratio 0 1) (lookup (n ∷ []) c.prev_cpu_per_core) j ∷ [])

  unfoldable pub cpu_lines : SystemCollector → F → List F → List Text → Collecting (F × List F)
  cpu_lines c percent cores [] = (c, ok (percent, cores))
  cpu_lines c percent cores (line ∷ ls) =
      let go = λ (c' : SystemCollector) (p : F) (ps : List F). cpu_lines c' p ps ls in
      let here = overall c percent (parse_cpu_line line) (λ c' p. go c' p cores) in
      if starts_with (codes "cpu ") line then here else elim (strip_prefix (codes "cpu") line) [
        | none ↦ (c, ok (percent, cores))
        | some stripped ↦
            core c (core_of stripped (length cores)) cores (parse_cpu_line line)
              (λ c' ps. go c' percent ps)
      ]

  abbrev pub cpu_text : SystemCollector → Result CollectorError Text → Collecting (F × List F)
  cpu_text c (err e) = (c, err e)
  cpu_text c (ok text) = cpu_lines c (f.ratio 0 1) [] (lines text)

  unfoldable pub read_cpu : Kernel → SystemCollector → Collecting (F × List F)
  read_cpu k c = cpu_text c (read_file k (codes "/proc/stat"))
