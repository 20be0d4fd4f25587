-- ===== src/Agent/Collector.antt =====
-- pulse-agent/src/collector.rs: the metric collector, over what the kernel's files hold. The buffer
-- that is used again for each file is left out. `u64` and `u32` wrap around as in the release profile.
pub mod Proc
pub mod Cpu
pub mod Counters
pub mod Collect
pub mod Bounds
pub mod Snapshot
mod Tests
use hakuraku.Prelude.{
  ℕ, ◌+◌, ◌-◌, ◌*◌, ◌%◌, Bool, ◌||◌, List, [], ◌∷◌, ◌++◌, Option, none, some, Text, codes, ℤ, ◌==◌,
  if◌then◌else◌, ltb, Result, ok, err, split_on, parse_u64, map_err, ok_or,
}
use hakuraku.Core.Error.{CollectorError, proc_read, parse}

abbrev pub wrap : ℕ → ℕ
wrap n = n % 18446744073709551616

abbrev pub wrap_32 : ℕ → ℕ
wrap_32 n = n % 4294967296

abbrev pub sub_u64 : ℕ → ℕ → ℕ
sub_u64 a b = wrap (a + (18446744073709551616 - b))

pub record CpuJiffies : Type 0 where
  pub user : ℕ
  pub nice : ℕ
  pub system : ℕ
  pub idle : ℕ
  pub iowait : ℕ
  pub irq : ℕ
  pub softirq : ℕ
  pub steal : ℕ

pub record NetCounters : Type 0 where
  pub rx_bytes : ℕ
  pub tx_bytes : ℕ

pub record DiskCounters : Type 0 where
  pub read_sectors : ℕ
  pub write_sectors : ℕ

-- The key of a core is the text of which its number is the one code. `prev_time` is in nanoseconds.
pub record SystemCollector : Type 0 where
  pub prev_cpu : Option CpuJiffies
  pub prev_cpu_per_core : List (Text × CpuJiffies)
  pub prev_net : List (Text × NetCounters)
  pub prev_disk : Option DiskCounters
  pub prev_time : Option ℕ

abbrev pub new : SystemCollector
new = record {
  prev_cpu = none;
  prev_cpu_per_core = [];
  prev_net = [];
  prev_disk = none;
  prev_time = none;
}

-- A thermal zone: its name, and its files `type` and `temp` where they can be read.
pub record Zone : Type 0 where
  pub name : Text
  pub kind : Option Text
  pub temp : Option Text

-- What the kernel shows: a file's content or the text of the error, and the thermal directory.
pub record Kernel : Type 0 where
  pub read : Text → Result Text Text
  pub thermal : Option (List Zone)

abbrev pub read_file : Kernel → Text → Result CollectorError Text
read_file k path = map_err (proc_read path) (k.read path)

-- `str::lines`: without the line feeds, and without a carriage return before one.
abbrev pub strip_cr : Text → Text
strip_cr [] = []
strip_cr (c ∷ []) = if c == 13 then [] else c ∷ []
strip_cr (c ∷ d ∷ s) = c ∷ strip_cr (d ∷ s)

abbrev pub ended : List Text → List Text
ended [] = []
ended ([] ∷ []) = []
ended ((c ∷ s) ∷ []) = (c ∷ s) ∷ []
ended (l ∷ m ∷ ls) = strip_cr l ∷ ended (m ∷ ls)

abbrev pub lines : Text → List Text
lines s = ended (split_on 10 s)

abbrev pub text_or : Text → Option Text → Text
text_or d none = d
text_or d (some s) = s

abbrev pub number_or : ℕ → Option ℕ → ℕ
number_or d none = d
number_or d (some n) = n

-- The closures `parse` of the two readers, for a field that is there or not.
abbrev pub parse_error : Text → Text → Text → CollectorError
parse_error path field detail = parse path field detail

abbrev pub field {ℓ} :
    {A : Type ℓ} → (Text → Option A) → Text → Text → Text → Option Text → Result CollectorError A
field read path name bad none = err (parse path name (codes "missing field"))
field read path name bad (some s) = ok_or (parse path name bad) (read s)

-- `self` after a reader, with what it returns.
abbrev pub Collecting {ℓ} : Type ℓ → Type ℓ
Collecting A = SystemCollector × Result CollectorError A

abbrev pub after {ℓ κ} :
    {A : Type ℓ} {B : Type κ} → Collecting A → (SystemCollector → A → Collecting B) → Collecting B
after (c, ok a) k = k c a
after (c, err e) k = (c, err e)

-- A reader that does not change the collector.
abbrev pub reading {ℓ κ} :
    {A : Type ℓ} {B : Type κ}
    → SystemCollector
    → Result CollectorError A
    → (A → Collecting B)
    → Collecting B
reading c (ok a) k = k a
reading c (err e) k = (c, err e)
