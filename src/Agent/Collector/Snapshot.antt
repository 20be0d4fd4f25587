-- ===== src/Agent/Collector/Snapshot.antt =====
-- What a snapshot holds, and what the collector keeps for the next one.
use hakuraku.Prelude.{
  ℕ, ◌≤◌, ◌≡◌, ◌≢◌, refl, subst, ◌∙◌, List, [], ◌∷◌, Option, none, some, Text, codes, Result, ok,
  err, arith, All, drop, starts_with, strip_prefix, Result-cases, Option-cases, Bool-cases, inl,
  inr, text_eq_iff, trim,
}
use hakuraku.Core.Float.{Float}
use hakuraku.Core.Error.{CollectorError}
use hakuraku.Core.Proto.{NodeStats, NetworkInterface}
use hakuraku.Agent.Collector.{
  CpuJiffies, SystemCollector, Kernel, Collecting, after, reading, read_file, lines,
}
use hakuraku.Agent.Collector.Proc.{read_meminfo, read_loadavg, read_connections, read_uptime, Usage}
use hakuraku.Agent.Collector.Cpu.{read_cpu, cpu_text, cpu_lines, overall, core, parse_cpu_line}
use hakuraku.Agent.Collector.Counters.{
  counted, interface_pieces, split_colon, parse_net_line, net_lines, read_net_dev, read_diskstats,
  at, count_net, net_text, disk_text,
}
use hakuraku.Agent.Collector.Collect.{collect, elapsed_secs}

counted_name :
    (name : Text) (fields : List ℕ) {name' : Text} {fields' : List ℕ}
    → counted name fields ≡ some (name', fields')
    → name' ≢ codes "lo"
counted_name name fields h = ground (arith, text_eq_iff name (codes "lo"))

interface_pieces_name :
    (o : Option (Text × Text)) {name : Text} {fields : List ℕ}
    → interface_pieces o ≡ some (name, fields)
    → name ≢ codes "lo"
interface_pieces_name none h = cc
interface_pieces_name (some (front, back)) h = counted_name _ _ h

parse_net_line_name :
    (l : Text) {name : Text} {fields : List ℕ}
    → parse_net_line l ≡ some (name, fields)
    → name ≢ codes "lo"
unfolding parse_net_line
parse_net_line_name l {name = n} {fields = ns} h =
    ground (arith, interface_pieces_name (split_colon (trim l)) {name = n} {fields = ns})

abbrev IsWithin : Result CollectorError Usage → Type 0
IsWithin (err e) = Unit
IsWithin (ok u) = (u.mem_used ≤ u.figures.mem_total) × (u.swap_used ≤ u.figures.swap_total)

read_meminfo-IsWithin : (k : Kernel) → IsWithin (read_meminfo k)
unfolding read_meminfo
read_meminfo-IsWithin k = elim (Result-cases (read_file k (codes "/proc/meminfo"))) [
  | inl (text, e) ↦ rw e (omega arith, omega arith)
  | inr (x, e) ↦ rw e tt
]

module _ {F : Type 0} (f : Float F) where
  overall-prev_time :
      (c : SystemCollector) (percent : F) (r : Result CollectorError CpuJiffies)
      (k : SystemCollector → F → Collecting (F × List F))
      → ((c' : SystemCollector) (p : F) → (k c' p).0.prev_time ≡ c'.prev_time)
      → (overall f c percent r k).0.prev_time ≡ c.prev_time
  overall-prev_time c percent (err e) k h = refl
  overall-prev_time c percent (ok j) k h = h _ _

  core-prev_time :
      (c : SystemCollector) (n : ℕ) (cores : List F) (r : Result CollectorError CpuJiffies)
      (k : SystemCollector → List F → Collecting (F × List F))
      → ((c' : SystemCollector) (ps : List F) → (k c' ps).0.prev_time ≡ c'.prev_time)
      → (core f c n cores r k).0.prev_time ≡ c.prev_time
  core-prev_time c n cores (err e) k h = refl
  core-prev_time c n cores (ok j) k h = h _ _

  cpu_lines-prev_time :
      (c : SystemCollector) (percent : F) (cores : List F) (ls : List Text)
      → (cpu_lines f c percent cores ls).0.prev_time ≡ c.prev_time
  unfolding cpu_lines
  cpu_lines-prev_time c percent cores [] = refl
  cpu_lines-prev_time c percent cores (l ∷ ls) = elim (Bool-cases (starts_with (codes "cpu ") l)) [
    | inl whole ↦ rw whole (
        overall-prev_time c percent (parse_cpu_line l) _
          (λ c' p. cpu_lines-prev_time c' p cores ls))
    | inr one ↦ elim (Option-cases (strip_prefix (codes "cpu") l)) [
      | inl past ↦ rw (one, past) refl
      | inr (stripped, e) ↦
          rw (one, e)
            (core-prev_time c _ cores (parse_cpu_line l) _
              (λ c' ps. cpu_lines-prev_time c' percent ps ls))
    ]
  ]

  net_lines-prev_time :
      (elapsed : F) (c : SystemCollector) (ls : List Text)
      → (net_lines f elapsed c ls).0.prev_time ≡ c.prev_time
  unfolding net_lines
  net_lines-prev_time elapsed c [] = refl
  net_lines-prev_time elapsed c (l ∷ ls) = elim (Option-cases (parse_net_line l)) [
    | inl skip ↦ rw (net_lines, skip) (net_lines-prev_time elapsed c ls)
    | inr ((name, fields), e) ↦
        rw (net_lines, e)
          (net_lines-prev_time elapsed (count_net c name (at fields 0) (at fields 8)) ls)
  ]

  net_lines_names :
      (elapsed : F) (c : SystemCollector) (ls : List Text)
      → All (λ i. i.name ≢ codes "lo") (net_lines f elapsed c ls).1
  unfolding net_lines
  net_lines_names elapsed c [] = tt
  net_lines_names elapsed c (l ∷ ls) = elim (Option-cases (parse_net_line l)) [
    | inl skip ↦ rw (net_lines, skip) (net_lines_names elapsed c ls)
    | inr ((name, fields), e) ↦
        rw (net_lines, e)
          (
            parse_net_line_name l e,
            net_lines_names elapsed (count_net c name (at fields 0) (at fields 8)) ls,
          )
  ]

  read_cpu-prev_time :
      (k : Kernel) (c : SystemCollector) → (read_cpu f k c).0.prev_time ≡ c.prev_time
  unfolding read_cpu
  read_cpu-prev_time k c = elim (Result-cases (read_file k (codes "/proc/stat"))) [
    | inl (text, e) ↦ rw (cpu_text, e) (cpu_lines-prev_time c (f.ratio 0 1) [] (lines text))
    | inr (x, e) ↦ rw (cpu_text, e) refl
  ]

  read_net_dev-prev_time :
      (k : Kernel) (elapsed : F) (c : SystemCollector)
      → (read_net_dev f k elapsed c).0.prev_time ≡ c.prev_time
  unfolding read_net_dev
  read_net_dev-prev_time k elapsed c = elim (Result-cases (read_file k (codes "/proc/net/dev"))) [
    | inl (text, e) ↦ rw (net_text, e) (net_lines-prev_time elapsed c (drop 2 (lines text)))
    | inr (x, e) ↦ rw (net_text, e) refl
  ]

  abbrev HasNoLoopback : Collecting (List NetworkInterface) → Type 0
  HasNoLoopback (c', err e) = Unit
  HasNoLoopback (c', ok net) = All (λ i. i.name ≢ codes "lo") net

  read_net_dev-HasNoLoopback :
      (k : Kernel) (elapsed : F) (c : SystemCollector) → HasNoLoopback (read_net_dev f k elapsed c)
  unfolding read_net_dev
  read_net_dev-HasNoLoopback k elapsed c =
      elim (Result-cases (read_file k (codes "/proc/net/dev"))) [
        | inl (text, e) ↦ rw (net_text, e) (net_lines_names elapsed c (drop 2 (lines text)))
        | inr (x, e) ↦ rw (net_text, e) tt
      ]

  read_diskstats-prev_time :
      (k : Kernel) (elapsed : F) (c : SystemCollector)
      → (read_diskstats f k elapsed c).0.prev_time ≡ c.prev_time
  unfolding read_diskstats
  read_diskstats-prev_time k elapsed c =
      elim (Result-cases (read_file k (codes "/proc/diskstats"))) [
        | inl (text, e) ↦ rw (disk_text, e) refl
        | inr (x, e) ↦ rw (disk_text, e) refl
      ]

  -- What a snapshot's readers return, and the collector after them.
  abbrev pub IsSnapshot : ℕ → Text → Option ℕ → Collecting (NodeStats F) → Type 0
  IsSnapshot now node_id before (c', err e) = c'.prev_time ≡ before
  IsSnapshot now node_id before (c', ok s) =
      (c'.prev_time ≡ some now)
      × (s.node_id ≡ node_id)
      × (s.mem_used ≤ s.mem_total)
      × (s.swap_used ≤ s.swap_total)
      × All (λ i. i.name ≢ codes "lo") s.net_interfaces

  module _ (now : ℕ) (node_id : Text) (before : Option ℕ) where
    after-IsSnapshot :
        {A : Type 0} (m : Collecting A) (next : SystemCollector → A → Collecting (NodeStats F))
        → m.0.prev_time ≡ before
        → ((c' : SystemCollector) (a : A)
            → m ≡ (c', ok a)
            → c'.prev_time ≡ before
            → IsSnapshot now node_id before (next c' a))
        → IsSnapshot now node_id before (after m next)
    after-IsSnapshot (c', ok a) next h k = k c' a refl h
    after-IsSnapshot (c', err e) next h k = h

    reading-IsSnapshot :
        {A : Type 0} (c' : SystemCollector) (r : Result CollectorError A)
        (next : A → Collecting (NodeStats F))
        → c'.prev_time ≡ before
        → ((a : A) → r ≡ ok a → IsSnapshot now node_id before (next a))
        → IsSnapshot now node_id before (reading c' r next)
    reading-IsSnapshot c' (ok a) next h k = k a refl
    reading-IsSnapshot c' (err e) next h k = h

  -- Reading the files one after the other, whatever they hold, gives a snapshot of the node in which
  -- the memory and the swap in use are at most their totals and the loopback interface is missing,
  -- and the collector then remembers the time; or it fails, and the remembered time is the old one.
  pub collect-IsSnapshot :
      (k : Kernel) (now : ℕ) (clock : Option ℕ) (node_id : Text) (c : SystemCollector)
      → IsSnapshot now node_id c.prev_time (collect f k now clock node_id c)
  unfolding collect
  collect-IsSnapshot k now clock node_id c =
      let elapsed = elapsed_secs f c.prev_time now in
      after-IsSnapshot now node_id c.prev_time (read_cpu f k c) _ (read_cpu-prev_time k c)
        (λ c1 cpu e1 t1.
          reading-IsSnapshot now node_id c.prev_time c1 (read_meminfo k) _ t1 (λ mem e2.
            reading-IsSnapshot now node_id c.prev_time c1 (read_loadavg f k) _ t1 (λ loads e3.
              after-IsSnapshot now node_id c.prev_time (read_net_dev f k elapsed c1) _
                (read_net_dev-prev_time k elapsed c1 ∙ t1)
                (λ c2 net e4 t2.
                  after-IsSnapshot now node_id c.prev_time (read_diskstats f k elapsed c2) _
                    (read_diskstats-prev_time k elapsed c2 ∙ t2)
                    (λ c3 disk e5 t3.
                      reading-IsSnapshot now node_id c.prev_time c3 (read_connections k) _ t3
                        (λ conns e6.
                          reading-IsSnapshot now node_id c.prev_time c3 (read_uptime f k) _ t3
                            (λ uptime e7.
                              let (mem_le, swap_le) = subst IsWithin e2 (read_meminfo-IsWithin k) in
                              (
                                refl,
                                refl,
                                mem_le,
                                swap_le,
                                subst HasNoLoopback e4 (read_net_dev-HasNoLoopback k elapsed c1),
                              ))))))))
