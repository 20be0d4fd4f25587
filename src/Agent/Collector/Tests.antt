-- ===== src/Agent/Collector/Tests.antt =====
-- The collector on small files.
use hakuraku.Prelude.{ℕ, ◌≡◌, refl, List, [], ◌∷◌, none, some, Text, codes, lookup, ok_or, arith}
use hakuraku.Core.Toys.{whole, whole-IsFloat}
use hakuraku.Agent.Collector.{CpuJiffies, Kernel, new}
use hakuraku.Agent.Collector.Cpu.{total, active, compute_cpu_percent}
use hakuraku.Agent.Collector.Collect.{collect}
use hakuraku.Agent.Collector.Bounds.{IsPercentage, compute_cpu_percent-IsPercentage}
use hakuraku.Agent.Collector.Snapshot.{IsSnapshot, collect-IsSnapshot}

abbrev jiffies : ℕ → ℕ → CpuJiffies
jiffies user idle = record {
  user = user;
  nice = 0;
  system = 5;
  idle = idle;
  iowait = 10;
  irq = 0;
  softirq = 0;
  steal = 0;
}

busy : compute_cpu_percent whole (jiffies 100 200) (jiffies 200 200) ≡ 100
unfolding compute_cpu_percent total active
busy = refl

-- The kernel's idle counter may step back; the load is then above 100.
above : compute_cpu_percent whole (jiffies 100 200) (jiffies 200 150) ≡ 200
unfolding compute_cpu_percent total active
above = refl

compute_cpu_percent-IsPercentage_example :
    IsPercentage whole whole-IsFloat (compute_cpu_percent whole (jiffies 100 200) (jiffies 150 250))
compute_cpu_percent-IsPercentage_example =
    compute_cpu_percent-IsPercentage whole whole-IsFloat (jiffies 100 200) (jiffies 150 250)
      (omega arith) (omega arith) (omega arith)

abbrev files : List (Text × Text)
files =
    (codes "/proc/stat", codes "cpu  1 2 3 4\ncpu0 1 2 3 4\nintr 1\n")
    ∷ (codes "/proc/meminfo", codes "MemTotal: 8 kB\nMemFree: 2 kB\n")
    ∷ (codes "/proc/loadavg", codes "1 2 3 1/2 3\n")
    ∷ (
      codes "/proc/net/dev",
      codes "h\nh\n lo: 1 2 3 4 5 6 7 8 9 10\n eth0: 1 2 3 4 5 6 7 8 9 10\n",
    )
    ∷ (codes "/proc/diskstats", codes "8 0 sda 1 2 3 4 5 6 7 8 9 10 11\n")
    ∷ (codes "/proc/net/tcp", codes "h\n1\n2\n")
    ∷ (codes "/proc/net/udp", codes "h\n1\n")
    ∷ (codes "/proc/uptime", codes "77 5\n")
    ∷ []

abbrev machine : Kernel
machine = record {
  read = λ path. ok_or (codes "No such file or directory") (lookup path files);
  thermal = none;
}

collect-IsSnapshot_example :
    IsSnapshot whole 5000 (codes "a") none (collect whole machine 5000 (some 7) (codes "a") new)
collect-IsSnapshot_example = collect-IsSnapshot whole machine 5000 (some 7) (codes "a") new
