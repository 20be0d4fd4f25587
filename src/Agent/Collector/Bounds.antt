-- ===== src/Agent/Collector/Bounds.antt =====
-- The processor load is a percentage.
use hakuraku.Prelude.{ℕ, ◌+◌, ◌-◌, ◌≤◌, ◌<◌, ◌≡◌, ◌==◌, true, arith, Bool-cases, inl, inr}
use hakuraku.Core.Float.{Float, IsFloat}
use hakuraku.Agent.Collector.{CpuJiffies}
use hakuraku.Agent.Collector.Cpu.{total, active, compute_cpu_percent}

-- The counters add up within 64 bits.
abbrev pub IsExact : CpuJiffies → Type 0
IsExact j =
    j.user + j.nice + j.system + j.idle + j.iowait + j.irq + j.softirq + j.steal
    < 18446744073709551616

total_exact :
    (j : CpuJiffies)
    → IsExact j
    → total j ≡ j.user + j.nice + j.system + j.idle + j.iowait + j.irq + j.softirq + j.steal
unfolding total
total_exact j h = omega arith

active_exact :
    (j : CpuJiffies)
    → IsExact j
    → active j ≡ j.user + j.nice + j.system + j.irq + j.softirq + j.steal
unfolding active
active_exact j h = rw (total_exact j h) (omega arith)

module _ {F : Type 0} (f : Float F) (law : IsFloat f) where
  abbrev pub IsPercentage : F → Type 0
  IsPercentage x = (f.leq (f.of_u64 0) x ≡ true) × (f.leq x (f.of_u64 100) ≡ true)

  quotient-IsPercentage :
      (a b : ℕ)
      → a ≤ b
      → 0 < b
      → IsPercentage (f.mul (f.div (f.of_u64 a) (f.of_u64 b)) (f.ratio 100 1))
  quotient-IsPercentage a b h k =
      (law.mul_hundred_nonneg _ (law.div-nonneg a b k), law.mul_hundred_le _ (law.div-le a b h k))

  -- Where the counters of both samples add up within 64 bits and the time idle or waiting has not
  -- gone down between them, the load is between 0 and 100.
  pub compute_cpu_percent-IsPercentage :
      (prev curr : CpuJiffies)
      → IsExact prev
      → IsExact curr
      → prev.idle + prev.iowait ≤ curr.idle + curr.iowait
      → IsPercentage (compute_cpu_percent f prev curr)
  unfolding compute_cpu_percent
  compute_cpu_percent-IsPercentage prev curr hp hc idle =
      elim (Bool-cases (total curr - total prev == 0)) [
        | inl same ↦ rw same (law.zero-le, law.zero-le-hundred)
        | inr moved ↦ rw moved (
            quotient-IsPercentage _ _
              (omega (
                arith,
                total_exact prev hp,
                total_exact curr hc,
                active_exact prev hp,
                active_exact curr hc,
              ))
              (ground arith))
      ]
