-- ===== src/SysInfo/Cpu.antt =====
-- internal/master/sysinfo.go: what the load of the processor means.
use native.Mathlib.Nat.{div-le_of_le-mul}
use open_ctrl.Base.{ℕ, suc, ◌+◌, ◌-◌, ◌*◌, ◌/◌, ◌≤◌, ◌<◌, ◌≡◌, arith, uint64_mod, sub64, pos}
use open_ctrl.SysInfo.{CpuTimes, to_int, min_100, load_in, cpu_load, mul64}

-- Two readings between which no counter ran backwards.
pub record IsLater (t1 t2 : CpuTimes) : Type 0 where
  pub idle_le : t1.idle ≤ t2.idle
  pub within : t2.idle + t1.total ≤ t2.total + t1.idle
  pub passed : t1.total < t2.total
  pub fits : t2.total < uint64_mod
  pub idle_fits : t2.idle < uint64_mod
  pub scales : (t2.total - t1.total) * 100 < uint64_mod

sub64-exact : (a b : ℕ) → a ≤ b → b < uint64_mod → sub64 b a ≡ b - a
sub64-exact a b h i = omega (arith, h, i)

mul64-exact : (a b : ℕ) → a * b < uint64_mod → mul64 a b ≡ a * b
mul64-exact a b h = omega (arith, h)

shown : (v : ℕ) → v ≤ 100 → min_100 (to_int v) ≡ pos v
unfolding to_int
shown v h = ground (arith, h)

share :
    (idle n : ℕ)
    → idle ≤ suc n
    → suc n * 100 < uint64_mod
    → min_100 (to_int (mul64 (sub64 (suc n) idle) 100 / suc n)) ≡ pos ((suc n - idle) * 100 / suc n)
share idle n h i =
    rw
      (
        sub64-exact idle (suc n) h (omega (arith, i)),
        mul64-exact (suc n - idle) 100 (omega (arith, i)),
      )
      (shown ((suc n - idle) * 100 / suc n) (div-le_of_le-mul (suc n) (omega (arith, h))))

load_of :
    (idle total n : ℕ)
    → total ≡ suc n
    → idle ≤ total
    → total * 100 < uint64_mod
    → load_in idle total ≡ pos ((total - idle) * 100 / total)
unfolding load_in
load_of idle total n g h i = rw g (share idle n (omega (arith, h, g)) (omega (arith, i, g)))

-- If no counter ran backwards between two readings of the times, and some time has passed, but less
-- than a hundredth of what a uint64 holds, then the load shown is the share of the time that was not
-- idle, in per cent and rounded down.
pub cpu_load_lem :
    (t1 t2 : CpuTimes)
    → IsLater t1 t2
    → cpu_load t1 t2
      ≡ pos (((t2.total - t1.total) - (t2.idle - t1.idle)) * 100 / (t2.total - t1.total))
unfolding cpu_load
cpu_load_lem t1 t2 l =
    rw
      (
        sub64-exact t1.idle t2.idle l.idle_le l.idle_fits,
        sub64-exact t1.total t2.total (omega (arith, l.passed)) l.fits,
      )
      (load_of (t2.idle - t1.idle) (t2.total - t1.total) (t2.total - t1.total - 1)
        (omega (arith, l.passed)) (omega (arith, l.within, l.idle_le)) l.scales)
