-- ===== src/Telemetry/Counter/Tally.antt =====
-- The traffic counters against what they stand for: bytes reported since the last reset.
use open_ctrl.Base.{ℕ, ◌+◌, ◌≤◌, ◌≡◌, arith, List, [], ◌∷◌, max_uint64}
use open_ctrl.Telemetry.Counter.{Meter, sample, begin_run, clear}

-- What happens to one counter: a report of the process, a reset by a client, a new process.
pub data Reading : Type 0 where
  report : ℕ → Reading
  reset : Reading
  launch : Reading

unfoldable pub read : Reading → Meter → Meter
unfolding sample begin_run clear
read (report v) m = sample v m
read reset m = clear m
read launch m = begin_run m

unfoldable pub read_all : List Reading → Meter → Meter
read_all [] m = m
read_all (r ∷ rs) m = read_all rs (read r m)

-- The bytes that earlier processes reported, what this one last reported, and how many bytes had
-- been reported at the last reset.
pub record Tally : Type 0 where
  pub earlier : ℕ
  pub current : ℕ
  pub mark : ℕ

abbrev pub tally : Reading → Tally → Tally
tally (report v) t = record t { current = v }
tally reset t = record t { mark = t.earlier + t.current }
tally launch t = record t { earlier = t.earlier + t.current; current = 0 }

abbrev pub tally_all : List Reading → Tally → Tally
tally_all [] t = t
tally_all (r ∷ rs) t = tally_all rs (tally r t)

-- A process never reports less than before, and all reports together fit a uint64.
abbrev pub IsCounting : Reading → Tally → Type 0
IsCounting (report v) t = (t.current ≤ v) × (t.earlier + v ≤ max_uint64)
IsCounting reset t = Unit
IsCounting launch t = Unit

abbrev pub AllCounting : List Reading → Tally → Type 0
AllCounting [] t = Unit
AllCounting (r ∷ rs) t = IsCounting r t × AllCounting rs (tally r t)

pub record Tracks (m : Meter) (t : Tally) : Type 0 where
  pub reset_reached : m.reset ≤ t.current
  pub shown : m.total + t.mark ≡ t.earlier + t.current
  pub based : m.base + t.mark ≡ t.earlier + m.reset
  pub fits : t.earlier + t.current ≤ max_uint64

read-Tracks :
    (r : Reading) (m : Meter) (t : Tally)
    → IsCounting r t
    → Tracks m t
    → Tracks (read r m) (tally r t)
unfolding read
read-Tracks (report v) m t c k = ground arith
read-Tracks reset m t c k = record {
  reset_reached = omega arith;
  shown = omega arith;
  based = omega arith;
  fits = omega arith;
}
read-Tracks launch m t c k = ground arith

pub read_all-Tracks :
    (rs : List Reading) (m : Meter) (t : Tally)
    → Tracks m t
    → AllCounting rs t
    → Tracks (read_all rs m) (tally_all rs t)
unfolding read_all
read_all-Tracks [] m t k c = k
read_all-Tracks (r ∷ rs) m t k c =
    read_all-Tracks rs (read r m) (tally r t) (read-Tracks r m t c.0 k) c.1

abbrev pub fresh_meter : Meter
fresh_meter = record { total = 0; base = 0; reset = 0 }

abbrev pub fresh_tally : Tally
fresh_tally = record { earlier = 0; current = 0; mark = 0 }

-- Whatever reports, resets and new processes a new counter sees, if no process counts backwards
-- and the bytes reported by all processes fit a uint64, then the total shown is the bytes reported
-- since the last reset: with what had been reported at that reset it makes up all bytes reported.
pub total-read_all :
    (rs : List Reading)
    → AllCounting rs fresh_tally
    → (read_all rs fresh_meter).total + (tally_all rs fresh_tally).mark
      ≡ (tally_all rs fresh_tally).earlier + (tally_all rs fresh_tally).current
total-read_all rs c = (read_all-Tracks rs fresh_meter fresh_tally (omega arith) c).shown

pub record IsBounded (m : Meter) : Type 0 where
  pub total_fits : m.total ≤ max_uint64
  pub base_fits : m.base ≤ max_uint64
  pub base-le : m.base ≤ m.total

-- A counter whose total is a uint64 and not below its base, itself a uint64, stays so after a
-- report of any value, also one that goes backwards or overflows, after a reset and after a new
-- process: the total never wraps.
pub read-IsBounded : (r : Reading) (m : Meter) → IsBounded m → IsBounded (read r m)
unfolding read
read-IsBounded (report v) m b = ground arith
read-IsBounded reset m b = ground arith
read-IsBounded launch m b = ground arith
