-- ===== src/Base/Words.antt =====
-- Fixed-width arithmetic of Go, written out over the natural numbers, and signed numbers.
use Prim.Native.Nat.{ℕ, ◌+◌, ◌-◌, ◌%◌}

-- math.MaxUint64
abbrev pub max_uint64 : ℕ
max_uint64 = 18446744073709551615

abbrev pub uint64_mod : ℕ
uint64_mod = 18446744073709551616

-- math.MaxInt32
abbrev pub max_int32 : ℕ
max_int32 = 2147483647

-- `a + b` and `a - b` on uint64.
abbrev pub add64 : ℕ → ℕ → ℕ
add64 a b = (a + b) % uint64_mod

abbrev pub sub64 : ℕ → ℕ → ℕ
sub64 a b = (a + uint64_mod - b) % uint64_mod

-- `negsuc n` is -(n + 1).
pub data ℤ : Type 0 where
  pos : ℕ → ℤ
  negsuc : ℕ → ℤ
