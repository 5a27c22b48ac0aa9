-- ===== src/Base/Order.antt =====
-- The order of texts by their bytes, which is that of their characters, as Go compares strings.
use Prim.Native.Nat.{Ordering}
use Prim.Native.String.compare
use Prim.Native.String.{String, [], ◌∷◌, compare}
use mathlib.Core.Path.{◌≡◌}
use mathlib.Core.Logic.{◌⊎◌}
use mathlib.Core.Bool.{Bool, true, false}
use native.Mathlib.Omega.{arith}
use text.Mathlib.TextEquality.{path_by_compare}

-- `s < t` of strings.
abbrev pub str_lt : String → String → Bool
str_lt s t = elim (compare s t) [ Ordering.lt ↦ true | _ ↦ false ]

pub str_lt_trans : (s t u : String) → str_lt s t ≡ true → str_lt t u ≡ true → str_lt s u ≡ true
str_lt_trans [] [] u h i = ground (arith, h, compare.nil-nil)
str_lt_trans [] (d ∷ t) [] h i = ground (arith, i, compare.cons-nil d t)
str_lt_trans [] (d ∷ t) (e ∷ u) h i = ground (arith, compare.nil-cons e u)
str_lt_trans (c ∷ s) [] u h i = ground (arith, h, compare.cons-nil c s)
str_lt_trans (c ∷ s) (d ∷ t) [] h i = ground (arith, i, compare.cons-nil d t)
str_lt_trans (c ∷ s) (d ∷ t) (e ∷ u) h i = ground (
  arith,
  h,
  i,
  compare.cons-cons c d s t,
  compare.cons-cons d e t u,
  compare.cons-cons c e s u,
  str_lt_trans s t u,
)

flipped : (s t : String) → compare s t ≡ Ordering.gt → compare t s ≡ Ordering.lt
flipped [] [] h = ground (arith, h, compare.nil-nil)
flipped [] (d ∷ t) h = ground (arith, h, compare.nil-cons d t)
flipped (c ∷ s) [] h = ground (arith, compare.nil-cons c s)
flipped (c ∷ s) (d ∷ t) h =
    ground (arith, h, compare.cons-cons c d s t, compare.cons-cons d c t s, flipped s t)

-- Of two texts one is the lesser, or they are equal.
pub str_lt-cases : (s t : String) → (str_lt s t ≡ true) ⊎ ((str_lt t s ≡ true) ⊎ (s ≡ t))
str_lt-cases s t = ground (arith, flipped s t, path_by_compare s t)
