-- ===== src/Output/Utf8.antt =====
-- What internal/master/output.go uses of Go's unicode/utf8, over byte strings.
use open_ctrl.Base.{
  ℕ, ◌≤◌, ◌≡◌, arith, Bool, false, not, ◌&&◌, ◌||◌, List, [], ◌∷◌, ltb, leb, ◌==◌, if◌then◌else◌,
  length,
}

-- utf8.RuneStart: every byte but a continuation byte.
unfoldable pub rune_start : ℕ → Bool
rune_start b = not (leb 0x80 b && ltb b 0xc0)

-- How many bytes the rune that begins with `b` has; 1 also for a byte that begins none.
unfoldable pub rune_size : ℕ → ℕ
rune_size b =
    if ltb b 0xc2
    then 1
    else if ltb b 0xe0
    then 2
    else if ltb b 0xf0
    then 3
    else if ltb b 0xf5
    then 4
    else 1

-- Whether `c` may follow `b` as the second byte of a rune.
unfoldable pub second_fits : ℕ → ℕ → Bool
second_fits b c =
    leb (if b == 0xe0 then 0xa0 else if b == 0xf0 then 0x90 else 0x80) c
    && leb c (if b == 0xed then 0x9f else if b == 0xf4 then 0x8f else 0xbf)

-- utf8.FullRune: the bytes begin with a whole rune, or with no rune at all.
unfoldable pub full_rune : List ℕ → Bool
unfolding rune_start rune_size second_fits
full_rune [] = false
full_rune (a ∷ []) = leb (rune_size a) 1
full_rune (a ∷ b ∷ []) = leb (rune_size a) 2 || not (second_fits a b)
full_rune (a ∷ b ∷ c ∷ r) =
    leb (rune_size a) (length (a ∷ b ∷ c ∷ r)) || (not (second_fits a b) || rune_start c)

-- A rune that is not whole has three bytes at most.
pub length-le_of_full_rune : (xs : List ℕ) → full_rune xs ≡ false → length xs ≤ 3
unfolding full_rune
length-le_of_full_rune [] h = omega arith
length-le_of_full_rune (a ∷ []) h = omega arith
length-le_of_full_rune (a ∷ b ∷ []) h = omega arith
length-le_of_full_rune (a ∷ b ∷ c ∷ []) h = omega arith
length-le_of_full_rune (a ∷ b ∷ c ∷ d ∷ r) h = ground arith
