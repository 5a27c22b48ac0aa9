-- ===== src/Output/Text/Last.antt =====
-- internal/master/output.go: where the search for the last begin of a rune in `Write` stops.
use mathlib.Core.List.{append_assoc}
use open_ctrl.Base.{
  ℕ, zero, suc, ◌-◌, ◌<◌, ◌≡◌, ◌⊎◌, inl, inr, refl, ap, ◌∙◌, subst, arith, true, List, [], ◌∷◌,
  ◌++◌, length, take, drop, All, length-take, Bool-cases,
}
use open_ctrl.Output.Utf8.{rune_start}
use open_ctrl.Output.{byte_at, last_start}
use open_ctrl.Output.Text.Runes.{IsInner}

-- A text taken apart before its byte `n`, which begins a rune if anything stands before it, and behind
-- which no byte does.
pub record IsLast (xs : List ℕ) (n : ℕ) : Type 0 where
  pub before : List ℕ
  pub first : ℕ
  pub inner : List ℕ
  pub split : xs ≡ before ++ first ∷ inner
  pub size : length before ≡ n
  pub all_inner : All IsInner inner
  pub starts : (before ≡ []) ⊎ (rune_start first ≡ true)

take-suc : (i : ℕ) (xs : List ℕ) → i < length xs → take (suc i) xs ≡ take i xs ++ byte_at i xs ∷ []
unfolding byte_at
take-suc i [] h = absurd (omega (arith, h))
take-suc zero (x ∷ xs) h = refl
take-suc (suc i) (x ∷ xs) h = ap (λ t. x ∷ t) (take-suc i xs (omega (arith, h)))

All-snoc : (xs : List ℕ) (b : ℕ) → All IsInner xs → IsInner b → All IsInner (xs ++ b ∷ [])
All-snoc [] b h i = (i, tt)
All-snoc (x ∷ xs) b (h, hs) i = (h, All-snoc xs b hs i)

last_start-IsLast :
    (i : ℕ) (xs : List ℕ) → i < length xs → IsLast (take (suc i) xs) (last_start i xs)
unfolding last_start
last_start-IsLast i [] h = absurd (omega (arith, h))
last_start-IsLast zero (x ∷ xs) h = record {
  before = [];
  first = x;
  inner = [];
  split = refl;
  size = refl;
  all_inner = tt;
  starts = inl refl;
}
last_start-IsLast (suc i) (x ∷ xs) h =
    let b : ℕ = byte_at (suc i) (x ∷ xs) in
    let longer = take-suc (suc i) (x ∷ xs) h in
    elim (Bool-cases (rune_start b)) [
      | inl e ↦
          rw (last_start, e)
            (record {
              before = take (suc i) (x ∷ xs);
              first = b;
              inner = [];
              split = longer;
              size = omega (arith, h, length-take (suc i) (x ∷ xs));
              all_inner = tt;
              starts = inr e;
            })
      | inr e ↦
          let l = last_start-IsLast i (x ∷ xs) (omega (arith, h)) in
          rw (last_start, e)
            (record {
              before = l.before;
              first = l.first;
              inner = l.inner ++ b ∷ [];
              split =
                  longer
                  ∙ ap (λ t. t ++ b ∷ []) l.split
                  ∙ append_assoc l.before (l.first ∷ l.inner) (b ∷ []);
              size = l.size;
              all_inner = All-snoc l.inner b l.all_inner e;
              starts = l.starts;
            })
    ]

take-all : (n : ℕ) (xs : List ℕ) → length xs ≡ n → take n xs ≡ xs
take-all zero [] h = refl
take-all zero (x ∷ xs) h = absurd (omega (arith, h))
take-all (suc n) [] h = refl
take-all (suc n) (x ∷ xs) h = ap (λ t. x ∷ t) (take-all n xs (omega (arith, h)))

-- The search over all that is pending.
pub pending-IsLast : (xs : List ℕ) → 0 < length xs → IsLast xs (last_start (length xs - 1) xs)
pending-IsLast xs h =
    subst (λ ys. IsLast ys (last_start (length xs - 1) xs))
      (take-all (suc (length xs - 1)) xs (omega (arith, h)))
      (last_start-IsLast (length xs - 1) xs (omega (arith, h)))

pub take-before : (xs ys : List ℕ) (n : ℕ) → length xs ≡ n → take n (xs ++ ys) ≡ xs
take-before [] ys zero h = refl
take-before [] ys (suc n) h = absurd (omega (arith, h))
take-before (x ∷ xs) ys zero h = absurd (omega (arith, h))
take-before (x ∷ xs) ys (suc n) h = ap (λ t. x ∷ t) (take-before xs ys n (omega (arith, h)))

pub drop-before : (xs ys : List ℕ) (n : ℕ) → length xs ≡ n → drop n (xs ++ ys) ≡ ys
drop-before [] ys zero h = refl
drop-before [] ys (suc n) h = absurd (omega (arith, h))
drop-before (x ∷ xs) ys zero h = absurd (omega (arith, h))
drop-before (x ∷ xs) ys (suc n) h = drop-before xs ys n (omega (arith, h))
