-- ===== src/Output/Text/Runes.antt =====
-- Where the runes of a valid text of UTF-8 begin and end, as internal/master/output.go looks for it.
use mathlib.Core.Option.{some-injective, none-ne-some}
use open_ctrl.Base.{
  ℕ, zero, suc, ◌≤◌, ◌<◌, ◌≡◌, ◌⊎◌, inl, inr, refl, sym, subst, ◌∙◌, arith, true, false, ◌&&◌,
  Option, some, none, List, [], ◌∷◌, ◌++◌, leb, length, All, Option-cases,
}
use open_ctrl.Output.Utf8.{rune_start, rune_size, second_fits, full_rune}
use open_ctrl.Telemetry.Frame.{rune_lead, valid_after, valid_utf8}

-- The bytes of a rune behind the first.
abbrev pub IsInner : ℕ → Type 0
IsInner b = rune_start b ≡ false

abbrev pub Lead : Type 0
Lead = ℕ × (ℕ × ℕ)

lead-bounds : (a : ℕ) (s : Lead) → rune_lead a ≡ some s → (0x80 ≤ s.1.0) × (s.1.1 ≤ 0xbf)
unfolding rune_lead
lead-bounds a s e = ground (arith, e)

lead-size : (a : ℕ) (s : Lead) → rune_lead a ≡ some s → rune_size a ≡ suc s.0
unfolding rune_lead rune_size
lead-size a s e = ground (arith, e)

lead-second :
    (a c : ℕ) (s : Lead)
    → rune_lead a ≡ some s
    → 0 < s.0
    → (leb s.1.0 c && leb c s.1.1) ≡ true
    → second_fits a c ≡ true
unfolding rune_lead second_fits
lead-second a c s e h i = ground (arith, e, h, i)

inner-lead : (a : ℕ) → IsInner a → rune_lead a ≡ none
unfolding rune_lead rune_start
inner-lead a h = ground (arith, h)

-- A valid text that begins with a rune.
valid-lead :
    (lo hi a : ℕ) (r : List ℕ)
    → valid_after 0 lo hi (a ∷ r) ≡ true
    → (s : Lead) × (rune_lead a ≡ some s) × (valid_after s.0 s.1.0 s.1.1 r ≡ true)
unfolding valid_after
valid-lead lo hi a r h = elim (Option-cases (rune_lead a)) [
  | inl e ↦ ground (arith, h, e)
  | inr (s, e) ↦ (
    s,
    e,
    subst
        (λ (o : Option Lead).
          (elim o [ none ↦ false | some t ↦ valid_after t.0 t.1.0 t.1.1 r ]) ≡ true)
        e h,
  )
]

valid-inner :
    (more lo hi a : ℕ) (r : List ℕ)
    → valid_after (suc more) lo hi (a ∷ r) ≡ true
    → ((leb lo a && leb a hi) ≡ true) × (valid_after more 0x80 0xbf r ≡ true)
unfolding valid_after
valid-inner more lo hi a r h = ground (arith, h)

begin-valid :
    (lo hi a : ℕ) (r : List ℕ) (s : Lead)
    → rune_lead a ≡ some s
    → valid_after s.0 s.1.0 s.1.1 r ≡ true
    → valid_after 0 lo hi (a ∷ r) ≡ true
unfolding valid_after
begin-valid lo hi a r s e h = rw (valid_after, e) h

go_on-valid :
    (more lo hi a : ℕ) (r : List ℕ)
    → (leb lo a && leb a hi) ≡ true
    → valid_after more 0x80 0xbf r ≡ true
    → valid_after (suc more) lo hi (a ∷ r) ≡ true
unfolding valid_after
go_on-valid more lo hi a r e h = ground (arith, e, h)

-- Behind a valid text, what is valid with it is valid alone.
pub valid-split :
    (more lo hi : ℕ) (xs ys : List ℕ)
    → valid_after more lo hi xs ≡ true
    → valid_after more lo hi (xs ++ ys) ≡ true
    → valid_utf8 ys ≡ true
unfolding valid_after valid_utf8
valid-split zero lo hi [] [] h i = refl
valid-split zero lo hi [] (y ∷ ys) h i = i
valid-split (suc more) lo hi [] ys h i = cc
valid-split zero lo hi (x ∷ xs) ys h i =
    let (s, e, v) = valid-lead lo hi x xs h in
    let (t, f, w) = valid-lead lo hi x (xs ++ ys) i in
    valid-split s.0 s.1.0 s.1.1 xs ys v (
      subst (λ u. valid_after u.0 u.1.0 u.1.1 (xs ++ ys) ≡ true) (some-injective _ _ (sym f ∙ e)) w)
valid-split (suc more) lo hi (x ∷ xs) ys h i =
    valid-split more 0x80 0xbf xs ys (valid-inner more lo hi x xs h).1
      (valid-inner more lo hi x (xs ++ ys) i).1

-- Two valid texts make one.
pub valid-join :
    (more lo hi : ℕ) (xs ys : List ℕ)
    → valid_after more lo hi xs ≡ true
    → valid_utf8 ys ≡ true
    → valid_after more lo hi (xs ++ ys) ≡ true
unfolding valid_after valid_utf8
valid-join zero lo hi [] [] h i = refl
valid-join zero lo hi [] (y ∷ ys) h i = i
valid-join (suc more) lo hi [] ys h i = cc
valid-join zero lo hi (x ∷ xs) ys h i =
    let (s, e, v) = valid-lead lo hi x xs h in
    begin-valid lo hi x (xs ++ ys) s e (valid-join s.0 s.1.0 s.1.1 xs ys v i)
valid-join (suc more) lo hi (x ∷ xs) ys h i =
    let (b, v) = valid-inner more lo hi x xs h in
    go_on-valid more lo hi x (xs ++ ys) b (valid-join more 0x80 0xbf xs ys v i)

-- A text ends before a byte that begins a rune.
pub valid-before :
    (more lo hi b : ℕ) (xs ys : List ℕ)
    → 0x80 ≤ lo
    → hi ≤ 0xbf
    → rune_start b ≡ true
    → valid_after more lo hi (xs ++ b ∷ ys) ≡ true
    → valid_after more lo hi xs ≡ true
valid-before zero lo hi b [] ys l u r h = unfold valid_after in refl
valid-before (suc more) lo hi b [] ys l u r h =
    unfold rune_start in ground (arith, l, u, r, (valid-inner more lo hi b ys h).0)
valid-before zero lo hi b (x ∷ xs) ys l u r h =
    let (s, e, v) = valid-lead lo hi x (xs ++ b ∷ ys) h in
    let (l', u') = lead-bounds x s e in
    begin-valid lo hi x xs s e (valid-before s.0 s.1.0 s.1.1 b xs ys l' u' r v)
valid-before (suc more) lo hi b (x ∷ xs) ys l u r h =
    let (i, v) = valid-inner more lo hi x (xs ++ b ∷ ys) h in
    go_on-valid more lo hi x xs i
      (valid-before more 0x80 0xbf b xs ys (omega arith) (omega arith) r v)

-- The inner bytes of a rune are no more than it needs.
inner-valid :
    (more lo hi : ℕ) (cs rest : List ℕ)
    → All IsInner cs
    → more ≤ length cs
    → valid_after more lo hi (cs ++ rest) ≡ true
    → valid_after more lo hi cs ≡ true
inner-valid zero lo hi [] rest i l h = unfold valid_after in refl
inner-valid (suc more) lo hi [] rest i l h = absurd (omega (arith, l))
inner-valid zero lo hi (c ∷ cs) rest (i, is) l h =
    let (s, e, v) = valid-lead lo hi c (cs ++ rest) h in
    absurd (none-ne-some _ (sym (inner-lead c i) ∙ e))
inner-valid (suc more) lo hi (c ∷ cs) rest (i, is) l h =
    let (b, v) = valid-inner more lo hi c (cs ++ rest) h in
    go_on-valid more lo hi c cs b (inner-valid more 0x80 0xbf cs rest is (omega (arith, l)) v)

second-valid :
    (b c : ℕ) (rest : List ℕ) (s : Lead)
    → rune_lead b ≡ some s
    → valid_after s.0 s.1.0 s.1.1 (c ∷ rest) ≡ true
    → (s.0 ≡ 0) ⊎ (second_fits b c ≡ true)
second-valid b c rest (zero, (lo, hi)) e v = inl refl
second-valid b c rest (suc more, (lo, hi)) e v =
    inr (lead-second b c (suc more, (lo, hi)) e (omega arith) (valid-inner more lo hi c rest v).0)

full-needs :
    (b : ℕ) (cs rest : List ℕ) (s : Lead)
    → All IsInner cs
    → rune_lead b ≡ some s
    → valid_after s.0 s.1.0 s.1.1 (cs ++ rest) ≡ true
    → full_rune (b ∷ cs) ≡ true
    → s.0 ≤ length cs
unfolding full_rune
full-needs b [] rest s i e v f = ground (arith, f, lead-size b s e)
full-needs b (c ∷ []) rest s i e v f =
    ground (arith, f, lead-size b s e, second-valid b c rest s e v)
full-needs b (c ∷ d ∷ cs) rest s i e v f =
    ground (arith, f, i.1.0, lead-size b s e, second-valid b c (d ∷ cs ++ rest) s e v)

-- A whole rune at the end of what is valid so far.
pub full-valid :
    (b : ℕ) (cs rest : List ℕ)
    → All IsInner cs
    → valid_utf8 (b ∷ cs ++ rest) ≡ true
    → full_rune (b ∷ cs) ≡ true
    → valid_utf8 (b ∷ cs) ≡ true
unfolding valid_utf8
full-valid b cs rest i v f =
    let (s, e, w) = valid-lead 0x80 0xbf b (cs ++ rest) v in
    begin-valid 0x80 0xbf b cs s e
      (inner-valid s.0 s.1.0 s.1.1 cs rest i (full-needs b cs rest s i e w f) w)
