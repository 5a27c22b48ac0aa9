-- ===== src/Base/Assoc.antt =====
-- Go maps with string keys as association lists. Insertion keeps the place of a key that is there.
use Prim.Native.Nat.{suc}
use Prim.Native.String.{String}
use mathlib.Core.Path.{◌≡◌, refl}
use mathlib.Core.Logic.{◌⊎◌}
use mathlib.Core.Bool.{Bool, true, false}
use mathlib.Core.List.{List, [], ◌∷◌}
use mathlib.Core.Option.{Option, none, some}
use native.Mathlib.Omega.{arith}
use open_ctrl.Base.Tests.{str_eq, eq_iff, if◌then◌else◌}
use open_ctrl.Base.Lists.{length}

abbrev pub is_some {ℓ} : {A : Type ℓ} → Option A → Bool
is_some none = false
is_some (some _) = true

module _ {ℓ} {V : Type ℓ} where
  abbrev pub lookup : String → List (String × V) → Option V
  lookup k [] = none
  lookup k ((j, v) ∷ m) = if str_eq j k then some v else lookup k m

  abbrev pub insert : String → V → List (String × V) → List (String × V)
  insert k v [] = (k, v) ∷ []
  insert k v ((j, w) ∷ m) = if str_eq j k then (k, v) ∷ m else (j, w) ∷ insert k v m

  abbrev pub erase : String → List (String × V) → List (String × V)
  erase k [] = []
  erase k ((j, v) ∷ m) = let rest = erase k m in if str_eq j k then rest else (j, v) ∷ rest

module _ {ℓ} {V : Type ℓ} where
  pub lookup-insert :
      (k j : String) (v : V) (m : List (String × V))
      → lookup j (insert k v m) ≡ (if str_eq k j then some v else lookup j m)
  lookup-insert k j v [] = refl
  lookup-insert k j v ((i, w) ∷ m) =
      ground (arith, eq_iff k j, eq_iff i k, eq_iff i j, lookup-insert k j v m)

  pub lookup-erase :
      (k j : String) (m : List (String × V))
      → lookup j (erase k m) ≡ (if str_eq k j then none else lookup j m)
  lookup-erase k j [] = ground arith
  lookup-erase k j ((i, w) ∷ m) =
      ground (arith, eq_iff k j, eq_iff i k, eq_iff i j, lookup-erase k j m)

  pub erased : (k : String) (m : List (String × V)) → lookup k (erase k m) ≡ none
  erased k m = ground (arith, lookup-erase k k m, eq_iff k k)

  pub inserted : (k : String) (v : V) (m : List (String × V)) → lookup k (insert k v m) ≡ some v
  inserted k v m = ground (arith, lookup-insert k k v m, eq_iff k k)

module _ {V : Type 0} where
  -- No key stands twice.
  abbrev pub IsMap : List (String × V) → Type 0
  IsMap [] = Unit
  IsMap ((k, v) ∷ m) = (lookup k m ≡ none) × IsMap m

  abbrev pub Has : String × V → List (String × V) → Type 0
  Has e [] = ⊥
  Has e (x ∷ m) = (e ≡ x) ⊎ Has e m

  pub insert-IsMap : (k : String) (v : V) (m : List (String × V)) → IsMap m → IsMap (insert k v m)
  insert-IsMap k v [] h = (refl, tt)
  insert-IsMap k v ((j, w) ∷ m) h =
      ground (arith, insert-IsMap k v m h.1, lookup-insert k j v m, eq_iff j k, eq_iff k j)

  pub erase-IsMap : (k : String) (m : List (String × V)) → IsMap m → IsMap (erase k m)
  erase-IsMap k [] h = h
  erase-IsMap k ((j, w) ∷ m) h = ground (arith, erase-IsMap k m h.1, lookup-erase k j m)

  pub length-insert :
      (k : String) (v : V) (m : List (String × V))
      → length (insert k v m) ≡ (if is_some (lookup k m) then length m else suc (length m))
  length-insert k v [] = refl
  length-insert k v ((j, w) ∷ m) = ground (arith, length-insert k v m)

  pub erase_absent : (k : String) (m : List (String × V)) → lookup k m ≡ none → erase k m ≡ m
  erase_absent k [] h = refl
  erase_absent k ((j, w) ∷ m) h = ground (arith, erase_absent k m)

  pub length-erase :
      (k : String) (v : V) (m : List (String × V))
      → IsMap m
      → lookup k m ≡ some v
      → suc (length (erase k m)) ≡ length m
  length-erase k v [] u h = cc
  length-erase k v ((j, w) ∷ m) u h =
      ground (arith, length-erase k v m u.1, erase_absent k m, eq_iff j k)

  pub lookup_of_Has :
      (k : String) (v : V) (m : List (String × V)) → IsMap m → Has (k, v) m → lookup k m ≡ some v
  lookup_of_Has k v [] u h = absurd h
  lookup_of_Has k v ((j, w) ∷ m) u h = ground (arith, lookup_of_Has k v m u.1, eq_iff j k)
