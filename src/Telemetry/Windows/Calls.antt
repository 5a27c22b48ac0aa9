-- ===== src/Telemetry/Windows/Calls.antt =====
-- How a call of the Windows API ends: with a value, with an error that errors.Is takes for a missing
-- file, or with another error.
use mathlib.Core.Path.{◌≡◌, refl}
use mathlib.Core.Bool.{Bool, true, false}

pub data Reply {ℓ} (A : Type ℓ) : Type ℓ where
  got : A → Reply A
  not_exist refused : Reply A

infixl 5 ◌>>=◌ ◌>>◌
abbrev pub ◌>>=◌ {ℓ κ} : {A : Type ℓ} {B : Type κ} → Reply A → (A → Reply B) → Reply B
got a >>= f = f a
not_exist >>= f = not_exist
refused >>= f = refused

abbrev pub ◌>>◌ {ℓ} : {B : Type ℓ} → Reply (Unit {0}) → Reply B → Reply B
m >> k = m >>= λ _. k

abbrev pub guard : Bool → Reply (Unit {0})
guard true = got tt
guard false = refused

-- A chain that gives a value has passed every step.
pub bind-got {ℓ κ} :
    {A : Type ℓ} {B : Type κ} (r : Reply A) (f : A → Reply B) (b : B)
    → (r >>= f) ≡ got b
    → (a : A) × (r ≡ got a) × (f a ≡ got b)
bind-got (got a) f b e = (a, refl, e)
bind-got not_exist f b e = cc
bind-got refused f b e = cc

pub guard-got {ℓ} :
    {B : Type ℓ} (t : Bool) (r : Reply B) (b : B)
    → (guard t >> r) ≡ got b
    → (t ≡ true) × (r ≡ got b)
guard-got true r b e = (refl, e)
guard-got false r b e = cc
