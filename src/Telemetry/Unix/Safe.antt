-- ===== src/Telemetry/Unix/Safe.antt =====
-- internal/master/unixipc.go: which registry files are read.
use mathlib.Core.Option.{some-injective}
use open_ctrl.Base.{
  String, ℕ, suc, ◌≤◌, ◌≡◌, refl, ap, subst, sym, ◌∙◌, arith, true, some, [], ◌∷◌, leb, length,
  take, zero, bind-some, guard-some,
}
use open_ctrl.Proc.{Bytes}
use open_ctrl.Telemetry.Unix.{
  FileInfo, Unix, max_registry_size, is_valid, private_file, validate_telemetry_directory,
  read_telemetry_registry,
}

-- A text that is not cut by a limit is the whole.
whole : (n : ℕ) (xs : Bytes) → length (take (suc n) xs) ≤ n → take (suc n) xs ≡ xs
whole n [] h = refl
whole zero (x ∷ xs) h = absurd (omega (arith, h))
whole (suc n) (x ∷ xs) h = ap (λ t. x ∷ t) (whole n xs (omega (arith, h)))

leb→le : (a b : ℕ) → leb a b ≡ true → a ≤ b
leb→le a b h = ground (arith, h)

private_file-parts :
    (euid : ℕ) (info : FileInfo)
    → private_file euid info ≡ true
    → (info.is_regular ≡ true) × (info.perm ≡ 384) × (info.uid ≡ euid)
unfolding private_file
private_file-parts euid info h = ground (arith, h)

-- The payload is all of a file that only the user of this process can read or write, in a directory
-- that is checked, and it is of 4096 bytes at most.
pub record IsPrivate (u : Unix) (path : String) (payload : Bytes) : Type 0 where
  pub info : FileInfo
  pub opened : u.open_file path ≡ some info
  pub regular : info.is_regular ≡ true
  pub mode : info.perm ≡ 384
  pub owner : info.uid ≡ u.euid
  pub all_read : u.content path ≡ some payload
  pub fits : length payload ≤ max_registry_size
  pub directory : is_valid (validate_telemetry_directory u (u.parent path)) ≡ true

-- A registry file that is read is a regular file of the user, with the mode 0600, in a directory
-- that passed its check; it is read whole, and has 4096 bytes at most.
pub read_telemetry_registry-IsPrivate :
    (u : Unix) (path : String) (payload : Bytes)
    → read_telemetry_registry u path ≡ some payload
    → IsPrivate u path payload
unfolding read_telemetry_registry
read_telemetry_registry-IsPrivate u path payload e =
    let (d, e1) = guard-some (is_valid (validate_telemetry_directory u (u.parent path))) _ _ e in
    let (info, o, e2) = bind-some (u.open_file path) _ _ e1 in
    let (f, e3) = guard-some (private_file u.euid info) _ _ e2 in
    let (content, c, e4) = bind-some (u.content path) _ _ e3 in
    let (l, e5) =
      guard-some (leb (length (take (suc max_registry_size) content)) max_registry_size) _ _ e4 in
    let fits : length (take (suc max_registry_size) content) ≤ max_registry_size = leb→le _ _ l in
    let same : content ≡ payload =
      sym (whole max_registry_size content fits) ∙ some-injective _ _ e5 in
    record {
      info = info;
      opened = o;
      regular = (private_file-parts u.euid info f).0;
      mode = (private_file-parts u.euid info f).1;
      owner = (private_file-parts u.euid info f).2;
      all_read = c ∙ ap some same;
      fits = subst (λ t. length t ≤ max_registry_size) (some-injective _ _ e5) fits;
      directory = d;
    }
