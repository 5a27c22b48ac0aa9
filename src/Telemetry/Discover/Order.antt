-- ===== src/Telemetry/Discover/Order.antt =====
-- internal/master/telemetry.go: what `discoverTelemetry` finds, and in which order.
use mathlib.Core.List.{Memᴰ, Mem, mem-cons_self, mem-cons_of_mem}
use mathlib.Core.List.Permᴰ
use mathlib.Core.Option.{some-injective}
use Prim.Native.String.{◌++◌ as str_append, len, slice}
use text.Mathlib.Text.{starts_with}
use text.Mathlib.TextEquality.{starts_with_iff}
use text.Mathlib.TextPositions.{len-append, slice-append_right}
use open_ctrl.Base.{
  ℕ, String, true, ◌&&◌, some, List, [], ◌∷◌, ◌≡◌, ◌≢◌, refl, sym, ap, ◌∙◌, subst, arith, All,
  eq_iff, ◌==◌, inl, inr, Option-cases,
}
use open_ctrl.Telemetry.Session.{trim_nowhere}
use open_ctrl.Telemetry.Session.Identity.{IsNamed}
use open_ctrl.Telemetry.Registry.{TelemetryRegistry, Json}
use open_ctrl.Telemetry.Discover.Sort.{
  Differs, AllDiffer, IsAscending, All-sort, sort-IsAscending, sort-Perm,
}
use open_ctrl.Telemetry.Discover.{
  Platform, DirEntry, listed, valid_telemetry_registry, registry_of, found_in, discover_telemetry,
}

-- The entries of a directory have different names.
abbrev pub IsDirectory : List DirEntry → Type 0
IsDirectory [] = Unit
IsDirectory (item ∷ items) = All (λ other. item.name ≢ other.name) items × IsDirectory items

-- An entry that is accepted, and what the checks say of it.
pub record IsEntry (platform : Platform) (pid : ℕ) (name : String) (entry : TelemetryRegistry)
    : Type 0 where
  pub of_process : entry.instance.pid ≡ pid
  pub named : IsNamed entry
  pub file : name ≡ str_append entry.instance.registry_name ".json"
  pub alive : platform.process_valid entry.instance ≡ true

trim_nowhere-named :
    (name : String)
    → starts_with name "nowhere." ≡ true
    → str_append "nowhere." (trim_nowhere name) ≡ name
unfolding trim_nowhere
trim_nowhere-named name h =
    let (t, e) = (starts_with_iff name "nowhere.").0 h in
    rw (trim_nowhere, h)
      (subst (λ n. str_append "nowhere." (slice n 8 (len n)) ≡ n) e
        (ap (str_append "nowhere.") (
          ap (slice (str_append "nowhere." t) 8) (len-append "nowhere." t)
          ∙ slice-append_right "nowhere." t)))

valid-IsEntry :
    (platform : Platform) (pid : ℕ) (name : String) (entry : TelemetryRegistry)
    → (entry.instance.pid == pid && valid_telemetry_registry platform entry name) ≡ true
    → IsEntry platform pid name entry
unfolding valid_telemetry_registry
valid-IsEntry platform pid name entry h = record {
  of_process = ground (arith, h);
  named = trim_nowhere-named entry.instance.registry_name (ground (arith, h));
  file = ground (arith, h, eq_iff name (str_append entry.instance.registry_name ".json"));
  alive = ground (arith, h);
}

module _ (json : Json) (platform : Platform) (pid : ℕ) where
  registry-passes :
      (item : DirEntry) (entry : TelemetryRegistry)
      → registry_of json platform pid item ≡ some entry
      → (entry.instance.pid == pid && valid_telemetry_registry platform entry item.name) ≡ true
  unfolding registry_of
  registry-passes item entry e = ground (arith, e)

  pub registry-IsEntry :
      (item : DirEntry) (entry : TelemetryRegistry)
      → registry_of json platform pid item ≡ some entry
      → IsEntry platform pid item.name entry
  registry-IsEntry item entry e =
      valid-IsEntry platform pid item.name entry (registry-passes item entry e)

  -- What an entry differs from, all entries found elsewhere do.
  found-Differs :
      (name : String) (entry : TelemetryRegistry) (items : List DirEntry)
      → name ≡ str_append entry.instance.registry_name ".json"
      → All (λ (other : DirEntry). name ≢ other.name) items
      → All (Differs entry) (found_in json platform pid items)
  unfolding found_in
  found-Differs name entry [] e h = tt
  found-Differs name entry (item ∷ items) e (h, hs) =
      elim (Option-cases (registry_of json platform pid item)) [
        | inl n ↦ rw (found_in, n) (found-Differs name entry items e hs)
        | inr (other, f) ↦
            rw (found_in, f)
              (
                λ same. h (
                    e
                    ∙ ap (λ t. str_append t ".json") same
                    ∙ sym (registry-IsEntry item other f).file),
                found-Differs name entry items e hs,
              )
      ]

  found-AllDiffer :
      (items : List DirEntry) → IsDirectory items → AllDiffer (found_in json platform pid items)
  unfolding found_in
  found-AllDiffer [] h = tt
  found-AllDiffer (item ∷ items) (h, hs) =
      elim (Option-cases (registry_of json platform pid item)) [
        | inl n ↦ rw (found_in, n) (found-AllDiffer items hs)
        | inr (entry, f) ↦
            rw (found_in, f)
              (
                found-Differs item.name entry items (registry-IsEntry item entry f).file h,
                found-AllDiffer items hs,
              )
      ]

  pub found-All :
      (P : TelemetryRegistry → Type 0) (items : List DirEntry)
      → ((item : DirEntry) (entry : TelemetryRegistry)
          → Memᴰ item items
          → registry_of json platform pid item ≡ some entry
          → P entry)
      → All P (found_in json platform pid items)
  unfolding found_in
  found-All P [] h = tt
  found-All P (item ∷ items) h =
      let rest = found-All P items (λ it entry i. h it entry (Memᴰ.tail i)) in
      elim (Option-cases (registry_of json platform pid item)) [
        | inl n ↦ rw (found_in, n) rest
        | inr (entry, f) ↦ rw (found_in, f) (h item entry (Memᴰ.head refl) f, rest)
      ]

  -- An entry found, with the file in which it stands.
  abbrev pub IsFound : List DirEntry → TelemetryRegistry → Type 0
  IsFound items entry =
      (item : DirEntry) × Memᴰ item items × (registry_of json platform pid item ≡ some entry)

  pub record IsDiscovery (items : List DirEntry) (found : List TelemetryRegistry) : Type 0 where
    pub ascending : IsAscending found
    pub sound : All (IsFound items) found
    pub complete :
        (item : DirEntry) (entry : TelemetryRegistry)
        → Memᴰ item items
        → registry_of json platform pid item ≡ some entry
        → Mem entry found
    pub of_process : All (λ (entry : TelemetryRegistry). entry.instance.pid ≡ pid) found
    pub named : All IsNamed found

  found-complete :
      (items : List DirEntry) (item : DirEntry) (entry : TelemetryRegistry)
      → Memᴰ item items
      → registry_of json platform pid item ≡ some entry
      → Mem entry (found_in json platform pid items)
  unfolding found_in
  found-complete [] it entry i h = elim i [ ]
  found-complete (item ∷ items) it entry (Memᴰ.head e) h =
      rw (found_in, ap (registry_of json platform pid) (sym e) ∙ h) mem-cons_self
  found-complete (item ∷ items) it entry (Memᴰ.tail i) h =
      let rest = found-complete items it entry i h in
      elim (Option-cases (registry_of json platform pid item)) [
        | inl n ↦ rw (found_in, n) rest
        | inr (other, f) ↦ rw (found_in, f) (mem-cons_of_mem other rest)
      ]

  -- For a directory whose entries have different names, a discovery gives the entries of all files
  -- that pass its checks, and no other; all are of the process asked for, have names that begin
  -- with "nowhere.", and are sorted by these names, none of which stands twice.
  pub discover_telemetry-IsDiscovery :
      (items : List DirEntry) (found : List TelemetryRegistry)
      → IsDirectory items
      → discover_telemetry json platform (listed items) pid ≡ some found
      → IsDiscovery items found
  unfolding discover_telemetry
  discover_telemetry-IsDiscovery items found d e =
      let raw : List TelemetryRegistry = found_in json platform pid items in
      subst (IsDiscovery items) (some-injective _ _ e) (record {
        ascending = sort-IsAscending raw (found-AllDiffer items d);
        sound =
            All-sort (IsFound items) raw
              (found-All (IsFound items) items (λ item entry i f. (item, i, f)));
        complete =
            λ item entry i f. Permᴰ.mem (sort-Perm raw) (found-complete items item entry i f);
        of_process =
            All-sort (λ entry. entry.instance.pid ≡ pid) raw
              (found-All (λ entry. entry.instance.pid ≡ pid) items
                (λ item entry i f. (registry-IsEntry item entry f).of_process));
        named =
            All-sort IsNamed raw
              (found-All IsNamed items (λ item entry i f. (registry-IsEntry item entry f).named));
      })
