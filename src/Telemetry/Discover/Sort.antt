-- ===== src/Telemetry/Discover/Sort.antt =====
-- internal/master/telemetry.go: the order in which `discoverTelemetry` gives the entries.
use mathlib.Core.List.{Permᴰ}
use mathlib.Core.List.Permᴰ
use open_ctrl.Base.{
  true, false, List, [], ◌∷◌, ◌≡◌, ◌≢◌, refl, All, str_lt, str_lt_trans, str_lt-cases, if_cases,
  inl, inr,
}
use open_ctrl.Telemetry.Registry.{TelemetryRegistry}
use open_ctrl.Telemetry.Discover.{insert_entry, sort_entries}

-- The name of an entry is before another's.
abbrev pub Below : TelemetryRegistry → TelemetryRegistry → Type 0
Below a b = str_lt a.instance.registry_name b.instance.registry_name ≡ true

-- Each entry is before all that follow it: sorted, and no name twice.
abbrev pub IsAscending : List TelemetryRegistry → Type 0
IsAscending [] = Unit
IsAscending (a ∷ r) = All (Below a) r × IsAscending r

abbrev pub Differs : TelemetryRegistry → TelemetryRegistry → Type 0
Differs a b = a.instance.registry_name ≢ b.instance.registry_name

Below-All :
    (a b : TelemetryRegistry) (r : List TelemetryRegistry)
    → Below a b
    → All (Below b) r
    → All (Below a) r
Below-All a b [] h hs = tt
Below-All a b (c ∷ r) h (i, is) = (str_lt_trans _ _ _ h i, Below-All a b r h is)

All-insert :
    (P : TelemetryRegistry → Type 0) (a : TelemetryRegistry) (r : List TelemetryRegistry)
    → P a
    → All P r
    → All P (insert_entry a r)
unfolding insert_entry
All-insert P a [] h hs = (h, tt)
All-insert P a (b ∷ r) h (i, is) =
    if_cases (All P) (str_lt a.instance.registry_name b.instance.registry_name) _ _
      (λ _. (h, (i, is))) (λ _. (i, All-insert P a r h is))

above :
    (a b : TelemetryRegistry)
    → Differs a b
    → str_lt a.instance.registry_name b.instance.registry_name ≡ false
    → Below b a
above a b d e = elim (str_lt-cases a.instance.registry_name b.instance.registry_name) [
  | inl h ↦ cc
  | inr (inl h) ↦ h
  | inr (inr h) ↦ absurd (d h)
]

insert-IsAscending :
    (a : TelemetryRegistry) (r : List TelemetryRegistry)
    → All (Differs a) r
    → IsAscending r
    → IsAscending (insert_entry a r)
unfolding insert_entry
insert-IsAscending a [] d h = (tt, tt)
insert-IsAscending a (b ∷ r) (d, ds) (i, is) =
    if_cases IsAscending (str_lt a.instance.registry_name b.instance.registry_name) _ _
      (λ e. ((e, Below-All a b r e i), (i, is)))
      (λ e. (All-insert (Below b) a r (above a b d e) i, insert-IsAscending a r ds is))

pub All-sort :
    (P : TelemetryRegistry → Type 0) (r : List TelemetryRegistry) → All P r → All P (sort_entries r)
unfolding sort_entries
All-sort P [] h = tt
All-sort P (a ∷ r) (h, hs) = All-insert P a (sort_entries r) h (All-sort P r hs)

-- All names differ.
abbrev pub AllDiffer : List TelemetryRegistry → Type 0
AllDiffer [] = Unit
AllDiffer (a ∷ r) = All (Differs a) r × AllDiffer r

pub sort-IsAscending : (r : List TelemetryRegistry) → AllDiffer r → IsAscending (sort_entries r)
unfolding sort_entries
sort-IsAscending [] h = tt
sort-IsAscending (a ∷ r) (h, hs) =
    insert-IsAscending a (sort_entries r) (All-sort (Differs a) r h) (sort-IsAscending r hs)

insert-Perm :
    (a : TelemetryRegistry) (r : List TelemetryRegistry) → Permᴰ (a ∷ r) (insert_entry a r)
unfolding insert_entry
insert-Perm a [] = Permᴰ.refl _
insert-Perm a (b ∷ r) =
    if_cases (Permᴰ (a ∷ b ∷ r)) (str_lt a.instance.registry_name b.instance.registry_name) _ _
      (λ _. Permᴰ.refl _)
      (λ _. Permᴰ.trans (Permᴰ.swap refl refl) (Permᴰ.cons refl (insert-Perm a r)))

pub sort-Perm : (r : List TelemetryRegistry) → Permᴰ r (sort_entries r)
unfolding sort_entries
sort-Perm [] = Permᴰ.refl _
sort-Perm (a ∷ r) = Permᴰ.trans (Permᴰ.cons refl (sort-Perm r)) (insert-Perm a (sort_entries r))
