-- ===== src/Server/Shutdown/Stops.antt =====
-- internal/master/master.go: which instances `shutdown` stops.
use mathlib.Core.List.{Memᴰ}
use open_ctrl.Types.{Instance, Master}
use open_ctrl.Base.{
  ℕ, String, true, false, List, [], ◌∷◌, ◌≡◌, refl, ap, sym, ◌∙◌, arith, All, Bool-cases, if_cases,
  inl, inr, Has,
}
use open_ctrl.Instance.Lifecycle.Consistent.{IsConsistent, is_running}
use open_ctrl.Server.Shutdown.{should_stop, to_stop}

pub to_stop-All :
    (P : ℕ → Type 0) (m : Master) (entries : List (String × ℕ))
    → ((id : String) (p : ℕ) → Has (id, p) entries → P p)
    → All P (to_stop m entries)
unfolding to_stop
to_stop-All P m [] h = tt
to_stop-All P m ((id, p) ∷ entries) h =
    let rest = to_stop-All P m entries (λ i q k. h i q (inr k)) in
    if_cases (All P) (should_stop (m.heap p)) _ _ (λ _. (h id p (inl refl), rest)) (λ _. rest)

pub to_stop-Mem :
    (m : Master) (entries : List (String × ℕ)) (id : String) (p : ℕ)
    → should_stop (m.heap p) ≡ true
    → Has (id, p) entries
    → Memᴰ p (to_stop m entries)
unfolding to_stop
to_stop-Mem m [] id p e h = absurd h
to_stop-Mem m ((j, q) ∷ entries) id p e (inl h) =
    rw (ap (λ (x : String × ℕ). should_stop (m.heap x.1)) (sym h) ∙ e)
      (Memᴰ.head (ap (λ (x : String × ℕ). x.1) h))
to_stop-Mem m ((j, q) ∷ entries) id p e (inr h) =
    let rest = to_stop-Mem m entries id p e h in
    if_cases (Memᴰ p) (should_stop (m.heap q)) _ _ (λ _. Memᴰ.tail rest) (λ _. rest)

pub idle_of_not_stop :
    (inst : Instance)
    → IsConsistent inst
    → should_stop inst ≡ false
    → is_running inst.status ≡ false
unfolding should_stop
idle_of_not_stop inst c e = elim (Bool-cases (is_running inst.status)) [
  | inr i ↦ i
  | inl i ↦ ground (arith, e, i, (c.live i).0, is_running inst.status)
]
