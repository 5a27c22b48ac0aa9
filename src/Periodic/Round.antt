-- ===== src/Periodic/Round.antt =====
-- internal/master/periodic.go: which instances a round restarts, and that it keeps them consistent.
use open_ctrl.Types.{Master}
use open_ctrl.Env.{Env, Wait}
use open_ctrl.Base.{
  ℕ, ◌≡◌, ◌⊎◌, ◌↔◌, ◌∙◌, inl, inr, sym, ap, arith, String, true, false, List, [], ◌∷◌, str_eq, Has,
  elem, ==_refl,
}
use open_ctrl.State.Save.{save_state_to_path}
use open_ctrl.Instance.Lifecycle.Monitor.{needs_restart, restart_failed_instance}
use open_ctrl.Instance.Lifecycle.Consistent.{
  AllConsistent, KeepsConsistent, restart_failed-AllConsistent,
}
use open_ctrl.Rest.Common.{api_key_id}
use open_ctrl.Periodic.{error_instances, restart_all, periodic_round}

restart_all-AllConsistent :
    (env : Env) (w : Wait) (ps : List ℕ) (m : Master)
    → KeepsConsistent w
    → AllConsistent m
    → AllConsistent (restart_all env w ps m)
unfolding restart_all
restart_all-AllConsistent env w [] m k a = a
restart_all-AllConsistent env w (p ∷ ps) m k a =
    restart_all-AllConsistent env w ps (restart_failed_instance env w p m) k
      (restart_failed-AllConsistent env w p m k a)

pub round-AllConsistent :
    (env : Env) (w : Wait) (m : Master)
    → KeepsConsistent w
    → AllConsistent m
    → AllConsistent (periodic_round env w m)
unfolding periodic_round save_state_to_path
round-AllConsistent env w m k a = restart_all-AllConsistent env w _ _ k a

-- An instance is stored under an id that is not the key's, and is to be restarted.
abbrev IsDue : Master → List (String × ℕ) → ℕ → Type 0
IsDue m l p =
    (id : String) × Has (id, p) l
    × (str_eq id api_key_id ≡ false)
    × (needs_restart (m.heap p) ≡ true)

IsDue-elem :
    (m : Master) (l : List (String × ℕ)) (p : ℕ) → IsDue m l p → elem p (error_instances m l) ≡ true
unfolding error_instances
IsDue-elem m [] p (id, h, n, r) = absurd h
IsDue-elem m ((j, q) ∷ l) p (id, inl e, n, r) =
    let j_id : j ≡ id = sym (ap (λ x. x.0) e) in
    let q_p : q ≡ p = sym (ap (λ x. x.1) e) in rw (j_id, q_p, n, r) (ground (arith, ==_refl p))
IsDue-elem m ((j, q) ∷ l) p (id, inr h, n, r) = ground (arith, IsDue-elem m l p (id, h, n, r))

first_or_later :
    (m : Master) (j : String) (q : ℕ) (l : List (String × ℕ)) (p : ℕ)
    → elem p (error_instances m ((j, q) ∷ l)) ≡ true
    → ((p ≡ q) × (str_eq j api_key_id ≡ false) × (needs_restart (m.heap q) ≡ true))
      ⊎ (elem p (error_instances m l) ≡ true)
unfolding error_instances
first_or_later m j q l p h = ground (arith, h)

elem-IsDue :
    (m : Master) (l : List (String × ℕ)) (p : ℕ) → elem p (error_instances m l) ≡ true → IsDue m l p
unfolding error_instances
elem-IsDue m [] p h = absurd (ground arith)
elem-IsDue m ((j, q) ∷ l) p h = elim (first_or_later m j q l p h) [
  | inl (e, n, r) ↦ (j, inl (ap (λ x. (j, x)) e), n, ap (λ x. needs_restart (m.heap x)) e ∙ r)
  | inr h' ↦ let (id, k, n, r) = elem-IsDue m l p h' in (id, inr k, n, r)
]

-- A round passes on, to be restarted, exactly the stored instances, other than the entry of the API key, that failed
-- at run time, are not deleted and whose restart policy says so.
error_instances_lem :
    (m : Master) (p : ℕ) → (elem p (error_instances m m.instances) ≡ true) ↔ IsDue m m.instances p
error_instances_lem m p = (elem-IsDue m m.instances p, IsDue-elem m m.instances p)
