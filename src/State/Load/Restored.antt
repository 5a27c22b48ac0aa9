-- ===== src/State/Load/Restored.antt =====
-- internal/master/state.go: what a restart keeps of the saved instances.
use open_ctrl.Types.{Instance, Saved, Master}
use open_ctrl.Env.{Env}
use open_ctrl.Base.{
  ℕ, ◌+◌, ◌<◌, ◌≡◌, refl, sym, ◌∙◌, ap, arith, ◌⊎◌, inl, inr, String, false, not, none, some, [],
  ◌∷◌, lookup, lookup-insert, inserted, IsMap, str_eq, eq_iff, if_cases, ==_refl, ==_iff,
  Bool-cases, ◌==◌,
}
use open_ctrl.Instance.Snapshot.{current_instance, find_instance}
use open_ctrl.Instance.Lifecycle.Start.{supported_role, start_instance}
use open_ctrl.Rest.Common.{api_key_id}
use open_ctrl.State.Load.{store_loaded, load_entry, load_entries}
use open_ctrl.State.Load.Steady.{
  SameConfig, same_config, SameConfig-trans, restored-SameConfig, IsSteady, start-IsSteady,
}

-- `n` is `m` after the entry (id, inst) was loaded.
pub record IsEntry (id : String) (inst : Instance) (m n : Master) : Type 0 where
  pub found : lookup id n.instances ≡ some m.fresh
  pub others : (j : String) → str_eq id j ≡ false → lookup j n.instances ≡ lookup j m.instances
  pub kept : (q : ℕ) → q < m.fresh → SameConfig (m.heap q) (n.heap q)
  pub own : SameConfig inst (n.heap m.fresh)
  pub fresh : m.fresh < n.fresh

module _ (id : String) (inst : Instance) (m : Master) where
  store_loaded-IsEntry : IsEntry id inst m (store_loaded id inst m)
  unfolding store_loaded
  store_loaded-IsEntry = record {
    found = inserted id m.fresh m.instances;
    others = λ j e. ground (arith, lookup-insert id j m.fresh m.instances);
    kept = λ q h. elim (Bool-cases (m.fresh == q)) [
      | inl e ↦ absurd (omega (arith, (==_iff m.fresh q).0 e))
      | inr e ↦ rw e (same_config (m.heap q))
    ];
    own = rw (==_refl m.fresh) (restored-SameConfig id (m.fresh + 1) inst);
    fresh = omega arith;
  }

  steady-IsEntry : (n o : Master) → IsEntry id inst m n → IsSteady m.fresh n o → IsEntry id inst m o
  steady-IsEntry n o e s = record {
    found = s.names id ∙ e.found;
    others = λ j h. s.names j ∙ e.others j h;
    kept = λ q h. SameConfig-trans _ _ _ (e.kept q h) (s.same q);
    own = SameConfig-trans _ _ _ e.own (s.same m.fresh);
    fresh = ground (arith, e.fresh, s.fresh);
  }

  load_entry-IsEntry : (env : Env) → inst.id ≡ id → IsEntry id inst m (load_entry env (id, inst) m)
  unfolding load_entry start_instance current_instance
  load_entry-IsEntry env h =
      let n : Master = store_loaded id inst m in
      let e : IsEntry id inst m n = store_loaded-IsEntry in
      let P = IsEntry id inst m in
      let own : lookup (n.heap m.fresh).id n.instances ≡ some m.fresh =
        ap (λ k. lookup k n.instances) (e.own.id ∙ h) ∙ e.found in
      if_cases P (str_eq id api_key_id) _ _ (λ _. e)
        λ _.
          if_cases P (not (supported_role (n.heap m.fresh).role)) _ _ (λ _. e)
            λ _.
              if_cases P (n.heap m.fresh).restart _ _
                (λ _.
                  rw (current_instance, own)
                    (steady-IsEntry n _ e (start-IsSteady m.fresh n own env)))
                (λ _. e)

-- The saved instance is found under `id` again, at a place of its own.
pub record IsRestored (id : String) (inst : Instance) (n : Master) : Type 0 where
  pub at : ℕ
  pub found : find_instance id n ≡ some at
  pub same : SameConfig inst (n.heap at)

-- Each entry holds an instance with the id it is stored under.
abbrev pub OwnIds : Saved → Type 0
OwnIds [] = Unit
OwnIds ((id, inst) ∷ saved) = (inst.id ≡ id) × OwnIds saved

-- `n` is `m` after the entries were loaded.
pub record IsLoaded (saved : Saved) (m n : Master) : Type 0 where
  pub others : (j : String) → lookup j saved ≡ none → lookup j n.instances ≡ lookup j m.instances
  pub kept : (q : ℕ) → q < m.fresh → SameConfig (m.heap q) (n.heap q)
  pub all : (j : String) (inst : Instance) → lookup j saved ≡ some inst → IsRestored j inst n

module _ (id j : String) (inst : Instance) (saved : Saved) where
  later_none :
      lookup {V = Instance} j ((id, inst) ∷ saved) ≡ none
      → (str_eq id j ≡ false) × (lookup {V = Instance} j saved ≡ none)
  later_none h = ground (arith, h)

  later_some :
      (i : Instance)
      → lookup {V = Instance} j ((id, inst) ∷ saved) ≡ some i
      → ((id ≡ j) × (inst ≡ i)) ⊎ (lookup {V = Instance} j saved ≡ some i)
  later_some i h = elim (Bool-cases (str_eq id j)) [
    | inl e ↦ inl ((eq_iff id j).0 e, ground (arith, h, e))
    | inr e ↦ inr (ground (arith, h, e))
  ]

pub load_entries-IsLoaded :
    (env : Env) (saved : Saved) (m : Master)
    → IsMap saved
    → OwnIds saved
    → IsLoaded saved m (load_entries env saved m)
unfolding load_entries find_instance
load_entries-IsLoaded env [] m u o = record {
  others = λ j h. refl;
  kept = λ q h. same_config (m.heap q);
  all = λ j inst h. cc h;
}
load_entries-IsLoaded env ((id, inst) ∷ saved) m u o =
    let m' : Master = load_entry env (id, inst) m in
    let e = load_entry-IsEntry id inst m env o.0 in
    let r = load_entries-IsLoaded env saved m' u.1 o.1 in
    let here : IsRestored id inst (load_entries env saved m') = record {
      at = m.fresh;
      found = r.others id u.0 ∙ e.found;
      same = SameConfig-trans _ _ _ e.own (r.kept m.fresh e.fresh);
    } in
    record {
      others = λ j h. let (a, b) = later_none id j inst saved h in r.others j b ∙ e.others j a;
      kept = λ q h. SameConfig-trans _ _ _ (e.kept q h) (r.kept q (ground (arith, h, e.fresh)));
      all = λ j i h. elim (later_some id j inst saved i h) [
        | inl (a, b) ↦ rw (sym a, sym b) here
        | inr b ↦ r.all j i b
      ];
    }
