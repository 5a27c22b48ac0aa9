-- ===== src/State/Load/Roundtrip.antt =====
-- internal/master/state.go: `saveStateToPath`, then `loadState` in a new process.
use open_ctrl.Types.{Instance, Saved, Master}
use open_ctrl.Env.{Env}
use open_ctrl.Base.{
  ℕ, ◌≡◌, refl, ◌∙◌, subst, ap, arith, ◌⊎◌, inl, inr, String, false, none, some, List, [], ◌∷◌, map,
  lookup, IsMap,
}
use open_ctrl.Util.{clone_tags}
use open_ctrl.Instance.Snapshot.{snapshot, find_instance}
use open_ctrl.State.Save.{main, persistent_data, save_state_to_path}
use open_ctrl.State.Atomic.{save-IsWhole, saved_file, outcome}
use open_ctrl.State.Load.{load_entries, load_state}
use open_ctrl.State.Load.Steady.{SameConfig, SameConfig-trans}
use open_ctrl.State.Load.Restored.{IsRestored, OwnIds, load_entries-IsLoaded}

snapshot-SameConfig : (i : Instance) → SameConfig i (snapshot i)
unfolding snapshot clone_tags
snapshot-SameConfig i = ground arith

-- Each instance has the id under which it is stored.
abbrev pub HasOwnIds : (ℕ → Instance) → List (String × ℕ) → Type 0
HasOwnIds heap [] = Unit
HasOwnIds heap ((id, p) ∷ l) = ((heap p).id ≡ id) × HasOwnIds heap l

module _ (heap : ℕ → Instance) where
  abbrev pub snapshots : List (String × ℕ) → Saved
  snapshots l = map (λ e. (e.0, snapshot (heap e.1))) l

  lookup-snapshots :
      (id : String) (p : ℕ) (l : List (String × ℕ))
      → lookup id l ≡ some p
      → lookup id (snapshots l) ≡ some (snapshot (heap p))
  lookup-snapshots id p [] h = cc h
  lookup-snapshots id p ((j, q) ∷ l) h = ground (arith, h, lookup-snapshots id p l)

  lookup-none-snapshots :
      (id : String) (l : List (String × ℕ)) → lookup id l ≡ none → lookup id (snapshots l) ≡ none
  lookup-none-snapshots id [] h = refl
  lookup-none-snapshots id ((j, q) ∷ l) h = ground (arith, h, lookup-none-snapshots id l)

  snapshots-IsMap : (l : List (String × ℕ)) → IsMap l → IsMap (snapshots l)
  snapshots-IsMap [] u = u
  snapshots-IsMap ((j, q) ∷ l) u = (lookup-none-snapshots j l u.0, snapshots-IsMap l u.1)

  pub snapshots-OwnIds : (l : List (String × ℕ)) → HasOwnIds heap l → OwnIds (snapshots l)
  snapshots-OwnIds [] o = o
  snapshots-OwnIds ((j, q) ∷ l) o =
      ((snapshot-SameConfig (heap q)).id ∙ o.0, snapshots-OwnIds l o.1)

-- `n` has the instances of `m`, under the same ids, with the same configuration and traffic.
pub record IsReloaded (m n : Master) : Type 0 where
  pub all : (id : String) (p : ℕ) → find_instance id m ≡ some p → IsRestored id (m.heap p) n
  pub no_other : (id : String) → find_instance id m ≡ none → find_instance id n ≡ none

IsRestored-trans :
    (id : String) (i j : Instance) (n : Master)
    → SameConfig i j
    → IsRestored id j n
    → IsRestored id i n
IsRestored-trans id i j n s r = record {
  at = r.at;
  found = r.found;
  same = SameConfig-trans i j _ s r.same;
}

loaded-IsReloaded :
    (env : Env) (m n : Master)
    → IsMap m.instances
    → HasOwnIds m.heap m.instances
    → n.instances ≡ []
    → IsReloaded m (load_entries env (persistent_data m) n)
unfolding persistent_data find_instance
loaded-IsReloaded env m n u o e =
    let r =
      load_entries-IsLoaded env (snapshots m.heap m.instances) n
        (snapshots-IsMap m.heap m.instances u) (snapshots-OwnIds m.heap m.instances o) in
    record {
      all = λ id p h.
          IsRestored-trans id (m.heap p) (snapshot (m.heap p)) _ (snapshot-SameConfig (m.heap p))
            (r.all id (snapshot (m.heap p)) (lookup-snapshots m.heap id p m.instances h));
      no_other =
          λ id h. r.others id (lookup-none-snapshots m.heap id m.instances h) ∙ ap (lookup id) e;
    }

-- Nothing was saved, so there is nothing to load.
nothing-IsReloaded :
    (env : Env) (m n : Master)
    → IsMap m.instances
    → HasOwnIds m.heap m.instances
    → n.instances ≡ []
    → persistent_data m ≡ []
    → IsReloaded m n
unfolding load_entries
nothing-IsReloaded env m n u o e x =
    subst (λ saved. IsReloaded m (load_entries env saved n)) x (loaded-IsReloaded env m n u o e)

pub saved_file_cases :
    (saved : Saved) → ((saved ≡ []) × (saved_file saved ≡ none)) ⊎ (saved_file saved ≡ some saved)
saved_file_cases [] = inl (refl, refl)
saved_file_cases (e ∷ saved) = inr refl

-- What a save without an error leaves on the disk.
pub saved_state :
    (env : Env) (m n : Master)
    → (save_state_to_path env.files main m).0 ≡ none
    → n.disk ≡ (save_state_to_path env.files main m).1.disk
    → n.disk.state ≡ saved_file (persistent_data m)
saved_state env m n s d =
    ap (λ x. x.state) d
    ∙ (save-IsWhole env.files main m).target
    ∙ ap (λ x. outcome x main (persistent_data m) m.disk) s

-- A process that loads what a save without an error wrote has the same instances under the same
-- ids, each with the configuration and the traffic it had, and no other. Conditions: the ids of
-- the saved master are unique and those of its instances, and the new process has no instance
-- before, finds the saved files and can open and decode them.
pub save_load :
    (env : Env) (m n : Master)
    → IsMap m.instances
    → HasOwnIds m.heap m.instances
    → (save_state_to_path env.files main m).0 ≡ none
    → n.instances ≡ []
    → n.disk ≡ (save_state_to_path env.files main m).1.disk
    → env.files.open_fails ≡ false
    → env.files.decode_fails ≡ false
    → IsReloaded m (load_state env n)
unfolding load_state
save_load env m n u o s e d a b =
    let t = saved_state env m n s d in
    rw (a, b)
      (elim (saved_file_cases (persistent_data m)) [
        | inl (x, y) ↦ rw (t ∙ y) (nothing-IsReloaded env m _ u o e x)
        | inr y ↦ rw (t ∙ y) (loaded-IsReloaded env m _ u o e)
      ])
