-- ===== src/System/Lifetime.antt =====
-- internal/master/state.go and master.go: from one process of the master to the next.
use open_ctrl.Types.{Instance, Saved, Master}
use open_ctrl.Env.{Env}
use open_ctrl.Base.{
  ℕ, ◌+◌, ◌≡◌, ◌∙◌, ap, sym, refl, arith, inl, inr, subst, String, false, not, Option, none, some,
  List, [], ◌∷◌, lookup, IsMap, insert-IsMap, Has, lookup_of_Has, str_eq, if_cases, ==_refl,
  if◌then◌else◌, Option-cases,
}
use open_ctrl.Util.{encode_to_string, reset_stopped_instance_locked}
use open_ctrl.Instance.Snapshot.{find_instance}
use open_ctrl.Instance.Lifecycle.Start.{start_instance, supported_role}
use open_ctrl.Rest.Common.{api_key_id}
use open_ctrl.State.Save.{main, persistent_data, save_state, save_state_to_path}
use open_ctrl.State.Atomic.{saved_file}
use open_ctrl.State.Load.{restored, store_loaded, load_entry, load_entries, load_state}
use open_ctrl.State.Load.Restored.{OwnIds}
use open_ctrl.State.Load.Roundtrip.{
  HasOwnIds, IsReloaded, save_load, saved_state, saved_file_cases, snapshots-OwnIds,
}
use open_ctrl.Server.{ensure_api_key, key_instance}
use open_ctrl.Registry.{still, also, quiet, make}
use open_ctrl.Registry.Laws.{IsRegistry, insert_found, Moves-IsRegistry}
use open_ctrl.Registry.Lifecycle.{start-Leads, current-bound}
use open_ctrl.System.{Steps}
use open_ctrl.System.Moves.{Steps-IsRegistry}

-- A registry has what the round trip of the state file asks for.
own_ids :
    (m : Master) (l : List (String × ℕ))
    → ((id : String) (p : ℕ) → Has (id, p) l → (m.heap p).id ≡ id)
    → HasOwnIds m.heap l
own_ids m [] h = tt
own_ids m ((id, p) ∷ l) h = (h id p (inl refl), own_ids m l (λ j q k. h j q (inr k)))

registry-HasOwnIds : (m : Master) → IsRegistry m → HasOwnIds m.heap m.instances
registry-HasOwnIds m r =
    own_ids m m.instances (λ id p h. (r.named id p (lookup_of_Has id p m.instances r.unique h)).0)

restored-id : (id : String) (ch : ℕ) (inst : Instance) → (restored id ch inst).id ≡ inst.id
unfolding restored reset_stopped_instance_locked
restored-id id ch inst =
    if_cases (λ (i : Instance). i.id ≡ inst.id) (str_eq id api_key_id) _ _ (λ _. refl) (λ _. refl)

store_loaded-IsRegistry :
    (id : String) (inst : Instance) (m : Master)
    → inst.id ≡ id
    → IsRegistry m
    → IsRegistry (store_loaded id inst m)
unfolding store_loaded
store_loaded-IsRegistry id inst m own r = record {
  unique = insert-IsMap id m.fresh m.instances r.unique;
  named = λ j p l. elim (insert_found id j m.fresh p m.instances l) [
    | inl (i, x) ↦
        rw (sym x, ==_refl m.fresh) (restored-id id (m.fresh + 1) inst ∙ own ∙ i, omega arith)
    | inr l' ↦ let (i, b) = r.named j p l' in (ground (arith, i, b), omega (arith, b))
  ];
}

module _ (env : Env) where
  load_entry-IsRegistry :
      (id : String) (inst : Instance) (m : Master)
      → inst.id ≡ id
      → IsRegistry m
      → IsRegistry (load_entry env (id, inst) m)
  unfolding load_entry start_instance store_loaded
  load_entry-IsRegistry id inst m own r =
      let n : Master = store_loaded id inst m in
      let s : IsRegistry n = store_loaded-IsRegistry id inst m own r in
      if_cases IsRegistry (str_eq id api_key_id) _ _ (λ _. s)
        λ _.
          if_cases IsRegistry (not (supported_role (n.heap m.fresh).role)) _ _ (λ _. s)
            λ _.
              if_cases IsRegistry (n.heap m.fresh).restart _ _
                (λ _.
                  Moves-IsRegistry (start-Leads env _ n (current-bound m.fresh n s (omega arith)))
                    s)
                (λ _. s)

  load_entries-IsRegistry :
      (saved : Saved) (m : Master)
      → OwnIds saved
      → IsRegistry m
      → IsRegistry (load_entries env saved m)
  unfolding load_entries
  load_entries-IsRegistry [] m o r = r
  load_entries-IsRegistry ((id, inst) ∷ saved) m (own, o) r =
      load_entries-IsRegistry saved _ o (load_entry-IsRegistry id inst m own r)

  from_file :
      (file : Option Saved) (m : Master)
      → IsRegistry m
      → ((saved : Saved) → file ≡ some saved → OwnIds saved)
      → IsRegistry (elim file [ none ↦ m | some saved ↦ load_entries env saved m ])
  from_file none m r o = r
  from_file (some saved) m r o = load_entries-IsRegistry saved m (o saved refl) r

  -- A new process, whose map is empty, with a file in which each instance has the id of its entry.
  pub load_state-IsRegistry :
      (n : Master)
      → n.instances ≡ []
      → ((saved : Saved) → n.disk.state ≡ some saved → OwnIds saved)
      → IsRegistry (load_state env n)
  unfolding load_state
  load_state-IsRegistry n e o =
      let swept : Master = record n {
        disk = if env.files.remove_fails then n.disk else record n.disk { temps = [] };
      } in
      let empty : IsRegistry swept = record {
        unique = subst IsMap (sym e) tt;
        named = λ id p l. cc (l, ap (lookup id) e);
      } in
      if_cases IsRegistry env.files.open_fails _ _ (λ _. empty)
        λ _.
          if_cases IsRegistry env.files.decode_fails _ _ (λ _. empty)
            (λ _. from_file n.disk.state swept empty o)

  -- The head of `Run` keeps a registry.
  pub ensure-IsRegistry :
      (key name : List ℕ) (m : Master) → IsRegistry m → IsRegistry (ensure_api_key env key name m)
  unfolding ensure_api_key save_state save_state_to_path find_instance key_instance
  ensure-IsRegistry key name m r = elim (Option-cases (find_instance api_key_id m)) [
    | inr (p, e) ↦ rw (ensure_api_key, e) (record { unique = r.unique; named = r.named })
    | inl e ↦
        rw (ensure_api_key, e)
          (Moves-IsRegistry {Stores = λ _. ⊥} {Forgets = λ _. ⊥}
            (also
              (also still
                (make (key_instance (encode_to_string key) (encode_to_string name)) refl e))
              (quiet refl refl refl (omega arith)))
            r)
  ]

  read_back :
      (m : Master) (saved : Saved)
      → IsRegistry m
      → saved_file (persistent_data m) ≡ some saved
      → OwnIds saved
  unfolding persistent_data
  read_back m saved r e = elim (saved_file_cases (persistent_data m)) [
    | inl (x, y) ↦ cc (y, e)
    | inr y ↦
        subst (λ (o : Option Saved). OwnIds (elim o [ none ↦ [] | some l ↦ l ])) (sym y ∙ e)
          (snapshots-OwnIds m.heap m.instances (registry-HasOwnIds m r))
  ]

  -- After any steps of the system from a registry, a save without an error, and a load by a new
  -- process, that process has the same instances under the same ids, each with the configuration
  -- and the traffic it had, and no other; and its map is a registry, so that the same holds of its
  -- own next process. Condition: the new process has no instance before, finds the saved files and
  -- can open and decode them.
  pub next_process :
      (m n o : Master)
      → IsRegistry m
      → Steps env m n
      → (save_state_to_path env.files main n).0 ≡ none
      → o.instances ≡ []
      → o.disk ≡ (save_state_to_path env.files main n).1.disk
      → env.files.open_fails ≡ false
      → env.files.decode_fails ≡ false
      → IsReloaded n (load_state env o) × IsRegistry (load_state env o)
  next_process m n o r s saved e d a b =
      let after = Steps-IsRegistry env m n s r in
      (
        save_load env n o after.unique (registry-HasOwnIds n after) saved e d a b,
        load_state-IsRegistry o e
            (λ file x. read_back n file after (sym (saved_state env n o saved d) ∙ x)),
      )
