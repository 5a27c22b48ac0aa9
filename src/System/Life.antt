-- ===== src/System/Life.antt =====
-- internal/master/state.go and master.go: a whole process of the master, from the load of its file
-- to its shutdown and to the next process.
use open_ctrl.Types.{Instance, Saved, Master}
use open_ctrl.Env.{Env}
use open_ctrl.Base.{
  ◌∙◌, ℕ, ◌+◌, ◌≡◌, refl, inl, inr, String, true, false, not, Option, none, some, List, [], ◌∷◌,
  Has, str_eq, if_cases, Option-cases,
}
use open_ctrl.Util.{encode_to_string, reset_stopped_instance_locked}
use open_ctrl.Instance.Snapshot.{find_instance}
use open_ctrl.Instance.Lifecycle.Start.{start_instance, supported_role}
use open_ctrl.Instance.Lifecycle.Consistent.{
  AllConsistent, IsConsistent, put-AllConsistent, start-AllConsistent,
}
use open_ctrl.Rest.Common.{api_key_id}
use open_ctrl.State.Save.{main, save_state, save_state_to_path}
use open_ctrl.State.Load.{restored, store_loaded, load_entry, load_entries, load_state}
use open_ctrl.State.Load.Restored.{OwnIds}
use open_ctrl.State.Load.Roundtrip.{IsReloaded}
use open_ctrl.Server.{ensure_api_key, key_instance}
use open_ctrl.Server.Run.{run}
use open_ctrl.Server.Shutdown.{Meanwhile, shutdown_until, stopped_state}
use open_ctrl.Server.Shutdown.Keep.{IsIdle}
use open_ctrl.Registry.Laws.{IsRegistry}
use open_ctrl.System.{Steps}
use open_ctrl.System.Invariant.{Steps-AllConsistent}
use open_ctrl.System.Moves.{Steps-IsRegistry}
use open_ctrl.System.Closing.{IsOrderly, shutdown_ends, closed-IsRegistry, stopped_state-Steps}
use open_ctrl.System.Lifetime.{load_state-IsRegistry, ensure-IsRegistry, next_process}

-- The entry that keeps the API key, which a load takes as it is, holds no run.
abbrev pub KeyRests : Saved → Type 0
KeyRests [] = Unit
KeyRests ((id, inst) ∷ saved) = (str_eq id api_key_id ≡ true → IsConsistent inst) × KeyRests saved

restored-IsConsistent :
    (id : String) (ch : ℕ) (inst : Instance)
    → (str_eq id api_key_id ≡ true → IsConsistent inst)
    → IsConsistent (restored id ch inst)
unfolding restored reset_stopped_instance_locked
restored-IsConsistent id ch inst h =
    if_cases IsConsistent (str_eq id api_key_id) _ _ h
      (λ _. record { live = λ h. cc; idle = λ h. (refl, refl, refl); failed = λ h. cc })

key-IsConsistent : (key name : String) → IsConsistent (key_instance key name)
unfolding key_instance
key-IsConsistent key name = record {
  live = λ h. cc;
  idle = λ h. (refl, refl, refl);
  failed = λ h. cc;
}

module _ (env : Env) where
  load_entry-AllConsistent :
      (id : String) (inst : Instance) (m : Master)
      → (str_eq id api_key_id ≡ true → IsConsistent inst)
      → AllConsistent m
      → AllConsistent (load_entry env (id, inst) m)
  unfolding load_entry start_instance store_loaded
  load_entry-AllConsistent id inst m h a =
      let n : Master = store_loaded id inst m in
      let s : AllConsistent n =
        put-AllConsistent m.fresh (restored id (m.fresh + 1) inst) m
          (restored-IsConsistent id (m.fresh + 1) inst h) a in
      if_cases AllConsistent (str_eq id api_key_id) _ _ (λ _. s)
        λ _.
          if_cases AllConsistent (not (supported_role (n.heap m.fresh).role)) _ _ (λ _. s)
            λ _.
              if_cases AllConsistent (n.heap m.fresh).restart _ _
                (λ _. start-AllConsistent env _ n s) (λ _. s)

  load_entries-AllConsistent :
      (saved : Saved) (m : Master)
      → KeyRests saved
      → AllConsistent m
      → AllConsistent (load_entries env saved m)
  unfolding load_entries
  load_entries-AllConsistent [] m k a = a
  load_entries-AllConsistent ((id, inst) ∷ saved) m (h, k) a =
      load_entries-AllConsistent saved _ k (load_entry-AllConsistent id inst m h a)

  from_file :
      (file : Option Saved) (m : Master)
      → AllConsistent m
      → ((saved : Saved) → file ≡ some saved → KeyRests saved)
      → AllConsistent (elim file [ none ↦ m | some saved ↦ load_entries env saved m ])
  from_file none m a k = a
  from_file (some saved) m a k = load_entries-AllConsistent saved m (k saved refl) a

  load_state-AllConsistent :
      (m : Master)
      → AllConsistent m
      → ((saved : Saved) → m.disk.state ≡ some saved → KeyRests saved)
      → AllConsistent (load_state env m)
  unfolding load_state
  load_state-AllConsistent m a k =
      if_cases AllConsistent env.files.open_fails _ _ (λ _. a)
        λ _.
          if_cases AllConsistent env.files.decode_fails _ _ (λ _. a)
            (λ _. from_file m.disk.state _ a k)

  ensure-AllConsistent :
      (key name : List ℕ) (m : Master)
      → AllConsistent m
      → AllConsistent (ensure_api_key env key name m)
  unfolding ensure_api_key save_state save_state_to_path
  ensure-AllConsistent key name m a = elim (Option-cases (find_instance api_key_id m)) [
    | inr (p, e) ↦ rw (ensure_api_key, e) a
    | inl e ↦
        rw (ensure_api_key, e)
          (put-AllConsistent m.fresh _ m
            (key-IsConsistent (encode_to_string key) (encode_to_string name)) a)
  ]

-- What a new process finds: no instance in its map, consistent objects, and a file whose entries
-- hold instances with their own ids, that of the key at rest.
pub record IsFresh (m : Master) : Type 0 where
  pub empty : m.instances ≡ []
  pub consistent : AllConsistent m
  pub own_ids : (saved : Saved) → m.disk.state ≡ some saved → OwnIds saved
  pub key_rests : (saved : Saved) → m.disk.state ≡ some saved → KeyRests saved

-- `running` is what the shutdown begins with, `kept` what it saves, `ended` what it leaves, and `next`
-- what the next process has loaded.
pub record IsHandedOver (running kept ended next : Master) : Type 0 where
  pub idle : (id : String) (p : ℕ) → Has (id, p) running.instances → IsIdle p ended
  pub no_process : (id : String) (p : ℕ) → Has (id, p) running.instances → (ended.heap p).cmd ≡ none
  pub reloaded : IsReloaded kept next
  pub registry : IsRegistry next

module _ (env : Env) (w : Meanwhile) where
  -- A process loads its file and runs: it takes or makes its key, does any steps of the system until
  -- the signal, and shuts down before the deadline, while further steps happen: then no instance that
  -- it had when the shutdown began runs or has a process, and the next process has the instances that
  -- the shutdown saved under the same ids, each with the configuration and the traffic it had, and no
  -- other. Conditions: the file has instances with their own ids, and the entry of the key at rest;
  -- the save of the shutdown has no error, and nothing writes the file behind it; the next process
  -- finds the saved files and can open and decode them.
  pub whole_life :
      (m next : Master) (key name : List ℕ) (serving : Master → Master)
      → IsOrderly env w
      → IsFresh m
      → ((n : Master) → Steps env n (serving n))
      → (save_state_to_path env.files main
          (stopped_state env w (serving (ensure_api_key env key name (load_state env m))))).0
        ≡ none
      → (run env w none key name serving (load_state env m)).1.disk
        ≡ (save_state env.files
            (stopped_state env w (serving (ensure_api_key env key name (load_state env m))))).disk
      → next.instances ≡ []
      → next.disk ≡ (run env w none key name serving (load_state env m)).1.disk
      → env.files.open_fails ≡ false
      → env.files.decode_fails ≡ false
      → IsHandedOver
          (serving (ensure_api_key env key name (load_state env m)))
          (stopped_state env w (serving (ensure_api_key env key name (load_state env m))))
          (run env w none key name serving (load_state env m)).1
          (load_state env next)
  unfolding run shutdown_until save_state
  whole_life m next key name serving o f s saved last e d a b =
      let begun : Master = ensure_api_key env key name (load_state env m) in
      let n : Master = serving begun in
      let registry : IsRegistry n =
        Steps-IsRegistry env begun n (s begun)
          (ensure-IsRegistry env key name _ (load_state-IsRegistry env m f.empty f.own_ids)) in
      let consistent : AllConsistent n = Steps-AllConsistent env begun n (s begun) (
        ensure-AllConsistent env key name _
          (load_state-AllConsistent env m f.consistent f.key_rests)) in
      let (reloaded, after) =
        next_process env (record n { periodic_done = true }) (stopped_state env w n) next
          (closed-IsRegistry env w o n registry) (stopped_state-Steps env w o n registry) saved e
          (d ∙ last) a b in
      let ends = shutdown_ends env w o n registry consistent in
      record {
        idle = λ id p h. (ends id p h).0;
        no_process = λ id p h. (ends id p h).1;
        reloaded = reloaded;
        registry = after;
      }
