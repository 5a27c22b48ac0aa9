-- ===== src/State/Save.antt =====
-- internal/master/state.go: saving. gob writes the exported fields of an instance and reads them
-- back; a snapshot has no others, so a file holds the snapshots themselves.
use open_ctrl.Types.{Saved, Disk, Master, save_state_task}
use open_ctrl.Env.{Files}
use open_ctrl.Base.{
  ℕ, suc, not, Option, none, some, List, [], ◌∷◌, ◌++◌, map, is_some, if◌then◌else◌, ◌==◌, length,
}
use open_ctrl.Instance.Snapshot.{snapshot}

-- statePath, or the same with `.backup`.
pub data StateFile : Type 0 where
  main backup : StateFile

pub data SaveError : Type 0 where
  remove_failed stat_failed mkdir_failed create_failed encode_failed close_failed : SaveError
  rename_failed : SaveError

abbrev pub file : StateFile → Disk → Option Saved
file main d = d.state
file backup d = d.backup

abbrev pub write_file : StateFile → Option Saved → Disk → Disk
write_file main saved d = record d { state = saved }
write_file backup saved d = record d { backup = saved }

-- The map `persistentData`.
unfoldable pub persistent_data : Master → Saved
persistent_data m = map (λ e. (e.0, snapshot (m.heap e.1))) m.instances

-- The branch of an empty map: the file is removed.
unfoldable pub remove_state : Files → StateFile → Disk → Option SaveError × Disk
remove_state fs path d =
    if fs.stat_fails
    then (some stat_failed, d)
    else if not (is_some (file path d))
    then (none, d)
    else if fs.remove_fails
    then (some remove_failed, d)
    else (none, write_file path none d)

abbrev pub drop_first : List ℕ → List ℕ
drop_first [] = []
drop_first (x ∷ xs) = xs

-- removeTemp: the temporary file is the last one made.
unfoldable pub remove_temp : Files → Disk → Disk
remove_temp fs d =
    if fs.stat_fails
    then d
    else if fs.remove_fails
    then d
    else record d { temps = drop_first d.temps }

-- The other branch: a temporary file is written and takes the place of the old one.
unfoldable pub replace_state : Files → StateFile → ℕ → Saved → Disk → Option SaveError × Disk
unfolding remove_temp
replace_state fs path name saved d =
    let written : Disk = record d { temps = name ∷ d.temps } in
    if fs.mkdir_fails
    then (some mkdir_failed, d)
    else if fs.create_fails
    then (some create_failed, d)
    else if fs.encode_fails
    then (some encode_failed, remove_temp fs written)
    else if fs.close_fails
    then (some close_failed, remove_temp fs written)
    else if fs.rename_fails
    then (some rename_failed, remove_temp fs written)
    else (none, write_file path (some saved) d)

-- (*Master).saveStateToPath
unfoldable pub save_state_to_path : Files → StateFile → Master → Option SaveError × Master
save_state_to_path fs path m =
    let saved = persistent_data m in
    let r : Option SaveError × Disk =
      if length saved == 0
      then remove_state fs path m.disk
      else replace_state fs path m.fresh saved m.disk in
    (r.0, record m { disk = r.1; fresh = suc m.fresh })

-- (*Master).saveState; the callers only log its error.
unfoldable pub save_state : Files → Master → Master
save_state fs m = (save_state_to_path fs main m).1

-- (*Master).saveStateAsync
unfoldable pub save_state_async : Master → Master
save_state_async m = record m { tasks = m.tasks ++ save_state_task ∷ [] }
