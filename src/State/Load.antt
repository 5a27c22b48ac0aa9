-- ===== src/State/Load.antt =====
-- internal/master/state.go: `loadState`.
pub mod Steady
pub mod Restored
pub mod Roundtrip
use open_ctrl.Types.{Instance, Saved, Disk, Master, put}
use open_ctrl.Env.{Env, Files}
use open_ctrl.Base.{
  ℕ, ◌+◌, String, Bool, true, false, not, Option, none, some, List, [], ◌∷◌, insert, str_eq,
  is_some, if◌then◌else◌,
}
use open_ctrl.Util.{reset_stopped_instance_locked}
use open_ctrl.Instance.Lifecycle.Start.{supported_role, start_instance}
use open_ctrl.Rest.Common.{api_key_id}

-- An instance that is read takes a new place; `channel` is the channel it may get.
unfoldable pub restored : String → ℕ → Instance → Instance
restored id channel inst =
    if str_eq id api_key_id
    then inst
    else record (reset_stopped_instance_locked channel inst) { mode = 0 }

-- The instance is stored under the id of its entry.
unfoldable pub store_loaded : String → Instance → Master → Master
store_loaded id inst m = record (put m.fresh (restored id (m.fresh + 1) inst) m) {
  instances = insert id m.fresh m.instances;
  fresh = m.fresh + 2;
}

-- One round of the loop over the entries.
unfoldable pub load_entry : Env → String × Instance → Master → Master
load_entry env (id, inst) m =
    let p : ℕ = m.fresh in
    let stored : Master = store_loaded id inst m in
    if str_eq id api_key_id
    then stored
    else if not (supported_role (stored.heap p).role)
    then stored
    else if (stored.heap p).restart
    then start_instance env p stored
    else stored

-- The loop, in the order in which Go's map gives its entries.
unfoldable pub load_entries : Env → Saved → Master → Master
load_entries env [] m = m
load_entries env (e ∷ saved) m = load_entries env saved (load_entry env e m)

-- (*Master).loadState; the glob removes the temporary files that can be removed.
unfoldable pub load_state : Env → Master → Master
load_state env m =
    let swept : Master = record m {
      disk = if env.files.remove_fails then m.disk else record m.disk { temps = [] };
    } in
    if env.files.open_fails
    then swept
    else if env.files.decode_fails
    then swept
    else elim m.disk.state [ none ↦ swept | some saved ↦ load_entries env saved swept ]
