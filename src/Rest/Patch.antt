-- ===== src/Rest/Patch.antt =====
-- internal/master/rest.go: `handlePatchInstance`.
pub mod Fields
use Prim.Native.String.{◌++◌ as str_append}
use open_ctrl.Types.{
  Meta, Peer, Instance, Master, put, update, start_task, stop_task, restart_task, shutdown_sse_task,
}
use open_ctrl.Base.{
  ℕ, String, Bool, true, false, not, ◌&&◌, ◌||◌, Option, none, some, List, [], ◌∷◌, insert, str_eq,
  is_some, if◌then◌else◌, ◌==◌,
}
use open_ctrl.Telemetry.Counter.{clear}
use open_ctrl.Util.{clone_tags, encode_to_string}
use open_ctrl.Event.Publish.{send_sse_event}
use open_ctrl.State.Save.{save_state_async}
use open_ctrl.Instance.Snapshot.{snapshot, current_instance}
use open_ctrl.Instance.Lifecycle.Start.{store}
use open_ctrl.Rest.Common.{
  Response, http_error, write_instance, too_long, api_key_id, go, still_stored,
}

pub record MetaPatch : Type 0 where
  pub peer : Option Peer
  pub tags : Option (List (String × String))

-- instancePatchRequest
pub record PatchRequest : Type 0 where
  pub alias : String
  pub action : String
  pub restart : Option Bool
  pub meta : Option MetaPatch

-- validInstanceActions[action]
unfoldable pub valid_action : String → Bool
valid_action action =
    str_eq action "start"
    || (str_eq action "stop" || (str_eq action "restart" || str_eq action "reset"))

unfoldable pub check_peer : Option Peer → Option String
unfolding too_long
check_peer none = none
check_peer (some peer) =
    if too_long peer.sid
    then some "meta peer.sid exceeds maximum length 256"
    else if too_long peer.kind
    then some "meta peer.type exceeds maximum length 256"
    else if too_long peer.alias
    then some "meta peer.alias exceeds maximum length 256"
    else none

unfoldable pub check_tags : List (String × String) → Option String
unfolding too_long
check_tags [] = none
check_tags ((key, value) ∷ tags) =
    let rest : Option String = check_tags tags in
    if too_long key
    then some "meta tag key exceeds maximum length 256"
    else if too_long value
    then some "meta tag value exceeds maximum length 256"
    else rest

abbrev pub tag_list : Option (List (String × String)) → List (String × String)
tag_list none = []
tag_list (some tags) = tags

abbrev pub or_else : Option String → Option String → Option String
or_else none b = b
or_else (some a) b = some a

abbrev pub check_meta : Option MetaPatch → Option String
check_meta none = none
check_meta (some meta) = or_else (check_peer meta.peer) (check_tags (tag_list meta.tags))

-- The validation, with the message of the first check that fails.
unfoldable pub check_patch : PatchRequest → Option String
check_patch req =
    if not (str_eq req.alias "") && too_long req.alias
    then some "instance alias exceeds maximum length 256"
    else if not (str_eq req.action "") && not (valid_action req.action)
    then some (str_append "Invalid action: " req.action)
    else check_meta req.meta

-- The changes to the fields, one after the other, each with whether it sets `changed`.
abbrev pub patch_alias : String → Instance × Bool → Instance × Bool
patch_alias alias (inst, changed) =
    if not (str_eq alias "") && not (str_eq inst.alias alias)
    then (record inst { alias = alias }, true)
    else (inst, changed)

abbrev pub reset_counters : Instance → Instance
reset_counters inst = record inst {
  tcp_rx = clear inst.tcp_rx;
  tcp_tx = clear inst.tcp_tx;
  udp_rx = clear inst.udp_rx;
  udp_tx = clear inst.udp_tx;
}

abbrev pub patch_reset : String → Instance × Bool → Instance × Bool
patch_reset action (inst, changed) =
    if str_eq action "reset" then (reset_counters inst, true) else (inst, changed)

abbrev pub bool_eq : Bool → Bool → Bool
bool_eq true b = b
bool_eq false b = not b

abbrev pub patch_restart : Option Bool → Instance × Bool → Instance × Bool
patch_restart none r = r
patch_restart (some restart) (inst, changed) =
    if bool_eq inst.restart restart
    then (inst, changed)
    else (record inst { restart = restart }, true)

abbrev pub patch_peer : Option Peer → Instance → Instance
patch_peer none inst = inst
patch_peer (some peer) inst = record inst { meta = record inst.meta { peer = peer } }

abbrev pub patch_tags : Option (List (String × String)) → Instance → Instance
patch_tags none inst = inst
patch_tags (some tags) inst = record inst {
  meta = record inst.meta { tags = clone_tags (some tags) };
}

abbrev pub patch_meta : Option MetaPatch → Instance × Bool → Instance × Bool
patch_meta none r = r
patch_meta (some meta) (inst, changed) = (patch_tags meta.tags (patch_peer meta.peer inst), true)

-- The section of the handler under both locks.
unfoldable pub apply_patch : PatchRequest → Instance → Instance × Bool
unfolding clear clone_tags
apply_patch req inst =
    patch_meta req.meta
      (patch_restart req.restart (patch_reset req.action (patch_alias req.alias (inst, false))))

-- The goroutine for an action.
unfoldable pub start_action : String → ℕ → Master → Master
start_action action p m =
    if str_eq action "start"
    then go (start_task p) m
    else if str_eq action "stop"
    then go (stop_task p) m
    else if str_eq action "restart"
    then go (restart_task p) m
    else m

-- The branch for the entry of the API key; `random` are the 16 bytes of generateAPIKey.
unfoldable pub patch_api_key : List ℕ → PatchRequest → ℕ → Master → Response × Master
patch_api_key random req p m =
    let key : Instance = record (m.heap p) { url = encode_to_string random } in
    let stored : Master = record (put p key m) { instances = insert api_key_id p m.instances } in
    let m' : Master =
      if str_eq req.action "restart"
      then send_sse_event update p (go shutdown_sse_task (save_state_async stored))
      else m in
    (write_instance 200 (snapshot (m'.heap p)), m')

-- The part of the handler behind the checks.
unfoldable pub commit_patch : PatchRequest → String → ℕ → Master → Response × Master
commit_patch req id p m =
    let r : Instance × Bool = apply_patch req (m.heap p) in
    let patched : Master = put p r.0 m in
    let m' : Master =
      if r.1
      then send_sse_event update p
          (save_state_async (record patched { instances = insert id p m.instances }))
      else patched in
    let m'' : Master = start_action req.action p m' in
    (write_instance 200 (snapshot (m''.heap p)), m'')

-- (*Master).handlePatchInstance
unfoldable pub handle_patch_instance :
    List ℕ → Option PatchRequest → String → ℕ → Master → Response × Master
handle_patch_instance random none id p m = (http_error "Invalid request body" 400, m)
handle_patch_instance random (some req) id p m =
    if str_eq id api_key_id then patch_api_key random req p m else elim (check_patch req) [
      | some message ↦ (http_error message 400, m)
      | none ↦
          let q : ℕ = current_instance p m in
          if not (still_stored id q m)
          then (http_error "instance not found" 404, m)
          else if (m.heap q).deleted
          then (http_error "instance not found" 404, m)
          else commit_patch req id q m
    ]
