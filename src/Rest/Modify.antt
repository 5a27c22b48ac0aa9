-- ===== src/Rest/Modify.antt =====
-- internal/master/rest.go: `handleInstances`, `handlePutInstance`, `handleDeleteInstance` and the
-- dispatch of `handleInstanceDetail`.
pub mod Creation
pub mod Removal
use open_ctrl.Types.{Status, stopped, Instance, Meta, Peer, Master, put, create, delete, start_task}
use open_ctrl.Env.{Env, Wait, Result, ok, err}
use open_ctrl.Base.{
  ℕ, ◌+◌, String, Bool, true, false, not, Option, none, some, List, [], ◌∷◌, map, insert, erase,
  lookup, str_eq, is_some, if◌then◌else◌, ◌==◌,
}
use open_ctrl.Telemetry.Counter.{Meter}
use open_ctrl.Util.{encode_to_string}
use open_ctrl.Event.Publish.{send_sse_event}
use open_ctrl.State.Save.{save_state_async}
use open_ctrl.Instance.Snapshot.{snapshot, current_instance, find_instance}
use open_ctrl.Instance.Lifecycle.Start.{normalize_instance_url, start_instance_locked, store}
use open_ctrl.Instance.Lifecycle.Stop.{stop_instance_locked}
use open_ctrl.Rest.Common.{
  Response, Body, no_body, list_body, http_error, write_instance, api_key_id, go, still_stored,
}
use open_ctrl.Rest.Patch.{PatchRequest, handle_patch_instance}

pub record CreateRequest : Type 0 where
  pub alias : String
  pub url : String

abbrev pub no_traffic : Meter
no_traffic = record { total = 0; base = 0; reset = 0 }

abbrev pub no_peer : Peer
no_peer = record { sid = ""; kind = ""; alias = "" }

-- The literal of `handleInstances`; `channel` is its new channel.
abbrev pub new_instance : (id alias role url : String) → ℕ → Instance
new_instance id alias role url channel = record {
  id = id;
  alias = alias;
  role = role;
  status = stopped;
  url = url;
  config = "";
  restart = true;
  meta = record { peer = no_peer; tags = some [] };
  mode = 0;
  ping = 0;
  pool = 0;
  tcps = 0;
  udps = 0;
  tcp_rx = no_traffic;
  tcp_tx = no_traffic;
  udp_rx = no_traffic;
  udp_tx = no_traffic;
  cmd = none;
  stopped_ch = some channel;
  exited_ch = none;
  deleted = false;
  cancel_func = none;
  telemetry_identity = "";
  runtime_failure = false;
}

-- handleInstances, GET: snapshots of all instances.
unfoldable pub list_instances : Master → Response
list_instances m = record {
  code = 200;
  body = list_body (map (λ e. snapshot (m.heap e.1)) m.instances);
}

-- The new instance is stored, saved and started.
unfoldable pub add_instance : (id alias role url : String) → Master → Response × Master
add_instance id alias role url m =
    let p : ℕ = m.fresh in
    let inst : Instance = new_instance id alias role url (m.fresh + 1) in
    let stored : Master = record (put p inst m) {
      instances = insert id p m.instances;
      fresh = m.fresh + 2;
    } in
    (
      write_instance 201 (snapshot inst),
      send_sse_event create p (save_state_async (go (start_task p) stored)),
    )

-- handleInstances, POST; `random` are the 4 bytes of generateID.
unfoldable pub create_instance : Env → List ℕ → Option CreateRequest → Master → Response × Master
create_instance env random none m = (http_error "Invalid request body" 400, m)
create_instance env random (some req) m =
    if str_eq req.url ""
    then (http_error "Invalid request body" 400, m)
    else elim (normalize_instance_url env req.url) [
      | err message ↦ (http_error message 400, m)
      | ok (role, url) ↦
          let id : String = encode_to_string random in
          if is_some (lookup id m.instances)
          then (http_error "instance ID already exists" 409, m)
          else add_instance id req.alias role url m
    ]

-- The part of the handler that replaces the URL: stop, write, start.
unfoldable pub replace_url : Env → Wait → (role url : String) → ℕ → Master → Response × Master
replace_url env w role url p m =
    let m' : Master = stop_instance_locked env w p m in
    let inst : Instance = record (m'.heap p) {
      url = url;
      role = role;
      mode = 0;
      status = stopped;
    } in
    let m'' : Master = save_state_async (start_instance_locked env p (store p (put p inst m'))) in
    (write_instance 200 (snapshot (m''.heap p)), m'')

-- (*Master).handlePutInstance; the request is its field `url`.
unfoldable pub handle_put_instance :
    Env → Wait → Option String → String → ℕ → Master → Response × Master
handle_put_instance env w request id p m =
    if str_eq id api_key_id then (http_error "Forbidden: API Key" 403, m) else elim request [
      | none ↦ (http_error "Invalid request body" 400, m)
      | some raw ↦
          if str_eq raw ""
          then (http_error "Invalid request body" 400, m)
          else elim (normalize_instance_url env raw) [
            | err message ↦ (http_error message 400, m)
            | ok (role, url) ↦
                let q : ℕ = current_instance p m in
                if not (still_stored id q m)
                then (http_error "instance not found" 404, m)
                else if (m.heap q).deleted
                then (http_error "instance not found" 404, m)
                else if str_eq (m.heap q).url url
                then (http_error "instance URL conflict" 409, m)
                else replace_url env w role url q m
          ]
    ]

-- The part of the handler that removes the instance.
unfoldable pub remove_instance : Env → Wait → String → ℕ → Master → Response × Master
remove_instance env w id p m =
    let marked : Master = record (put p (record (m.heap p) { deleted = true }) m) {
      instances = insert id p m.instances;
    } in
    let m' : Master = stop_instance_locked env w p marked in
    let gone : Master = record m' { instances = erase id m'.instances } in
    (record { code = 204; body = no_body }, send_sse_event delete p (save_state_async gone))

-- (*Master).handleDeleteInstance
unfoldable pub handle_delete_instance : Env → Wait → String → ℕ → Master → Response × Master
handle_delete_instance env w id p m =
    if str_eq id api_key_id
    then (http_error "Forbidden: API Key" 403, m)
    else let q : ℕ = current_instance p m in
      if not (still_stored id q m)
      then (http_error "instance not found" 404, m)
      else if (m.heap q).deleted
      then (http_error "instance not found" 404, m)
      else remove_instance env w id q m

-- A request for one instance, with its decoded body.
pub data Method : Type 0 where
  get : Method
  patch : Option PatchRequest → Method
  put_url : Option String → Method
  delete_method : Method
  other : Method

-- The `switch` of `handleInstanceDetail`.
unfoldable pub dispatch : Env → Wait → List ℕ → Method → String → ℕ → Master → Response × Master
dispatch env w random get id p m = (write_instance 200 (snapshot (m.heap p)), m)
dispatch env w random (patch req) id p m = handle_patch_instance random req id p m
dispatch env w random (put_url req) id p m = handle_put_instance env w req id p m
dispatch env w random delete_method id p m = handle_delete_instance env w id p m
dispatch env w random other id p m = (http_error "Method not allowed" 405, m)

-- (*Master).handleInstanceDetail; `id` is the path less its prefix.
unfoldable pub handle_instance_detail :
    Env → Wait → List ℕ → Method → String → Master → Response × Master
handle_instance_detail env w random method id m =
    if str_eq id ""
    then (http_error "instance ID is required" 400, m)
    else if str_eq id "/"
    then (http_error "instance ID is required" 400, m)
    else elim (find_instance id m) [
      | none ↦ (http_error "instance not found" 404, m)
      | some p ↦ dispatch env w random method id p m
    ]
