-- ===== src/Server.antt =====
-- internal/master/master.go: the API key in `Run`, and the middleware that asks for it.
pub mod Key
pub mod Shutdown
pub mod Tls
pub mod New
pub mod Info
pub mod Serve
pub mod Run
pub mod Written
use open_ctrl.Types.{Status, unset, Instance, Master, put}
use open_ctrl.Env.{Env}
use open_ctrl.Base.{
  ℕ, ◌+◌, String, Bool, true, false, not, Option, none, some, List, [], ◌∷◌, insert, str_eq,
  if◌then◌else◌,
}
use open_ctrl.Telemetry.Counter.{Meter}
use open_ctrl.Util.{encode_to_string}
use open_ctrl.State.Save.{save_state}
use open_ctrl.Instance.Snapshot.{snapshot, find_instance}
use open_ctrl.Rest.Common.{Response, no_body, http_error, api_key_id}
use open_ctrl.Rest.Modify.{no_peer, no_traffic}

-- The instance that keeps the API key, as its URL, and the master's id, as its configuration.
unfoldable pub key_instance : (key master_id : String) → Instance
key_instance key master_id = record {
  id = api_key_id;
  alias = "";
  role = "";
  status = unset;
  url = key;
  config = master_id;
  restart = false;
  meta = record { peer = no_peer; tags = some [] };
  mode = 0;
  ping = 0;
  pool = 0;
  tcps = 0;
  udps = 0;
  tcp_rx = no_traffic;
  tcp_tx = no_traffic;
  udp_rx = no_traffic;
  udp_tx = no_traffic;
  cmd = none;
  stopped_ch = none;
  exited_ch = none;
  deleted = false;
  cancel_func = none;
  telemetry_identity = "";
  runtime_failure = false;
}

-- The head of `Run`: the key is loaded or made. `key` are the 16 bytes of generateAPIKey, `name` the
-- 8 bytes of generateMasterID.
unfoldable pub ensure_api_key : Env → (key name : List ℕ) → Master → Master
ensure_api_key env key name m = elim (find_instance api_key_id m) [
  | some p ↦ record m { alias = (m.heap p).alias; master_id = (m.heap p).config }
  | none ↦
      let id : String = encode_to_string name in
      let stored : Master = record (put m.fresh (key_instance (encode_to_string key) id) m) {
        instances = insert api_key_id m.fresh m.instances;
        fresh = m.fresh + 1;
      } in
      record (save_state env.files stored) { master_id = id }
]

-- The check of the header `X-API-Key`, which is empty where it is missing; no value lets the
-- request pass.
unfoldable pub check_key : String → Master → Option Response
check_key header m = elim (find_instance api_key_id m) [
  | none ↦ none
  | some p ↦
      let key : String = (snapshot (m.heap p)).url in
      if str_eq key ""
      then none
      else if str_eq header ""
      then some (http_error "Unauthorized: API key required" 401)
      else if not (str_eq header key)
      then some (http_error "Unauthorized: Invalid API key" 401)
      else none
]

-- apiKeyMiddleware; `options` is r.Method == "OPTIONS", and `write` makes an answer of one without a
-- handler.
unfoldable pub api_key_middleware :
    {A : Type 0} → (Response → A) → (Master → A × Master) → Bool → String → Master → A × Master
api_key_middleware write next options header m =
    if options
    then (write (record { code = 200; body = no_body }), m)
    else elim (check_key header m) [ some refusal ↦ (write refusal, m) | none ↦ next m ]
