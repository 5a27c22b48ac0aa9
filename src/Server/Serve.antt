-- ===== src/Server/Serve.antt =====
-- internal/master/master.go: the table of `Run`, and how the server answers a request. http.ServeMux,
-- which finds the entry of a path, is an argument. A body comes decoded, as each of the handlers
-- decodes it.
pub mod Intruders
use Prim.Native.String.{◌++◌ as str_append, slice, len}
use text.Mathlib.Text.{starts_with}
use open_ctrl.Types.{Master}
use open_ctrl.Env.{Env, Wait, Result}
use open_ctrl.Base.{ℕ, String, Bool, Option, none, some, List, [], ◌∷◌, str_eq, if◌then◌else◌}
use open_ctrl.SysInfo.Devices.{ProcFiles}
use open_ctrl.Event.Opening.{Client, Opening, open_sse}
use open_ctrl.Rest.Common.{Response, http_error}
use open_ctrl.Rest.Patch.{PatchRequest}
use open_ctrl.Rest.Modify.{
  Method, get, patch, put_url, delete_method, other, CreateRequest, list_instances, create_instance,
  handle_instance_detail,
}
use open_ctrl.Rest.Ping.{PingAnswer, handle_tcp_ping}
use open_ctrl.Server.{api_key_middleware}
use open_ctrl.Server.New.{ServerConfig}
use open_ctrl.Server.Info.{
  Host, InfoMethod, get_info, other_method, post_info, InfoAnswer, handle_info_request,
}

-- The methods of Master in the table, by the paths.
pub data Handler : Type 0 where
  instances instance_detail events info tcping : Handler

-- protectedEndpoints
unfoldable pub protected_endpoints : String → List (String × Handler)
protected_endpoints prefix =
    (str_append prefix "/instances", instances)
    ∷ (str_append prefix "/instances/", instance_detail)
    ∷ (str_append prefix "/events", events)
    ∷ (str_append prefix "/info", info)
    ∷ (str_append prefix "/tcping", tcping)
    ∷ []

-- A request: `key` is its header X-API-Key, `target` its query's; the body, as a request to create
-- an instance, to change one, for its URL and for the alias of the master.
pub record Request : Type 0 where
  pub method : String
  pub path : String
  pub key : String
  pub target : String
  pub create_body : Option CreateRequest
  pub patch_body : Option PatchRequest
  pub url_body : Option String
  pub alias_body : Option String

-- What a handler finds in its surroundings: what other goroutines do during a stop, random bytes,
-- the host and its /proc, the client of a stream, whether a ping gets its turn, and its dial.
pub record Surroundings : Type 0 where
  pub wait : Wait
  pub random : List ℕ
  pub host : Host
  pub proc : ProcFiles
  pub client : Client
  pub slot : Bool
  pub dial : String → Result ℕ

pub data Answer : Type 0 where
  answered : Response → Answer
  streamed : Opening → Answer
  informed : InfoAnswer → Answer
  pinged : PingAnswer → Answer

abbrev pub answer_of : Response × Master → Answer × Master
answer_of (r, m) = (answered r, m)

-- strings.TrimPrefix
unfoldable pub trim_prefix : String → String → String
trim_prefix name prefix =
    if starts_with name prefix then slice name (len prefix) (len name) else name

-- The method of a request for one instance, with its body.
unfoldable pub detail_method : Request → Method
detail_method r =
    if str_eq r.method "GET"
    then get
    else if str_eq r.method "PATCH"
    then patch r.patch_body
    else if str_eq r.method "PUT"
    then put_url r.url_body
    else if str_eq r.method "DELETE"
    then delete_method
    else other

unfoldable pub info_method : Request → InfoMethod
info_method r =
    if str_eq r.method "GET"
    then get_info
    else if str_eq r.method "POST"
    then post_info r.alias_body
    else other_method

-- The `switch` of handleInstances.
unfoldable pub instances_request : Env → Surroundings → Request → Master → Response × Master
instances_request env s r m =
    if str_eq r.method "GET"
    then (list_instances m, m)
    else if str_eq r.method "POST"
    then create_instance env s.random r.create_body m
    else (http_error "Method not allowed" 405, m)

-- The call of a handler.
unfoldable pub run_handler :
    Env → ServerConfig → Surroundings → Request → Handler → Master → Answer × Master
run_handler env config s r instances m = answer_of (instances_request env s r m)
run_handler env config s r instance_detail m = answer_of (
    handle_instance_detail env s.wait s.random (detail_method r)
      (trim_prefix r.path (str_append config.prefix "/instances/")) m)
run_handler env config s r events m =
    let opened : Opening × Master = open_sse s.client (str_eq r.method "GET") m in
    (streamed opened.0, opened.1)
run_handler env config s r info m =
    let done : InfoAnswer × Master = handle_info_request s.host config s.proc (info_method r) m in
    (informed done.0, done.1)
run_handler env config s r tcping m =
    (pinged (handle_tcp_ping (str_eq r.method "GET") r.target s.slot s.dial), m)

-- What http.ServeMux makes of a request: an entry of its table, or an answer of its own: a redirect
-- to a clean path, a bad request, or that there is no entry.
pub data Found : Type 0 where
  entry : Handler → Found
  own_answer : Response → Found

-- The server, for the way in which http.ServeMux finds an entry.
unfoldable pub serve :
    (List (String × Handler) → Request → Found)
    → Env
    → ServerConfig
    → Surroundings
    → Request
    → Master
    → Answer × Master
serve find env config s r m = elim (find (protected_endpoints config.prefix) r) [
  | own_answer response ↦ (answered response, m)
  | entry handler ↦
      api_key_middleware answered (run_handler env config s r handler) (str_eq r.method "OPTIONS")
        r.key m
]

-- One request after another, each in its own surroundings, with the answers.
unfoldable pub serve_all :
    (List (String × Handler) → Request → Found)
    → Env
    → ServerConfig
    → List (Surroundings × Request)
    → Master
    → List Answer × Master
serve_all find env config [] m = ([], m)
serve_all find env config ((s, r) ∷ rest) m =
    let first : Answer × Master = serve find env config s r m in
    let later : List Answer × Master = serve_all find env config rest first.1 in
    (first.0 ∷ later.0, later.1)
