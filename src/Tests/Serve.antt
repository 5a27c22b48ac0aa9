-- ===== src/Tests/Serve.antt =====
-- Requests to the server.
use Prim.Native.String.{slice, len}
use text.Mathlib.Text.{starts_with}
use open_ctrl.Types.{Master}
use open_ctrl.Env.{err}
use open_ctrl.Base.{
  ◌-◌, ◌≡◌, refl, String, true, ◌&&◌, ◌||◌, none, List, [], ◌∷◌, str_eq, if◌then◌else◌,
}
use open_ctrl.Rest.Common.{http_error}
use open_ctrl.Server.{ensure_api_key}
use open_ctrl.Server.Tls.{tls_none}
use open_ctrl.Server.New.{ServerConfig}
use open_ctrl.Server.Serve.{
  Handler, Request, Surroundings, Found, entry, own_answer, protected_endpoints,
}
use open_ctrl.Tests.Data.{env, wait, empty}

-- A pattern finds its own path, and one with a slash at its end all below it.
abbrev mux : List (String × Handler) → Request → Found
mux [] r = own_answer (http_error "404 page not found" 404)
mux ((pattern', handler) ∷ entries) r =
    let path : String = r.path in
    let rest = mux entries r in
    if str_eq pattern' path
      || (str_eq (slice pattern' (len pattern' - 1) (len pattern')) "/"
          && starts_with path pattern')
    then entry handler
    else rest

abbrev config : ServerConfig
config = record {
  endpoint = "127.0.0.1:8080";
  tls_mode = tls_none;
  tls_config = none;
  prefix = "/api/v2";
  version = "dev";
  crt_path = "";
  key_path = "";
  hostname = "localhost";
  state_path = "";
}

abbrev surroundings : Surroundings
surroundings = record {
  wait = wait;
  random = 18 ∷ [];
  host = record { os = "darwin"; arch = "arm64"; cpus = 8; start_time = 3; now = 9 };
  proc = record {
    stat_before = none;
    stat_after = none;
    meminfo = none;
    net_dev = none;
    diskstats = none;
    uptime = none;
    parse_float = λ text. none;
  };
  client = record {
    deadline = true;
    retry = true;
    write = λ e. true;
    flush = true;
    meanwhile = λ m. m;
  };
  slot = true;
  dial = λ target. err "refused";
}

abbrev stop_it : Request
stop_it = record {
  method = "DELETE";
  path = "/api/v2/instances/0e0f1011";
  key = "guess";
  target = "";
  create_body = none;
  patch_body = none;
  url_body = none;
  alias_body = none;
}

abbrev requests : List (Surroundings × Request)
requests = (surroundings, stop_it) ∷ (surroundings, record stop_it { key = "" }) ∷ []

-- The path is that of an instance.
routed : mux (protected_endpoints "/api/v2") stop_it ≡ entry Handler.instance_detail
unfolding protected_endpoints
routed = refl

abbrev guarded : Master
guarded = ensure_api_key env (16 ∷ []) (17 ∷ []) empty
