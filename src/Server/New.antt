-- ===== src/Server/New.antt =====
-- internal/master/master.go: `NewMaster`.
use Prim.Native.Char.{Char, code}
use Prim.Native.String.{◌++◌ as str_append}
use open_ctrl.Types.{Master}
use open_ctrl.Env.{Env}
use open_ctrl.Base.{
  String, true, ◌&&◌, ◌||◌, Option, none, some, [], ◌==◌, str_eq, if◌then◌else◌, if_cases, ◌≡◌,
  refl,
}
use open_ctrl.State.Load.{load_state}
use open_ctrl.Server.Tls.{
  TlsMode, tls_none, TlsConfig, TlsError, refused, configured, ServerTlsOptions, TlsEnv,
  new_server_tls_config,
}

-- The parts of the URL that NewMaster uses, net.ResolveTCPAddr of its host, and filepath.Join of the
-- folder of the executable with the names of the state file. The query stands in `tls`.
pub record MasterUrl : Type 0 where
  pub scheme : String
  pub path : String
  pub hostname : String
  pub address : Option String
  pub state_path : String
  pub tls : TlsEnv

-- The fields of Master that serve the network.
pub record ServerConfig : Type 0 where
  pub endpoint : String
  pub tls_mode : TlsMode
  pub tls_config : Option TlsConfig
  pub prefix : String
  pub version : String
  pub crt_path : String
  pub key_path : String
  pub hostname : String
  pub state_path : String

pub data NewError : Type 0 where
  unknown_core resolve_failed : NewError
  tls_failed : TlsError → NewError

pub data NewResult : Type 0 where
  not_made : NewError → NewResult
  made : ServerConfig → Master → NewResult

-- A character before a text without slashes at its end; a slash is 0x2f.
unfoldable pub keep_front : Char → String → String
keep_front c s = if code c == 0x2f && str_eq s "" then "" else String.◌∷◌ c s

-- strings.TrimRight(prefix, "/")
unfoldable pub trim_slashes : String → String
trim_slashes String.[] = ""
trim_slashes (String.◌∷◌ c s) = keep_front c (trim_slashes s)

-- The prefix of the API: the path, or /api, and the version.
unfoldable pub api_prefix : String → String
api_prefix path =
    str_append (if str_eq path "" || str_eq path "/" then "/api" else trim_slashes path) "/v2"

-- serverTLSOptions{allowNone: true}
abbrev pub tls_options : ServerTlsOptions
tls_options = record { default_mode = tls_none; allow_none = true; next_protos = [] }

-- The part behind the TLS configuration. That has no name of a server, so the host's is taken; `m` is
-- the new master, with an empty map.
unfoldable pub make_master :
    Env → String → MasterUrl → String → TlsMode → Option TlsConfig → Master → NewResult
make_master env version url address mode config m =
    made
      (record {
        endpoint = address;
        tls_mode = mode;
        tls_config = config;
        prefix = api_prefix url.path;
        version = version;
        crt_path = url.tls.query "crt";
        key_path = url.tls.query "key";
        hostname = url.hostname;
        state_path = url.state_path;
      })
      (load_state env (record m { bin_path = url.tls.query "bin" }))

-- NewMaster
unfoldable pub new_master : Env → String → MasterUrl → Master → NewResult
new_master env version url m = elim url.address [
  | none ↦ not_made resolve_failed
  | some address ↦ elim (new_server_tls_config url.tls tls_options) [
    | refused e ↦ not_made (tls_failed e)
    | configured mode config ↦ make_master env version url address mode config m
  ]
]

keep_front-trim :
    (c : Char) (s : String) → trim_slashes s ≡ s → trim_slashes (keep_front c s) ≡ keep_front c s
unfolding keep_front trim_slashes
keep_front-trim c s h =
    if_cases (λ t. trim_slashes t ≡ t) (code c == 0x2f && str_eq s "") _ _ (λ _. refl)
      (λ e. rw (h, e) refl)

-- A path without the slashes at its end has none to take off.
trim_slashes-trim_slashes : (s : String) → trim_slashes (trim_slashes s) ≡ trim_slashes s
unfolding trim_slashes
trim_slashes-trim_slashes String.[] = refl
trim_slashes-trim_slashes (String.◌∷◌ c s) =
    keep_front-trim c (trim_slashes s) (trim_slashes-trim_slashes s)
