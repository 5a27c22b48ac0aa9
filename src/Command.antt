-- ===== src/Command.antt =====
-- cmd/openctrl/main.go: the command line. What is printed is not modelled.
use open_ctrl.Types.{Master}
use open_ctrl.Env.{Env}
use open_ctrl.Base.{
  ℕ, String, ◌||◌, Option, none, some, List, [], ◌∷◌, str_eq, if◌then◌else◌, if_cases, ◌≡◌, ◌∙◌, ap,
  eq_iff, refl, get_elem?, ◌>>=◌,
}
use open_ctrl.State.Load.{load_state}
use open_ctrl.Server.Tls.{TlsResult, refused, configured, new_server_tls_config}
use open_ctrl.Server.New.{
  MasterUrl, ServerConfig, NewError, unknown_core, tls_failed, resolve_failed, NewResult, not_made,
  made, make_master, new_master, tls_options,
}

-- createCore
unfoldable pub create_core : Env → String → MasterUrl → Master → NewResult
create_core env version url m =
    if str_eq url.scheme "master" then new_master env version url m else not_made unknown_core

-- How `start` ends: with an error, with a text, or with a core whose `Run` is called.
pub data Started : Type 0 where
  missing_url parse_failed : Started
  create_failed : NewError → Started
  shows_help shows_version : Started
  runs : ServerConfig → Master → Started

abbrev pub core_of : NewResult → Started
core_of (not_made e) = create_failed e
core_of (made config m) = runs config m

-- The part of `start` for its argument; `parse` is url.Parse.
unfoldable pub start_with : Env → String → (String → Option MasterUrl) → String → Master → Started
start_with env version parse arg m =
    if str_eq arg "help" || (str_eq arg "--help" || str_eq arg "-h")
    then shows_help
    else if str_eq arg "version" || (str_eq arg "--version" || str_eq arg "-v")
    then shows_version
    else elim (parse arg) [
      | none ↦ parse_failed
      | some url ↦ core_of (create_core env version url m)
    ]

-- start; the first of the arguments is the name of the program.
unfoldable pub start : Env → String → (String → Option MasterUrl) → List String → Master → Started
start env version parse [] m = missing_url
start env version parse (program ∷ []) m = missing_url
start env version parse (program ∷ arg ∷ args) m = start_with env version parse arg m

-- main: the status with which the process exits, if no core runs.
unfoldable pub exit_status : Started → Option ℕ
exit_status missing_url = some 1
exit_status parse_failed = some 1
exit_status (create_failed e) = some 1
exit_status shows_help = some 0
exit_status shows_version = some 0
exit_status (runs config m) = none

-- What a core that runs has been made of: the URL of the command line, for the scheme `master`, with
-- an address and a TLS configuration; and its state is what NewMaster has loaded.
pub record IsCore (env : Env) (url : MasterUrl) (m : Master) (config : ServerConfig) (n : Master)
    : Type 0 where
  pub scheme : url.scheme ≡ "master"
  pub address : url.address ≡ some config.endpoint
  pub tls : new_server_tls_config url.tls tls_options ≡ configured config.tls_mode config.tls_config
  pub loaded : load_state env (record m { bin_path = url.tls.query "bin" }) ≡ n

-- Inverses of constructors.
abbrev made_of : NewResult → Started → NewResult
made_of r (runs config m) = made config m
made_of r _ = r

abbrev config_in : ServerConfig → NewResult → ServerConfig
config_in c (made config m) = config
config_in c _ = c

abbrev master_in : Master → NewResult → Master
master_in m (made config n) = n
master_in m _ = m

module _ (env : Env) (version : String) (m : Master) (config : ServerConfig) (n : Master) where
  core_of-runs : (r : NewResult) → core_of r ≡ runs config n → r ≡ made config n
  core_of-runs (not_made e) h = cc
  core_of-runs (made c l) h = ap (made_of (made c l)) h

  made_by :
      (url : MasterUrl) (address : String) (r : TlsResult)
      → url.scheme ≡ "master"
      → url.address ≡ some address
      → new_server_tls_config url.tls tls_options ≡ r
      → elim r [
        | refused e ↦ not_made (tls_failed e)
        | configured mode config ↦ make_master env version url address mode config m
      ]
        ≡ made config n
      → IsCore env url m config n
  unfolding make_master
  made_by url address (refused e) s a t h = cc
  made_by url address (configured mode tls) s a t h =
      let c = ap (config_in config) h in
      record {
        scheme = s;
        address = a ∙ ap (λ c. some c.endpoint) c;
        tls = t ∙ ap (λ c. configured c.tls_mode c.tls_config) c;
        loaded = ap (master_in n) h;
      }

  resolved :
      (url : MasterUrl) (o : Option String)
      → url.scheme ≡ "master"
      → url.address ≡ o
      → elim o [
        | none ↦ not_made resolve_failed
        | some address ↦ elim (new_server_tls_config url.tls tls_options) [
          | refused e ↦ not_made (tls_failed e)
          | configured mode config ↦ make_master env version url address mode config m
        ]
      ]
        ≡ made config n
      → IsCore env url m config n
  resolved url none s a h = cc
  resolved url (some address) s a h =
      made_by url address (new_server_tls_config url.tls tls_options) s a refl h

  create_core-IsCore :
      (url : MasterUrl) → create_core env version url m ≡ made config n → IsCore env url m config n
  unfolding create_core new_master
  create_core-IsCore url =
      if_cases (λ r. r ≡ made config n → IsCore env url m config n) (str_eq url.scheme "master") _ _
        (λ e. resolved url url.address ((eq_iff url.scheme "master").0 e) refl) (λ e h. cc)

  module _ (parse : String → Option MasterUrl) where
    -- The URL is the second of the arguments.
    abbrev pub IsRun : List String → Type 0
    IsRun args =
        (url : MasterUrl) × (get_elem? args 1 >>= parse ≡ some url) × IsCore env url m config n

    parsed :
        (o : Option MasterUrl)
        → elim o [ none ↦ parse_failed | some url ↦ core_of (create_core env version url m) ]
          ≡ runs config n
        → (url : MasterUrl) × (o ≡ some url) × IsCore env url m config n
    parsed none h = cc
    parsed (some url) h =
        (url, refl, create_core-IsCore url (core_of-runs (create_core env version url m) h))

    -- A core runs only for a URL that stands as the second of the arguments: for the scheme
    -- `master`, with an address and a TLS configuration, which it takes; and its state is what
    -- NewMaster has loaded.
    pub start-IsRun :
        (args : List String) → start env version parse args m ≡ runs config n → IsRun args
    unfolding start start_with
    start-IsRun [] = λ h. cc
    start-IsRun (program ∷ []) = λ h. cc
    start-IsRun (program ∷ arg ∷ args) =
        if_cases (λ s. s ≡ runs config n → IsRun (program ∷ arg ∷ args))
          (str_eq arg "help" || (str_eq arg "--help" || str_eq arg "-h")) _ _ (λ e h. cc)
          λ _.
            if_cases (λ s. s ≡ runs config n → IsRun (program ∷ arg ∷ args))
              (str_eq arg "version" || (str_eq arg "--version" || str_eq arg "-v")) _ _ (λ e h. cc)
              (λ _. parsed (parse arg))
