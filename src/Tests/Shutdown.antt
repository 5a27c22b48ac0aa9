-- ===== src/Tests/Shutdown.antt =====
-- The end of the master, and its certificates.

use mathlib.Core.Option.{some-injective}
use open_ctrl.Types.{Instance, Saved, Master}
use open_ctrl.Base.{
  String, Option, ap, sym, subst, ◌≡◌, refl, arith, ◌/◌, inl, inr, none, some, true, List, [], ◌∷◌,
}
use open_ctrl.Server.Shutdown.{Meanwhile, shutdown, stopped_state, kept_state, shutdown_until}
use open_ctrl.Server.Shutdown.Keep.{IsIdle}
use open_ctrl.System.{done, run as waiting}
use open_ctrl.System.Closing.{IsOrderly, shutdown_ends}
use open_ctrl.Server.Tls.{
  tls_none, new_server_tls_config, choose_mode, config_of, CertCache, Handshake,
}
use open_ctrl.Server.Tls.Fresh.{AllFresh, get_certificate-AllFresh}
use open_ctrl.Rest.Common.{api_key_id}
use open_ctrl.State.Load.{load_state}
use open_ctrl.State.Load.Restored.{OwnIds}
use open_ctrl.Instance.Lifecycle.Consistent.{IsConsistent}
use open_ctrl.Event.Publish.{shutdown_sse_connections}
use open_ctrl.Server.Run.{run}
use open_ctrl.Server.{ensure_api_key}
use open_ctrl.System.Life.{IsFresh, IsHandedOver, KeyRests}
use open_ctrl.System.Program.{IsSaved, two_runs}
use open_ctrl.Command.{start, runs, start_with, create_core}
use open_ctrl.Server.New.{MasterUrl, ServerConfig, api_prefix, new_master, make_master}
use open_ctrl.Tests.Files.{saved}
use open_ctrl.Tests.Data.{env, wait, master, empty, portal}
use open_ctrl.Tests.Lifecycle.{master-AllConsistent, master-IsRegistry, portal-IsConsistent}

-- Nothing else happens during the shutdown.
abbrev quiet : Meanwhile
quiet = record {
  before = λ p m. m;
  wait = λ p. wait;
  unsaved = λ m. m;
  saved = λ m. m;
  cut = λ m. m;
}

quiet-IsOrderly : IsOrderly env quiet
quiet-IsOrderly = record {
  before = λ p m. done;
  wait = λ p. waiting (λ m. done) (λ m. done);
  unsaved = λ m. done;
  saved = λ m. done;
  cut = λ m. done;
}

shutdown_ends_example :
    IsIdle 2 (shutdown env quiet master).0 × (((shutdown env quiet master).0.heap 2).cmd ≡ none)
shutdown_ends_example =
    shutdown_ends env quiet quiet-IsOrderly master master-IsRegistry master-AllConsistent "0e0f1011"
      2 (inr (inl refl))

abbrev key_entry : Instance
key_entry = record portal { id = api_key_id; url = "key"; config = "name" }

key_entry-IsConsistent : IsConsistent key_entry
key_entry-IsConsistent = record { live = λ h. cc; idle = λ h. (refl, refl, refl); failed = λ h. cc }

-- A file with a portal that starts with the master, and the key.
abbrev file : Saved
file = ("0a0b0c0d", record portal { restart = true }) ∷ (api_key_id, key_entry) ∷ []

abbrev first : Master
first = record empty { disk = record { state = some file; backup = none; temps = [] } }

of_file : (P : Saved → Type 0) → P file → (saved : Saved) → first.disk.state ≡ some saved → P saved
of_file P h saved e = subst P (some-injective file saved e) h

first-IsFresh : IsFresh first
first-IsFresh = record {
  empty = refl;
  consistent = λ p. portal-IsConsistent;
  own_ids = of_file OwnIds (refl, (refl, tt));
  key_rests = of_file KeyRests (λ e. cc (e), (λ e. key_entry-IsConsistent, tt));
}

abbrev served : Master
served = ensure_api_key env [] [] (load_state env first)

-- The signal comes at once.
abbrev at_once : Master → Master
at_once n = n

abbrev closed : Master
closed = (run env quiet none [] [] at_once (load_state env first)).1

abbrev second : Master
second = record empty { disk = closed.disk }

-- A command line that asks for no TLS.
abbrev url : MasterUrl
url = record {
  scheme = "master";
  path = "";
  hostname = "";
  address = some ":8080";
  state_path = "/opt/gob/openctrl.gob";
  tls = record {
    query = λ name. "";
    load_key_pair = λ crt key. none;
    certs = record {
      generate_key = none;
      random_below = λ limit. none;
      now = 0;
      later = 0;
      add_year = λ time. time;
      create_certificate = λ template key. none;
      marshal_key = λ key. none;
      encode_pem = λ type block. block;
      key_pair = λ crt key. none;
    };
    now = 0;
  };
}

abbrev config : ServerConfig
config = record {
  endpoint = ":8080";
  tls_mode = tls_none;
  tls_config = none;
  prefix = api_prefix "";
  version = "dev";
  crt_path = "";
  key_path = "";
  hostname = "";
  state_path = "/opt/gob/openctrl.gob";
}

abbrev parse : String → Option MasterUrl
parse raw = some url

abbrev line : List String
line = "openctrl" ∷ "master://:8080" ∷ []

starts :
    (m : Master) → m.bin_path ≡ "" → start env "dev" parse line m ≡ runs config (load_state env m)
unfolding start start_with create_core new_master make_master new_server_tls_config choose_mode
    config_of
starts m e = ap (λ b. runs config (load_state env (record m { bin_path = b }))) (sym e)

served-IsSaved : IsSaved env quiet served closed
unfolding run shutdown_until shutdown kept_state shutdown_sse_connections
served-IsSaved = record { no_error = saved (stopped_state env quiet served); last = refl }

two_runs_example :
    IsHandedOver served (stopped_state env quiet served) closed (load_state env second)
two_runs_example =
    two_runs env "dev" parse quiet line line first second (load_state env first)
      (load_state env second) config config [] [] at_once quiet-IsOrderly first-IsFresh (λ n. done)
      (starts first refl) served-IsSaved refl refl (starts second refl) refl refl

-- The files hold the hour's number; the second handshake comes two hours after the load.
abbrev cache : CertCache
cache = record { crt_file = "crt"; key_file = "key"; cached_cert = 0; last_reload = 0 }

abbrev calls : List Handshake
calls =
    record { tested = 60; locked = 60; reloaded = 61; loaded = some 0 }
    ∷ record { tested = 7200; locked = 7201; reloaded = 7202; loaded = some 2 }
    ∷ []

get_certificate-AllFresh_example : AllFresh (λ time. time / 3600) calls cache
get_certificate-AllFresh_example =
    get_certificate-AllFresh (λ time. time / 3600) calls 0 cache
      (
        omega arith,
        omega arith,
        omega arith,
        refl,
        (omega arith, omega arith, omega arith, refl, tt),
      )
      (record { from_files = refl; past = omega arith })
