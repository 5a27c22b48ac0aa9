-- ===== src/System/Program.antt =====
-- cmd/openctrl/main.go, internal/master/master.go and state.go: two processes of the program, one
-- after the other.
use open_ctrl.Types.{Master}
use open_ctrl.Env.{Env}
use open_ctrl.Base.{ℕ, ◌≡◌, subst, String, false, Option, none, List, []}
use open_ctrl.Command.{start, runs, start-IsRun}
use open_ctrl.State.Save.{main, save_state, save_state_to_path}
use open_ctrl.Server.{ensure_api_key}
use open_ctrl.Server.New.{MasterUrl, ServerConfig}
use open_ctrl.Server.Run.{run}
use open_ctrl.Server.Shutdown.{Meanwhile, stopped_state}
use open_ctrl.System.{Steps}
use open_ctrl.System.Closing.{IsOrderly}
use open_ctrl.System.Life.{IsFresh, IsHandedOver, whole_life}

-- Another folder for the executable of the instances leaves the state of a new process fresh.
bin_path-IsFresh : (path : String) (m : Master) → IsFresh m → IsFresh (record m { bin_path = path })
bin_path-IsFresh path m f = record {
  empty = f.empty;
  consistent = f.consistent;
  own_ids = f.own_ids;
  key_rests = f.key_rests;
}

-- The save of a shutdown that begins in `n` and leaves `ended` has no error, and is the last one.
pub record IsSaved (env : Env) (w : Meanwhile) (n ended : Master) : Type 0 where
  pub no_error : (save_state_to_path env.files main (stopped_state env w n)).0 ≡ none
  pub last : ended.disk ≡ (save_state env.files (stopped_state env w n)).disk

module _ (env : Env) (version : String) (parse : String → Option MasterUrl) where
  -- The program is started twice. The first process takes or makes its key, does any steps of the
  -- system until the signal, and shuts down before the deadline, while further steps happen up to its
  -- end: then no instance that it had when the shutdown began runs or has a process, and the second
  -- process has the instances that the shutdown saved, under the same ids, each with the
  -- configuration and the traffic it had, and no other. Conditions: both command lines make a core
  -- that runs; the first file has instances with their own ids, and the entry of the key at rest; the
  -- save of the shutdown has no error, and nothing writes the file behind it; the second process finds
  -- the saved files and can open and decode them.
  pub two_runs :
      (w : Meanwhile) (args args' : List String) (m next loaded loaded' : Master)
      (config config' : ServerConfig) (key name : List ℕ) (serving : Master → Master)
      → IsOrderly env w
      → IsFresh m
      → ((n : Master) → Steps env n (serving n))
      → start env version parse args m ≡ runs config loaded
      → IsSaved env w
          (serving (ensure_api_key env key name loaded))
          (run env w none key name serving loaded).1
      → next.instances ≡ []
      → next.disk ≡ (run env w none key name serving loaded).1.disk
      → start env version parse args' next ≡ runs config' loaded'
      → env.files.open_fails ≡ false
      → env.files.decode_fails ≡ false
      → IsHandedOver
          (serving (ensure_api_key env key name loaded))
          (stopped_state env w (serving (ensure_api_key env key name loaded)))
          (run env w none key name serving loaded).1
          loaded'
  two_runs w args args' m next loaded loaded' config config' key name serving o f s c saved e d c' a
        b =
      let (url, p, core) = start-IsRun env version m config loaded parse args c in
      let (url', p', core') = start-IsRun env version next config' loaded' parse args' c' in
      let first : Master = record m { bin_path = url.tls.query "bin" } in
      let second : Master = record next { bin_path = url'.tls.query "bin" } in
      subst
        (λ l.
          IsSaved env w (serving (ensure_api_key env key name l))
            (run env w none key name serving l).1
          → next.disk ≡ (run env w none key name serving l).1.disk
          → IsHandedOver (serving (ensure_api_key env key name l))
              (stopped_state env w (serving (ensure_api_key env key name l)))
              (run env w none key name serving l).1 loaded')
        core.loaded
        (λ saved d. subst (IsHandedOver _ _ _) core'.loaded (
          whole_life env w first second key name serving o
            (bin_path-IsFresh (url.tls.query "bin") m f) s saved.no_error saved.last e d a b))
        saved d
