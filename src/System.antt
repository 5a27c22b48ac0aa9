-- ===== src/System.antt =====
-- The master as a whole: what requests, goroutines and processes do to it, one step after another.
-- What happens while a stop waits for its process is itself a sequence of such steps.
pub mod Invariant
pub mod Telemetry
pub mod Closing
pub mod Removal
pub mod Requests
pub mod Moves
pub mod Held
pub mod Closed
pub mod Lifetime
pub mod Life
pub mod Program
use open_ctrl.Types.{Master, Instance}
use open_ctrl.Env.{Env, Wait}
use open_ctrl.Base.{ℕ, ◌<◌, String, Bool, Option, List}
use open_ctrl.State.Save.{StateFile, save_state_to_path}
use open_ctrl.Event.Opening.{register, withdraw}
use open_ctrl.Event.Publish.{shutdown_sse_connections}
use open_ctrl.Telemetry.Apply.{
  TelemetrySnapshot, apply_telemetry_hello, apply_telemetry_snapshot, clear_active_telemetry,
}
use open_ctrl.Instance.Lifecycle.Start.{start_instance}
use open_ctrl.Instance.Lifecycle.Stop.{stop_instance}
use open_ctrl.Instance.Lifecycle.Monitor.{
  write_log, monitor_instance, restart_instance, restart_failed_instance,
}
use open_ctrl.Rest.Info.{handle_info}
use open_ctrl.Periodic.{periodic_round}
use open_ctrl.Rest.Modify.{Method, handle_instance_detail, CreateRequest, create_instance}

mutual
  -- One step. A handler, an operation of the lifecycle and an effect of telemetry are one step each;
  -- that of a stream registers its subscriber and takes it off the map in steps of their own.
  -- An instance that is started or stopped is in use.
  pub data Step (env : Env) : Master → Master → Type 0 where
    detail :
        {m : Master}
        → (w : Wait) → IsRun env w
        → (random : List ℕ) (method : Method) (id : String)
        → Step env m (handle_instance_detail env w random method id m).1
    create :
        {m : Master}
        → (random : List ℕ) (request : Option CreateRequest)
        → Step env m (create_instance env random request m).1
    start : {m : Master} → (p : ℕ) → p < m.fresh → Step env m (start_instance env p m)
    stop :
        {m : Master}
        → (w : Wait) → IsRun env w
        → (p : ℕ) → p < m.fresh
        → Step env m (stop_instance env w p m)
    restart :
        {m : Master}
        → (w : Wait) → IsRun env w
        → (p : ℕ) → p < m.fresh
        → Step env m (restart_instance env w p m)
    retry :
        {m : Master}
        → (w : Wait) → IsRun env w
        → (p : ℕ) → Step env m (restart_failed_instance env w p m)
    monitor :
        {m : Master}
        → (exit : Option Bool) (p cmd stopped exited stdout stderr : ℕ)
        → Step env m (monitor_instance env exit p cmd stopped exited stdout stderr m)
    output :
        {m : Master} → (bytes : List ℕ) (out p cmd : ℕ) → Step env m (write_log bytes out p cmd m)
    hello : {m : Master} → (id : String) (p cmd : ℕ) → Step env m (apply_telemetry_hello id p cmd m)
    traffic :
        {m : Master}
        → (value : TelemetrySnapshot) (p cmd : ℕ)
        → Step env m (apply_telemetry_snapshot value p cmd m)
    silence : {m : Master} → (p cmd : ℕ) → Step env m (clear_active_telemetry p cmd m)
    save : {m : Master} → (path : StateFile) → Step env m (save_state_to_path env.files path m).1
    cut_off : {m : Master} → Step env m (shutdown_sse_connections m).0
    tick : {m : Master} → (w : Wait) → IsRun env w → Step env m (periodic_round env w m)
    join : {m : Master} → Step env m (register m)
    leave : {m : Master} → (k : ℕ) → Step env m (withdraw k m)
    info : {m : Master} → (request : Option String) → Step env m (handle_info request m).1

  -- Any number of steps.
  pub data Steps (env : Env) : Master → Master → Type 0 where
    done : {m : Master} → Steps env m m
    then_step : {m n o : Master} → Steps env m n → Step env n o → Steps env m o

  -- During a stop the other goroutines take steps only.
  pub data IsRun (env : Env) : Wait → Type 0 where
    run :
        {w : Wait}
        → ((m : Master) → Steps env m (w.grace m))
        → ((m : Master) → Steps env m (w.killed m))
        → IsRun env w
