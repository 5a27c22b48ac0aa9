-- ===== src/Instance/Lifecycle/Monitor.antt =====
-- internal/master/instance.go: `monitorInstance`, `restartFailedInstance` and `restartInstance`.
use open_ctrl.Types.{Status, error, Cmd, Instance, log, Master, put, update}
use open_ctrl.Env.{Env, Wait}
use open_ctrl.Base.{
  ℕ, suc, Bool, true, false, not, ◌&&◌, Option, none, some, List, [], ◌∷◌, elem, lookup, ◌==◌,
  if◌then◌else◌,
}
use open_ctrl.Output.{ProcessLog, flush, write}
use open_ctrl.Util.{reset_stopped_instance_locked}
use open_ctrl.Event.Publish.{send_sse_event, publish_event}
use open_ctrl.State.Save.{save_state}
use open_ctrl.Instance.Snapshot.{current_instance, snapshot}
use open_ctrl.Instance.Lifecycle.Start.{start_instance_locked}
use open_ctrl.Instance.Lifecycle.Stop.{stop_instance_locked, cancel_opt}

-- inst.cmd == cmd
abbrev pub runs_cmd : Option Cmd → ℕ → Bool
runs_cmd none cmd = false
runs_cmd (some c) cmd = c.id == cmd

-- (*Master).sendTelemetryLog, of internal/master/runtime.go.
unfoldable pub send_telemetry_log : ℕ → ℕ → List ℕ → Master → Master
send_telemetry_log p cmd line m =
    let inst : Instance = m.heap p in
    if not inst.deleted && runs_cmd inst.cmd cmd
    then publish_event
        (record { type = log; time = m.clock; instance = some (snapshot inst); logs = line }) m
    else m

unfoldable pub send_lines : ℕ → ℕ → List (List ℕ) → Master → Master
send_lines p cmd [] m = m
send_lines p cmd (line ∷ lines) m = send_lines p cmd lines (send_telemetry_log p cmd line m)

-- A method of the process log `out` of the command `cmd`, and the lines that it emits.
abbrev pub on_log : (ProcessLog → ProcessLog) → ℕ → ℕ → ℕ → Master → Master
on_log method out p cmd m =
    let l : ProcessLog = method (record { pending = m.pending out; sent = [] }) in
    send_lines p cmd l.sent
      (record m { pending = λ o. if out == o then l.pending else m.pending o })

unfoldable pub flush_log : ℕ → ℕ → ℕ → Master → Master
flush_log = on_log flush

unfoldable pub write_log : List ℕ → ℕ → ℕ → ℕ → Master → Master
write_log bytes = on_log (λ l. write l bytes)

-- cmd.ProcessState == nil || !cmd.ProcessState.Success(), negated
abbrev pub succeeded : Option Bool → Bool
succeeded none = false
succeeded (some success) = success

unfoldable pub fail_exit : Instance → Instance
fail_exit inst = record inst {
  status = error;
  cmd = none;
  exited_ch = none;
  cancel_func = none;
  runtime_failure = true;
  ping = 0;
  pool = 0;
  tcps = 0;
  udps = 0;
}

-- A process that nobody stopped has exited.
unfoldable pub record_exit : Env → Option Bool → ℕ → Master → Master
record_exit env exit p m =
    let inst : Instance = m.heap p in
    let inst' : Instance =
      if succeeded exit then reset_stopped_instance_locked m.fresh inst else fail_exit inst in
    let m' : Master = put p inst' m in
    send_sse_event update p
      (save_state env.files (cancel_opt inst.cancel_func (record m' { fresh = suc m.fresh })))

abbrev pub close_channel : ℕ → Master → Master
close_channel ch m = record m { closed = ch ∷ m.closed }

-- (*Master).monitorInstance, from the return of cmd.Wait on; `exit` is the process state's Success.
unfoldable pub monitor_instance :
    Env → Option Bool → (p cmd stopped exited stdout stderr : ℕ) → Master → Master
monitor_instance env exit p cmd stopped_ch exited_ch stdout stderr m =
    let m' : Master = flush_log stderr p cmd (flush_log stdout p cmd m) in
    let inst : Instance = m'.heap p in
    let current : Bool = runs_cmd inst.cmd cmd && not inst.deleted in
    close_channel exited_ch
      (if current && not (elem stopped_ch m'.closed) then record_exit env exit p m' else m')

abbrev pub is_error : Status → Bool
is_error error = true
is_error _ = false

-- The condition under which a failed instance is restarted.
abbrev pub needs_restart : Instance → Bool
needs_restart inst =
    inst.restart && (is_error inst.status && (inst.runtime_failure && not inst.deleted))

-- value == inst
abbrev pub points_to : Option ℕ → ℕ → Bool
points_to none p = false
points_to (some q) p = q == p

-- (*Master).restartFailedInstance
unfoldable pub restart_failed_instance : Env → Wait → ℕ → Master → Master
restart_failed_instance env w p m =
    let inst : Instance = m.heap p in
    if points_to (lookup inst.id m.instances) p && needs_restart inst
    then start_instance_locked env p (stop_instance_locked env w p m)
    else m

-- (*Master).restartInstance
unfoldable pub restart_instance : Env → Wait → ℕ → Master → Master
restart_instance env w p m =
    let q : ℕ = current_instance p m in start_instance_locked env q (stop_instance_locked env w q m)
