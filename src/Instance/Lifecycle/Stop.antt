-- ===== src/Instance/Lifecycle/Stop.antt =====
-- internal/master/instance.go: `stopInstance`.
use open_ctrl.Types.{Cmd, Instance, Signal, terminate, kill, Master, put, update}
use open_ctrl.Env.{Env, Wait}
use open_ctrl.Base.{ℕ, suc, Option, none, some, List, [], ◌∷◌, ◌++◌, elem, if◌then◌else◌}
use open_ctrl.Util.{reset_stopped_instance_locked}
use open_ctrl.Event.Publish.{send_sse_event}
use open_ctrl.State.Save.{save_state_async}
use open_ctrl.Instance.Snapshot.{current_instance}
use open_ctrl.Instance.Lifecycle.Start.{is_stopped, store, cancel}

-- instance.cmd.Process, if neither is nil
abbrev pub process_of : Option Cmd → Option ℕ
process_of none = none
process_of (some c) = c.process

abbrev pub send_signal : Signal → Master → Master
send_signal s m = record m { signals = m.signals ++ s ∷ [] }

-- Closes the channel `stopped`, if there is one and it is open.
unfoldable pub close_stopped : Option ℕ → Master → Master
close_stopped none m = m
close_stopped (some ch) m = if elem ch m.closed then m else record m { closed = ch ∷ m.closed }

abbrev pub cancel_opt : Option ℕ → Master → Master
cancel_opt none m = m
cancel_opt (some context) m = cancel context m

-- Waits for the process, and kills it if it does not exit in time; then cancels its context, once.
unfoldable pub await_exit : Wait → Option ℕ → Option ℕ → ℕ → Master → Master
await_exit w none context pid m = cancel_opt context (send_signal (kill pid) m)
await_exit w (some exited) context pid m =
    let m' : Master = w.grace m in
    if elem exited m'.closed
    then cancel_opt context m'
    else w.killed (send_signal (kill pid) (cancel_opt context m'))

-- resetStoppedInstanceLocked, instances.Store, saveStateAsync and the event, as they end a stop.
unfoldable pub finish_stop : ℕ → Master → Master
finish_stop p m =
    let m' : Master = put p (reset_stopped_instance_locked m.fresh (m.heap p)) m in
    send_sse_event update p (save_state_async (store p (record m' { fresh = suc m.fresh })))

-- What process.Signal sends to ask a process to end. On Windows Go has no interrupt for a child: the
-- call fails, its error is ignored, and nothing is sent.
abbrev pub asked : Env → ℕ → List Signal
asked env pid = if env.windows then [] else terminate pid ∷ []

abbrev pub ask : Env → ℕ → Master → Master
ask env pid m = record m { signals = m.signals ++ asked env pid }

-- The part of `stopInstanceLocked` behind its first test; the process is that of the command.
unfoldable pub end_process : Env → Wait → Option ℕ → ℕ → Master → Master
end_process env w none p m = finish_stop p m
end_process env w (some pid) p m =
    let inst : Instance = m.heap p in
    finish_stop p (
      await_exit w inst.exited_ch inst.cancel_func pid
        (ask env pid (close_stopped inst.stopped_ch m)))

-- (*Master).stopInstanceLocked
unfoldable pub stop_instance_locked : Env → Wait → ℕ → Master → Master
stop_instance_locked env w p m =
    if is_stopped (m.heap p).status then m else end_process env w (process_of (m.heap p).cmd) p m

-- (*Master).stopInstance
unfoldable pub stop_instance : Env → Wait → ℕ → Master → Master
stop_instance env w p m = stop_instance_locked env w (current_instance p m) m
