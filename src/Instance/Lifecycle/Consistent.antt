-- ===== src/Instance/Lifecycle/Consistent.antt =====
-- internal/master/instance.go: the fields of an instance fit its status, whatever happens to it.
use open_ctrl.Types.{Status, stopped, running, error, Instance, Master, put, update}
use open_ctrl.Env.{Env, Wait}
use open_ctrl.Base.{
  ℕ, ◌+◌, ◌≡◌, refl, inl, inr, arith, Bool, true, false, Option, none, some, is_some, Bool-cases,
  ◌==◌, if_cases, elem, lookup, ◌&&◌,
}
use open_ctrl.Util.{reset_stopped_instance_locked}
use open_ctrl.State.Save.{save_state_async, save_state, save_state_to_path}
use open_ctrl.Event.Publish.{send_sse_event, publish_event}
use open_ctrl.Instance.Lifecycle.Cases.{
  CanStart, start_cases, stop_cases, monitor_cases, flushed, flushed-SameButLogs,
}
use open_ctrl.Instance.Lifecycle.Start.{
  prepare_run, fail_without_path, fail_start, begin_process, start_instance_locked,
}
use open_ctrl.Instance.Lifecycle.Stop.{
  process_of, finish_stop, stop_instance_locked, await_exit, close_stopped, cancel_opt,
}
use open_ctrl.Instance.Lifecycle.Monitor.{
  monitor_instance, record_exit, fail_exit, restart_failed_instance, restart_instance, succeeded,
  points_to, needs_restart,
}
use open_ctrl.Instance.Snapshot.{current_instance}

abbrev pub is_running : Status → Bool
is_running running = true
is_running _ = false

-- A running instance has a process, a channel for its exit and a context to cancel; any other has
-- none of them; and a process failure is recorded only with the status `error`.
pub record IsConsistent (inst : Instance) : Type 0 where
  pub live :
      is_running inst.status ≡ true
      → (is_some (process_of inst.cmd) ≡ true)
        × (is_some inst.exited_ch ≡ true)
        × (is_some inst.cancel_func ≡ true)
  pub idle :
      is_running inst.status ≡ false
      → (inst.cmd ≡ none) × (inst.exited_ch ≡ none) × (inst.cancel_func ≡ none)
  pub failed : inst.runtime_failure ≡ true → inst.status ≡ error

abbrev pub AllConsistent : Master → Type 0
AllConsistent m = (p : ℕ) → IsConsistent (m.heap p)

pub put-AllConsistent :
    (p : ℕ) (inst : Instance) (m : Master)
    → IsConsistent inst
    → AllConsistent m
    → AllConsistent (put p inst m)
put-AllConsistent p inst m h a q = elim (Bool-cases (p == q)) [
  | inl e ↦ rw e h
  | inr e ↦ rw e (a q)
]

reset-IsConsistent :
    (ch : ℕ) (inst : Instance) → IsConsistent (reset_stopped_instance_locked ch inst)
unfolding reset_stopped_instance_locked
reset-IsConsistent ch inst = record {
  live = λ h. cc;
  idle = λ h. (refl, refl, refl);
  failed = λ h. cc;
}

fail_exit-IsConsistent : (inst : Instance) → IsConsistent (fail_exit inst)
unfolding fail_exit
fail_exit-IsConsistent inst = record {
  live = λ h. cc;
  idle = λ h. (refl, refl, refl);
  failed = λ h. refl;
}

-- The part of an instance that `startInstanceLocked` builds on, when it may start it.
pub record IsAtRest (inst : Instance) : Type 0 where
  pub no_cmd : inst.cmd ≡ none
  pub no_exit : inst.exited_ch ≡ none
  pub no_cancel : inst.cancel_func ≡ none
  pub no_failure : inst.runtime_failure ≡ false

pub rest_of_stopped : (inst : Instance) → IsConsistent inst → inst.status ≡ stopped → IsAtRest inst
rest_of_stopped inst c h =
    let (a, b, d) = c.idle (ground arith) in
    record { no_cmd = a; no_exit = b; no_cancel = d; no_failure = ground (arith, c.failed) }

prepare_run-IsAtRest : (inst : Instance) → IsAtRest inst → IsAtRest (prepare_run inst)
unfolding prepare_run
prepare_run-IsAtRest inst r = record {
  no_cmd = r.no_cmd;
  no_exit = r.no_exit;
  no_cancel = r.no_cancel;
  no_failure = refl;
}

module _ (p : ℕ) (inst : Instance) (m : Master) (r : IsAtRest inst) (a : AllConsistent m) where
  begin_process-AllConsistent : (pid : ℕ) → AllConsistent (begin_process pid p inst m)
  unfolding begin_process send_sse_event publish_event
  begin_process-AllConsistent pid =
      put-AllConsistent p _ m
        (record { live = λ e. (refl, refl, refl); idle = λ e. cc; failed = λ e. cc (r.no_failure) })
        a

  fail_start-AllConsistent : (context : ℕ) → AllConsistent (fail_start context p inst m)
  unfolding fail_start send_sse_event publish_event
  fail_start-AllConsistent context =
      put-AllConsistent p _ m
        (record { live = λ e. cc; idle = λ e. (refl, r.no_exit, refl); failed = λ e. refl }) a

  fail_without_path-AllConsistent : AllConsistent (fail_without_path p inst m)
  unfolding fail_without_path send_sse_event publish_event
  fail_without_path-AllConsistent =
      put-AllConsistent p _ m
        (record {
          live = λ e. cc;
          idle = λ e. (r.no_cmd, r.no_exit, r.no_cancel);
          failed = λ e. refl;
        })
        a

  unfit-AllConsistent :
      AllConsistent (
        send_sse_event update p (put p (record inst { status = error; runtime_failure = false }) m))
  unfolding send_sse_event publish_event
  unfit-AllConsistent =
      put-AllConsistent p _ m
        (record {
          live = λ e. cc;
          idle = λ e. (r.no_cmd, r.no_exit, r.no_cancel);
          failed = λ e. refl;
        })
        a

pub start-AllConsistent :
    (env : Env) (p : ℕ) (m : Master)
    → AllConsistent m
    → AllConsistent (start_instance_locked env p m)
start-AllConsistent env p m a =
    let rest = λ (can : CanStart p m). rest_of_stopped (m.heap p) (a p) can.at_rest in
    let run = λ (can : CanStart p m). prepare_run-IsAtRest (m.heap p) (rest can) in
    start_cases AllConsistent env p m a (λ can _. unfit-AllConsistent p (m.heap p) m (rest can) a)
      (λ can. fail_without_path-AllConsistent p (prepare_run (m.heap p)) m (run can) a)
      (λ can.
        fail_start-AllConsistent p (prepare_run (m.heap p)) (record m { fresh = m.fresh + 1 })
          (run can) a m.fresh)
      (λ pid can _. begin_process-AllConsistent p (prepare_run (m.heap p)) m (run can) a pid)

-- What a stop waits for keeps the instances consistent.
pub record KeepsConsistent (w : Wait) : Type 0 where
  pub in_grace : (m : Master) → AllConsistent m → AllConsistent (w.grace m)
  pub once_killed : (m : Master) → AllConsistent m → AllConsistent (w.killed m)

finish_stop-AllConsistent : (p : ℕ) (m : Master) → AllConsistent m → AllConsistent (finish_stop p m)
unfolding finish_stop send_sse_event publish_event save_state_async
finish_stop-AllConsistent p m a = put-AllConsistent p _ m (reset-IsConsistent m.fresh (m.heap p)) a

heap-close_stopped : (o : Option ℕ) (m : Master) → (close_stopped o m).heap ≡ m.heap
unfolding close_stopped
heap-close_stopped none m = refl
heap-close_stopped (some ch) m =
    if_cases (λ (n : Master). n.heap ≡ m.heap) (elem ch m.closed) _ _ (λ _. refl) (λ _. refl)

cancel_opt-AllConsistent :
    (o : Option ℕ) (m : Master) → AllConsistent m → AllConsistent (cancel_opt o m)
cancel_opt-AllConsistent none m a = a
cancel_opt-AllConsistent (some c) m a = a

await_exit-AllConsistent :
    (w : Wait) (exited context : Option ℕ) (pid : ℕ) (m : Master)
    → KeepsConsistent w
    → AllConsistent m
    → AllConsistent (await_exit w exited context pid m)
unfolding await_exit
await_exit-AllConsistent w none context pid m k a = cancel_opt-AllConsistent context _ a
await_exit-AllConsistent w (some e) context pid m k a =
    let b = cancel_opt-AllConsistent context (w.grace m) (k.in_grace m a) in
    if_cases AllConsistent (elem e (w.grace m).closed) _ _ (λ _. b) (λ _. k.once_killed _ b)

pub stop-AllConsistent :
    (env : Env) (w : Wait) (p : ℕ) (m : Master)
    → KeepsConsistent w
    → AllConsistent m
    → AllConsistent (stop_instance_locked env w p m)
stop-AllConsistent env w p m k a =
    stop_cases AllConsistent env w p m (λ _. a) (λ _. finish_stop-AllConsistent p m a)
      λ pid _. finish_stop-AllConsistent p _ (
        await_exit-AllConsistent w (m.heap p).exited_ch (m.heap p).cancel_func pid _ k
          (λ q. rw (heap-close_stopped (m.heap p).stopped_ch m) (a q)))

record_exit-AllConsistent :
    (env : Env) (exit : Option Bool) (p : ℕ) (m : Master)
    → AllConsistent m
    → AllConsistent (record_exit env exit p m)
unfolding record_exit send_sse_event publish_event save_state save_state_to_path
record_exit-AllConsistent env exit p m a = cancel_opt-AllConsistent (m.heap p).cancel_func _ (
    put-AllConsistent p _ m
      (if_cases IsConsistent (succeeded exit) _ _ (λ _. reset-IsConsistent m.fresh (m.heap p))
        (λ _. fail_exit-IsConsistent (m.heap p)))
      a)

-- If all instances are consistent, so they are after the monitor of any command, with any exit of
-- its process.
pub monitor-AllConsistent :
    (env : Env) (exit : Option Bool) (p cmd stopped_ch exited_ch stdout stderr : ℕ) (m : Master)
    → AllConsistent m
    → AllConsistent (monitor_instance env exit p cmd stopped_ch exited_ch stdout stderr m)
monitor-AllConsistent env exit p cmd stopped_ch exited_ch stdout stderr m a =
    let b : AllConsistent (flushed p cmd stdout stderr m) =
      λ q. rw (flushed-SameButLogs p cmd stdout stderr m).heap (a q) in
    monitor_cases p cmd stdout stderr m AllConsistent env exit stopped_ch exited_ch (λ _. b)
      (λ _ _ _. record_exit-AllConsistent env exit p _ b)

pub restart-AllConsistent :
    (env : Env) (w : Wait) (p : ℕ) (m : Master)
    → KeepsConsistent w
    → AllConsistent m
    → AllConsistent (restart_instance env w p m)
unfolding restart_instance
restart-AllConsistent env w p m k a =
    start-AllConsistent env (current_instance p m) _
      (stop-AllConsistent env w (current_instance p m) m k a)

-- If all instances are consistent, so they are after the restart of a failed instance, provided
-- that what other goroutines do during a stop keeps them so.
pub restart_failed-AllConsistent :
    (env : Env) (w : Wait) (p : ℕ) (m : Master)
    → KeepsConsistent w
    → AllConsistent m
    → AllConsistent (restart_failed_instance env w p m)
unfolding restart_failed_instance
restart_failed-AllConsistent env w p m k a =
    if_cases AllConsistent
      (points_to (lookup (m.heap p).id m.instances) p && needs_restart (m.heap p)) _ _
      (λ _. start-AllConsistent env p _ (stop-AllConsistent env w p m k a)) (λ _. a)
