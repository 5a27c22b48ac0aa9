-- ===== src/Instance/Lifecycle/Ending.antt =====
-- internal/master/instance.go: how a stop ends, and how a later run is kept apart from it.
use open_ctrl.Types.{stopped, Instance, Signal, kill, Master}
use open_ctrl.Env.{Env, Wait}
use open_ctrl.Base.{
  ℕ, ◌≤◌, ◌≡◌, inl, inr, refl, ap, ◌∙◌, arith, Bool, true, false, Option, none, some, List, [], ◌∷◌,
  ◌++◌, elem, if_cases, if◌then◌else◌, Bool-cases, ==_refl,
}
use open_ctrl.Util.{reset_stopped_instance_locked}
use open_ctrl.Event.Publish.{send_sse_event, publish_event}
use open_ctrl.State.Save.{save_state_async}
use open_ctrl.Instance.Lifecycle.Start.{
  start_instance_locked, prepare_run, begin_process, fail_start, fail_without_path, is_stopped,
  cancel,
}
use open_ctrl.Instance.Lifecycle.Stop.{
  stop_instance_locked, finish_stop, process_of, await_exit, send_signal, close_stopped,
  end_process, ask, asked,
}
use open_ctrl.Instance.Lifecycle.Monitor.{runs_cmd, monitor_instance}
use open_ctrl.Instance.Lifecycle.Cases.{CanStart, start_cases, stop_cases}
use open_ctrl.Instance.Lifecycle.Consistent.{AllConsistent, IsAtRest, rest_of_stopped}
use open_ctrl.Instance.Lifecycle.Exit.{OnlyExited, monitor_stale}

heap-finish_stop :
    (p : ℕ) (m : Master)
    → (finish_stop p m).heap p ≡ reset_stopped_instance_locked m.fresh (m.heap p)
unfolding finish_stop send_sse_event publish_event save_state_async
heap-finish_stop p m = rw (==_refl p)

finish_stop-stopped : (p : ℕ) (m : Master) → ((finish_stop p m).heap p).status ≡ stopped
finish_stop-stopped p m = rw (heap-finish_stop p m) (unfold reset_stopped_instance_locked in refl)

-- Whatever other goroutines do while a stop waits, and whether or not the process exits in time,
-- the instance is stopped afterwards.
pub stop_stops :
    (env : Env) (w : Wait) (p : ℕ) (m : Master)
    → ((stop_instance_locked env w p m).heap p).status ≡ stopped
stop_stops env w p m =
    stop_cases (λ n. (n.heap p).status ≡ stopped) env w p m (λ e. e) (λ _. finish_stop-stopped p m)
      (λ pid _. finish_stop-stopped p _)

-- The other goroutines send no signal and cancel no context while the stop waits.
pub record IsQuiet (w : Wait) : Type 0 where
  pub grace_signals : (m : Master) → (w.grace m).signals ≡ m.signals
  pub killed_signals : (m : Master) → (w.killed m).signals ≡ m.signals
  pub killed_cancels : (m : Master) → (w.killed m).cancelled ≡ m.cancelled

signals-close_stopped : (o : Option ℕ) (m : Master) → (close_stopped o m).signals ≡ m.signals
unfolding close_stopped
signals-close_stopped none m = refl
signals-close_stopped (some ch) m =
    if_cases (λ (n : Master). n.signals ≡ m.signals) (elem ch m.closed) _ _ (λ _. refl) (λ _. refl)

-- What a wait leaves behind.
pub record Waited (context pid : ℕ) (in_time : Bool) (m n : Master) : Type 0 where
  pub signals : n.signals ≡ m.signals ++ (if in_time then [] else kill pid ∷ [])
  pub cancelled : elem context n.cancelled ≡ true

append-nil' : (xs : List Signal) → xs ≡ xs ++ []
append-nil' [] = refl
append-nil' (x ∷ xs) = ap (λ l. x ∷ l) (append-nil' xs)

stop_running :
    (env : Env) (w : Wait) (p pid exited context : ℕ) (m : Master)
    → is_stopped (m.heap p).status ≡ false
    → process_of (m.heap p).cmd ≡ some pid
    → (m.heap p).exited_ch ≡ some exited
    → (m.heap p).cancel_func ≡ some context
    → stop_instance_locked env w p m
      ≡ finish_stop p (
          await_exit w
            (some exited)
            (some context)
            pid
            (ask env pid (close_stopped (m.heap p).stopped_ch m)))
unfolding stop_instance_locked end_process
stop_running env w p pid exited context m n o x c = rw (n, o) (rw (x, c))

module _ (w : Wait) (q : IsQuiet w) where
  await_exit-Waited :
      (exited context pid : ℕ) (m : Master)
      → Waited context pid
          (elem exited (w.grace m).closed)
          m
          (await_exit w (some exited) (some context) pid m)
  unfolding await_exit
  await_exit-Waited exited context pid m = elim (Bool-cases (elem exited (w.grace m).closed)) [
    | inl e ↦
        rw e
          (record { signals = q.grace_signals m ∙ append-nil' m.signals; cancelled = ground arith })
    | inr e ↦ rw e (record {
      signals = q.killed_signals _ ∙ ap (λ l. l ++ kill pid ∷ []) (q.grace_signals m);
      cancelled =
          rw (q.killed_cancels (send_signal (kill pid) (cancel context (w.grace m))))
            (ground arith);
    })
  ]

  -- A stop of an instance that has a process, a channel `exited` and a context asks the process to
  -- end by SIGTERM, but on Windows sends it nothing then; it kills it if and only if it has not exited when the
  -- grace period is over; no other signal is sent; and the context is cancelled in either case.
  -- Conditions: the instance is not stopped, and the other goroutines send no signal and cancel no
  -- context meanwhile.
  pub stop_signals :
      (env : Env) (p pid exited context : ℕ) (m : Master)
      → is_stopped (m.heap p).status ≡ false
      → process_of (m.heap p).cmd ≡ some pid
      → (m.heap p).exited_ch ≡ some exited
      → (m.heap p).cancel_func ≡ some context
      → let asking = ask env pid (close_stopped (m.heap p).stopped_ch m) in
        Waited context pid
          (elem exited (w.grace asking).closed)
          (record m { signals = m.signals ++ asked env pid })
          (stop_instance_locked env w p m)
  stop_signals env p pid exited context m n o x c =
      let start = ask env pid (close_stopped (m.heap p).stopped_ch m) in
      let r = await_exit-Waited exited context pid start in
      let e = signals-close_stopped (m.heap p).stopped_ch m in
      rw (stop_running env w p pid exited context m n o x c) (
        unfold finish_stop send_sse_event publish_event save_state_async in
        record {
          signals =
              r.signals
              ∙ ap
                  (λ l.
                    (l ++ asked env pid)
                    ++ (if elem exited (w.grace start).closed then [] else kill pid ∷ []))
                  e;
          cancelled = r.cancelled;
        })

module _ (env : Env) (p c : ℕ) (m : Master) (a : AllConsistent m) (older : c ≤ m.fresh) where
  idle-runs_none : (inst : Instance) → IsAtRest inst → runs_cmd inst.cmd c ≡ false
  idle-runs_none inst r = rw r.no_cmd

  start-runs_none : CanStart p m → runs_cmd ((start_instance_locked env p m).heap p).cmd c ≡ false
  start-runs_none can =
      let r = rest_of_stopped (m.heap p) (a p) can.at_rest in
      let none_runs = idle-runs_none (m.heap p) r in
      unfold prepare_run fail_without_path fail_start begin_process send_sse_event publish_event in
      start_cases (λ n. runs_cmd (n.heap p).cmd c ≡ false) env p m none_runs
        (λ _ _. rw (==_refl p) none_runs) (λ _. rw (==_refl p) none_runs) (λ _. rw (==_refl p))
        (λ pid _ _. rw (==_refl p) (ground arith))

  -- If an instance that may be started is started, with all instances consistent before, then the
  -- monitor of any command that is older than this start, if it comes right behind the start and
  -- whatever it reports, leaves all instances, the files, the signals and the goroutines alone; of the
  -- channels it closes only its own, `exited`.
  pub start_isolates :
      (exit : Option Bool) (stopped_ch exited_ch stdout stderr : ℕ)
      → CanStart p m
      → OnlyExited exited_ch (start_instance_locked env p m) (
          monitor_instance env exit p c stopped_ch exited_ch stdout stderr
            (start_instance_locked env p m))
  start_isolates exit stopped_ch exited_ch stdout stderr can =
      monitor_stale env exit p c stopped_ch exited_ch stdout stderr (start_instance_locked env p m)
        (inl (start-runs_none can))
