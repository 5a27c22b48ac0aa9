-- ===== src/Instance/Lifecycle/Cases.antt =====
-- The branches of `startInstanceLocked`, `stopInstanceLocked` and `monitorInstance`, as rules that
-- the proofs about them share.
use open_ctrl.Types.{Status, stopped, error, Instance, Master, put, update}
use open_ctrl.Env.{Env, Wait}
use open_ctrl.Base.{
  ℕ, ◌+◌, ◌≡◌, refl, ◌∙◌, inl, inr, arith, Bool, true, false, not, ◌&&◌, ◌||◌, Option, none, some,
  List, [], ◌∷◌, Option-cases, elem, String, if_cases, ◌==◌, if◌then◌else◌,
}
use open_ctrl.Output.{flush}
use open_ctrl.Event.Publish.{send_sse_event, publish_event}
use open_ctrl.Instance.Lifecycle.Start.{
  is_stopped, prepare_run, fail_without_path, fail_start, begin_process, run_command,
  start_instance_locked, exec_path, url_fits, started, launch,
}
use open_ctrl.Instance.Lifecycle.Stop.{
  process_of, finish_stop, end_process, stop_instance_locked, await_exit, close_stopped, ask,
}
use open_ctrl.Instance.Lifecycle.Monitor.{
  monitor_instance, record_exit, flush_log, send_lines, send_telemetry_log, runs_cmd, close_channel,
}

pub is_stopped-eq : (s : Status) → is_stopped s ≡ true → s ≡ stopped
is_stopped-eq s h = ground arith

-- The instance may be started.
pub record CanStart (p : ℕ) (m : Master) : Type 0 where
  pub serving : m.periodic_done ≡ false
  pub present : (m.heap p).deleted ≡ false
  pub at_rest : (m.heap p).status ≡ stopped

module _ {ℓ} (P : Master → Type ℓ) (env : Env) (p : ℕ) (m : Master) where
  run_command_cases :
      (path : String) (inst : Instance)
      → P (fail_start m.fresh p inst (record m { fresh = m.fresh + 1 }))
      → ((pid : ℕ) → started (env.start path inst.url) ≡ some pid → P (begin_process pid p inst m))
      → P (run_command env path p inst m)
  unfolding run_command
  run_command_cases path inst failed running =
      elim (Option-cases (started (env.start path inst.url))) [
        | inl e ↦ rw (e, run_command) failed
        | inr (pid, e) ↦ rw (e, run_command) (running pid e)
      ]

  launch_cases :
      (inst : Instance)
      → P (fail_without_path p inst m)
      → P (fail_start m.fresh p inst (record m { fresh = m.fresh + 1 }))
      → ((pid : ℕ) → P (begin_process pid p inst m))
      → P (launch env p inst m)
  unfolding launch
  launch_cases inst pathless failed runs = elim (Option-cases (exec_path env m)) [
    | inl e ↦ rw (e, launch) pathless
    | inr (path, e) ↦ rw (e, launch) (run_command_cases path inst failed (λ pid _. runs pid))
  ]

  pub start_cases :
      P m
      → (CanStart p m
          → url_fits env (m.heap p) ≡ false
          → P (
              send_sse_event update p
                (put p (record (m.heap p) { status = error; runtime_failure = false }) m)))
      → (CanStart p m → P (fail_without_path p (prepare_run (m.heap p)) m))
      → (CanStart p m
          → P (fail_start m.fresh p (prepare_run (m.heap p)) (record m { fresh = m.fresh + 1 })))
      → ((pid : ℕ)
          → CanStart p m
          → url_fits env (m.heap p) ≡ true
          → P (begin_process pid p (prepare_run (m.heap p)) m))
      → P (start_instance_locked env p m)
  unfolding start_instance_locked
  start_cases skip unfit pathless failed runs =
      if_cases P m.periodic_done _ _ (λ _. skip)
        λ open_door.
          if_cases P ((m.heap p).deleted || not (is_stopped (m.heap p).status)) _ _ (λ _. skip)
            λ idle.
              let can : CanStart p m = record {
                serving = open_door;
                present = ground arith;
                at_rest = ground arith;
              } in
              if_cases P (not (url_fits env (m.heap p))) _ _ (λ u. unfit can (ground arith))
                λ u.
                  launch_cases (prepare_run (m.heap p)) (pathless can) (failed can)
                    (λ pid. runs pid can (ground arith))

-- The state in which a stop with a process ends, before it resets the instance.
abbrev pub exited_state : Env → Wait → ℕ → Master → ℕ → Master
exited_state env w p m pid =
    await_exit w (m.heap p).exited_ch (m.heap p).cancel_func pid
      (ask env pid (close_stopped (m.heap p).stopped_ch m))

module _ {ℓ} (P : Master → Type ℓ) (env : Env) (w : Wait) (p : ℕ) (m : Master) where
  end_cases :
      (o : Option ℕ)
      → (o ≡ none → P (finish_stop p m))
      → ((pid : ℕ) → o ≡ some pid → P (finish_stop p (exited_state env w p m pid)))
      → P (end_process env w o p m)
  unfolding end_process
  end_cases none bare busy = bare refl
  end_cases (some pid) bare busy = busy pid refl

  pub stop_cases :
      ((m.heap p).status ≡ stopped → P m)
      → (process_of (m.heap p).cmd ≡ none → P (finish_stop p m))
      → ((pid : ℕ)
          → process_of (m.heap p).cmd ≡ some pid
          → P (finish_stop p (exited_state env w p m pid)))
      → P (stop_instance_locked env w p m)
  unfolding stop_instance_locked
  stop_cases rests bare busy =
      if_cases P (is_stopped (m.heap p).status) _ _ (λ e. rests (is_stopped-eq (m.heap p).status e))
        (λ _. end_cases (process_of (m.heap p).cmd) bare busy)

-- Of a master, log lines change no more than the queues of the subscribers.
pub record SameButLogs (m m' : Master) : Type 0 where
  pub heap : m'.heap ≡ m.heap
  pub instances : m'.instances ≡ m.instances
  pub closed : m'.closed ≡ m.closed
  pub fresh : m'.fresh ≡ m.fresh
  pub disk : m'.disk ≡ m.disk
  pub signals : m'.signals ≡ m.signals
  pub tasks : m'.tasks ≡ m.tasks
  pub periodic_done : m'.periodic_done ≡ m.periodic_done

module _ (p cmd : ℕ) where
  send_telemetry_log-SameButLogs :
      (line : List ℕ) (m : Master) → SameButLogs m (send_telemetry_log p cmd line m)
  unfolding send_telemetry_log publish_event
  send_telemetry_log-SameButLogs line m =
      if_cases (SameButLogs m) (not (m.heap p).deleted && runs_cmd (m.heap p).cmd cmd) _ _
        (λ _. record {
          heap = refl;
          instances = refl;
          closed = refl;
          fresh = refl;
          disk = refl;
          signals = refl;
          tasks = refl;
          periodic_done = refl;
        })
        (λ _. record {
          heap = refl;
          instances = refl;
          closed = refl;
          fresh = refl;
          disk = refl;
          signals = refl;
          tasks = refl;
          periodic_done = refl;
        })

  pub send_lines-SameButLogs :
      (lines : List (List ℕ)) (m : Master) → SameButLogs m (send_lines p cmd lines m)
  unfolding send_lines
  send_lines-SameButLogs [] m = record {
    heap = refl;
    instances = refl;
    closed = refl;
    fresh = refl;
    disk = refl;
    signals = refl;
    tasks = refl;
    periodic_done = refl;
  }
  send_lines-SameButLogs (line ∷ lines) m =
      let first = send_telemetry_log-SameButLogs line m in
      let rest = send_lines-SameButLogs lines (send_telemetry_log p cmd line m) in
      record {
        heap = rest.heap ∙ first.heap;
        instances = rest.instances ∙ first.instances;
        closed = rest.closed ∙ first.closed;
        fresh = rest.fresh ∙ first.fresh;
        disk = rest.disk ∙ first.disk;
        signals = rest.signals ∙ first.signals;
        tasks = rest.tasks ∙ first.tasks;
        periodic_done = rest.periodic_done ∙ first.periodic_done;
      }

  flush_log-SameButLogs : (out : ℕ) (m : Master) → SameButLogs m (flush_log out p cmd m)
  unfolding flush_log
  flush_log-SameButLogs out m =
      let r =
        send_lines-SameButLogs (flush (record { pending = m.pending out; sent = [] })).sent
          (record m {
            pending = λ o.
                if out == o
                then (flush (record { pending = m.pending out; sent = [] })).pending
                else m.pending o;
          }) in
      record {
        heap = r.heap;
        instances = r.instances;
        closed = r.closed;
        fresh = r.fresh;
        disk = r.disk;
        signals = r.signals;
        tasks = r.tasks;
        periodic_done = r.periodic_done;
      }

  module _ (stdout stderr : ℕ) (m : Master) where
    abbrev pub flushed : Master
    flushed = flush_log stderr p cmd (flush_log stdout p cmd m)

    pub flushed-SameButLogs : SameButLogs m flushed
    flushed-SameButLogs =
        let first = flush_log-SameButLogs stdout m in
        let rest = flush_log-SameButLogs stderr (flush_log stdout p cmd m) in
        record {
          heap = rest.heap ∙ first.heap;
          instances = rest.instances ∙ first.instances;
          closed = rest.closed ∙ first.closed;
          fresh = rest.fresh ∙ first.fresh;
          disk = rest.disk ∙ first.disk;
          signals = rest.signals ∙ first.signals;
          tasks = rest.tasks ∙ first.tasks;
          periodic_done = rest.periodic_done ∙ first.periodic_done;
        }

    pub monitor_cases {ℓ} :
        (P : Master → Type ℓ) (env : Env) (exit : Option Bool) (stopped_ch exited_ch : ℕ)
        → (((runs_cmd (flushed.heap p).cmd cmd && not (flushed.heap p).deleted)
                && not (elem stopped_ch flushed.closed))
              ≡ false
            → P (close_channel exited_ch flushed))
        → (runs_cmd (flushed.heap p).cmd cmd ≡ true
            → (flushed.heap p).deleted ≡ false
            → elem stopped_ch flushed.closed ≡ false
            → P (close_channel exited_ch (record_exit env exit p flushed)))
        → P (monitor_instance env exit p cmd stopped_ch exited_ch stdout stderr m)
    unfolding monitor_instance
    monitor_cases P env exit stopped_ch exited_ch stale current =
        if_cases (λ n. P (close_channel exited_ch n))
          ((runs_cmd (flushed.heap p).cmd cmd && not (flushed.heap p).deleted)
            && not (elem stopped_ch flushed.closed))
          _ _ (λ e. current (ground arith) (ground arith) (ground arith)) stale
