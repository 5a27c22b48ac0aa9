-- ===== src/Registry/Lifecycle.antt =====
-- The operations of internal/master/instance.go as moves.
use open_ctrl.Types.{kill, Instance, Master, put}
use open_ctrl.Env.{Env, Wait}
use open_ctrl.Base.{
  ◌∙◌, ℕ, suc, ◌<◌, ◌≡◌, refl, inl, inr, arith, String, Bool, false, Option, none, some, [],
  if_cases, elem, [], Option-cases, lookup, List, ◌&&◌, ◌==◌, if◌then◌else◌,
}
use open_ctrl.Output.{ProcessLog, write}
use open_ctrl.Util.{reset_stopped_instance_locked}
use open_ctrl.State.Save.{save_state_async, save_state, save_state_to_path}
use open_ctrl.Event.Publish.{send_sse_event, publish_event}
use open_ctrl.Instance.Snapshot.{current_instance}
use open_ctrl.Instance.Lifecycle.Start.{
  prepare_run, fail_without_path, fail_start, begin_process, start_instance_locked, store,
}
use open_ctrl.Instance.Lifecycle.Stop.{
  finish_stop, stop_instance_locked, await_exit, close_stopped, cancel_opt, send_signal, ask,
}
use open_ctrl.Instance.Lifecycle.Monitor.{
  monitor_instance, record_exit, fail_exit, restart_failed_instance, restart_instance, succeeded,
  points_to, needs_restart, write_log,
}
use open_ctrl.Instance.Lifecycle.Cases.{
  CanStart, exited_state, start_cases, stop_cases, monitor_cases, flushed, flushed-SameButLogs,
  send_lines-SameButLogs,
}
use open_ctrl.Instance.Lifecycle.Consistent.{is_running}
use open_ctrl.Rest.Cases.{points}
use open_ctrl.Registry.{quiet, edit, keep, Moves, still, also}
use open_ctrl.Registry.Laws.{IsRegistry, Moves-trans, Moves-IsRegistry, Moves-Follows}

-- What an exit that nobody asked for makes of an instance.
abbrev exited : Option Bool → ℕ → Instance → Instance
exited exit ch inst =
    if succeeded exit then reset_stopped_instance_locked ch inst else fail_exit inst

exited-id : (exit : Option Bool) (ch : ℕ) (inst : Instance) → (exited exit ch inst).id ≡ inst.id
unfolding reset_stopped_instance_locked fail_exit
exited-id exit ch inst =
    if_cases (λ (i : Instance). i.id ≡ inst.id) (succeeded exit) _ _ (λ _. refl) (λ _. refl)

exited-deleted :
    (exit : Option Bool) (ch : ℕ) (inst : Instance) → (exited exit ch inst).deleted ≡ inst.deleted
unfolding reset_stopped_instance_locked fail_exit
exited-deleted exit ch inst =
    if_cases (λ (i : Instance). i.deleted ≡ inst.deleted) (succeeded exit) _ _ (λ _. refl)
      (λ _. refl)

exited-idle :
    (exit : Option Bool) (ch : ℕ) (inst : Instance)
    → is_running (exited exit ch inst).status ≡ false
unfolding reset_stopped_instance_locked fail_exit
exited-idle exit ch inst =
    if_cases (λ (i : Instance). is_running i.status ≡ false) (succeeded exit) _ _ (λ _. refl)
      (λ _. refl)

module _ {S : ℕ → Type 0} {F : String → Type 0} {m : Master} where
  pub cancel-Moves : (o : Option ℕ) (n : Master) → Moves S F m n → Moves S F m (cancel_opt o n)
  cancel-Moves none n a = a
  cancel-Moves (some c) n a = also a (quiet refl refl refl (omega arith))

  close-Moves : (o : Option ℕ) (n : Master) → Moves S F m n → Moves S F m (close_stopped o n)
  unfolding close_stopped
  close-Moves none n a = a
  close-Moves (some ch) n a =
      if_cases (Moves S F m) (elem ch n.closed) _ _ (λ _. a)
        (λ _. also a (quiet refl refl refl (omega arith)))

  record_exit-Moves :
      (env : Env) (exit : Option Bool) (p : ℕ) (n : Master)
      → Moves S F m n
      → Moves S F m (record_exit env exit p n)
  unfolding record_exit send_sse_event publish_event save_state save_state_to_path
  record_exit-Moves env exit p n a =
      let inst : Instance = exited exit n.fresh (n.heap p) in
      let edited : Moves S F m (put p inst n) = also a (
        edit p inst (exited-id exit n.fresh (n.heap p)) (λ c s. exited-idle exit n.fresh (n.heap p))
          (λ d. exited-deleted exit n.fresh (n.heap p) ∙ d)) in
      let used : Master = record (put p inst n) { fresh = suc n.fresh } in
      also
        (cancel-Moves (n.heap p).cancel_func used
          (also edited (quiet {n = used} refl refl refl (omega arith))))
        (quiet refl refl refl (omega arith))

  pub monitor-Moves :
      (env : Env) (exit : Option Bool) (p cmd stopped_ch exited_ch stdout stderr : ℕ)
      → Moves S F m (monitor_instance env exit p cmd stopped_ch exited_ch stdout stderr m)
  monitor-Moves env exit p cmd stopped_ch exited_ch stdout stderr =
      let same = flushed-SameButLogs p cmd stdout stderr m in
      let logged : Moves S F m (flushed p cmd stdout stderr m) =
        also still
          (quiet same.heap same.instances same.periodic_done (omega (arith, same.fresh))) in
      monitor_cases p cmd stdout stderr m (Moves S F m) env exit stopped_ch exited_ch
        (λ _. also logged (quiet refl refl refl (omega arith)))
        (λ _ _ _. also (record_exit-Moves env exit p _ logged) (quiet refl refl refl (omega arith)))

  pub write_log-Moves : (bytes : List ℕ) (out p cmd : ℕ) → Moves S F m (write_log bytes out p cmd m)
  unfolding write_log
  write_log-Moves bytes out p cmd =
      let l : ProcessLog = write (record { pending = m.pending out; sent = [] }) bytes in
      let n : Master = record m { pending = λ o. if out == o then l.pending else m.pending o } in
      let same = send_lines-SameButLogs p cmd l.sent n in
      also still (quiet same.heap same.instances same.periodic_done (omega (arith, same.fresh)))

-- Moves of any kind.
abbrev pub Leads : Master → Master → Type 0
Leads = Moves (λ _. Unit) (λ _. Unit)

module _ (env : Env) (p : ℕ) (m : Master) (b : p < m.fresh) where
  begun :
      (inst : Instance) → inst.id ≡ (m.heap p).id → CanStart p m → Leads m (store p (put p inst m))
  begun inst e can =
      also (also still (edit p inst e (λ c s. cc (c, can.serving)) (λ d. cc (d, can.present))))
        (keep p tt b)

  pub start-Leads : Leads m (start_instance_locked env p m)
  unfolding prepare_run fail_without_path fail_start begin_process send_sse_event publish_event
  start-Leads =
      start_cases (Leads m) env p m still
        (λ can _.
          also (also still (edit p _ refl (λ c s. cc (c, can.serving)) (λ d. d)))
            (quiet refl refl refl (omega arith)))
        (λ can. also (begun _ refl can) (quiet refl refl refl (omega arith)))
        (λ can. also (begun _ refl can) (quiet refl refl refl (omega arith)))
        (λ pid can _. also (begun _ refl can) (quiet refl refl refl (omega arith)))

-- What happens during a stop are moves.
pub record WaitLeads (w : Wait) : Type 0 where
  pub in_grace : (m : Master) → IsRegistry m → Leads m (w.grace m)
  pub once_killed : (m : Master) → IsRegistry m → Leads m (w.killed m)

pub finish-Leads : (p : ℕ) (m : Master) → p < m.fresh → Leads m (finish_stop p m)
unfolding finish_stop send_sse_event publish_event save_state_async reset_stopped_instance_locked
finish-Leads p m b =
    let inst : Instance = reset_stopped_instance_locked m.fresh (m.heap p) in
    let used : Master = record (put p inst m) { fresh = suc m.fresh } in
    also
      (also
        (also (also still (edit p inst refl (λ c s. refl) (λ d. d)))
          (quiet {n = used} refl refl refl (omega arith)))
        (keep p tt (omega (arith, b))))
      (quiet refl refl refl (omega arith))

-- The object that an id leads to is in use.
pub current-bound :
    (p : ℕ) (m : Master) → IsRegistry m → p < m.fresh → current_instance p m < m.fresh
unfolding current_instance
current-bound p m r b = elim (Option-cases (lookup (m.heap p).id m.instances)) [
  | inl e ↦ rw (current_instance, e) b
  | inr (q, e) ↦ rw (current_instance, e) (r.named (m.heap p).id q e).1
]

module _ (env : Env) (w : Wait) (k : WaitLeads w) where
  await-Leads :
      (exited context : Option ℕ) (pid : ℕ) (m : Master)
      → IsRegistry m
      → Leads m (await_exit w exited context pid m)
  unfolding await_exit
  await-Leads none context pid m r =
      cancel-Moves context _ (also still (quiet refl refl refl (omega arith)))
  await-Leads (some e) context pid m r =
      let waited = k.in_grace m r in
      let cancelled = cancel-Moves context (w.grace m) waited in
      let killed = also cancelled (
        quiet {n = send_signal (kill pid) (cancel_opt context (w.grace m))} refl refl refl
          (omega arith)) in
      if_cases (Leads m) (elem e (w.grace m).closed) _ _ (λ _. cancelled)
        (λ _. Moves-trans killed (k.once_killed _ (Moves-IsRegistry killed r)))

  exited-Leads :
      (p : ℕ) (m : Master) (pid : ℕ) → IsRegistry m → Leads m (exited_state env w p m pid)
  exited-Leads p m pid r =
      let closed : Leads m (close_stopped (m.heap p).stopped_ch m) =
        close-Moves (m.heap p).stopped_ch m still in
      let asked_for = also closed (
        quiet {n = ask env pid (close_stopped (m.heap p).stopped_ch m)} refl refl refl
          (omega arith)) in
      Moves-trans asked_for (
        await-Leads (m.heap p).exited_ch (m.heap p).cancel_func pid _
          (Moves-IsRegistry asked_for r))

  pub stop-Leads :
      (p : ℕ) (m : Master) → IsRegistry m → p < m.fresh → Leads m (stop_instance_locked env w p m)
  stop-Leads p m r b =
      stop_cases (Leads m) env w p m (λ _. still) (λ _. finish-Leads p m b)
        λ pid _.
          let waited = exited-Leads p m pid r in
          Moves-trans waited (finish-Leads p _ (omega (arith, b, (Moves-Follows waited).fresh)))

  -- A stop, and a start after it.
  pub again-Leads :
      (p : ℕ) (m : Master)
      → IsRegistry m
      → p < m.fresh
      → Leads m (start_instance_locked env p (stop_instance_locked env w p m))
  again-Leads p m r b =
      let ended = stop-Leads p m r b in
      Moves-trans ended (start-Leads env p _ (omega (arith, b, (Moves-Follows ended).fresh)))

  pub restart-Leads :
      (p : ℕ) (m : Master) → IsRegistry m → p < m.fresh → Leads m (restart_instance env w p m)
  unfolding restart_instance
  restart-Leads p m r b = again-Leads (current_instance p m) m r (current-bound p m r b)

  pub restart_failed-Leads :
      (p : ℕ) (m : Master) → IsRegistry m → Leads m (restart_failed_instance env w p m)
  unfolding restart_failed_instance
  restart_failed-Leads p m r =
      if_cases (Leads m)
        (points_to (lookup (m.heap p).id m.instances) p && needs_restart (m.heap p)) _ _
        (λ e.
          again-Leads p m r
            (r.named (m.heap p).id p
              (points (lookup (m.heap p).id m.instances) p (ground (arith, e)))).1)
        (λ _. still)
