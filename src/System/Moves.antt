-- ===== src/System/Moves.antt =====
-- Every step of the system is a sequence of moves of the abstract machine in Registry.
use open_ctrl.Types.{Instance, Master, put}
use open_ctrl.Env.{Env, Wait}
use open_ctrl.Base.{
  ◌∙◌, ℕ, ◌≡◌, refl, arith, inl, inr, String, not, ◌&&◌, ◌||◌, Option, none, some, List, [], ◌∷◌,
  if_cases, ◌==◌, Option-cases,
}
use open_ctrl.Event.Opening.{register, withdraw}
use open_ctrl.Event.Publish.{send_sse_event, publish_event, shutdown_sse_connections}
use open_ctrl.State.Save.{StateFile, save_state_to_path, save_state_async}
use open_ctrl.Telemetry.Apply.{
  TelemetrySnapshot, apply_telemetry_hello, apply_telemetry_snapshot, clear_active_telemetry,
  telemetry_current, apply_snapshot,
}
use open_ctrl.Instance.Snapshot.{current_instance, find_instance}
use open_ctrl.Instance.Lifecycle.Start.{start_instance}
use open_ctrl.Instance.Lifecycle.Stop.{stop_instance}
use open_ctrl.Rest.Common.{Response, api_key_id, too_long}
use open_ctrl.Rest.Info.{handle_info, set_alias}
use open_ctrl.Periodic.{periodic_round, restart_all}
use open_ctrl.Registry.{quiet, edit, again, Moves, still, also}
use open_ctrl.Registry.Laws.{IsRegistry, Moves-trans, Moves-IsRegistry}
use open_ctrl.Registry.Lifecycle.{
  Leads, WaitLeads, start-Leads, stop-Leads, restart-Leads, restart_failed-Leads, current-bound,
  monitor-Moves, write_log-Moves,
}
use open_ctrl.Registry.Requests.{create-Moves, detail-Leads}
use open_ctrl.System.{
  tick, info, join, leave, Step, detail, create, start, stop, restart, retry, monitor, output,
  hello, traffic, silence, save, cut_off, Steps, done, then_step, IsRun, run,
}

-- What changes neither the map nor whether an instance runs, as moves of any machine.
module _ {S : ℕ → Type 0} {F : String → Type 0} (m : Master) where
  edit-Moves :
      (p : ℕ) (inst : Instance)
      → inst.id ≡ (m.heap p).id
      → inst.status ≡ (m.heap p).status
      → inst.deleted ≡ (m.heap p).deleted
      → Moves S F m (put p inst m)
  edit-Moves p inst i s g = also still (edit p inst i (λ c h. rw s h) (λ d. g ∙ d))

  pub hello-Moves : (id : String) (p cmd : ℕ) → Moves S F m (apply_telemetry_hello id p cmd m)
  unfolding apply_telemetry_hello
  hello-Moves id p cmd =
      if_cases (Moves S F m) (telemetry_current p cmd m) _ _ (λ _. edit-Moves p _ refl refl refl)
        (λ _. still)

  pub traffic-Moves :
      (value : TelemetrySnapshot) (p cmd : ℕ) → Moves S F m (apply_telemetry_snapshot value p cmd m)
  unfolding apply_telemetry_snapshot apply_snapshot send_sse_event publish_event
  traffic-Moves value p cmd =
      if_cases (Moves S F m) (telemetry_current p cmd m) _ _
        (λ _.
          also (edit-Moves p (apply_snapshot value (m.heap p)) refl refl refl)
            (quiet refl refl refl (omega arith)))
        (λ _. still)

  pub silence-Moves : (p cmd : ℕ) → Moves S F m (clear_active_telemetry p cmd m)
  unfolding clear_active_telemetry send_sse_event publish_event
  silence-Moves p cmd =
      if_cases (Moves S F m)
        (telemetry_current p cmd m && (not ((m.heap p).tcps == 0) || not ((m.heap p).udps == 0))) _
        _
        (λ _.
          also (edit-Moves p (record (m.heap p) { tcps = 0; udps = 0 }) refl refl refl)
            (quiet refl refl refl (omega arith)))
        (λ _. still)

  pub save-Moves :
      (env : Env) (path : StateFile) → Moves S F m (save_state_to_path env.files path m).1
  unfolding save_state_to_path
  save-Moves env path = also still (quiet refl refl refl (omega arith))

  pub cut_off-Moves : Moves S F m (shutdown_sse_connections m).0
  unfolding shutdown_sse_connections
  cut_off-Moves = also still (quiet refl refl refl (omega arith))

  pub join-Moves : Moves S F m (register m)
  join-Moves = also still (quiet refl refl refl (omega arith))

  pub leave-Moves : (k : ℕ) → Moves S F m (withdraw k m)
  leave-Moves k = also still (quiet refl refl refl (omega arith))

  alias-Moves : (alias : String) → Moves S F m (set_alias alias m)
  unfolding set_alias find_instance save_state_async
  alias-Moves alias = elim (Option-cases (find_instance api_key_id m)) [
    | inl e ↦ rw (set_alias, e) (also still (quiet refl refl refl (omega arith)))
    | inr (p, e) ↦
        rw (set_alias, e)
          (also
            (also (edit-Moves p (record (m.heap p) { alias = alias }) refl refl refl)
              (again api_key_id p e))
            (quiet refl refl refl (omega arith)))
  ]

  pub info-Moves : (request : Option String) → Moves S F m (handle_info request m).1
  unfolding handle_info
  info-Moves none = still
  info-Moves (some alias) =
      if_cases (λ (r : Response × Master). Moves S F m r.1) (too_long alias) _ _ (λ _. still)
        (λ _. alias-Moves alias)

module _ (env : Env) (w : Wait) (k : WaitLeads w) where
  restart_all-Leads : (ps : List ℕ) (m : Master) → IsRegistry m → Leads m (restart_all env w ps m)
  unfolding restart_all
  restart_all-Leads [] m r = still
  restart_all-Leads (p ∷ ps) m r =
      let first = restart_failed-Leads env w k p m r in
      Moves-trans first (restart_all-Leads ps _ (Moves-IsRegistry first r))

  round-Leads : (m : Master) → IsRegistry m → Leads m (periodic_round env w m)
  unfolding periodic_round
  round-Leads m r =
      let saved = save-Moves m env _ in
      Moves-trans saved (restart_all-Leads _ _ (Moves-IsRegistry saved r))

mutual
  unfolding start_instance stop_instance

  step_leads : (env : Env) {m n : Master} → Step env m n → IsRegistry m → Leads m n
  step_leads env {m} (detail w r random method id) a =
      detail-Leads env w (wait_leads env w r) m a random method id
  step_leads env {m} (create random request) a = create-Moves env random request m
  step_leads env {m} (start p b) a =
      start-Leads env (current_instance p m) m (current-bound p m a b)
  step_leads env {m} (stop w r p b) a =
      stop-Leads env w (wait_leads env w r) (current_instance p m) m a (current-bound p m a b)
  step_leads env {m} (restart w r p b) a = restart-Leads env w (wait_leads env w r) p m a b
  step_leads env {m} (retry w r p) a = restart_failed-Leads env w (wait_leads env w r) p m a
  step_leads env {m} (monitor exit p cmd stopped exited stdout stderr) a =
      monitor-Moves env exit p cmd stopped exited stdout stderr
  step_leads env {m} (output bytes out p cmd) a = write_log-Moves bytes out p cmd
  step_leads env {m} (hello id p cmd) a = hello-Moves m id p cmd
  step_leads env {m} (traffic value p cmd) a = traffic-Moves m value p cmd
  step_leads env {m} (silence p cmd) a = silence-Moves m p cmd
  step_leads env {m} (save path) a = save-Moves m env path
  step_leads env {m} (tick w r) a = round-Leads env w (wait_leads env w r) m a
  step_leads env {m} (info request) a = info-Moves m request
  step_leads env {m} join a = join-Moves m
  step_leads env {m} (leave k) a = leave-Moves m k
  step_leads env {m} cut_off a = cut_off-Moves m

  steps_lead : (env : Env) {m n : Master} → Steps env m n → IsRegistry m → Leads m n
  steps_lead env done a = still
  steps_lead env (then_step s t) a =
      let first = steps_lead env s a in
      Moves-trans first (step_leads env t (Moves-IsRegistry first a))

  wait_leads : (env : Env) (w : Wait) → IsRun env w → WaitLeads w
  wait_leads env w (run grace killed) = record {
    in_grace = λ m a. steps_lead env (grace m) a;
    once_killed = λ m a. steps_lead env (killed m) a;
  }

-- Whatever the system does to a registry, in any order and also while a stop waits, is a sequence of moves of the
-- abstract machine.
pub Steps-Leads : (env : Env) (m n : Master) → Steps env m n → IsRegistry m → Leads m n
Steps-Leads env m n s r = steps_lead env s r

pub wait-Leads : (env : Env) (w : Wait) → IsRun env w → WaitLeads w
wait-Leads env w r = wait_leads env w r

-- In whatever order requests, goroutines, processes and telemetry act, also while a stop waits: if at
-- first no id stands twice in the map of instances, and each stands for an object in use that has
-- this id, then so it is at every later time.
pub Steps-IsRegistry : (env : Env) (m n : Master) → Steps env m n → IsRegistry m → IsRegistry n
Steps-IsRegistry env m n s r = Moves-IsRegistry (Steps-Leads env m n s r) r
