-- ===== src/System/Closed/Runs.antt =====
-- Every step of a system whose server closes holds an instance of the map.
use open_ctrl.Types.{Master}
use open_ctrl.Env.{Env, Wait}
use open_ctrl.Base.{
  ℕ, ◌<◌, ◌≡◌, ◌∙◌, ap, inl, inr, ◌⊎◌, String, none, some, List, [], ◌∷◌, Option-cases, lookup,
}
use open_ctrl.Instance.Snapshot.{current_instance}
use open_ctrl.Instance.Lifecycle.Monitor.{restart_instance}
use open_ctrl.Instance.Lifecycle.Start.{start_instance}
use open_ctrl.Instance.Lifecycle.Stop.{stop_instance}
use open_ctrl.Periodic.{periodic_round, restart_all}
use open_ctrl.Registry.Laws.{IsRegistry, Moves-IsRegistry}
use open_ctrl.Registry.Lifecycle.{
  WaitLeads, restart_failed-Leads, monitor-Moves, write_log-Moves, current-bound,
}
use open_ctrl.Registry.Requests.{create-Moves}
use open_ctrl.System.Closed.{detail-IsHeld, restart_failed-IsHeld}
use open_ctrl.System.{
  tick, info, join, leave, Step, detail, create, start, stop, restart, retry, monitor, output,
  hello, traffic, silence, save, cut_off, Steps, done, then_step, IsRun, run,
}
use open_ctrl.System.Moves.{
  hello-Moves, traffic-Moves, silence-Moves, save-Moves, info-Moves, join-Moves, leave-Moves,
  cut_off-Moves, wait-Leads, Steps-IsRegistry,
}
use open_ctrl.System.Held.{IsHeld, WaitHolds, quiet-IsHeld, start-closed, stop-IsHeld, again-IsHeld}

module _ (env : Env) (i : String) (p : ℕ) (w : Wait) (k : WaitLeads w) (h : WaitHolds i p w) where
  restart_all-IsHeld :
      (qs : List ℕ) (m : Master) → IsRegistry m → IsHeld i p m → IsHeld i p (restart_all env w qs m)
  unfolding restart_all
  restart_all-IsHeld [] m r held = held
  restart_all-IsHeld (q ∷ qs) m r held =
      restart_all-IsHeld qs _ (Moves-IsRegistry (restart_failed-Leads env w k q m r) r)
        (restart_failed-IsHeld env i p w k h m r held q)

  round-IsHeld : (m : Master) → IsRegistry m → IsHeld i p m → IsHeld i p (periodic_round env w m)
  unfolding periodic_round
  round-IsHeld m r held =
      restart_all-IsHeld _ _
        (Moves-IsRegistry {Stores = λ _. ⊥} {Forgets = λ _. ⊥} (save-Moves m env _) r)
        (quiet-IsHeld i p (save-Moves m env _) held)

  current_cases :
      (q : ℕ) (m : Master)
      → IsRegistry m
      → q < m.fresh
      → (lookup (m.heap (current_instance q m)).id m.instances ≡ some (current_instance q m))
        ⊎ (lookup (m.heap (current_instance q m)).id m.instances ≡ none)
  unfolding current_instance
  current_cases q m r b = elim (Option-cases (lookup (m.heap q).id m.instances)) [
    | inl e ↦ rw (current_instance, e) (inr e)
    | inr (o, e) ↦
        rw (current_instance, e)
          (inl (ap (λ j. lookup j m.instances) (r.named (m.heap q).id o e).0 ∙ e))
  ]

mutual
  unfolding start_instance stop_instance restart_instance

  step_holds :
      (env : Env) (i : String) (p : ℕ) {m n : Master}
      → Step env m n
      → IsRegistry m
      → IsHeld i p m
      → IsHeld i p n
  step_holds env i p {m} (detail w r random method id) a h =
      detail-IsHeld env i p w (wait-Leads env w r) (wait_holds env i p w r) m a h random method id
  step_holds env i p {m} (create random request) a h =
      quiet-IsHeld i p (create-Moves env random request m) h
  step_holds env i p {m} (start q b) a h = rw (start-closed env (current_instance q m) m h.closed) h
  step_holds env i p {m} (stop w r q b) a h =
      stop-IsHeld env i p w (wait-Leads env w r) (wait_holds env i p w r) (current_instance q m) m a
        (current-bound q m a b)
        (current_cases env i p w (wait-Leads env w r) (wait_holds env i p w r) q m a b) h
  step_holds env i p {m} (restart w r q b) a h =
      again-IsHeld env i p w (wait-Leads env w r) (wait_holds env i p w r) (current_instance q m) m
        a (current-bound q m a b)
        (current_cases env i p w (wait-Leads env w r) (wait_holds env i p w r) q m a b) h
  step_holds env i p {m} (retry w r q) a h =
      restart_failed-IsHeld env i p w (wait-Leads env w r) (wait_holds env i p w r) m a h q
  step_holds env i p {m} (monitor exit q cmd stopped_ch exited_ch stdout stderr) a h =
      quiet-IsHeld i p (monitor-Moves env exit q cmd stopped_ch exited_ch stdout stderr) h
  step_holds env i p {m} (output bytes out q cmd) a h =
      quiet-IsHeld i p (write_log-Moves bytes out q cmd) h
  step_holds env i p {m} (hello id q cmd) a h = quiet-IsHeld i p (hello-Moves m id q cmd) h
  step_holds env i p {m} (traffic value q cmd) a h =
      quiet-IsHeld i p (traffic-Moves m value q cmd) h
  step_holds env i p {m} (silence q cmd) a h = quiet-IsHeld i p (silence-Moves m q cmd) h
  step_holds env i p {m} (save path) a h = quiet-IsHeld i p (save-Moves m env path) h
  step_holds env i p {m} (tick w r) a h =
      round-IsHeld env i p w (wait-Leads env w r) (wait_holds env i p w r) m a h
  step_holds env i p {m} (info request) a h = quiet-IsHeld i p (info-Moves m request) h
  step_holds env i p {m} join a h = quiet-IsHeld i p (join-Moves m) h
  step_holds env i p {m} (leave k) a h = quiet-IsHeld i p (leave-Moves m k) h
  step_holds env i p {m} cut_off a h = quiet-IsHeld i p (cut_off-Moves m) h

  steps_hold :
      (env : Env) (i : String) (p : ℕ) {m n : Master}
      → Steps env m n
      → IsRegistry m
      → IsHeld i p m
      → IsHeld i p n
  steps_hold env i p done a h = h
  steps_hold env i p {m} (then_step {n} s t) a h =
      step_holds env i p t (Steps-IsRegistry env m n s a) (steps_hold env i p s a h)

  wait_holds : (env : Env) (i : String) (p : ℕ) (w : Wait) → IsRun env w → WaitHolds i p w
  wait_holds env i p w (run grace killed) = record {
    in_grace = λ m a h. steps_hold env i p (grace m) a h;
    once_killed = λ m a h. steps_hold env i p (killed m) a h;
  }

-- While a server closes, an instance that the map holds stays in it under its id, whatever steps the system takes,
-- until it is stopped.
pub Steps-IsHeld :
    (env : Env) (i : String) (p : ℕ) (m n : Master)
    → Steps env m n
    → IsRegistry m
    → IsHeld i p m
    → IsHeld i p n
Steps-IsHeld env i p m n s r h = steps_hold env i p s r h

pub wait-Holds : (env : Env) (i : String) (p : ℕ) (w : Wait) → IsRun env w → WaitHolds i p w
wait-Holds env i p w r = wait_holds env i p w r
