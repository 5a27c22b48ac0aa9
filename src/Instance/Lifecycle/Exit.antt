-- ===== src/Instance/Lifecycle/Exit.antt =====
-- internal/master/instance.go: what the exit of a process does to its instance, and what it cannot
-- do to a later run.
use mathlib.Core.Path.{subst}
use open_ctrl.Types.{stopped, error, Instance, Master}
use open_ctrl.Env.{Env}
use open_ctrl.Base.{
  ℕ, ◌≡◌, ◌⊎◌, inl, inr, refl, ap, arith, Bool, true, false, not, ◌&&◌, Option, none, some, List,
  ◌∷◌, elem, if_cases, if◌then◌else◌, ◌==◌, ==_refl,
}
use open_ctrl.Util.{reset_stopped_instance_locked}
use open_ctrl.Event.Publish.{send_sse_event, publish_event}
use open_ctrl.State.Save.{save_state, save_state_to_path}
use open_ctrl.Instance.Lifecycle.Stop.{cancel_opt}
use open_ctrl.Instance.Lifecycle.Monitor.{
  monitor_instance, record_exit, runs_cmd, succeeded, fail_exit, needs_restart,
}
use open_ctrl.Instance.Lifecycle.Cases.{monitor_cases, flushed, flushed-SameButLogs, SameButLogs}

-- The monitor of this command has nothing to say about the instance.
abbrev pub IsStale : (p cmd stopped_ch : ℕ) → Master → Type 0
IsStale p cmd stopped_ch m =
    (runs_cmd (m.heap p).cmd cmd ≡ false)
    ⊎ ((m.heap p).deleted ≡ true)
    ⊎ (elem stopped_ch m.closed ≡ true)

-- Nothing of the master changes but the queues of the subscribers and the channel `exited`.
pub record OnlyExited (exited_ch : ℕ) (m m' : Master) : Type 0 where
  pub heap : m'.heap ≡ m.heap
  pub instances : m'.instances ≡ m.instances
  pub closed : m'.closed ≡ exited_ch ∷ m.closed
  pub disk : m'.disk ≡ m.disk
  pub signals : m'.signals ≡ m.signals
  pub tasks : m'.tasks ≡ m.tasks

module _ (env : Env) (exit : Option Bool) (p cmd stopped_ch exited_ch stdout stderr : ℕ)
    (m : Master) where
  abbrev monitored : Master
  monitored = monitor_instance env exit p cmd stopped_ch exited_ch stdout stderr m

  -- The monitor of a command that the instance no longer runs, of a deleted instance, or of a run
  -- that is being stopped, leaves all instances, the files, the signals and the goroutines alone;
  -- of the channels it closes only its own, `exited`.
  pub monitor_stale : IsStale p cmd stopped_ch m → OnlyExited exited_ch m monitored
  monitor_stale h =
      let s = flushed-SameButLogs p cmd stdout stderr m in
      monitor_cases p cmd stdout stderr m (OnlyExited exited_ch m) env exit stopped_ch exited_ch
        (λ _. record {
          heap = s.heap;
          instances = s.instances;
          closed = ap (λ c. exited_ch ∷ c) s.closed;
          disk = s.disk;
          signals = s.signals;
          tasks = s.tasks;
        })
        (λ runs present opened. absurd (clash s runs present opened h))
    where
      clash :
          SameButLogs m (flushed p cmd stdout stderr m)
          → runs_cmd ((flushed p cmd stdout stderr m).heap p).cmd cmd ≡ true
          → ((flushed p cmd stdout stderr m).heap p).deleted ≡ false
          → elem stopped_ch (flushed p cmd stdout stderr m).closed ≡ false
          → IsStale p cmd stopped_ch m
          → ⊥
      clash s runs present opened (inl e) =
          cc (ap (λ (h : ℕ → Instance). runs_cmd (h p).cmd cmd) s.heap)
      clash s runs present opened (inr (inl e)) =
          cc (ap (λ (h : ℕ → Instance). (h p).deleted) s.heap)
      clash s runs present opened (inr (inr e)) =
          cc (ap (λ (c : List ℕ). elem stopped_ch c) s.closed)

-- What the exit of its process makes of an instance.
pub record Exits (exit : Option Bool) (inst inst' : Instance) : Type 0 where
  pub status : inst'.status ≡ (if succeeded exit then stopped else error)
  pub failure : inst'.runtime_failure ≡ not (succeeded exit)
  pub retried : needs_restart inst' ≡ inst.restart && not (succeeded exit)
  pub no_process : inst'.cmd ≡ none
  pub traffic :
      (inst'.tcp_rx ≡ inst.tcp_rx)
      × (inst'.tcp_tx ≡ inst.tcp_tx)
      × (inst'.udp_rx ≡ inst.udp_rx)
      × (inst'.udp_tx ≡ inst.udp_tx)

reset-Exits :
    (exit : Option Bool) (ch : ℕ) (inst : Instance)
    → succeeded exit ≡ true
    → Exits exit inst (reset_stopped_instance_locked ch inst)
unfolding reset_stopped_instance_locked
reset-Exits exit ch inst s = record {
  status = rw s;
  failure = rw s;
  retried = ground arith;
  no_process = refl;
  traffic = (refl, refl, refl, refl);
}

fail-Exits :
    (exit : Option Bool) (inst : Instance)
    → inst.deleted ≡ false
    → succeeded exit ≡ false
    → Exits exit inst (fail_exit inst)
unfolding fail_exit
fail-Exits exit inst d s = record {
  status = rw s;
  failure = rw s;
  retried = ground arith;
  no_process = refl;
  traffic = (refl, refl, refl, refl);
}

heap-cancel_opt : (o : Option ℕ) (m : Master) → (cancel_opt o m).heap ≡ m.heap
heap-cancel_opt none m = refl
heap-cancel_opt (some c) m = refl

module _ (env : Env) (exit : Option Bool) (p : ℕ) (m : Master) where
  heap-record_exit :
      (q : ℕ)
      → (record_exit env exit p m).heap q ≡ (
          if p == q
          then (if succeeded exit
              then reset_stopped_instance_locked m.fresh (m.heap p)
              else fail_exit (m.heap p))
          else m.heap q)
  unfolding record_exit send_sse_event publish_event save_state save_state_to_path
  heap-record_exit q = ap (λ (h : ℕ → Instance). h q) (heap-cancel_opt (m.heap p).cancel_func _)

  record_exit-Exits :
      (m.heap p).deleted ≡ false → Exits exit (m.heap p) ((record_exit env exit p m).heap p)
  record_exit-Exits d = rw (heap-record_exit p) (
      rw (==_refl p) (
        if_cases (Exits exit (m.heap p)) (succeeded exit) _ _ (reset-Exits exit m.fresh (m.heap p))
          (fail-Exits exit (m.heap p) d)))

module _ (env : Env) (exit : Option Bool) (p cmd stopped_ch exited_ch stdout stderr : ℕ)
    (m : Master) where
  -- If the process of an instance that is neither deleted nor being stopped exits, then with
  -- success the instance is stopped, else it is in error; it is eligible for a restart if and only
  -- if the process failed and the restart policy says so; it has no process any more, and its
  -- traffic is kept.
  pub monitor_current :
      runs_cmd (m.heap p).cmd cmd ≡ true
      → (m.heap p).deleted ≡ false
      → elem stopped_ch m.closed ≡ false
      → Exits exit
          (m.heap p)
          ((monitor_instance env exit p cmd stopped_ch exited_ch stdout stderr m).heap p)
  monitor_current runs present opened =
      let s = flushed-SameButLogs p cmd stdout stderr m in
      let same : (flushed p cmd stdout stderr m).heap p ≡ m.heap p =
        ap (λ (h : ℕ → Instance). h p) s.heap in
      monitor_cases p cmd stdout stderr m (λ n. Exits exit (m.heap p) (n.heap p)) env exit
        stopped_ch exited_ch
        (λ no_guard. absurd (cc (no_guard, ap (λ (i : Instance). runs_cmd i.cmd cmd) same)))
        (λ _ d _.
          subst
            (λ i. Exits exit i ((record_exit env exit p (flushed p cmd stdout stderr m)).heap p))
            same (record_exit-Exits env exit p (flushed p cmd stdout stderr m) d))
