-- ===== src/State/Load/Steady.antt =====
-- internal/master/state.go: what the start of a loaded instance keeps.
use open_ctrl.Types.{Instance, Master, put, update, error}
use open_ctrl.Env.{Env}
use open_ctrl.Base.{
  ℕ, ◌+◌, ◌≤◌, ◌≡◌, refl, sym, arith, inl, inr, String, false, some, insert, lookup, lookup-insert,
  eq_iff, ==_refl, ==_iff, Bool-cases, ◌==◌,
}
use open_ctrl.Util.{reset_stopped_instance_locked, clone_tags}
use open_ctrl.Telemetry.Counter.{begin_run}
use open_ctrl.Event.Publish.{send_sse_event, publish_event}
use open_ctrl.Instance.Lifecycle.Start.{
  start_instance_locked, prepare_run, fail_without_path, fail_start, begin_process,
}
use open_ctrl.Instance.Lifecycle.Cases.{start_cases}
use open_ctrl.State.Load.{restored}

-- Two instances are configured alike, and have counted the same traffic.
pub record SameConfig (i j : Instance) : Type 0 where
  pub id : j.id ≡ i.id
  pub alias : j.alias ≡ i.alias
  pub role : j.role ≡ i.role
  pub url : j.url ≡ i.url
  pub config : j.config ≡ i.config
  pub restart : j.restart ≡ i.restart
  pub peer : j.meta.peer ≡ i.meta.peer
  pub tags : clone_tags j.meta.tags ≡ clone_tags i.meta.tags
  pub tcp_rx : j.tcp_rx.total ≡ i.tcp_rx.total
  pub tcp_tx : j.tcp_tx.total ≡ i.tcp_tx.total
  pub udp_rx : j.udp_rx.total ≡ i.udp_rx.total
  pub udp_tx : j.udp_tx.total ≡ i.udp_tx.total

pub same_config : (i : Instance) → SameConfig i i
same_config i = ground arith

pub SameConfig-trans : (i j k : Instance) → SameConfig i j → SameConfig j k → SameConfig i k
SameConfig-trans i j k p q = ground arith

prepare_run-SameConfig : (i : Instance) → SameConfig i (prepare_run i)
unfolding prepare_run begin_run
prepare_run-SameConfig i = ground arith

pub restored-SameConfig :
    (id : String) (channel : ℕ) (i : Instance) → SameConfig i (restored id channel i)
unfolding restored reset_stopped_instance_locked
restored-SameConfig id channel i = ground arith

-- `n` is `m` after work on the instance at `p` that keeps the names and all configurations.
pub record IsSteady (p : ℕ) (m n : Master) : Type 0 where
  pub names : (j : String) → lookup j n.instances ≡ lookup j m.instances
  pub same : (q : ℕ) → SameConfig (m.heap q) (n.heap q)
  pub fresh : m.fresh ≤ n.fresh

put-SameConfig :
    (p : ℕ) (i : Instance) (m : Master)
    → SameConfig (m.heap p) i
    → (q : ℕ) → SameConfig (m.heap q) ((put p i m).heap q)
put-SameConfig p i m s q = elim (Bool-cases (p == q)) [
  | inl e ↦ rw (sym ((==_iff p q).0 e), ==_refl p) s
  | inr e ↦ rw e (same_config (m.heap q))
]

module _ (p : ℕ) (m : Master) (own : lookup (m.heap p).id m.instances ≡ some p) where
  -- The instance is already stored under its id.
  stored_again : (j : String) → lookup j (insert (m.heap p).id p m.instances) ≡ lookup j m.instances
  stored_again j =
      ground (arith, lookup-insert (m.heap p).id j p m.instances, eq_iff (m.heap p).id j, own)

  -- A step that writes the instance and stores it again.
  rewritten :
      (i : Instance)
      → SameConfig (m.heap p) i
      → (j : String)
      → lookup j (insert ((put p i m).heap p).id p m.instances) ≡ lookup j m.instances
  rewritten i s j = rw (==_refl p, s.id) (stored_again j)

  begin_process-IsSteady : (pid : ℕ) → IsSteady p m (begin_process pid p (prepare_run (m.heap p)) m)
  unfolding begin_process send_sse_event publish_event
  begin_process-IsSteady pid =
      let s = prepare_run-SameConfig (m.heap p) in
      record {
        names = rewritten _ (ground arith);
        same = put-SameConfig p _ m (ground arith);
        fresh = omega arith;
      }

  unfit-IsSteady : IsSteady p m (
      send_sse_event update p
        (put p (record (m.heap p) { status = error; runtime_failure = false }) m))
  unfolding send_sse_event publish_event
  unfit-IsSteady = record {
    names = λ j. refl;
    same = put-SameConfig p _ m (ground arith);
    fresh = omega arith;
  }

  fail_without_path-IsSteady : IsSteady p m (fail_without_path p (prepare_run (m.heap p)) m)
  unfolding fail_without_path send_sse_event publish_event
  fail_without_path-IsSteady =
      let s = prepare_run-SameConfig (m.heap p) in
      record {
        names = rewritten _ (ground arith);
        same = put-SameConfig p _ m (ground arith);
        fresh = omega arith;
      }

  fail_start-IsSteady :
      (context : ℕ)
      → IsSteady p m
          (fail_start context p (prepare_run (m.heap p)) (record m { fresh = m.fresh + 1 }))
  unfolding fail_start send_sse_event publish_event
  fail_start-IsSteady context =
      let s = prepare_run-SameConfig (m.heap p) in
      record {
        names = rewritten _ (ground arith);
        same = put-SameConfig p _ m (ground arith);
        fresh = omega arith;
      }

  pub start-IsSteady : (env : Env) → IsSteady p m (start_instance_locked env p m)
  start-IsSteady env =
      start_cases (IsSteady p m) env p m
        (record { names = λ j. refl; same = λ q. same_config (m.heap q); fresh = omega arith })
        (λ _ _. unfit-IsSteady) (λ _. fail_without_path-IsSteady) (λ _. fail_start-IsSteady m.fresh)
        (λ pid _ _. begin_process-IsSteady pid)
