-- ===== src/System/Closed.antt =====
-- internal/master/rest.go and periodic.go: whatever is asked of a server that closes, an instance
-- of the map is held.
pub mod Runs
use open_ctrl.Types.{stopped, Instance, Master, put}
use open_ctrl.Env.{Env, Wait}
use open_ctrl.Base.{
  ℕ, ◌<◌, ◌≡◌, ◌≢◌, ◌∙◌, ap, sym, refl, arith, inl, inr, ◌⊎◌, String, Bool, true, false, Bool-cases,
  Option, none, some, List, [], ◌∷◌, if_cases, ◌==◌, ==_iff, ==_refl, Option-cases, if◌then◌else◌,
  lookup, insert, erase, lookup-insert, lookup-erase, eq_iff, str_eq, subst, not, ◌&&◌,
}
use open_ctrl.Event.Publish.{send_sse_event, publish_event}
use open_ctrl.State.Save.{save_state_async}
use open_ctrl.Instance.Snapshot.{current_instance, find_instance}
use open_ctrl.Instance.Lifecycle.Start.{start_instance_locked, store, normalize_instance_url}
use open_ctrl.Instance.Lifecycle.Stop.{stop_instance_locked, finish_stop}
use open_ctrl.Instance.Lifecycle.Consistent.{is_running}
use open_ctrl.Instance.Lifecycle.Ending.{stop_stops}
use open_ctrl.Instance.Lifecycle.Monitor.{restart_failed_instance, points_to, needs_restart}
use open_ctrl.Rest.Common.{Response, api_key_id, still_stored, http_error}
use open_ctrl.Rest.Cases.{points, detail_cases}
use open_ctrl.Rest.Modify.{Method, handle_instance_detail, replace_url, remove_instance}
use open_ctrl.Instance.Lifecycle.Monitor.{restart_instance}
use open_ctrl.Instance.Lifecycle.Start.{start_instance}
use open_ctrl.Instance.Lifecycle.Stop.{stop_instance}
use open_ctrl.Periodic.{periodic_round, restart_all}
use open_ctrl.Registry.{Move, quiet, edit, keep, again, forget, make, Moves, still, also}
use open_ctrl.Registry.Laws.{
  IsRegistry, Follows, Moves-trans, Moves-IsRegistry, Moves-Follows, Moves-stay,
}
use open_ctrl.Registry.Lifecycle.{
  Leads, WaitLeads, stop-Leads, restart_failed-Leads, monitor-Moves, write_log-Moves, current-bound,
}
use open_ctrl.Registry.Requests.{
  replace_url-Answers, remove_instance-Answers, patch_api_key-Turns, commit_patch-Turns,
  create-Moves,
}
use open_ctrl.System.{
  tick, info, join, leave, Step, detail, create, start, stop, restart, retry, monitor, output,
  hello, traffic, silence, save, cut_off, Steps, done, then_step, IsRun, run,
}
use open_ctrl.System.Moves.{
  hello-Moves, traffic-Moves, silence-Moves, save-Moves, info-Moves, join-Moves, leave-Moves,
  cut_off-Moves, wait-Leads, Steps-IsRegistry,
}
use open_ctrl.System.Held.{
  IsHeld, WaitHolds, IsOther, follow, quiet-IsHeld, store-apart, start-closed, apart, stop-IsOther,
  other-follows, stop-IsHeld, again-IsHeld,
}

-- The state in which `remove_instance` stops an instance.
abbrev marked : String → ℕ → Master → Master
marked id q m = record (put q (record (m.heap q) { deleted = true }) m) {
  instances = insert id q m.instances;
}

marked-Moves :
    {S : ℕ → Type 0} {F : String → Type 0} (id : String) (q : ℕ) (m : Master)
    → lookup id m.instances ≡ some q
    → Moves S F m (marked id q m)
marked-Moves id q m c =
    also (also still (edit q (record (m.heap q) { deleted = true }) refl (λ d s. s) (λ d. refl)))
      (again id q c)

module _ (env : Env) (i : String) (p : ℕ) (w : Wait) (k : WaitLeads w) (h : WaitHolds i p w)
    (m : Master) (r : IsRegistry m) (held : IsHeld i p m) where
  -- The object is another one: so it stays, while it is stopped.
  other :
      (q : ℕ)
      → lookup (m.heap q).id m.instances ≡ some q
      → lookup i m.instances ≡ some p
      → (q == p) ≡ false
      → IsOther i p q m
  other q c e s = record {
    held = held;
    registry = r;
    used = (r.named (m.heap q).id q c).1;
    apart = apart env i p w k h q m (inl c) e s;
  }

  abbrev replaced : (role url : String) → ℕ → Master
  replaced role url q =
      let n : Master = stop_instance_locked env w q m in
      store q (put q (record (n.heap q) { url = url; role = role; mode = 0; status = stopped }) n)

  replaced_held :
      (role url : String) (q : ℕ)
      → lookup (m.heap q).id m.instances ≡ some q
      → lookup i m.instances ≡ some p
      → (lookup i (replaced role url q).instances ≡ some p)
        ⊎ (is_running ((replaced role url q).heap p).status ≡ false)
  replaced_held role url q c e = elim (Bool-cases (q == p)) [
    | inl s ↦ inr (rw s refl)
    | inr s ↦
        let n : Master = stop_instance_locked env w q m in
        let o = stop-IsOther env i p w k h q m (other q c e s) in
        let inst : Instance = record (n.heap q) {
          url = url;
          role = role;
          mode = 0;
          status = stopped;
        } in
        elim o.held.held [
          | inl e' ↦ inl (store-apart i p q (put q inst n) (rw (==_refl q) (o.apart)) e')
          | inr t ↦ inr (rw s t)
        ]
  ]

  replace_url-IsHeld :
      (role url : String) (q : ℕ)
      → lookup (m.heap q).id m.instances ≡ some q
      → IsHeld i p (replace_url env w role url q m).1
  unfolding replace_url save_state_async
  replace_url-IsHeld role url q c =
      let done = stop-IsHeld env i p w k h q m r (r.named (m.heap q).id q c).1 (inl c) held in
      follow i p m _
        (Moves-Follows (replace_url-Answers env w k m r role url q (r.named (m.heap q).id q c).1))
        held
        λ e.
          rw (start-closed env q (replaced role url q) done.closed) (replaced_held role url q c e)

  own_id :
      (id : String) (q : ℕ)
      → lookup id m.instances ≡ some q
      → lookup (m.heap q).id m.instances ≡ some q
  own_id id q c = ap (λ j. lookup j m.instances) (r.named id q c).0 ∙ c

  -- Another object that is marked and stopped, and then leaves the map.
  erased_held :
      (id : String) (q : ℕ)
      → lookup id m.instances ≡ some q
      → lookup i m.instances ≡ some p
      → (q == p) ≡ false
      → (lookup i (erase id (stop_instance_locked env w q (marked id q m)).instances) ≡ some p)
        ⊎ (is_running ((stop_instance_locked env w q (marked id q m)).heap p).status ≡ false)
  erased_held id q c e s =
      let away = (other q (own_id id q c) e s).apart in
      let o =
        other-follows i p q m _ (other q (own_id id q c) e s) (marked-Moves id q m c)
          (quiet-IsHeld i p (marked-Moves id q m c) held) in
      let after : Master = stop_instance_locked env w q (marked id q m) in
      elim (stop-IsOther env i p w k h q _ o).held.held [
        | inr t ↦ inr t
        | inl e' ↦ elim (Bool-cases (str_eq id i)) [
          | inl t ↦ absurd (away ((r.named id q c).0 ∙ (eq_iff id i).0 t))
          | inr t ↦ inl (rw (lookup-erase id i after.instances, t) e')
        ]
      ]

  remove_instance-IsHeld :
      (id : String) (q : ℕ)
      → lookup id m.instances ≡ some q
      → IsHeld i p (remove_instance env w id q m).1
  unfolding remove_instance save_state_async send_sse_event publish_event
  remove_instance-IsHeld id q c =
      follow i p m _ (Moves-Follows (remove_instance-Answers env w k m r id q c)) held λ e.
        elim (Bool-cases (q == p)) [
          | inl s ↦ inr (
              subst
                (λ j.
                  is_running ((stop_instance_locked env w q (marked id q m)).heap j).status ≡ false)
                ((==_iff q p).0 s) (ap is_running (stop_stops env w q (marked id q m))))
          | inr s ↦ erased_held id q c e s
        ]

  -- A request for an instance, while the server closes.
  pub detail-IsHeld :
      (random : List ℕ) (method : Method) (id : String)
      → IsHeld i p (handle_instance_detail env w random method id m).1
  detail-IsHeld =
      detail_cases (IsHeld i p) env w m held
        (λ random req q c. quiet-IsHeld i p (patch_api_key-Turns random req q m c) held)
        (λ req id q c. quiet-IsHeld i p (commit_patch-Turns req id q m c) held)
        (λ role url id q c. replace_url-IsHeld role url q (own_id id q c)) remove_instance-IsHeld

  -- A restart of a failed instance, while the server closes.
  pub restart_failed-IsHeld : (q : ℕ) → IsHeld i p (restart_failed_instance env w q m)
  unfolding restart_failed_instance
  restart_failed-IsHeld q =
      if_cases (IsHeld i p)
        (points_to (lookup (m.heap q).id m.instances) q && needs_restart (m.heap q)) _ _
        (λ e.
          let c = points (lookup (m.heap q).id m.instances) q (ground (arith, e)) in
          again-IsHeld env i p w k h q m r (r.named (m.heap q).id q c).1 (inl c) held)
        (λ _. held)
