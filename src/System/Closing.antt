-- ===== src/System/Closing.antt =====
-- internal/master/master.go: `shutdown` in the system.
use mathlib.Core.List.{Memᴰ}
use open_ctrl.Types.{Master}
use open_ctrl.Env.{Env}
use open_ctrl.Base.{
  ℕ, ◌<◌, ◌≡◌, ◌∙◌, inl, inr, ap, refl, arith, String, true, none, some, List, [], ◌∷◌, All, Has,
  subst, lookup, lookup_of_Has, Bool-cases,
}
use open_ctrl.State.Save.{save_state, main}
use open_ctrl.Instance.Snapshot.{current_instance}
use open_ctrl.Instance.Lifecycle.Stop.{stop_instance}
use open_ctrl.Instance.Lifecycle.Consistent.{AllConsistent, is_running}
use open_ctrl.Instance.Lifecycle.Ending.{stop_stops}
use open_ctrl.Server.Shutdown.{
  Meanwhile, should_stop, stop_all, to_stop, stopped_state, kept_state, shutdown,
}
use open_ctrl.Server.Shutdown.Keep.{IsIdle}
use open_ctrl.Server.Shutdown.Stops.{idle_of_not_stop, to_stop-All, to_stop-Mem}
use open_ctrl.Registry.Laws.{IsRegistry, Moves-Follows}
use open_ctrl.System.{Steps, done, then_step, stop, save, cut_off, IsRun}
use open_ctrl.System.Invariant.{Steps-AllConsistent}
use open_ctrl.System.Moves.{Steps-Leads, Steps-IsRegistry}
use open_ctrl.System.Held.{IsHeld}
use open_ctrl.System.Closed.Runs.{Steps-IsHeld}
use open_ctrl.System.Telemetry.{Steps-trans}

-- What the other goroutines do during the shutdown are steps of the system.
pub record IsOrderly (env : Env) (w : Meanwhile) : Type 0 where
  pub before : (p : ℕ) (m : Master) → Steps env m (w.before p m)
  pub wait : (p : ℕ) → IsRun env (w.wait p)
  pub unsaved : (m : Master) → Steps env m (w.unsaved m)
  pub saved : (m : Master) → Steps env m (w.saved m)
  pub cut : (m : Master) → Steps env m (w.cut m)

current-own :
    (p : ℕ) (m : Master) → lookup (m.heap p).id m.instances ≡ some p → current_instance p m ≡ p
unfolding current_instance
current-own p m h = rw (current_instance, h) refl

module _ (env : Env) (w : Meanwhile) (o : IsOrderly env w) where
  -- The goroutine that stops one instance, with what comes before it.
  abbrev one : ℕ → Master → Master
  one p m = stop_instance env (w.wait p) p (w.before p m)

  one-Steps : (p : ℕ) (m : Master) → IsRegistry m → p < m.fresh → Steps env m (one p m)
  one-Steps p m r b =
      let f = Moves-Follows (Steps-Leads env m (w.before p m) (o.before p m) r) in
      then_step (o.before p m) (stop (w.wait p) (o.wait p) p (omega (arith, b, f.fresh)))

  later :
      (p : ℕ) (m : Master) (ps : List ℕ)
      → IsRegistry m
      → p < m.fresh
      → All (λ q. q < m.fresh) ps
      → All (λ q. q < (one p m).fresh) ps
  later p m [] r b h = tt
  later p m (q ∷ qs) r b (h, hs) =
      let f = Moves-Follows (Steps-Leads env m (one p m) (one-Steps p m r b) r) in
      (omega (arith, h, f.fresh), later p m qs r b hs)

  pub stop_all-Steps :
      (ps : List ℕ) (m : Master)
      → IsRegistry m
      → All (λ q. q < m.fresh) ps
      → Steps env m (stop_all env w ps m)
  unfolding stop_all
  stop_all-Steps [] m r h = done
  stop_all-Steps (p ∷ ps) m r (b, h) =
      let first = one-Steps p m r b in
      Steps-trans first
        (stop_all-Steps ps _ (Steps-IsRegistry env m _ first r) (later p m ps r b h))

  -- The stop of an instance that is held ends it.
  one-stops : (i : String) (p : ℕ) (m : Master) → IsRegistry m → IsHeld i p m → IsIdle p (one p m)
  unfolding stop_instance
  one-stops i p m r h =
      let n : Master = w.before p m in
      let held = Steps-IsHeld env i p m n (o.before p m) r h in
      elim held.held [
        | inl e ↦
            rw (current-own p n (ap (λ j. lookup j n.instances) held.named ∙ e))
              (ap is_running (stop_stops env (w.wait p) p n))
        | inr s ↦
            (Moves-Follows (
                Steps-Leads env n (one p m)
                  (then_step done (stop (w.wait p) (o.wait p) p held.used))
                  (Steps-IsRegistry env m n (o.before p m) r))).calm
              held.closed p held.used s
      ]

  -- What does not run, once the server closes, does not run at any later time.
  rests_later :
      (i : String) (p : ℕ) (m n : Master)
      → IsRegistry m
      → IsHeld i p m
      → Steps env m n
      → IsIdle p m
      → IsIdle p n
  rests_later i p m n r h s idle =
      (Moves-Follows (Steps-Leads env m n s r)).calm h.closed p h.used idle

  all_stopped :
      (i : String) (p : ℕ) (ps : List ℕ) (m : Master)
      → IsRegistry m
      → All (λ q. q < m.fresh) ps
      → IsHeld i p m
      → Memᴰ p ps
      → IsIdle p (stop_all env w ps m)
  unfolding stop_all
  all_stopped i p [] m r b h e = elim e [ ]
  all_stopped i p (q ∷ qs) m r (b, bs) h (Memᴰ.head e) =
      let first = one-Steps q m r b in
      let registry = Steps-IsRegistry env m _ first r in
      rests_later i p (one q m) _ registry (Steps-IsHeld env i p m _ first r h)
        (stop_all-Steps qs _ registry (later q m qs r b bs))
        (subst (λ k. IsIdle p (one k m)) e (one-stops i p m r h))
  all_stopped i p (q ∷ qs) m r (b, bs) h (Memᴰ.tail e) =
      let first = one-Steps q m r b in
      all_stopped i p qs (one q m) (Steps-IsRegistry env m _ first r) (later q m qs r b bs)
        (Steps-IsHeld env i p m _ first r h) e

  module _ (m : Master) (r : IsRegistry m) where
    abbrev closed : Master
    closed = record m { periodic_done = true }

    pub closed-IsRegistry : IsRegistry closed
    closed-IsRegistry = record { unique = r.unique; named = r.named }

    pub used : All (λ q. q < m.fresh) (to_stop closed m.instances)
    used =
        to_stop-All (λ q. q < m.fresh) closed m.instances
          (λ id p h. (r.named id p (lookup_of_Has id p m.instances r.unique h)).1)

    abbrev all_stops : Master
    all_stops = stop_all env w (to_stop closed m.instances) closed

    all_stops-Steps : Steps env closed all_stops
    all_stops-Steps = stop_all-Steps (to_stop closed m.instances) closed closed-IsRegistry used

    -- What follows the stops.
    ending-Steps : Steps env all_stops (shutdown env w m).0
    unfolding shutdown kept_state stopped_state save_state
    ending-Steps =
        Steps-trans
          (then_step (Steps-trans (then_step (o.unsaved all_stops) (save main)) (o.saved _))
            cut_off)
          (o.cut _)

    pub stopped_state-Steps : Steps env closed (stopped_state env w m)
    unfolding stopped_state
    stopped_state-Steps = Steps-trans all_stops-Steps (o.unsaved all_stops)

    -- Once periodicDone is closed, a shutdown is a sequence of steps.
    pub shutdown-Steps : Steps env closed (shutdown env w m).0
    shutdown-Steps = Steps-trans all_stops-Steps ending-Steps

    -- After a shutdown that ends before its deadline, no instance that the map held when it began runs or has a process, whichever
    -- processes exit in time, and whatever requests, goroutines, processes and telemetry do before its
    -- end, in any order. Conditions: the map is a registry and the instances are consistent,
    -- which they are in every state that the system reaches from such a one.
    pub shutdown_ends :
        AllConsistent m
        → (id : String) (p : ℕ) → Has (id, p) m.instances
        → IsIdle p (shutdown env w m).0 × (((shutdown env w m).0.heap p).cmd ≡ none)
    shutdown_ends a id p h =
        let found = lookup_of_Has id p m.instances r.unique h in
        let held : IsHeld id p closed = record {
          closed = refl;
          used = (r.named id p found).1;
          named = (r.named id p found).0;
          held = inl found;
        } in
        let idle : IsIdle p all_stops = elim (Bool-cases (should_stop (m.heap p))) [
          | inl e ↦
              all_stopped id p (to_stop closed m.instances) closed closed-IsRegistry used held
                (to_stop-Mem closed m.instances id p e h)
          | inr e ↦
              rests_later id p closed all_stops closed-IsRegistry held all_stops-Steps
                (idle_of_not_stop (m.heap p) (a p) e)
        ] in
        let still : IsIdle p (shutdown env w m).0 =
          rests_later id p all_stops _
            (Steps-IsRegistry env closed _ all_stops-Steps closed-IsRegistry)
            (Steps-IsHeld env id p closed _ all_stops-Steps closed-IsRegistry held) ending-Steps
            idle in
        let after = Steps-AllConsistent env closed (shutdown env w m).0 shutdown-Steps a in
        (still, ((after p).idle still).0)
