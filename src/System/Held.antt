-- ===== src/System/Held.antt =====
-- internal/master/master.go: an instance of the map, once the server closes: until it is stopped it
-- stays in the map, so that its stop finds it.
use open_ctrl.Types.{Master}
use open_ctrl.Env.{Env, Wait}
use open_ctrl.Base.{
  ℕ, ◌<◌, ◌≡◌, ◌≢◌, ◌∙◌, ap, sym, refl, arith, inl, inr, ◌⊎◌, String, true, false, Bool-cases, none,
  some, ◌==◌, ==_iff, lookup, lookup-insert, eq_iff, str_eq, subst,
}
use open_ctrl.Instance.Lifecycle.Start.{start_instance_locked, store}
use open_ctrl.Instance.Lifecycle.Stop.{stop_instance_locked, finish_stop}
use open_ctrl.Instance.Lifecycle.Consistent.{is_running}
use open_ctrl.Instance.Lifecycle.Ending.{stop_stops}
use open_ctrl.Server.Shutdown.Keep.{stop-keeps, finish-instances}
use open_ctrl.Registry.{quiet, Moves, still, also}
use open_ctrl.Registry.Laws.{IsRegistry, Follows, Moves-IsRegistry, Moves-Follows, Moves-stay}
use open_ctrl.Registry.Lifecycle.{Leads, WaitLeads, stop-Leads, finish-Leads}

-- The instance at `p` stands in the map under the id `i`, or does not run.
pub record IsHeld (i : String) (p : ℕ) (m : Master) : Type 0 where
  pub closed : m.periodic_done ≡ true
  pub used : p < m.fresh
  pub named : (m.heap p).id ≡ i
  pub held : (lookup i m.instances ≡ some p) ⊎ (is_running (m.heap p).status ≡ false)

module _ (i : String) (p : ℕ) where
  -- What follows a state in which the instance is held.
  pub follow :
      (m n : Master)
      → Follows m n
      → IsHeld i p m
      → ((lookup i m.instances ≡ some p)
          → (lookup i n.instances ≡ some p) ⊎ (is_running (n.heap p).status ≡ false))
      → IsHeld i p n
  follow m n f h own = record {
    closed = f.closed ∙ h.closed;
    used = omega (arith, f.fresh, h.used);
    named = f.ids p h.used ∙ h.named;
    held = elim h.held [ inl e ↦ own e | inr s ↦ inr (f.calm h.closed p h.used s) ];
  }

  pub quiet-IsHeld : {m n : Master} → Moves (λ _. ⊥) (λ _. ⊥) m n → IsHeld i p m → IsHeld i p n
  quiet-IsHeld {m} {n} a h = follow m n (Moves-Follows a) h (λ e. inl (Moves-stay a i p e))

  -- What happens during a stop leaves the instance held.
  pub record WaitHolds (w : Wait) : Type 0 where
    pub in_grace : (m : Master) → IsRegistry m → IsHeld i p m → IsHeld i p (w.grace m)
    pub once_killed : (m : Master) → IsRegistry m → IsHeld i p m → IsHeld i p (w.killed m)

  -- Another object, by another id.
  pub record IsOther (q : ℕ) (m : Master) : Type 0 where
    pub held : IsHeld i p m
    pub registry : IsRegistry m
    pub used : q < m.fresh
    pub apart : (m.heap q).id ≢ i

  pub other-follows : (q : ℕ) (m n : Master) → IsOther q m → Leads m n → IsHeld i p n → IsOther q n
  other-follows q m n o a h =
      let f = Moves-Follows a in
      record {
        held = h;
        registry = Moves-IsRegistry a o.registry;
        used = omega (arith, o.used, f.fresh);
        apart = λ e. o.apart (sym (f.ids q o.used) ∙ e);
      }

  -- Storing an object under another id leaves the map where the instance stands.
  pub store-apart :
      (q : ℕ) (m : Master)
      → (m.heap q).id ≢ i
      → lookup i m.instances ≡ some p
      → lookup i (store q m).instances ≡ some p
  store-apart q m n e = elim (Bool-cases (str_eq (m.heap q).id i)) [
    | inl s ↦ absurd (n ((eq_iff (m.heap q).id i).0 s))
    | inr s ↦ rw (lookup-insert (m.heap q).id i q m.instances, s) e
  ]

-- A server that closes starts nothing.
pub start-closed :
    (env : Env) (q : ℕ) (m : Master) → m.periodic_done ≡ true → start_instance_locked env q m ≡ m
unfolding start_instance_locked
start-closed env q m e = rw e refl

module _ (env : Env) (i : String) (p : ℕ) (w : Wait) (k : WaitLeads w) (h : WaitHolds i p w) where
  finish-IsOther : (q : ℕ) (m : Master) → IsOther i p q m → IsOther i p q (finish_stop q m)
  finish-IsOther q m o =
      let ended = finish-Leads q m o.used in
      other-follows i p q m _ o ended (
        follow i p m _ (Moves-Follows ended) o.held
          (λ e. inl (rw (finish-instances q m) (store-apart i p q m o.apart e))))

  pub stop-IsOther :
      (q : ℕ) (m : Master) → IsOther i p q m → IsOther i p q (stop_instance_locked env w q m)
  stop-IsOther q m o =
      stop-keeps (IsOther i p q)
        (λ m n e f d b o.
          other-follows i p q m n o (also still (quiet e f d (omega (arith, b))))
            (quiet-IsHeld i p (also still (quiet e f d (omega (arith, b)))) o.held))
        env w q
        (
          λ m o.
              other-follows i p q m _ o (k.in_grace m o.registry) (h.in_grace m o.registry o.held),
          λ m o.
              other-follows i p q m _ o (k.once_killed m o.registry)
                (h.once_killed m o.registry o.held),
        )
        (finish-IsOther q) m o

  -- The object is the one that its id leads to, or its id leads to none.
  abbrev pub IsCurrent : ℕ → Master → Type 0
  IsCurrent q m =
      (lookup (m.heap q).id m.instances ≡ some q) ⊎ (lookup (m.heap q).id m.instances ≡ none)

  pub apart :
      (q : ℕ) (m : Master)
      → IsCurrent q m
      → lookup i m.instances ≡ some p
      → (q == p) ≡ false
      → (m.heap q).id ≢ i
  apart q m c e n same =
      let at = ap (λ j. lookup j m.instances) same ∙ e in
      elim c [ inl a ↦ ground (arith, a, at, n) | inr a ↦ cc (a, at) ]

  pub stop-IsHeld :
      (q : ℕ) (m : Master)
      → IsRegistry m
      → q < m.fresh
      → IsCurrent q m
      → IsHeld i p m
      → IsHeld i p (stop_instance_locked env w q m)
  stop-IsHeld q m r b c held =
      let f = Moves-Follows (stop-Leads env w k q m r b) in
      follow i p m _ f held λ e. elim (Bool-cases (q == p)) [
        | inl s ↦ inr (
            subst (λ j. is_running ((stop_instance_locked env w q m).heap j).status ≡ false)
              ((==_iff q p).0 s) (ap is_running (stop_stops env w q m)))
        | inr s ↦
            (stop-IsOther q m
              (record { held = held; registry = r; used = b; apart = apart q m c e s })).held.held
      ]

  -- A stop, and a start after it.
  pub again-IsHeld :
      (q : ℕ) (m : Master)
      → IsRegistry m
      → q < m.fresh
      → IsCurrent q m
      → IsHeld i p m
      → IsHeld i p (start_instance_locked env q (stop_instance_locked env w q m))
  again-IsHeld q m r b c held =
      let ended = stop-IsHeld q m r b c held in
      rw (start-closed env q (stop_instance_locked env w q m) ended.closed) ended
