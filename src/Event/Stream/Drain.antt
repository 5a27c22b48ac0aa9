-- ===== src/Event/Stream/Drain.antt =====
-- The inner loop of `handleSSE` ends, and sends what was queued.
use mathlib.Core.List.{Mem, mem-cons_self, mem-cons_of_mem, Perm, perm_middle}
use mathlib.Core.List.Perm
use mathlib.Core.Path.{subst}
use open_ctrl.Types.{InstanceEvent, SseSubscriber}
use open_ctrl.Base.{
  ℕ, zero, suc, ◌<◌, ◌≡◌, ◌⊎◌, inl, inr, refl, ap, ◌∙◌, arith, String, Bool, true, false, none,
  some, List, [], ◌∷◌, ◌++◌, map, Bool-cases, lookup, erase, erase_absent, IsMap, str_eq, eq_iff,
}
use open_ctrl.Event.Subscriber.{next}
use open_ctrl.Event.Subscriber.Bounds.{IsSound, next-IsSound}
use open_ctrl.Event.Subscriber.Order.{next_lem, Takes, backlog, backlog-Takes}
use open_ctrl.Event.Stream.{acted, caught_up, hung_up, Drained, drain, prepend, is_shutdown}

-- All events queued.
abbrev pub queued : SseSubscriber → List InstanceEvent
queued s = map (λ x. x.1) s.states ++ s.logs

values : List (String × InstanceEvent) → List InstanceEvent
values m = map (λ x. x.1) m

perm-erase :
    (k : String) (e : InstanceEvent) (m : List (String × InstanceEvent))
    → IsMap m
    → lookup k m ≡ some e
    → Perm (map (λ x. x.1) m) (e ∷ map (λ x. x.1) (erase k m))
perm-erase k e [] u h = cc
perm-erase k e ((j, w) ∷ m) u h = elim (Bool-cases (str_eq j k)) [
  | inl hit ↦
      rw (hit, erase_absent k m (ground (arith, u.0, eq_iff j k)))
        (Perm.cons' (ground arith) (Perm.refl (map (λ x. x.1) m)))
  | inr miss ↦ rw miss (
      Perm.trans (Perm.cons w (perm-erase k e m u.1 (ground arith)))
        (Perm.swap e w (map (λ x. x.1) (erase k m))))
]

Takes-perm :
    (e : InstanceEvent) (s s' : SseSubscriber)
    → IsSound s
    → Takes e s s'
    → Perm (queued s) (e ∷ queued s')
Takes-perm e s s' h (inl (rest, q, p)) = rw (p, q) (perm_middle (map (λ x. x.1) s.states) rest)
Takes-perm e s s' h (inr (key, q, p)) =
    rw p (Perm.append (perm-erase key e s.states h.keyed q) (Perm.refl s.logs))

Takes-open :
    (e : InstanceEvent) (s s' : SseSubscriber) → Takes e s s' → s.done ≡ false → s'.done ≡ false
Takes-open e s s' (inl (rest, q, p)) h = ground arith
Takes-open e s s' (inr (key, q, p)) h = ground arith

-- Why a handler may hang up.
abbrev pub Ends : (InstanceEvent → Bool) → InstanceEvent → Type 0
Ends write e = (write e ≡ false) ⊎ (is_shutdown e.type ≡ true)

-- What the loop achieved on the queue `s`.
abbrev pub Achieves : (InstanceEvent → Bool) → SseSubscriber → Drained → Type 0
Achieves write s d =
    ((d.outcome ≡ caught_up) × Perm (queued s) d.written × (backlog d.rest ≡ 0))
    ⊎ ((d.outcome ≡ hung_up) × (e : InstanceEvent) × Ends write e × Mem e (queued s))

module _ (write : InstanceEvent → Bool) (fuel : ℕ) (s s' : SseSubscriber) where
  drain-none :
      next s ≡ (none, s')
      → drain write [] (suc fuel) s ≡ some (record { outcome = caught_up; written = []; rest = s' })
  unfolding drain acted
  drain-none h = rw (h, drain) (rw (ap (λ x. x.1) h))

  module _ (e : InstanceEvent) (h : next s ≡ (some e, s')) where
    drain_fail :
        write e ≡ false
        → drain write [] (suc fuel) s ≡ some (record { outcome = hung_up; written = []; rest = s' })
    unfolding drain acted
    drain_fail w = rw (h, drain) (rw (w, ap (λ x. x.1) h))

    drain_shutdown :
        write e ≡ true
        → is_shutdown e.type ≡ true
        → drain write [] (suc fuel) s
          ≡ some (record { outcome = hung_up; written = e ∷ []; rest = s' })
    unfolding drain acted
    drain_shutdown w k = rw (h, drain) (rw (w, k, ap (λ x. x.1) h))

    drain_more :
        write e ≡ true
        → is_shutdown e.type ≡ false
        → drain write [] (suc fuel) s ≡ prepend e (drain write [] fuel s')
    unfolding drain acted
    drain_more w k = rw (h, drain) (rw (w, k, ap (λ x. x.1) h))

Achieves-prepend :
    (write : InstanceEvent → Bool) (e : InstanceEvent) (s s' : SseSubscriber) (d : Drained)
    → Perm (queued s) (e ∷ queued s')
    → Achieves write s' d
    → Achieves write s (record d { written = e ∷ d.written })
Achieves-prepend write e s s' d p (inl (o, q, b)) = inl (o, Perm.trans p (Perm.cons e q), b)
Achieves-prepend write e s s' d p (inr (o, x, n, m)) =
    inr (o, x, n, (Perm.mem_iff p).1 (mem-cons_of_mem e m))

-- With fuel for one round more than there are events queued, the loop on an open queue within its
-- limits ends: either it has written every event queued, each once, and left nothing, or it hung
-- up, and a queued event could not be written or said to shut down. Condition: nothing is queued, and
-- nobody closes the subscriber, before the loop ends.
pub drain_lem :
    (write : InstanceEvent → Bool) (fuel : ℕ) (s : SseSubscriber)
    → IsSound s
    → s.done ≡ false
    → backlog s < fuel
    → (d : Drained) × (drain write [] fuel s ≡ some d) × Achieves write s d
drain_lem write zero s h o f = absurd (omega arith)
drain_lem write (suc fuel) s h o f = elim (next_lem s h o) [
  | inl (r, p, q) ↦ (
    record { outcome = caught_up; written = []; rest = s },
    drain-none write fuel s s r,
    inl (refl, rw (p, q) (Perm.refl []), rw (p, q)),
  )
  | inr (e, s', r, t, first) ↦ elim (Bool-cases (write e)) [
    | inr w ↦ (
      record { outcome = hung_up; written = []; rest = s' },
      drain_fail write fuel s s' e r w,
      inr (refl, e, inl w, (Perm.mem_iff (Takes-perm e s s' h t)).1 mem-cons_self),
    )
    | inl w ↦ elim (Bool-cases (is_shutdown e.type)) [
      | inl k ↦ (
        record { outcome = hung_up; written = e ∷ []; rest = s' },
        drain_shutdown write fuel s s' e r w k,
        inr (refl, e, inr k, (Perm.mem_iff (Takes-perm e s s' h t)).1 mem-cons_self),
      )
      | inr k ↦
          let (d, q, a) =
            drain_lem write fuel s' (subst IsSound (ap (λ x. x.1) r) (next-IsSound s h))
              (Takes-open e s s' t o) (omega (arith, backlog-Takes e s s' h t)) in
          (
            record d { written = e ∷ d.written },
            drain_more write fuel s s' e r w k ∙ ap (prepend e) q,
            Achieves-prepend write e s s' d (Takes-perm e s s' h t) a,
          )
    ]
  ]
]
