-- ===== src/Event/Subscriber/Order.antt =====
-- internal/master/event.go: which event `next` takes.
use open_ctrl.Types.{InstanceEvent, SseSubscriber}
use open_ctrl.Base.{
  ℕ, suc, ◌+◌, ◌≤◌, ◌≡◌, ◌⊎◌, inl, inr, refl, arith, String, false, Option, none, some, List, [],
  ◌∷◌, length, All, lookup, erase, IsMap, Has, lookup_of_Has, length-erase, ltb, Bool-cases,
}
use open_ctrl.Event.Subscriber.{next, select, take_next, take_state}
use open_ctrl.Event.Subscriber.Bounds.{IsSound}

abbrev NoLater : ℕ → List (String × InstanceEvent) → Type 0
NoLater t = All (λ e. t ≤ e.1.time)

NoLater-mono : (t u : ℕ) (es : List (String × InstanceEvent)) → t ≤ u → NoLater u es → NoLater t es
NoLater-mono t u [] h k = tt
NoLater-mono t u (e ∷ es) h k = (omega arith, NoLater-mono t u es h k.1)

-- Log lines are queued in the order in which they came; the first is compared.
abbrev HeadNoLater : ℕ → List InstanceEvent → Type 0
HeadNoLater t [] = Unit
HeadNoLater t (e ∷ es) = t ≤ e.time

select-some :
    (b : String × InstanceEvent) (es : List (String × InstanceEvent))
    → (e : String × InstanceEvent) × (select (some b) es ≡ some e)
      × (e.1.time ≤ b.1.time)
      × NoLater e.1.time es
      × ((e ≡ b) ⊎ Has e es)
unfolding select
select-some b [] = (b, refl, omega arith, tt, inl refl)
select-some b (x ∷ es) = elim (Bool-cases (ltb x.1.time b.1.time)) [
  | inl h ↦ let (e, s, l, a, m) = select-some x es in (e, rw h s, ground arith, (l, a), inr m)
  | inr h ↦
      let (e, s, l, a, m) = select-some b es in
      (e, rw h s, l, (ground arith, a), elim m [ inl p ↦ inl p | inr q ↦ inr (inr q) ])
]

-- The event with the earliest time, wherever it stands.
select_cases :
    (es : List (String × InstanceEvent))
    → ((es ≡ []) × (select none es ≡ none))
      ⊎ (e : String × InstanceEvent) × (select none es ≡ some e) × NoLater e.1.time es × Has e es
select_cases [] = inl (refl, unfold select in refl)
select_cases (x ∷ es) =
    let (e, s, l, a, m) = select-some x es in inr (e, unfold select in s, (l, a), m)

-- `e` is taken: the oldest log line, or the state event of some instance.
abbrev pub Takes : InstanceEvent → SseSubscriber → SseSubscriber → Type 0
Takes e s s' =
    ((rest : List InstanceEvent) × (s.logs ≡ e ∷ rest) × (s' ≡ record s { logs = rest }))
    ⊎ ((key : String) × (lookup key s.states ≡ some e)
        × (s' ≡ record s { states = erase key s.states }))

-- Nothing in the queue is older than `e`.
abbrev pub IsFirst : InstanceEvent → SseSubscriber → Type 0
IsFirst e s = NoLater e.time s.states × HeadNoLater e.time s.logs

take_state_lem :
    (e : String × InstanceEvent) (s : SseSubscriber)
    → IsMap s.states
    → Has e s.states
    → (take_state (some e) s ≡ (some e.1, record s { states = erase e.0 s.states }))
      × (lookup e.0 s.states ≡ some e.1)
unfolding take_state
take_state_lem (k, e) s u h = (refl, lookup_of_Has k e s.states u h)

-- What a call of `next` may do to an open queue.
abbrev pub IsAnswer : SseSubscriber → Option InstanceEvent × SseSubscriber → Type 0
IsAnswer s r =
    ((r ≡ (none, s)) × (s.states ≡ []) × (s.logs ≡ []))
    ⊎ ((e : InstanceEvent) × (s' : SseSubscriber) × (r ≡ (some e, s')) × Takes e s s' × IsFirst e s)

module _ (s : SseSubscriber) (u : IsMap s.states) where
  take_none :
      (logs : List InstanceEvent)
      → s.states ≡ []
      → s.logs ≡ logs
      → IsAnswer s (take_next none logs s)
  unfolding take_next
  take_none [] p q = inl (refl, p, q)
  take_none (x ∷ xs) p q =
      inr (x, record s { logs = xs }, refl, inl (xs, q, refl), (rw p tt, rw q (omega arith)))

  take_some :
      (logs : List InstanceEvent) (e : String × InstanceEvent)
      → NoLater e.1.time s.states
      → Has e s.states
      → s.logs ≡ logs
      → IsAnswer s (take_next (some e) logs s)
  unfolding take_next
  take_some [] e l m q =
      let (t, k) = take_state_lem e s u m in
      inr (e.1, record s { states = erase e.0 s.states }, t, inr (e.0, k, refl), (l, rw q tt))
  take_some (x ∷ xs) e l m q = elim (Bool-cases (ltb x.time e.1.time)) [
    | inl h ↦ rw h (
        inr (
          x,
          record s { logs = xs },
          refl,
          inl (xs, q, refl),
          (NoLater-mono x.time e.1.time s.states (ground arith) l, rw q (omega arith)),
        ))
    | inr h ↦
        let (t, k) = take_state_lem e s u m in
        rw h (
          inr (
            e.1,
            record s { states = erase e.0 s.states },
            t,
            inr (e.0, k, refl),
            (l, rw q (ground arith)),
          ))
  ]

pub next_open :
    (s : SseSubscriber) → s.done ≡ false → next s ≡ take_next (select none s.states) s.logs s
unfolding next
next_open s opened = ground arith

-- From an open queue within its limits, `next` takes nothing if the queue is empty; else it gives
-- an event than which no state event and not the first log line queued is older, and removes that
-- event only.
pub next_lem : (s : SseSubscriber) → IsSound s → s.done ≡ false → IsAnswer s (next s)
next_lem s h opened = elim (select_cases s.states) [
  | inl (p, e) ↦ rw (next_open s opened, e) (take_none s h.keyed s.logs p refl)
  | inr (x, e, l, m) ↦ rw (next_open s opened, e) (take_some s h.keyed s.logs x l m refl)
]

-- Events still queued.
abbrev pub backlog : SseSubscriber → ℕ
backlog s = length s.states + length s.logs

pub backlog-Takes :
    (e : InstanceEvent) (s s' : SseSubscriber)
    → IsSound s
    → Takes e s s'
    → backlog s ≡ suc (backlog s')
backlog-Takes e s s' h (inl (rest, q, p)) = rw (p, q) (omega arith)
backlog-Takes e s s' h (inr (key, q, p)) =
    rw p (omega (arith, length-erase key e s.states h.keyed q))
