-- ===== src/Event/Stream/Wakeup.antt =====
-- The wake-up channel of a subscriber: `enqueue` runs beside the loop of `handleSSE`.
use open_ctrl.Types.{InstanceEvent, SseSubscriber}
use open_ctrl.Base.{◌≡◌, ◌⊎◌, inl, inr, refl, arith, Bool, true, false, Bool-cases, none, some, []}
use open_ctrl.Event.Subscriber.{enqueue, next, close, new_subscriber}
use open_ctrl.Event.Subscriber.Bounds.{IsSound, enqueue-IsSound, next-IsSound}
use open_ctrl.Event.Subscriber.Order.{next_lem}

-- A subscriber with its handler, which waits in the `select` or sends events.
pub record Session : Type 0 where
  pub sub : SseSubscriber
  pub sending : Bool

-- One step of the handler, or an event of any other goroutine between two such steps.
pub data Step (c : Session) : Session → Type 0 where
  arrive : (e : InstanceEvent) → Step c (record c { sub = enqueue e c.sub })
  cut_off : Step c (record c { sub = close c.sub })
  wake :
      c.sending ≡ false
      → c.sub.wake ≡ true
      → Step c (record { sub = record c.sub { wake = false }; sending = true })
  send :
      c.sending ≡ true
      → (e : InstanceEvent) → (next c.sub).0 ≡ some e
      → Step c (record c { sub = (next c.sub).1 })
  settle :
      c.sending ≡ true
      → (next c.sub).0 ≡ none
      → Step c (record { sub = (next c.sub).1; sending = false })

pub data Reach : Session → Type 0 where
  start : Reach (record { sub = new_subscriber; sending = false })
  step : {c d : Session} → Reach c → Step c d → Reach d

abbrev IsIdle : SseSubscriber → Type 0
IsIdle s = (s.states ≡ []) × (s.logs ≡ [])

-- A handler that waits has nothing to send, or a wake-up token, or was told to end.
pub record IsAwake (c : Session) : Type 0 where
  pub sound : IsSound c.sub
  pub awake : (c.sending ≡ true) ⊎ (c.sub.wake ≡ true) ⊎ (c.sub.done ≡ true) ⊎ IsIdle c.sub

-- Every event that arrives leaves a token, or the subscriber is closed.
enqueue_wakes :
    (e : InstanceEvent) (s : SseSubscriber)
    → ((enqueue e s).wake ≡ true) ⊎ ((enqueue e s).done ≡ true)
unfolding enqueue
enqueue_wakes e s = ground arith

pub next_closed : (s : SseSubscriber) → s.done ≡ true → next s ≡ (none, s)
unfolding next
next_closed s closed = ground arith

next-none :
    (s : SseSubscriber)
    → IsSound s
    → (next s).0 ≡ none
    → ((next s).1.done ≡ true) ⊎ IsIdle (next s).1
next-none s h e = elim (Bool-cases s.done) [
  | inl closed ↦ inl (ground (arith, next_closed s closed))
  | inr opened ↦ elim (next_lem s h opened) [
    | inl (r, p, q) ↦ inr (rw r (p, q))
    | inr (x, s', r, t, f) ↦ absurd (ground arith)
  ]
]

Step-IsAwake : {c d : Session} → Step c d → IsAwake c → IsAwake d
Step-IsAwake {c} (arrive e) a = record {
  sound = enqueue-IsSound e c.sub a.sound;
  awake = inr (elim (enqueue_wakes e c.sub) [ inl t ↦ inl t | inr d ↦ inr (inl d) ]);
}
Step-IsAwake {c} cut_off a =
    unfold close in record { sound = ground (arith, a.sound); awake = inr (inr (inl refl)) }
Step-IsAwake {c} (wake w t) a = record { sound = ground (arith, a.sound); awake = inl refl }
Step-IsAwake {c} (send w e n) a = record { sound = next-IsSound c.sub a.sound; awake = inl w }
Step-IsAwake {c} (settle w n) a = record {
  sound = next-IsSound c.sub a.sound;
  awake = inr (inr (next-none c.sub a.sound n));
}

new-IsAwake : IsAwake (record { sub = new_subscriber; sending = false })
new-IsAwake = record {
  sound = record { states_fit = omega arith; logs_fit = omega arith; keyed = tt };
  awake = inr (inr (inr (refl, refl)));
}

-- However events arrive and the subscriber is closed between the steps of its handler, the queue
-- keeps its limits, and no wake-up is lost: the handler is sending, or has a wake-up token, or was
-- told to end, or nothing is queued.
pub Reach-IsAwake : {c : Session} → Reach c → IsAwake c
Reach-IsAwake start = new-IsAwake
Reach-IsAwake (step r t) = Step-IsAwake t (Reach-IsAwake r)
