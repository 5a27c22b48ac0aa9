-- ===== src/Event/Stream/Ends.antt =====
-- The inner loop of `handleSSE` ends while other goroutines queue events and close the subscriber.
use open_ctrl.Types.{InstanceEvent, SseSubscriber}
use open_ctrl.Base.{ℕ, ◌+◌, ◌≡◌, ◌⊎◌, Bool, true, List, [], ◌∷◌, All, length}
use open_ctrl.Event.Subscriber.Order.{backlog}
use open_ctrl.Event.Stream.{Act, acted, now, caught_up, hung_up, Drained}
use open_ctrl.Event.Stream.Drain.{Ends}

-- How many acts there are.
abbrev pub acts_in : List (List Act) → ℕ
acts_in [] = 0
acts_in (acts ∷ others) = length acts + acts_in others

-- What the loop has written was written with success; it has left nothing queued, or the subscriber
-- was closed, or the loop hung up, because of an event that could not be written or said to
-- shut down.
pub record IsDrained (write : InstanceEvent → Bool) (d : Drained) : Type 0 where
  pub sent : All (λ e. write e ≡ true) d.written
  pub over :
      ((d.outcome ≡ caught_up) × ((d.rest.done ≡ true) ⊎ (backlog d.rest ≡ 0)))
      ⊎ ((d.outcome ≡ hung_up) × (e : InstanceEvent) × Ends write e)

module _ (write : InstanceEvent → Bool) where
  -- The queue in which the loop takes its next event.
  abbrev touched : List (List Act) → SseSubscriber → SseSubscriber
  touched others s = acted (now others) s
