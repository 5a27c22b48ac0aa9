-- ===== src/Event/Opening/Registered.antt =====
-- What a client has been told, and whether it is registered, once `handleSSE` enters its loop.
use open_ctrl.Types.{InstanceEvent, SseSubscriber, Master}
use open_ctrl.Base.{ℕ, String, false, ◌≡◌, List, [], ◌∷◌, ◌==◌, ◌++◌, map, All}
use open_ctrl.Event.Subscriber.{enqueue, new_subscriber}
use open_ctrl.Event.Publish.{publish_event}
use open_ctrl.Event.Opening.{Client, Opening, refused, returned, streaming, initial_event, register}

abbrev initial_events : Master → List (String × ℕ) → List InstanceEvent
initial_events m entries = map (λ e. initial_event m e.1) entries

-- The number is that of no subscriber.
abbrev pub IsGone : ℕ → List (ℕ × SseSubscriber) → Type 0
IsGone k subscribers = All (λ (s : ℕ × SseSubscriber). (s.0 == k) ≡ false) subscribers

-- `joined` is the state in which the subscriber has been registered, and `later` that in which the
-- initial events begin.
pub record IsStreaming (m joined later after : Master) (k : ℕ) (written : List InstanceEvent)
    : Type 0 where
  pub heard :
      (event : InstanceEvent)
      → (publish_event event joined).subscribers
        ≡ (publish_event event m).subscribers ++ (k, enqueue event new_subscriber) ∷ []
  pub told : written ≡ initial_events later later.instances
  pub same : after ≡ later

pub record IsReturned (k : ℕ) (later after : Master) (written : List InstanceEvent) : Type 0 where
  pub part : (rest : List InstanceEvent) × (written ++ rest ≡ initial_events later later.instances)
  pub gone : IsGone k after.subscribers
  pub heap : after.heap ≡ later.heap
  pub instances : after.instances ≡ later.instances

abbrev pub IsOpened : Client → Master → Opening × Master → Type 0
IsOpened client m (refused, after) = after ≡ m
IsOpened client m (returned written, after) =
    IsReturned m.fresh (client.meanwhile (register m)) after written
IsOpened client m (streaming k written, after) =
    IsStreaming m (register m) (client.meanwhile (register m)) after k written

abbrev told_to : InstanceEvent → ℕ × SseSubscriber → ℕ × SseSubscriber
told_to event s = (s.0, enqueue event s.1)

module _ (client : Client) (m : Master) where
  abbrev later : Master
  later = client.meanwhile (register m)
