-- ===== src/Event/Opening.antt =====
-- internal/master/event.go: `handleSSE` up to its loop, and what it defers.
pub mod Registered
use open_ctrl.Types.{InstanceEvent, SseSubscriber, Master, initial}
use open_ctrl.Base.{
  ℕ, suc, String, Bool, true, false, not, ◌||◌, some, List, [], ◌∷◌, ◌++◌, ◌==◌, if◌then◌else◌,
}
use open_ctrl.Instance.Snapshot.{snapshot}
use open_ctrl.Event.Subscriber.{new_subscriber}

-- Which calls on the connection succeed: the first deadline, the line `retry: …`, an event, the
-- last `Flush`. `meanwhile` is what other goroutines do to the master between the registration and
-- the initial events; a shutdown may take the subscriber off the map there.
pub record Client : Type 0 where
  pub deadline : Bool
  pub retry : Bool
  pub write : InstanceEvent → Bool
  pub flush : Bool
  pub meanwhile : Master → Master

-- `refused` is the answer 405, `returned` a return before the loop, `streaming` the loop with the
-- subscriber of that number; with the events written.
pub data Opening : Type 0 where
  refused : Opening
  returned : List InstanceEvent → Opening
  streaming : ℕ → List InstanceEvent → Opening

abbrev pub initial_event : Master → ℕ → InstanceEvent
initial_event m p = record {
  type = initial;
  time = m.clock;
  instance = some (snapshot (m.heap p));
  logs = [];
}

-- m.instances.Range(…): whether a write failed, and what was written.
unfoldable pub write_initial :
    (InstanceEvent → Bool) → Master → List (String × ℕ) → Bool × List InstanceEvent
write_initial write m [] = (false, [])
write_initial write m ((id, p) ∷ entries) =
    let rest = write_initial write m entries in
    if write (initial_event m p) then (rest.0, initial_event m p ∷ rest.1) else (true, [])

-- m.subscribers.Store(subscriber, subscriber)
abbrev pub register : Master → Master
register m = record m {
  subscribers = m.subscribers ++ (m.fresh, new_subscriber) ∷ [];
  fresh = suc m.fresh;
}

-- m.subscribers.Delete(subscriber)
unfoldable pub without : ℕ → List (ℕ × SseSubscriber) → List (ℕ × SseSubscriber)
without k [] = []
without k (s ∷ rest) = let others = without k rest in if s.0 == k then others else s ∷ others

-- The deferred function. Once its subscriber is off the map, no event reaches it and only this
-- handler read it, so that `close` has no effect.
abbrev pub withdraw : ℕ → Master → Master
withdraw k m = record m { subscribers = without k m.subscribers }

-- handleSSE, until it returns or enters its loop.
unfoldable pub open_sse : Client → Bool → Master → Opening × Master
open_sse client is_get m =
    let joined = register m in
    let later = client.meanwhile joined in
    let sent = write_initial client.write later later.instances in
    if not is_get
    then (refused, m)
    else if not client.deadline || not client.retry
    then (returned [], withdraw m.fresh later)
    else if sent.0 || not client.flush
    then (returned sent.1, withdraw m.fresh later)
    else (streaming m.fresh sent.1, later)
