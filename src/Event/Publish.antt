-- ===== src/Event/Publish.antt =====
-- internal/master/event.go: how an event reaches the subscribers.
use open_ctrl.Types.{EventType, InstanceEvent, SseSubscriber, Master, shutdown}
use open_ctrl.Base.{ℕ, none, some, List, [], map}
use open_ctrl.Instance.Snapshot.{snapshot}
use open_ctrl.Event.Subscriber.{enqueue}

-- (*Master).publishEvent
unfoldable pub publish_event : InstanceEvent → Master → Master
publish_event event m = record m { subscribers = map (λ s. (s.0, enqueue event s.1)) m.subscribers }

-- (*Master).sendSSEEvent for an instance, without logs.
unfoldable pub send_sse_event : EventType → ℕ → Master → Master
send_sse_event type p m =
    publish_event
      (record { type = type; time = m.clock; instance = some (snapshot (m.heap p)); logs = [] }) m

-- (*Master).shutdownSSEConnections: the handlers keep the subscribers that are taken off.
unfoldable pub shutdown_sse_connections : Master → Master × List (ℕ × SseSubscriber)
shutdown_sse_connections m =
    let event : InstanceEvent = record {
      type = shutdown;
      time = m.clock;
      instance = none;
      logs = [];
    } in
    (record m { subscribers = [] }, (publish_event event m).subscribers)
