-- ===== src/Tests/Events.antt =====
-- Events and their subscribers.
use open_ctrl.Types.{InstanceEvent, SseSubscriber, Master, update, log}
use open_ctrl.Base.{List, ◌≡◌, refl, arith, true, false, not, none, some, [], ◌∷◌, str_eq}
use open_ctrl.Event.Subscriber.{enqueue, next, new_subscriber}
use open_ctrl.Event.Subscriber.Bounds.{IsSound, enqueue-IsSound}
use open_ctrl.Event.Subscriber.Order.{IsAnswer, next_lem}
use open_ctrl.Event.Stream.{Act, arrives, closes}
use open_ctrl.Event.Stream.Wakeup.{
  Session, Reach, start, step, arrive, wake, IsAwake, Reach-IsAwake,
}
use open_ctrl.Event.Publish.{shutdown_sse_connections}
use open_ctrl.Event.Opening.{Client, returned, initial_event, write_initial, open_sse}
use open_ctrl.Instance.Snapshot.{snapshot}
use open_ctrl.Tests.Data.{portal, master}

abbrev line : InstanceEvent
line = record { type = log; time = 3; instance = some portal; logs = 0x68 ∷ [] }

abbrev change : InstanceEvent
change = record { type = update; time = 4; instance = some portal; logs = [] }

-- A log line and a change are queued.
abbrev filled : SseSubscriber
filled = record { wake = true; states = ("0a0b0c0d", change) ∷ []; logs = line ∷ []; done = false }

filled-IsSound : IsSound filled
filled-IsSound = record { states_fit = omega arith; logs_fit = omega arith; keyed = (refl, tt) }

enqueue-IsSound_example : IsSound (enqueue change filled)
enqueue-IsSound_example = enqueue-IsSound change filled filled-IsSound

next_lem_example : IsAnswer filled (next filled)
next_lem_example = next_lem filled filled-IsSound refl

-- A log line arrives before the second call, and the subscriber is closed before the third.
abbrev others : List (List Act)
others = [] ∷ (arrives line ∷ []) ∷ (closes ∷ []) ∷ []

-- An event arrives and wakes the handler, while another one comes.
abbrev sending : Session
sending = record {
  sub = enqueue change (record (enqueue line new_subscriber) { wake = false });
  sending = true;
}

sending-Reach : Reach sending
unfolding enqueue
sending-Reach = step (step (step start (arrive line)) (wake refl refl)) (arrive change)

Reach-IsAwake_example : IsAwake sending
Reach-IsAwake_example = Reach-IsAwake sending-Reach

-- A client that takes every event but those of one instance.
abbrev picky : Client
picky = record {
  deadline = true;
  retry = true;
  write = λ e. elim e.instance [ none ↦ true | some inst ↦ not (str_eq inst.id "0e0f1011") ];
  flush = true;
  meanwhile = λ m. m;
}

abbrev followed : Master
followed = record master { subscribers = (3, filled) ∷ []; fresh = 12 }

picky-returns : (open_sse picky true followed).0 ≡ returned (initial_event followed 1 ∷ [])
unfolding open_sse write_initial snapshot
picky-returns = refl

-- A shutdown comes before the initial events of this client.
abbrev hurried : Client
hurried = record picky { write = λ e. true; meanwhile = λ m. (shutdown_sse_connections m).0 }
