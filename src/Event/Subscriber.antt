-- ===== src/Event/Subscriber.antt =====
-- internal/master/event.go: the queue of one subscriber, `sseSubscriber`. Its map `states` is an
-- association list in the order in which a `range` meets it; the theorems hold for every order.
-- The locks are not modelled: `enqueue` and `next` hold the only one throughout. `once` makes a
-- second `close` do nothing, as setting `done` again does.
pub mod Bounds
pub mod Order
use open_ctrl.Types.{EventType, InstanceEvent, SseSubscriber, log}
use open_ctrl.Base.{
  ℕ, String, Bool, true, false, not, ◌&&◌, Option, none, some, List, [], ◌∷◌, ◌++◌, ltb, ◌==◌,
  if◌then◌else◌, length, lookup, insert, erase, is_some,
}

-- const channelBufSize, and the limit on log lines in `enqueue`
abbrev pub channel_buf_size : ℕ
channel_buf_size = 1024

abbrev pub log_buf_size : ℕ
log_buf_size = 10

-- event.Type == "log"
abbrev pub is_log : EventType → Bool
is_log log = true
is_log _ = false

-- The subscriber that `handleSSE` registers.
abbrev pub new_subscriber : SseSubscriber
new_subscriber = record { wake = false; states = []; logs = []; done = false }

-- (*sseSubscriber).close
unfoldable pub close : SseSubscriber → SseSubscriber
close s = record s { done = true }

-- The key of a state event: the id of its instance, or the empty text.
unfoldable pub key_of : InstanceEvent → String
key_of event = elim event.instance [ none ↦ "" | some inst ↦ inst.id ]

-- case s.wake <- struct{}{}: default:
abbrev pub notify : SseSubscriber → SseSubscriber
notify s = record s { wake = true }

-- (*sseSubscriber).enqueue
unfoldable pub enqueue : InstanceEvent → SseSubscriber → SseSubscriber
unfolding close key_of
enqueue event s =
    if s.done
    then s
    else if is_log event.type
    then (if length s.logs == log_buf_size
        then close s
        else notify (record s { logs = s.logs ++ event ∷ [] }))
    else if not (is_some (lookup (key_of event) s.states)) && length s.states == channel_buf_size
    then close s
    else notify (record s { states = insert (key_of event) event s.states })

-- The loop of `next`: the first of the earliest events, with its key.
abbrev pub earlier :
    Option (String × InstanceEvent) → String × InstanceEvent → Option (String × InstanceEvent)
earlier none e = some e
earlier (some selected) e = if ltb e.1.time selected.1.time then some e else some selected

unfoldable pub select :
    Option (String × InstanceEvent)
    → List (String × InstanceEvent)
    → Option (String × InstanceEvent)
select selected [] = selected
select selected (e ∷ es) = select (earlier selected e) es

-- selected == nil || t.Before(selected.Time)
abbrev pub comes_before : ℕ → Option (String × InstanceEvent) → Bool
comes_before t none = true
comes_before t (some selected) = ltb t selected.1.time

-- The tail of `next`, once an event is selected.
unfoldable pub take_state :
    Option (String × InstanceEvent) → SseSubscriber → Option InstanceEvent × SseSubscriber
take_state none s = (none, s)
take_state (some (key, event)) s = (some event, record s { states = erase key s.states })

unfoldable pub take_next :
    Option (String × InstanceEvent)
    → List InstanceEvent
    → SseSubscriber
    → Option InstanceEvent × SseSubscriber
unfolding take_state
take_next selected [] s = take_state selected s
take_next selected (event ∷ rest) s =
    if comes_before event.time selected
    then (some event, record s { logs = rest })
    else take_state selected s

-- (*sseSubscriber).next
unfoldable pub next : SseSubscriber → Option InstanceEvent × SseSubscriber
unfolding select take_next
next s = if s.done then (none, s) else take_next (select none s.states) s.logs s
