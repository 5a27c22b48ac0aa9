-- ===== src/Event/Subscriber/Bounds.antt =====
-- What holds of a subscriber's queue at all times.
use open_ctrl.Types.{InstanceEvent, SseSubscriber}
use open_ctrl.Base.{
  ◌≤◌, arith, String, Option, none, some, List, [], ◌∷◌, length, length-append, erase, IsMap,
  insert-IsMap, erase-IsMap, length-insert,
}
use open_ctrl.Event.Subscriber.{
  enqueue, next, select, take_next, take_state, key_of, channel_buf_size, log_buf_size,
}

-- The lists are within their limits, and no key stands twice.
pub record IsSound (s : SseSubscriber) : Type 0 where
  pub states_fit : length s.states ≤ channel_buf_size
  pub logs_fit : length s.logs ≤ log_buf_size
  pub keyed : IsMap s.states

pub length-erase-le :
    (k : String) (m : List (String × InstanceEvent)) → length (erase k m) ≤ length m
length-erase-le k [] = omega arith
length-erase-le k ((j, w) ∷ m) = ground (arith, length-erase-le k m)

-- If at most 1024 state events and 10 log lines are queued, and no key twice, so it is after any
-- event arrived.
pub enqueue-IsSound : (e : InstanceEvent) (s : SseSubscriber) → IsSound s → IsSound (enqueue e s)
unfolding enqueue
enqueue-IsSound e s h = ground (
  arith,
  length-append s.logs (e ∷ []),
  length-insert (key_of e) e s.states,
  insert-IsMap (key_of e) e s.states,
)

take_state-IsSound :
    (sel : Option (String × InstanceEvent)) (s : SseSubscriber)
    → IsSound s
    → IsSound (take_state sel s).1
unfolding take_state
take_state-IsSound none s h = h
take_state-IsSound (some (k, e)) s h =
    ground (arith, length-erase-le k s.states, erase-IsMap k s.states)

take_next-IsSound :
    (sel : Option (String × InstanceEvent)) (logs : List InstanceEvent) (s : SseSubscriber)
    → length logs ≤ log_buf_size
    → IsSound s
    → IsSound (take_next sel logs s).1
unfolding take_next
take_next-IsSound sel [] s l h = take_state-IsSound sel s h
take_next-IsSound sel (x ∷ xs) s l h = ground (arith, take_state-IsSound sel s h)

-- The limits hold again after an event was taken.
pub next-IsSound : (s : SseSubscriber) → IsSound s → IsSound (next s).1
unfolding next
next-IsSound s h = ground (arith, take_next-IsSound (select none s.states) s.logs s h.logs_fit h)
