-- ===== src/Event/Stream.antt =====
-- internal/master/event.go: the loops of `handleSSE` that send a subscriber its events.
pub mod Drain
pub mod Ends
pub mod Wakeup
use open_ctrl.Types.{EventType, InstanceEvent, SseSubscriber, shutdown}
use open_ctrl.Base.{
  ℕ, zero, suc, Bool, true, false, not, ◌||◌, Option, none, some, List, [], ◌∷◌, if◌then◌else◌,
}
use open_ctrl.Event.Subscriber.{next, enqueue, close}

-- event.Type == "shutdown"
abbrev pub is_shutdown : EventType → Bool
is_shutdown shutdown = true
is_shutdown _ = false

-- `caught_up` is the `break` on a nil event, `hung_up` the `return` from the handler.
pub data Outcome : Type 0 where
  caught_up hung_up : Outcome

pub record Drained : Type 0 where
  pub outcome : Outcome
  pub written : List InstanceEvent
  pub rest : SseSubscriber

abbrev pub prepend : InstanceEvent → Option Drained → Option Drained
prepend e none = none
prepend e (some d) = some (record d { written = e ∷ d.written })

-- What another goroutine does to the subscriber.
pub data Act : Type 0 where
  arrives : InstanceEvent → Act
  closes : Act

unfoldable pub acted : List Act → SseSubscriber → SseSubscriber
acted [] s = s
acted (arrives event ∷ acts) s = acted acts (enqueue event s)
acted (closes ∷ acts) s = acted acts (close s)

abbrev pub now : List (List Act) → List Act
now [] = []
now (acts ∷ others) = acts

abbrev pub afterwards : List (List Act) → List (List Act)
afterwards [] = []
afterwards (acts ∷ others) = others

-- for { event := subscriber.next(); … }, on fuel; `none` means that the fuel ran out. `write`
-- tells whether writing an event to the client succeeds. `others` has what other goroutines do to
-- the subscriber, before each call of `next`.
unfoldable pub drain : (InstanceEvent → Bool) → List (List Act) → ℕ → SseSubscriber → Option Drained
drain write others zero s = none
drain write others (suc fuel) s =
    let taken = next (acted (now others) s) in
    elim taken.0 [
      | none ↦ some (record { outcome = caught_up; written = []; rest = taken.1 })
      | some event ↦
          let later = prepend event (drain write (afterwards others) fuel taken.1) in
          if not (write event)
          then some (record { outcome = hung_up; written = []; rest = taken.1 })
          else if is_shutdown event.type
          then some (record { outcome = hung_up; written = event ∷ []; rest = taken.1 })
          else later
    ]
