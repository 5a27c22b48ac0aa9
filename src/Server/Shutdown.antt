-- ===== src/Server/Shutdown.antt =====
-- internal/master/master.go: `shutdown`. Its stops run each in a goroutine of its own, and take
-- `lifecycleMu` one after another: the order of the map's entries stands for theirs. The HTTP
-- server still answers until its own shutdown at the end, which is not modelled; what it does until
-- then is an argument, as are the steps of the other goroutines.
pub mod Keep
pub mod Stops
use open_ctrl.Types.{SseSubscriber, Instance, Master}
use open_ctrl.Env.{Env, Wait}
use open_ctrl.Base.{
  ℕ, String, Bool, not, ◌&&◌, List, [], ◌∷◌, is_some, if◌then◌else◌, true, Option, none, some, take,
}
use open_ctrl.State.Save.{save_state}
use open_ctrl.Event.Publish.{shutdown_sse_connections}
use open_ctrl.Instance.Lifecycle.Start.{is_stopped}
use open_ctrl.Instance.Lifecycle.Stop.{process_of, stop_instance}

-- What the other goroutines do: before the stop of an instance has the lock, and while it waits;
-- behind the last stop, behind the save, and behind the cut-off of the streams.
pub record Meanwhile : Type 0 where
  pub before : ℕ → Master → Master
  pub wait : ℕ → Wait
  pub unsaved : Master → Master
  pub saved : Master → Master
  pub cut : Master → Master

-- shouldStop
unfoldable pub should_stop : Instance → Bool
should_stop inst = not (is_stopped inst.status) && is_some (process_of inst.cmd)

-- The instances for which the function given to Range starts a goroutine.
unfoldable pub to_stop : Master → List (String × ℕ) → List ℕ
to_stop m [] = []
to_stop m ((id, p) ∷ entries) =
    let rest : List ℕ = to_stop m entries in if should_stop (m.heap p) then p ∷ rest else rest

-- The goroutines.
unfoldable pub stop_all : Env → Meanwhile → List ℕ → Master → Master
stop_all env w [] m = m
stop_all env w (p ∷ ps) m = stop_all env w ps (stop_instance env (w.wait p) p (w.before p m))

-- The states of the goroutine of shutdown: behind the stops, and behind the save.
unfoldable pub stopped_state : Env → Meanwhile → Master → Master
stopped_state env w m =
    let closed : Master = record m { periodic_done = true } in
    w.unsaved (stop_all env w (to_stop closed closed.instances) closed)

unfoldable pub kept_state : Env → Meanwhile → Master → Master
kept_state env w m = w.saved (save_state env.files (stopped_state env w m))

-- The goroutine of (*Master).shutdown, with the subscribers that it cuts off.
unfoldable pub shutdown : Env → Meanwhile → Master → Master × List (ℕ × SseSubscriber)
shutdown env w m =
    let cut : Master × List (ℕ × SseSubscriber) = shutdown_sse_connections (kept_state env w m) in
    (w.cut cut.0, cut.1)

-- Where the goroutine is when the deadline passes: behind some of its stops, behind all of them,
-- behind the save, or behind the cut-off, with the HTTP server still to end.
pub data Overdue : Type 0 where
  stops_done : ℕ → Overdue
  not_saved not_cut not_ended : Overdue

unfoldable pub cut_short : Env → Meanwhile → Overdue → Master → Master
cut_short env w (stops_done count) m =
    let closed : Master = record m { periodic_done = true } in
    stop_all env w (take count (to_stop closed closed.instances)) closed
cut_short env w not_saved m = stopped_state env w m
cut_short env w not_cut m = kept_state env w m
cut_short env w not_ended m = (shutdown env w m).0

pub data ShutdownError : Type 0 where
  context_error : ShutdownError

-- (*Master).shutdown: its answer, and the master as it is then; the process ends.
unfoldable pub shutdown_until :
    Env → Meanwhile → Option Overdue → Master → Option ShutdownError × Master
shutdown_until env w none m = (none, (shutdown env w m).0)
shutdown_until env w (some overdue) m = (some context_error, cut_short env w overdue m)
