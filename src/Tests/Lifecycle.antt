-- ===== src/Tests/Lifecycle.antt =====
-- The lifecycle of an instance.
use open_ctrl.Types.{Master, stopped}
use open_ctrl.Base.{eq_iff, ℕ, ◌<◌, ◌≡◌, refl, arith, inl, false, some, ◌++◌, elem}
use open_ctrl.Instance.Lifecycle.Start.{start_instance, start_instance_locked}
use open_ctrl.Instance.Lifecycle.Stop.{
  stop_instance, stop_instance_locked, asked, ask, close_stopped,
}
use open_ctrl.Instance.Lifecycle.Monitor.{monitor_instance}
use open_ctrl.Instance.Lifecycle.Consistent.{
  AllConsistent, IsConsistent, KeepsConsistent, put-AllConsistent,
}
use open_ctrl.Instance.Lifecycle.Exit.{OnlyExited, monitor_stale, Exits, monitor_current}
use open_ctrl.Instance.Lifecycle.Ending.{stop_stops, IsQuiet, Waited, stop_signals, start_isolates}
use open_ctrl.System.{Steps, done, then_step, start, stop, IsRun, run}
use open_ctrl.Registry.Laws.{IsRegistry, Moves-Follows}
use open_ctrl.System.Moves.{Steps-Leads, Steps-IsRegistry}
use open_ctrl.System.Invariant.{Steps-AllConsistent}
use open_ctrl.Tests.Data.{env, wait, portal, vector, empty, master}

pub portal-IsConsistent : IsConsistent portal
portal-IsConsistent = record { live = λ h. cc; idle = λ h. (refl, refl, refl); failed = λ h. cc }

vector-IsConsistent : IsConsistent vector
vector-IsConsistent = record { live = λ h. (refl, refl, refl); idle = λ h. cc; failed = λ h. cc }

pub master-AllConsistent : AllConsistent master
master-AllConsistent =
    put-AllConsistent 2 vector empty vector-IsConsistent (λ p. portal-IsConsistent)

pub wait-KeepsConsistent : KeepsConsistent wait
wait-KeepsConsistent = record { in_grace = λ m a. a; once_killed = λ m a. a }

wait-IsQuiet : IsQuiet wait
wait-IsQuiet = record {
  grace_signals = λ m. refl;
  killed_signals = λ m. refl;
  killed_cancels = λ m. refl;
}

stop_stops_example : ((stop_instance_locked env wait 2 master).heap 2).status ≡ stopped
stop_stops_example = stop_stops env wait 2 master

monitor_stale_example :
    OnlyExited 12 master (monitor_instance env (some false) 2 3 11 12 6 7 master)
monitor_stale_example = monitor_stale env (some false) 2 3 11 12 6 7 master (inl refl)

monitor_current_example :
    Exits (some false) vector ((monitor_instance env (some false) 2 4 11 12 6 7 master).heap 2)
monitor_current_example = monitor_current env (some false) 2 4 11 12 6 7 master refl refl refl

stop_signals_example :
    Waited 13 55
      (elem 12 (wait.grace (ask env 55 (close_stopped (some 11) master))).closed)
      (record master { signals = master.signals ++ asked env 55 })
      (stop_instance_locked env wait 2 master)
stop_signals_example = stop_signals wait wait-IsQuiet env 2 55 12 13 master refl refl refl refl

start_isolates_example :
    OnlyExited 12
      (start_instance_locked env 1 master)
      (monitor_instance env (some false) 1 4 11 12 6 7 (start_instance_locked env 1 master))
start_isolates_example =
    start_isolates env 1 4 master master-AllConsistent (omega arith) (some false) 11 12 6 7
      (record { serving = refl; present = refl; at_rest = refl })

-- An instance is started, then another one is stopped.
pub wait-IsRun : IsRun env wait
wait-IsRun = run (λ m. done) (λ m. done)

pub master-IsRegistry : IsRegistry master
master-IsRegistry = record {
  unique = (refl, (refl, tt));
  named = λ id p l. ground (arith, l, eq_iff "0a0b0c0d" id, eq_iff "0e0f1011" id);
}

-- Numbers that are in use stay so.
pub used : (m : Master) → Steps env master m → (p : ℕ) → p < 20 → p < m.fresh
used m s p b =
    omega (arith, b, (Moves-Follows (Steps-Leads env master m s master-IsRegistry)).fresh)

abbrev begun : Master
begun = start_instance env 1 master

begun-Steps : Steps env master begun
begun-Steps = then_step done (start {m = master} 1 (omega arith))

abbrev pub ended : Master
ended = stop_instance env wait 2 begun

pub ended-Steps : Steps env master ended
ended-Steps =
    then_step begun-Steps
      (stop {m = begun} wait wait-IsRun 2 (used begun begun-Steps 2 (omega arith)))

Steps-AllConsistent_example : AllConsistent ended
Steps-AllConsistent_example = Steps-AllConsistent env master ended ended-Steps master-AllConsistent

Steps-IsRegistry_example : IsRegistry ended
Steps-IsRegistry_example = Steps-IsRegistry env master ended ended-Steps master-IsRegistry
