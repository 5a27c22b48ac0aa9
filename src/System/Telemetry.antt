-- ===== src/System/Telemetry.antt =====
-- internal/master/runtime.go: the telemetry goroutine of a process in the system.
use open_ctrl.Types.{Master}
use open_ctrl.Env.{Env}
use open_ctrl.Base.{ℕ, List, [], ◌∷◌, All}
use open_ctrl.Telemetry.Registry.{TelemetryRegistry, Json}
use open_ctrl.Telemetry.Session.{entries_of, run_telemetry, Round}
use open_ctrl.Telemetry.Session.Rule.{IsKept, IsKeptIn, rounds_keep}
use open_ctrl.System.{Steps, done, then_step, hello, traffic, silence}

pub Steps-trans : {env : Env} {m n o : Master} → Steps env m n → Steps env n o → Steps env m o
Steps-trans s done = s
Steps-trans s (then_step t u) = then_step (Steps-trans s t) u

-- The other goroutines do steps of the system during a round.
pub record IsSurrounded (env : Env) (round : Round) : Type 0 where
  pub connecting : (entry : TelemetryRegistry) (m : Master) → Steps env m (round.connecting entry m)
  pub during : (n : ℕ) (m : Master) → Steps env m (round.during n m)
  pub pause : (m : Master) → Steps env m (round.pause m)

entries-All : (entries : List TelemetryRegistry) → All {0, 0} (λ _. Unit) entries
entries-All [] = tt
entries-All (entry ∷ entries) = (tt, entries-All entries)

module _ (env : Env) (json : Json) (p cmd : ℕ) (m : Master) where
  Steps-IsKept : IsKept (Steps env m) json p cmd
  Steps-IsKept = record {
    traffic = λ value n s. then_step s (traffic value p cmd);
    silence = λ n s. then_step s (silence p cmd);
  }

  rounds-All :
      (rounds : List Round)
      → All (IsSurrounded env) rounds
      → All (IsKeptIn (Steps env m) (λ _. Unit) json p cmd) rounds
  rounds-All [] h = tt
  rounds-All (round ∷ rounds) (h, hs) = (
    record {
      known = entries-All (entries_of round);
      connecting = λ entry n s. Steps-trans s (h.connecting entry n);
      greeting = λ entry c l n q sl i e s. then_step s (hello c.1.id p cmd);
      during = λ k n s. Steps-trans s (h.during k n);
      pause = λ n s. Steps-trans s (h.pause n);
    },
    rounds-All rounds hs,
  )

  -- All that the telemetry goroutine of a process does to the master, over any rounds of
  -- discovery, connections, frames and pauses, is a sequence of steps of the system, if what the
  -- other goroutines do meanwhile is one.
  run_telemetry-Steps :
      (rounds : List Round) (ctx : ℕ)
      → All (IsSurrounded env) rounds
      → Steps env m (run_telemetry json rounds ctx p cmd m).1
  unfolding run_telemetry
  run_telemetry-Steps rounds ctx h =
      rounds_keep (Steps env m) json p cmd Steps-IsKept (λ _. Unit) (m.heap p).role ctx rounds 1 m
        (rounds-All rounds h) done
