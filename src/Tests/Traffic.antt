-- ===== src/Tests/Traffic.antt =====
-- Counters of traffic.
use open_ctrl.Base.{◌⊎◌, pos, ◌+◌, ◌≡◌, arith, List, [], ◌∷◌}
use open_ctrl.Telemetry.Apply.{TelemetrySnapshot}
use open_ctrl.Telemetry.Apply.Effect.{
  IsCurrent, IsStale, IsCounted, IsIgnored, apply_all, apply_all_lem,
}
use open_ctrl.Tests.Data.{master}
use open_ctrl.Telemetry.Counter.Tally.{
  Reading, report, reset, launch, read, read_all, tally_all, fresh_meter, fresh_tally,
  total-read_all, read-IsBounded, IsBounded,
}

-- Two processes with a reset in between.
abbrev readings : List Reading
readings = report 5 ∷ reset ∷ report 9 ∷ launch ∷ report 3 ∷ []

total-read_all_example :
    (read_all readings fresh_meter).total + (tally_all readings fresh_tally).mark
    ≡ (tally_all readings fresh_tally).earlier + (tally_all readings fresh_tally).current
total-read_all_example = total-read_all readings (
  (omega arith, omega arith),
  (tt, ((omega arith, omega arith), (tt, ((omega arith, omega arith), tt)))),
)

read-IsBounded_example : IsBounded (read (report 4) (record { total = 9; base = 7; reset = 6 }))
read-IsBounded_example =
    read-IsBounded (report 4) (record { total = 9; base = 7; reset = 6 })
      (record { total_fits = omega arith; base_fits = omega arith; base-le = omega arith })

abbrev busy : TelemetrySnapshot
busy = record {
  tcp_upload = 4;
  tcp_download = 5;
  udp_upload = 0;
  udp_download = 0;
  tcp_active = pos 4294967296;
  udp_active = pos 1;
}

-- The vector runs the command 4.
apply_all_lem_example :
    (IsCurrent 2 4 master
      × IsCounted (busy ∷ busy ∷ []) 2 master (apply_all (busy ∷ busy ∷ []) 2 4 master))
    ⊎ (IsStale 2 4 master × IsIgnored (busy ∷ busy ∷ []) 2 4 master)
apply_all_lem_example =
    apply_all_lem 2 4 (busy ∷ busy ∷ []) master
      (record { tcps_fit = omega arith; udps_fit = omega arith })
