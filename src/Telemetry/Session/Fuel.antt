-- ===== src/Telemetry/Session/Fuel.antt =====
-- internal/master/runtime.go: the loop of `consumeTelemetry` ends.
use open_ctrl.Types.{Master}
use open_ctrl.Base.{
  ℕ, zero, suc, ◌<◌, ◌≡◌, refl, ap, arith, some, length, Option-cases, Bool-cases, inl, inr,
  bind-some,
}
use open_ctrl.Telemetry.Apply.{telemetry_current}
use open_ctrl.Telemetry.Frame.{TelemetryEnvelope, Conn, set_read_deadline}
use open_ctrl.Telemetry.Frame.Inverse.{read_telemetry_frame-shrinks, set_read_deadline-bytes}
use open_ctrl.Telemetry.Registry.{Json}
use open_ctrl.Telemetry.Session.{later, next_frame, snapshot_of, consume_telemetry}

next_frame-shrinks :
    (json : Json) (conn rest : Conn) (message : TelemetryEnvelope)
    → next_frame json conn ≡ some (message, rest)
    → length rest.bytes < length conn.bytes
unfolding next_frame
next_frame-shrinks json conn rest message e =
    let (timed, t, f) = bind-some (set_read_deadline conn) _ _ e in
    omega (
      arith,
      ap (λ c. length c.bytes) (set_read_deadline-bytes conn timed t),
      read_telemetry_frame-shrinks json.envelope timed rest message f,
    )

-- With more fuel than there are bytes, the session is the same whatever the fuel.
consume_telemetry-fuel :
    (json : Json) (fuel more : ℕ) (others : ℕ → Master → Master) (p cmd : ℕ) (conn : Conn)
    (m : Master)
    → length conn.bytes < fuel
    → length conn.bytes < more
    → consume_telemetry json fuel others p cmd conn m
      ≡ consume_telemetry json more others p cmd conn m
unfolding consume_telemetry
consume_telemetry-fuel json zero more others p cmd conn m h i = absurd (omega (arith, h))
consume_telemetry-fuel json (suc fuel) zero others p cmd conn m h i = absurd (omega (arith, i))
consume_telemetry-fuel json (suc fuel) (suc more) others p cmd conn m h i =
    elim (Option-cases (next_frame json conn)) [
      | inl e ↦ rw (consume_telemetry, e) refl
      | inr (frame, e) ↦ elim (Bool-cases (telemetry_current p cmd (others 0 m))) [
        | inr c ↦ rw (consume_telemetry, e, c) refl
        | inl c ↦ elim (Option-cases (snapshot_of json frame.0)) [
          | inl v ↦ rw (consume_telemetry, e, c, v) refl
          | inr (value, v) ↦
              let shorter = next_frame-shrinks json conn frame.1 frame.0 e in
              rw (consume_telemetry, e, c, v)
                (consume_telemetry-fuel json fuel more (later others) p cmd frame.1 _
                  (omega (arith, h, shorter)) (omega (arith, i, shorter)))
        ]
      ]
    ]
