-- ===== src/Telemetry/Session/Delivery.antt =====
-- internal/master/runtime.go: the snapshots that a process sends arrive.
use open_ctrl.Types.{Master}
use open_ctrl.Base.{
  ℕ, zero, suc, ◌≤◌, ◌<◌, true, Option, none, some, List, [], ◌∷◌, ◌++◌, ◌≡◌, refl, ◌∙◌, arith, All,
  length, length-append, ==_refl, if_cases,
}
use open_ctrl.Event.Publish.{send_sse_event, publish_event}
use open_ctrl.Telemetry.Apply.{
  TelemetrySnapshot, is_closed, telemetry_current, apply_snapshot, apply_telemetry_snapshot,
}
use open_ctrl.Telemetry.Frame.{TelemetryEnvelope, Conn, set_read_deadline}
use open_ctrl.Telemetry.Frame.RoundTrip.{frame, length_bytes, IsPayload, read_telemetry_frame-frame}
use open_ctrl.Telemetry.Registry.{Json}
use open_ctrl.Telemetry.Session.{later, next_frame, snapshot_of, consume_telemetry}

-- A payload that holds a valid snapshot.
pub record IsReport (json : Json) (report : List ℕ × TelemetrySnapshot) : Type 0 where
  pub message : TelemetryEnvelope
  pub accepted : IsPayload json.envelope report.0 message
  pub holds : snapshot_of json message ≡ some report.1

-- A connection that carries frames with these payloads, in time, and then is as `last`.
unfoldable pub carrying : List (List ℕ × TelemetrySnapshot) → Conn → Conn
carrying [] last = last
carrying (report ∷ reports) last =
    let rest : Conn = carrying reports last in
    record { bytes = frame report.0 ++ rest.bytes; deadlines = true ∷ true ∷ rest.deadlines }

-- The other goroutines and the snapshots by turns.
unfoldable pub deliver :
    (ℕ → Master → Master) → (p cmd : ℕ) → List (List ℕ × TelemetrySnapshot) → Master → Master
deliver others p cmd [] m = others 0 m
deliver others p cmd (report ∷ reports) m =
    deliver (later others) p cmd reports (apply_telemetry_snapshot report.1 p cmd (others 0 m))

is_closed-same : (o : Option ℕ) (m n : Master) → n.closed ≡ m.closed → is_closed o n ≡ is_closed o m
is_closed-same none m n e = refl
is_closed-same (some ch) m n e = rw e refl

-- What `telemetryCurrent` looks at.
still_current :
    (p cmd : ℕ) (m n : Master)
    → (n.heap p).deleted ≡ (m.heap p).deleted
    → (n.heap p).cmd ≡ (m.heap p).cmd
    → (n.heap p).stopped_ch ≡ (m.heap p).stopped_ch
    → n.closed ≡ m.closed
    → telemetry_current p cmd n ≡ telemetry_current p cmd m
unfolding telemetry_current
still_current p cmd m n d c s e = rw (d, c, s, is_closed-same (m.heap p).stopped_ch m n e) refl

pub snapshot-current :
    (value : TelemetrySnapshot) (p cmd : ℕ) (m : Master)
    → telemetry_current p cmd m ≡ true
    → telemetry_current p cmd (apply_telemetry_snapshot value p cmd m) ≡ true
unfolding apply_telemetry_snapshot apply_snapshot send_sse_event publish_event
snapshot-current value p cmd m h =
    if_cases (λ n. telemetry_current p cmd n ≡ true) (telemetry_current p cmd m) _ _
      (λ _.
        still_current p cmd m _ (rw (==_refl p) refl) (rw (==_refl p) refl) (rw (==_refl p) refl)
          refl
        ∙ h)
      (λ _. h)

length-carrying :
    (reports : List (List ℕ × TelemetrySnapshot)) (last : Conn)
    → length reports ≤ length (carrying reports last).bytes
unfolding carrying frame length_bytes
length-carrying [] last = omega arith
length-carrying (report ∷ reports) last =
    omega
      (arith, length-carrying reports last, length-append report.0 (carrying reports last).bytes)

module _ (json : Json) (p cmd : ℕ) where
  next_frame-carrying :
      (report : List ℕ × TelemetrySnapshot) (reports : List (List ℕ × TelemetrySnapshot))
      (last : Conn) (h : IsReport json report)
      → next_frame json (carrying (report ∷ reports) last) ≡ some (h.message, carrying reports last)
  unfolding next_frame carrying set_read_deadline
  next_frame-carrying report reports last h =
      read_telemetry_frame-frame json.envelope report.0 (carrying reports last).bytes h.message
        (carrying reports last).deadlines h.accepted

  consume-deliver :
      (fuel : ℕ) (others : ℕ → Master → Master) (reports : List (List ℕ × TelemetrySnapshot))
      (last : Conn) (m : Master)
      → All (IsReport json) reports
      → next_frame json last ≡ none
      → ((k : ℕ) (n : Master)
          → telemetry_current p cmd n ≡ true
          → telemetry_current p cmd (others k n) ≡ true)
      → telemetry_current p cmd m ≡ true
      → length reports < fuel
      → consume_telemetry json fuel others p cmd (carrying reports last) m
        ≡ deliver others p cmd reports m
  unfolding consume_telemetry deliver next_frame set_read_deadline carrying
  consume-deliver zero others reports last m r e h c l = absurd (omega (arith, l))
  consume-deliver (suc fuel) others [] last m r e h c l = rw (consume_telemetry, e) refl
  consume-deliver (suc fuel) others (report ∷ reports) last m (r, rs) e h c l =
      rw (consume_telemetry, next_frame-carrying report reports last r, h 0 m c, r.holds)
        (consume-deliver fuel (later others) reports last _ rs e (λ k. h (suc k))
          (snapshot-current report.1 p cmd _ (h 0 m c)) (omega (arith, l)))

  -- A session on a connection that carries valid snapshots applies all of them, each once and in
  -- their order, between what the other goroutines do; then it ends, if no frame follows in time.
  -- Conditions: the command is the current one at first, and the other goroutines keep it so.
  pub consume_telemetry-deliver :
      (others : ℕ → Master → Master) (reports : List (List ℕ × TelemetrySnapshot)) (last : Conn)
      (m : Master)
      → All (IsReport json) reports
      → next_frame json last ≡ none
      → ((k : ℕ) (n : Master)
          → telemetry_current p cmd n ≡ true
          → telemetry_current p cmd (others k n) ≡ true)
      → telemetry_current p cmd m ≡ true
      → consume_telemetry json
          (suc (length (carrying reports last).bytes))
          others
          p
          cmd
          (carrying reports last)
          m
        ≡ deliver others p cmd reports m
  consume_telemetry-deliver others reports last m r e h c =
      consume-deliver _ others reports last m r e h c (omega (arith, length-carrying reports last))
