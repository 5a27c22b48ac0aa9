-- ===== src/Telemetry/Session/Rule.antt =====
-- internal/master/runtime.go: a rule for what the telemetry goroutine keeps, whatever it meets.
use open_ctrl.Types.{Master}
use open_ctrl.Base.{
  ℕ, zero, suc, String, true, Option, some, List, [], ◌∷◌, ◌≡◌, All, Bool-cases, Option-cases,
  if_cases, inl, inr, elem, length, str_eq,
}
use open_ctrl.Telemetry.Apply.{
  TelemetrySnapshot, telemetry_current, apply_telemetry_snapshot, apply_telemetry_hello,
  clear_active_telemetry, identity_matches,
}
use open_ctrl.Telemetry.Frame.{Conn}
use open_ctrl.Telemetry.Registry.{TelemetryRegistry, TelemetryDescriptor, Json}
use open_ctrl.Telemetry.Session.{
  later, next_frame, snapshot_of, consume_telemetry, connect_telemetry, hold_session, try_entries,
  telemetry_round, run_rounds, Round, Attempt, entries_of,
}

-- A property of the master that the steps of the goroutine for `p` and `cmd` keep.
pub record IsKept (P : Master → Type 0) (json : Json) (p cmd : ℕ) : Type 0 where
  pub traffic :
      (value : TelemetrySnapshot) (m : Master) → P m → P (apply_telemetry_snapshot value p cmd m)
  pub silence : (m : Master) → P m → P (clear_active_telemetry p cmd m)

-- A property that the other goroutines and the greetings keep in a round, whose entries all fulfil
-- `Q`. The identity is tested before the connection is made, in a state `l`.
pub record IsKeptIn (P : Master → Type 0) (Q : TelemetryRegistry → Type 0) (json : Json) (p cmd : ℕ)
    (round : Round) : Type 0 where
  pub known : All Q (entries_of round)
  pub connecting : (entry : TelemetryRegistry) (m : Master) → P m → P (round.connecting entry m)
  pub greeting :
      (entry : TelemetryRegistry) (c : Conn × TelemetryDescriptor) (l m : Master)
      → Q entry
      → P l
      → identity_matches (l.heap p).telemetry_identity entry.instance.registry_name ≡ true
      → connect_telemetry json (round.dial entry) entry ≡ some c
      → P m
      → P (apply_telemetry_hello c.1.id p cmd m)
  pub during : (n : ℕ) (m : Master) → P m → P (round.during n m)
  pub pause : (m : Master) → P m → P (round.pause m)

module _ (P : Master → Type 0) (json : Json) (p cmd : ℕ) (k : IsKept P json p cmd) where
  pub consume_keeps :
      (fuel : ℕ) (others : ℕ → Master → Master) (conn : Conn) (m : Master)
      → ((n : ℕ) (o : Master) → P o → P (others n o))
      → P m
      → P (consume_telemetry json fuel others p cmd conn m)
  unfolding consume_telemetry
  consume_keeps zero others conn m h a = a
  consume_keeps (suc fuel) others conn m h a = elim (Option-cases (next_frame json conn)) [
    | inl e ↦ rw (consume_telemetry, e) (h 0 m a)
    | inr (frame, e) ↦ elim (Bool-cases (telemetry_current p cmd (others 0 m))) [
      | inr c ↦ rw (consume_telemetry, e, c) (h 0 m a)
      | inl c ↦ elim (Option-cases (snapshot_of json frame.0)) [
        | inl v ↦ rw (consume_telemetry, e, c, v) (h 0 m a)
        | inr (value, v) ↦
            rw (consume_telemetry, e, c, v)
              (consume_keeps fuel (later others) frame.1 _ (λ n. h (suc n))
                (k.traffic value _ (h 0 m a)))
      ]
    ]
  ]

  module _ (Q : TelemetryRegistry → Type 0) (role : String) (ctx : ℕ) where
    session_keeps :
        (round : Round) (conn : Conn) (id : String) (m : Master)
        → IsKeptIn P Q json p cmd round
        → P (apply_telemetry_hello id p cmd m)
        → P (hold_session json round ctx p cmd conn id m).master
    unfolding hold_session
    session_keeps round conn id m h a =
        let held = consume_keeps (suc (length conn.bytes)) round.during conn _ h.during a in
        if_cases (λ (t : Attempt). P t.master)
          (elem ctx
            (consume_telemetry json (suc (length conn.bytes)) round.during p cmd conn
              (apply_telemetry_hello id p cmd m)).cancelled)
          _ _ (λ _. held) (λ _. k.silence _ held)

    try_keeps :
        (round : Round) (entries : List TelemetryRegistry) (m : Master)
        → IsKeptIn P Q json p cmd round
        → All Q entries
        → P m
        → P (try_entries json round role ctx p cmd entries m).master
    unfolding try_entries
    try_keeps round [] m h q a = a
    try_keeps round (entry ∷ entries) m h (e, q) a =
        let n = h.connecting entry m a in
        elim (Bool-cases
          (identity_matches (m.heap p).telemetry_identity entry.instance.registry_name)) [
            | inr i ↦ rw (try_entries, i) (try_keeps round entries m h q a)
            | inl i ↦ elim (Option-cases (connect_telemetry json (round.dial entry) entry)) [
              | inl c ↦ rw (try_entries, i, c) (try_keeps round entries _ h q n)
              | inr (c, f) ↦ elim (Bool-cases (str_eq c.1.role role)) [
                | inr r ↦ rw (try_entries, i, f, r) (try_keeps round entries _ h q n)
                | inl r ↦
                    rw (try_entries, i, f, r)
                      (session_keeps round c.0 c.1.id _ h (h.greeting entry c m _ e a i f n))
              ]
            ]
          ]

    round_keeps :
        (round : Round) (backoff : ℕ) (m : Master)
        → IsKeptIn P Q json p cmd round
        → P m
        → P (telemetry_round json round role ctx p cmd backoff m).1
    unfolding telemetry_round
    round_keeps round backoff m h a =
        let t : Attempt = try_entries json round role ctx p cmd (entries_of round) m in
        let tried = try_keeps round (entries_of round) m h h.known a in
        if_cases (λ (r : Option ℕ × Master). P r.1) (elem ctx m.cancelled) _ _ (λ _. a)
          λ _.
            if_cases (λ (r : Option ℕ × Master). P r.1) t.returns _ _ (λ _. tried)
              λ _.
                if_cases (λ (r : Option ℕ × Master). P r.1)
                  (elem ctx (round.pause t.master).cancelled) _ _ (λ _. h.pause _ tried)
                  (λ _. h.pause _ tried)

    -- Whatever rounds the goroutine does.
    pub rounds_keep :
        (rounds : List Round) (backoff : ℕ) (m : Master)
        → All (IsKeptIn P Q json p cmd) rounds
        → P m
        → P (run_rounds json rounds role ctx p cmd backoff m).1
    unfolding run_rounds
    rounds_keep [] backoff m h a = a
    rounds_keep (round ∷ rounds) backoff m (h, hs) a =
        let r = telemetry_round json round role ctx p cmd backoff m in
        elim (Option-cases r.0) [
          | inl e ↦ rw (run_rounds, e) (round_keeps round backoff m h a)
          | inr (delay, e) ↦
              rw (run_rounds, e) (rounds_keep rounds delay _ hs (round_keeps round backoff m h a))
        ]
