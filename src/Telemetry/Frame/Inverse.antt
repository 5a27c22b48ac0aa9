-- ===== src/Telemetry/Frame/Inverse.antt =====
-- internal/master/telemetry.go: nothing but a frame is read.
use open_ctrl.Base.{
  ℕ, zero, suc, ◌+◌, ◌≤◌, ◌<◌, ◌≡◌, refl, sym, ap, subst, ◌∙◌, inl, inr, Option-cases, arith, true,
  Option, some, List, [], ◌∷◌, ◌++◌, length, length-append, All, bind-some, guard-some,
}
use mathlib.Core.Option.{some-injective}
use open_ctrl.Telemetry.Frame.{
  TelemetryEnvelope, Conn, set_read_deadline, read_full, big_endian, max_telemetry_frame,
  valid_utf8, whole_envelope, read_telemetry_frame,
}
use open_ctrl.Telemetry.Frame.RoundTrip.{frame, length_bytes, IsPayload, frame_fits}

-- A byte string.
abbrev pub IsBytes : List ℕ → Type 0
IsBytes xs = All (λ b. b < 256) xs

pub read_full-some :
    (n : ℕ) (xs ys zs : List ℕ) → read_full n xs ≡ some (ys, zs) → (xs ≡ ys ++ zs) × (length ys ≡ n)
unfolding read_full
read_full-some zero xs ys zs e = ground (arith, e)
read_full-some (suc n) [] ys zs e = cc
read_full-some (suc n) (x ∷ xs) ys zs e = elim (Option-cases (read_full n xs)) [
  | inl h ↦ cc
  | inr ((us, vs), h) ↦ ground (arith, e, h, read_full-some n xs us vs h)
]

read_full-shrinks :
    (n : ℕ) (xs ys zs : List ℕ) → read_full n xs ≡ some (ys, zs) → length xs ≡ n + length zs
read_full-shrinks n xs ys zs e =
    let (split, size) = read_full-some n xs ys zs e in
    ap length split ∙ length-append ys zs ∙ ap (λ k. k + length zs) size

length_bytes-big_endian :
    (a b c d : ℕ)
    → IsBytes (a ∷ b ∷ c ∷ d ∷ [])
    → length_bytes (big_endian (a ∷ b ∷ c ∷ d ∷ [])) ≡ a ∷ b ∷ c ∷ d ∷ []
unfolding length_bytes
length_bytes-big_endian a b c d h = ground (arith, h)

frame_fits-bounds : (n : ℕ) → frame_fits n ≡ true → (0 < n) × (n ≤ max_telemetry_frame)
frame_fits-bounds n h = ground (arith, h)

-- The two reads of the length.
length-read :
    (xs : List ℕ) (first others : List ℕ × List ℕ)
    → IsBytes xs
    → read_full 1 xs ≡ some first
    → read_full 3 first.1 ≡ some others
    → xs ≡ length_bytes (big_endian (first.0 ++ others.0)) ++ others.1
unfolding read_full
length-read [] first others h e f = cc
length-read (a ∷ []) first others h e f = ground (arith, e, f)
length-read (a ∷ b ∷ []) first others h e f = ground (arith, e, f)
length-read (a ∷ b ∷ c ∷ []) first others h e f = ground (arith, e, f)
length-read (a ∷ b ∷ c ∷ d ∷ t) first others h e f =
    subst
      (λ q.
        read_full 3 q.1 ≡ some others
        → a ∷ b ∷ c ∷ d ∷ t ≡ length_bytes (big_endian (q.0 ++ others.0)) ++ others.1)
      (some-injective _ _ e)
      (λ g.
        subst (λ o. a ∷ b ∷ c ∷ d ∷ t ≡ length_bytes (big_endian (a ∷ o.0)) ++ o.1)
          (some-injective _ _ g)
          (ap (λ l. l ++ t)
            (sym (length_bytes-big_endian a b c d (h.0, (h.1.0, (h.1.1.0, (h.1.1.1.0, tt))))))))
      f

set_read_deadline-some :
    (conn timed : Conn)
    → set_read_deadline conn ≡ some timed
    → conn.deadlines ≡ true ∷ timed.deadlines
unfolding set_read_deadline
set_read_deadline-some conn timed e = ground (arith, e)

pub set_read_deadline-bytes :
    (conn timed : Conn)
    → set_read_deadline conn ≡ some timed
    → timed ≡ record timed { bytes = conn.bytes }
unfolding set_read_deadline
set_read_deadline-bytes conn timed e = ground (arith, e)

frame-split :
    (payload rest s : List ℕ) (n : ℕ)
    → length payload ≡ n
    → s ≡ payload ++ rest
    → length_bytes n ++ s ≡ frame payload ++ rest
unfolding frame length_bytes
frame-split payload rest s n e f = rw (sym e, f) refl

module _ (unmarshal : List ℕ → Option TelemetryEnvelope) where
  -- The stages of a `readTelemetryFrame` from `conn` to `rest` that gives a message.
  record HasStages (conn : Conn) (message : TelemetryEnvelope) (rest : Conn) : Type 0 where
    first : List ℕ × List ℕ
    first_read : read_full 1 conn.bytes ≡ some first
    timed : set_read_deadline conn ≡ some (record rest { bytes = conn.bytes })
    others : List ℕ × List ℕ
    others_read : read_full 3 first.1 ≡ some others
    size_fits : frame_fits (big_endian (first.0 ++ others.0)) ≡ true
    payload : List ℕ
    payload_read :
        read_full (big_endian (first.0 ++ others.0)) others.1 ≡ some (payload, rest.bytes)
    text : valid_utf8 payload ≡ true
    decoded : unmarshal payload ≡ some message
    whole : whole_envelope message ≡ true

  read_telemetry_frame-HasStages :
      (conn rest : Conn) (message : TelemetryEnvelope)
      → read_telemetry_frame unmarshal conn ≡ some (message, rest)
      → HasStages conn message rest
  unfolding read_telemetry_frame
  read_telemetry_frame-HasStages conn rest message e =
      let (first, f, e1) = bind-some (read_full 1 conn.bytes) _ _ e in
      let (timed, t, e2) = bind-some (set_read_deadline conn) _ _ e1 in
      let (others, o, e3) = bind-some (read_full 3 first.1) _ _ e2 in
      let size = big_endian (first.0 ++ others.0) in
      let (g1, e4) = guard-some (frame_fits size) _ _ e3 in
      let (payload, p, e5) = bind-some (read_full size others.1) _ _ e4 in
      let (g2, e6) = guard-some (valid_utf8 payload.0) _ _ e5 in
      let (read, u, e7) = bind-some (unmarshal payload.0) _ _ e6 in
      let (g3, e8) = guard-some (whole_envelope read) _ _ e7 in
      subst (λ (q : TelemetryEnvelope × Conn). HasStages conn q.0 q.1) (some-injective _ _ e8)
        (record {
          first = first;
          first_read = f;
          timed = t ∙ ap some (set_read_deadline-bytes conn timed t);
          others = others;
          others_read = o;
          size_fits = g1;
          payload = payload.0;
          payload_read = p;
          text = g2;
          decoded = u;
          whole = g3;
        })

  -- What a reader at `conn` that is then at `rest` has passed, for a message.
  pub record IsRead (conn : Conn) (message : TelemetryEnvelope) (rest : Conn) : Type 0 where
    pub payload : List ℕ
    pub accepted : IsPayload unmarshal payload message
    pub passed : conn.bytes ≡ frame payload ++ rest.bytes
    pub timed : conn.deadlines ≡ true ∷ rest.deadlines

  HasStages-IsRead :
      (conn rest : Conn) (message : TelemetryEnvelope)
      → IsBytes conn.bytes
      → HasStages conn message rest
      → IsRead conn message rest
  HasStages-IsRead conn rest message h s =
      let (split, size) =
        read_full-some (big_endian (s.first.0 ++ s.others.0)) s.others.1 s.payload rest.bytes
          s.payload_read in
      let (filled, fits) = frame_fits-bounds (big_endian (s.first.0 ++ s.others.0)) s.size_fits in
      record {
        payload = s.payload;
        accepted = record {
          filled = omega (arith, filled, size);
          fits = omega (arith, fits, size);
          text = s.text;
          decoded = s.decoded;
          whole = s.whole;
        };
        passed =
            length-read conn.bytes s.first s.others h s.first_read s.others_read
            ∙ frame-split s.payload rest.bytes s.others.1 _ size split;
        timed = set_read_deadline-some conn _ s.timed;
      }

  -- Of a connection that carries bytes, nothing but a frame is read: what the reader passed is the
  -- length and the payload, of 1 to 65536 bytes of valid UTF-8, that holds the message; and the
  -- deadline could be set.
  pub read_telemetry_frame-IsRead :
      (conn rest : Conn) (message : TelemetryEnvelope)
      → IsBytes conn.bytes
      → read_telemetry_frame unmarshal conn ≡ some (message, rest)
      → IsRead conn message rest
  read_telemetry_frame-IsRead conn rest message h e =
      HasStages-IsRead conn rest message h (read_telemetry_frame-HasStages conn rest message e)

  -- A frame takes bytes of the connection.
  pub read_telemetry_frame-shrinks :
      (conn rest : Conn) (message : TelemetryEnvelope)
      → read_telemetry_frame unmarshal conn ≡ some (message, rest)
      → length rest.bytes < length conn.bytes
  read_telemetry_frame-shrinks conn rest message e =
      let s = read_telemetry_frame-HasStages conn rest message e in
      omega (
        arith,
        read_full-shrinks _ _ _ _ s.first_read,
        read_full-shrinks _ _ _ _ s.others_read,
        read_full-shrinks _ _ _ _ s.payload_read,
      )
