-- ===== src/Telemetry/Frame/RoundTrip.antt =====
-- internal/master/telemetry.go: what `readTelemetryFrame` reads is a frame, and every frame is read.
use open_ctrl.Base.{
  ℕ, ◌/◌, ◌%◌, ◌≤◌, ◌<◌, ◌≡◌, refl, arith, Bool, true, not, ◌||◌, Option, some, List, [], ◌∷◌, ◌++◌,
  ◌==◌, ltb, length,
}
use open_ctrl.Telemetry.Frame.{
  TelemetryEnvelope, set_read_deadline, read_full, big_endian, max_telemetry_frame, valid_utf8,
  whole_envelope, read_telemetry_frame,
}

-- The four bytes of a length, the highest first.
unfoldable pub length_bytes : ℕ → List ℕ
length_bytes n = n / 16777216 % 256 ∷ n / 65536 % 256 ∷ n / 256 % 256 ∷ n % 256 ∷ []

-- What a process sends for a payload.
unfoldable pub frame : List ℕ → List ℕ
frame payload = length_bytes (length payload) ++ payload

pub read_full-append : (xs ys : List ℕ) → read_full (length xs) (xs ++ ys) ≡ some (xs, ys)
unfolding read_full
read_full-append [] ys = refl
read_full-append (x ∷ xs) ys = rw (read_full-append xs ys) refl

-- A payload that `readTelemetryFrame` accepts, with the message that it holds.
pub record IsPayload (unmarshal : List ℕ → Option TelemetryEnvelope) (payload : List ℕ)
    (message : TelemetryEnvelope) : Type 0 where
  pub filled : 0 < length payload
  pub fits : length payload ≤ max_telemetry_frame
  pub text : valid_utf8 payload ≡ true
  pub decoded : unmarshal payload ≡ some message
  pub whole : whole_envelope message ≡ true

pub big_endian-length_bytes : (n : ℕ) → n ≤ max_telemetry_frame → big_endian (length_bytes n) ≡ n
unfolding length_bytes
big_endian-length_bytes n h = omega (arith, h)

-- The test of a frame's length.
abbrev pub frame_fits : ℕ → Bool
frame_fits size = not (size == 0 || ltb max_telemetry_frame size)

frame_fits-true : (n : ℕ) → 0 < n → n ≤ max_telemetry_frame → frame_fits n ≡ true
frame_fits-true n p h = ground (arith, p, h)

module _ (unmarshal : List ℕ → Option TelemetryEnvelope) where
  -- A frame that arrives whole, while the deadline can be set, is read as the message it holds, and
  -- the reader stands right behind it, whatever follows.
  pub read_telemetry_frame-frame :
      (payload rest : List ℕ) (message : TelemetryEnvelope) (deadlines : List Bool)
      → IsPayload unmarshal payload message
      → read_telemetry_frame unmarshal
          (record { bytes = frame payload ++ rest; deadlines = true ∷ deadlines })
        ≡ some (message, record { bytes = rest; deadlines = deadlines })
  unfolding read_telemetry_frame frame length_bytes read_full set_read_deadline
  read_telemetry_frame-frame payload rest message deadlines i =
      rw
        (
          big_endian-length_bytes (length payload) i.fits,
          frame_fits-true (length payload) i.filled i.fits,
          read_full-append payload rest,
          i.text,
          i.decoded,
          i.whole,
        )
        refl
