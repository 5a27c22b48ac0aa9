-- ===== src/Telemetry/Frame.antt =====
-- internal/master/telemetry.go: the frames that the telemetry connection of a process carries.
pub mod RoundTrip
pub mod Inverse
use open_ctrl.Base.{
  ℕ, zero, suc, ◌+◌, ◌*◌, ◌/◌, ◌%◌, String, Bool, true, false, not, ◌&&◌, ◌||◌, Option, none, some,
  List, [], ◌∷◌, ◌++◌, ◌==◌, ltb, leb, length, str_eq, if◌then◌else◌, guard, ◌>>=◌, ◌>>◌,
}

-- telemetryEnvelope; `data` is `body` here.
pub record TelemetryEnvelope : Type 0 where
  pub type : String
  pub body : List ℕ

-- A connection: the bytes that still arrive, in time and before it is closed, and the answers to
-- `SetReadDeadline`, which fails once there are none.
pub record Conn : Type 0 where
  pub bytes : List ℕ
  pub deadlines : List Bool

-- conn.SetReadDeadline(…)
unfoldable pub set_read_deadline : Conn → Option Conn
set_read_deadline conn = elim conn.deadlines [
  | [] ↦ none
  | set ∷ rest ↦ if set then some (record conn { deadlines = rest }) else none
]

-- io.ReadFull: the next `n` bytes, and what follows them.
unfoldable pub read_full : ℕ → List ℕ → Option (List ℕ × List ℕ)
read_full zero xs = some ([], xs)
read_full (suc n) [] = none
read_full (suc n) (x ∷ xs) = elim (read_full n xs) [ none ↦ none | some r ↦ some (x ∷ r.0, r.1) ]

-- binary.BigEndian.Uint32
abbrev pub big_endian : List ℕ → ℕ
big_endian (a ∷ b ∷ c ∷ d ∷ []) = a * 16777216 + b * 65536 + c * 256 + d
big_endian _ = 0

-- const maxTelemetryFrame
abbrev pub max_telemetry_frame : ℕ
max_telemetry_frame = 65536

-- What follows a byte that begins a rune: how many bytes, and the bounds of the first of them.
unfoldable pub rune_lead : ℕ → Option (ℕ × (ℕ × ℕ))
rune_lead b =
    if ltb b 0x80
    then some (0, (0x80, 0xbf))
    else if ltb b 0xc2
    then none
    else if ltb b 0xe0
    then some (1, (0x80, 0xbf))
    else if ltb b 0xf0
    then some (2, (if b == 0xe0 then 0xa0 else 0x80, if b == 0xed then 0x9f else 0xbf))
    else if ltb b 0xf5
    then some (3, (if b == 0xf0 then 0x90 else 0x80, if b == 0xf4 then 0x8f else 0xbf))
    else none

-- The bytes go on with `more` bytes of a rune, the first from `lo` to `hi`, and then whole runes.
unfoldable pub valid_after : ℕ → ℕ → ℕ → List ℕ → Bool
valid_after zero lo hi [] = true
valid_after (suc more) lo hi [] = false
valid_after zero lo hi (b ∷ r) = elim (rune_lead b) [
  | none ↦ false
  | some s ↦ valid_after s.0 s.1.0 s.1.1 r
]
valid_after (suc more) lo hi (b ∷ r) = elim (leb lo b && leb b hi) [
  | false ↦ false
  | true ↦ valid_after more 0x80 0xbf r
]

-- utf8.Valid
unfoldable pub valid_utf8 : List ℕ → Bool
valid_utf8 xs = valid_after 0 0x80 0xbf xs

-- data[0] == '{'
abbrev pub begins_object : List ℕ → Bool
begins_object [] = false
begins_object (b ∷ r) = b == 0x7b

-- The test of an envelope at the end of `readTelemetryFrame`, negated.
unfoldable pub whole_envelope : TelemetryEnvelope → Bool
whole_envelope message = not (str_eq message.type "") && begins_object message.body

-- readTelemetryFrame; `unmarshal` is json.Unmarshal into an envelope.
unfoldable pub read_telemetry_frame :
    (List ℕ → Option TelemetryEnvelope) → Conn → Option (TelemetryEnvelope × Conn)
read_telemetry_frame unmarshal conn = do
  first ← read_full 1 conn.bytes
  timed ← set_read_deadline conn
  others ← read_full 3 first.1
  let size = big_endian (first.0 ++ others.0)
  guard (not (size == 0 || ltb max_telemetry_frame size))
  payload ← read_full size others.1
  guard (valid_utf8 payload.0)
  message ← unmarshal payload.0
  guard (whole_envelope message)
  some (message, record timed { bytes = payload.1 })
