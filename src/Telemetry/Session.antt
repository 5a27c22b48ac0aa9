-- ===== src/Telemetry/Session.antt =====
-- internal/master/runtime.go, with `connectTelemetry` of internal/master/telemetry.go: what the
-- telemetry goroutine of a process does.
pub mod Rule
pub mod Identity
pub mod Fuel
pub mod Delivery
use Prim.Native.String.{len, slice}
use text.Mathlib.Text.{starts_with}
use open_ctrl.Types.{Master}
use open_ctrl.Base.{
  ℕ, zero, suc, String, Bool, true, false, not, ◌&&◌, ◌||◌, Option, none, some, List, [], ◌∷◌, ◌==◌,
  leb, elem, length, lookup, str_eq, if◌then◌else◌, ℤ, pos, negsuc, guard, ◌>>=◌, ◌>>◌,
}
use open_ctrl.Telemetry.Apply.{
  TelemetrySnapshot, telemetry_current, apply_telemetry_hello, apply_telemetry_snapshot,
  clear_active_telemetry, identity_matches, next_backoff,
}
use open_ctrl.Telemetry.Frame.{TelemetryEnvelope, Conn, read_telemetry_frame, set_read_deadline}
use open_ctrl.Telemetry.Registry.{TelemetryDescriptor, DiscoveredInstance, TelemetryRegistry, Json}

-- White space of JSON; bytes.TrimSpace knows more, but JSON has none of it around a value.
abbrev is_space : ℕ → Bool
is_space b = b == 0x20 || (leb 9 b && leb b 13)

abbrev trim_left : List ℕ → List ℕ
trim_left [] = []
trim_left (b ∷ r) = let rest = trim_left r in if is_space b then rest else b ∷ r

abbrev trim_right : List ℕ → List ℕ
trim_right [] = []
trim_right (b ∷ r) =
    let rest = trim_right r in if is_space b && length rest == 0 then [] else b ∷ rest

abbrev bytes_equal : List ℕ → List ℕ → Bool
bytes_equal [] [] = true
bytes_equal (a ∷ xs) (b ∷ ys) = a == b && bytes_equal xs ys
bytes_equal _ _ = false

-- bytes.Equal(bytes.TrimSpace(field), []byte("null"))
unfoldable pub is_null : List ℕ → Bool
is_null field = bytes_equal (trim_left (trim_right field)) (0x6e ∷ 0x75 ∷ 0x6c ∷ 0x6c ∷ [])

abbrev pub statistics : List String
statistics =
    "tcp_upload_bytes" ∷ "tcp_download_bytes" ∷ "udp_upload_bytes" ∷ "udp_download_bytes"
    ∷ "tcp_active" ∷ "udp_active" ∷ []

-- Every statistic named is present and not null.
unfoldable pub all_stated : List String → List (String × List ℕ) → Bool
all_stated [] fields = true
all_stated (name ∷ names) fields = elim (lookup name fields) [
  | none ↦ false
  | some field ↦ not (is_null field) && all_stated names fields
]

abbrev pub not_negative : ℤ → Bool
not_negative (pos n) = true
not_negative (negsuc n) = false

-- The checks of a message in the loop of `consumeTelemetry`.
unfoldable pub snapshot_of : Json → TelemetryEnvelope → Option TelemetrySnapshot
snapshot_of json message = do
  guard (str_eq message.type "snapshot")
  fields ← json.fields message.body
  guard (length fields == 6)
  guard (all_stated statistics fields)
  value ← json.strict_snapshot message.body
  guard (not_negative value.tcp_active && not_negative value.udp_active)
  some value

-- The begin of a round: the deadline, and the next frame.
unfoldable pub next_frame : Json → Conn → Option (TelemetryEnvelope × Conn)
next_frame json conn = do timed ← set_read_deadline conn; read_telemetry_frame json.envelope timed

-- The other goroutines, from the next round on.
abbrev pub later : (ℕ → Master → Master) → ℕ → Master → Master
later others n = others (suc n)

-- (*Master).consumeTelemetry, on fuel: while round `n` reads, the other goroutines do `others n`.
unfoldable pub consume_telemetry :
    Json → ℕ → (ℕ → Master → Master) → (p cmd : ℕ) → Conn → Master → Master
consume_telemetry json zero others p cmd conn m = m
consume_telemetry json (suc fuel) others p cmd conn m = elim (next_frame json conn) [
  | none ↦ others 0 m
  | some frame ↦
      let n : Master = others 0 m in
      elim (telemetry_current p cmd n) [
        | false ↦ n
        | true ↦ elim (snapshot_of json frame.0) [
          | none ↦ n
          | some value ↦
              consume_telemetry json fuel (later others) p cmd frame.1
                (apply_telemetry_snapshot value p cmd n)
        ]
      ]
]

-- strings.TrimPrefix(name, "nowhere.")
unfoldable pub trim_nowhere : String → String
trim_nowhere name = if starts_with name "nowhere." then slice name 8 (len name) else name

-- The test of the greeting in `connectTelemetry`, negated.
unfoldable pub greets : TelemetryRegistry → TelemetryDescriptor → Bool
greets entry hello =
    str_eq hello.contract "nowhere.telemetry"
    && (str_eq hello.id (trim_nowhere entry.instance.registry_name)
        && hello.pid == entry.instance.pid)

-- connectTelemetry; `SetDeadline` is a deadline as any other; `dial` is the connection that dialTelemetry gives, if any.
unfoldable pub connect_telemetry :
    Json → Option Conn → TelemetryRegistry → Option (Conn × TelemetryDescriptor)
connect_telemetry json dial entry = do
  conn ← dial
  timed ← set_read_deadline conn
  frame ← read_telemetry_frame json.envelope timed
  guard (str_eq frame.0.type "hello")
  hello ← json.hello frame.0.body
  guard (greets entry hello)
  some (frame.1, hello)

-- What one round of `runTelemetry` meets: the entries discovered, if there was no error, the
-- connections that can be made, and what the other goroutines do while it connects to an entry,
-- during the session, and during the pause.
pub record Round : Type 0 where
  pub discovered : Option (List TelemetryRegistry)
  pub dial : TelemetryRegistry → Option Conn
  pub connecting : TelemetryRegistry → Master → Master
  pub during : ℕ → Master → Master
  pub pause : Master → Master

-- After an error of the discovery the loop over the entries is left out.
abbrev pub entries_of : Round → List TelemetryRegistry
entries_of round = elim round.discovered [ none ↦ [] | some entries ↦ entries ]

-- How the loop over the entries ends: a session was held or not, and `runTelemetry` returns or not.
pub record Attempt : Type 0 where
  pub master : Master
  pub connected : Bool
  pub returns : Bool

-- What follows on a greeting. Each frame takes a byte at least, so the fuel is enough.
unfoldable pub hold_session : Json → Round → (ctx p cmd : ℕ) → Conn → String → Master → Attempt
hold_session json round ctx p cmd conn id m =
    let n : Master =
      consume_telemetry json (suc (length conn.bytes)) round.during p cmd conn
        (apply_telemetry_hello id p cmd m) in
    if elem ctx n.cancelled
    then record { master = n; connected = true; returns = true }
    else record { master = clear_active_telemetry p cmd n; connected = true; returns = false }

-- for _, entry := range entries { … }
unfoldable pub try_entries :
    Json → Round → String → (ctx p cmd : ℕ) → List TelemetryRegistry → Master → Attempt
try_entries json round role ctx p cmd [] m = record {
  master = m;
  connected = false;
  returns = false;
}
try_entries json round role ctx p cmd (entry ∷ entries) m =
    elim (identity_matches (m.heap p).telemetry_identity entry.instance.registry_name) [
      | false ↦ try_entries json round role ctx p cmd entries m
      | true ↦
          let n : Master = round.connecting entry m in
          elim (connect_telemetry json (round.dial entry) entry) [
            | none ↦ try_entries json round role ctx p cmd entries n
            | some c ↦ elim (str_eq c.1.role role) [
              | false ↦ try_entries json round role ctx p cmd entries n
              | true ↦ hold_session json round ctx p cmd c.0 c.1.id n
            ]
          ]
    ]

-- A round of `runTelemetry`: the next delay, or nothing if it returns. A pause that is cancelled as
-- it ends is taken as cancelled: else the next round would return at once.
unfoldable pub telemetry_round :
    Json → Round → String → (ctx p cmd : ℕ) → ℕ → Master → Option ℕ × Master
telemetry_round json round role ctx p cmd backoff m =
    if elem ctx m.cancelled
    then (none, m)
    else let a : Attempt = try_entries json round role ctx p cmd (entries_of round) m in
      if a.returns
      then (none, a.master)
      else let n : Master = round.pause a.master in
        if elem ctx n.cancelled
        then (none, n)
        else (some (next_backoff (if a.connected then 1 else backoff)), n)

-- The loop of `runTelemetry` over the rounds given.
unfoldable pub run_rounds :
    Json → List Round → String → (ctx p cmd : ℕ) → ℕ → Master → Option ℕ × Master
run_rounds json [] role ctx p cmd backoff m = (some backoff, m)
run_rounds json (round ∷ rounds) role ctx p cmd backoff m =
    let r : Option ℕ × Master = telemetry_round json round role ctx p cmd backoff m in
    elim r.0 [ none ↦ (none, r.1) | some delay ↦ run_rounds json rounds role ctx p cmd delay r.1 ]

-- (*Master).runTelemetry, for as many rounds as are given: the delay is then known, unless it has
-- returned.
unfoldable pub run_telemetry : Json → List Round → (ctx p cmd : ℕ) → Master → Option ℕ × Master
run_telemetry json rounds ctx p cmd m = run_rounds json rounds (m.heap p).role ctx p cmd 1 m
