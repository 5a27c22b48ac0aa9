-- ===== src/Tests/Telemetry.antt =====
-- The telemetry of a process: frames, a session, discovery.
use open_ctrl.Types.{Master}
use open_ctrl.Base.{
  ℕ, suc, ◌≡◌, refl, arith, true, false, if◌then◌else◌, ◌==◌, none, some, List, [], ◌∷◌, ◌++◌,
  length, pos,
}
use open_ctrl.Telemetry.Apply.{
  TelemetrySnapshot, telemetry_current, apply_telemetry_hello, apply_telemetry_snapshot,
  apply_snapshot, clear_active_telemetry, identity_matches,
}
use open_ctrl.Telemetry.Counter.{clamp_signed_int32}
use open_ctrl.Telemetry.Frame.{
  TelemetryEnvelope, Conn, read_telemetry_frame, read_full, set_read_deadline, valid_utf8,
  valid_after, rune_lead, whole_envelope,
}
use open_ctrl.Telemetry.Frame.RoundTrip.{frame, IsPayload, read_telemetry_frame-frame}
use open_ctrl.Telemetry.Frame.Inverse.{IsRead, read_telemetry_frame-IsRead}
use open_ctrl.Telemetry.Registry.{Json, TelemetryRegistry, TelemetryDescriptor}
use open_ctrl.Telemetry.Session.{
  run_rounds, telemetry_round, try_entries, connect_telemetry, greets, hold_session, trim_nowhere,
  next_frame, snapshot_of, all_stated, is_null, consume_telemetry, Round, run_telemetry,
}
use open_ctrl.Telemetry.Session.Delivery.{IsReport, carrying, deliver, consume_telemetry-deliver}
use open_ctrl.Telemetry.Session.Identity.{IsPinned}
use open_ctrl.Telemetry.Discover.{
  Platform, Directory, listed, discover_telemetry, sort_entries, insert_entry, found_in,
  registry_of, valid_telemetry_registry, lower_hex,
}
use open_ctrl.Telemetry.Discover.Pin.{identity_stays}
use open_ctrl.Event.Publish.{send_sse_event, publish_event}
use open_ctrl.Tests.Data.{master}

-- "{}"
abbrev payload : List ℕ
payload = 0x7b ∷ 0x7d ∷ []

abbrev message : TelemetryEnvelope
message = record { type = "snapshot"; body = payload }

abbrev traffic : TelemetrySnapshot
traffic = record {
  tcp_upload = 4;
  tcp_download = 5;
  udp_upload = 6;
  udp_download = 7;
  tcp_active = pos 1;
  udp_active = pos 2;
}

abbrev portal_entry : TelemetryRegistry
portal_entry = record {
  instance = record {
    registry_name = "nowhere.0123456789abcdef0123456789abcdef";
    uid = 7;
    pid = 55;
    incarnation = 9;
  };
  endpoint = "end.sock";
  transport = "unix_socket";
  namespace = "n";
  protocol = "nowhere.telemetry";
}

abbrev greeting : TelemetryDescriptor
greeting = record {
  contract = "nowhere.telemetry";
  id = "0123456789abcdef0123456789abcdef";
  role = "vector";
  pid = 55;
}

-- A frame of three bytes is a greeting, any other a snapshot; all else decodes to the same values.
abbrev json : Json
json = record {
  envelope = λ xs. some (if length xs == 3 then record { type = "hello"; body = xs } else message);
  hello = λ xs. some greeting;
  fields = λ xs. some (
      ("tcp_upload_bytes", 0x34 ∷ [])
      ∷ ("tcp_download_bytes", 0x35 ∷ [])
      ∷ ("udp_upload_bytes", 0x36 ∷ [])
      ∷ ("udp_download_bytes", 0x37 ∷ [])
      ∷ ("tcp_active", 0x31 ∷ [])
      ∷ ("udp_active", 0x32 ∷ [])
      ∷ []);
  strict_snapshot = λ xs. some traffic;
  registry = λ xs. some portal_entry;
}

payload-IsPayload : IsPayload json.envelope payload message
unfolding valid_utf8 valid_after rune_lead whole_envelope
payload-IsPayload = record {
  filled = omega arith;
  fits = omega arith;
  text = refl;
  decoded = refl;
  whole = refl;
}

read_telemetry_frame-frame_example :
    read_telemetry_frame json.envelope
      (record { bytes = frame payload ++ 9 ∷ []; deadlines = true ∷ [] })
    ≡ some (message, record { bytes = 9 ∷ []; deadlines = [] })
read_telemetry_frame-frame_example =
    read_telemetry_frame-frame json.envelope payload (9 ∷ []) message [] payload-IsPayload

abbrev framed : Conn
framed = record { bytes = 0 ∷ 0 ∷ 0 ∷ 2 ∷ 0x7b ∷ 0x7d ∷ 9 ∷ []; deadlines = true ∷ [] }

abbrev behind : Conn
behind = record { bytes = 9 ∷ []; deadlines = [] }

framed-read : read_telemetry_frame json.envelope framed ≡ some (message, behind)
unfolding read_telemetry_frame read_full set_read_deadline valid_utf8 valid_after rune_lead
    whole_envelope
framed-read = refl

read_telemetry_frame-IsRead_example : IsRead json.envelope framed message behind
read_telemetry_frame-IsRead_example =
    read_telemetry_frame-IsRead json.envelope framed behind message
      (
        omega arith,
        (
          omega arith,
          (omega arith, (omega arith, (omega arith, (omega arith, (omega arith, tt))))),
        ),
      )
      framed-read

abbrev reports : List (List ℕ × TelemetrySnapshot)
reports = (payload, traffic) ∷ (payload, traffic) ∷ []

abbrev silent : Conn
silent = record { bytes = []; deadlines = [] }

payload-IsReport : IsReport json (payload, traffic)
unfolding snapshot_of all_stated is_null
payload-IsReport = record { message = message; accepted = payload-IsPayload; holds = refl }

silent-ends : next_frame json silent ≡ none
unfolding next_frame set_read_deadline
silent-ends = refl

master-current : telemetry_current 2 4 master ≡ true
unfolding telemetry_current
master-current = refl

consume_telemetry-deliver_example :
    consume_telemetry json
      (suc (length (carrying reports silent).bytes))
      (λ k m. m)
      2
      4
      (carrying reports silent)
      master
    ≡ deliver (λ k m. m) 2 4 reports master
consume_telemetry-deliver_example =
    consume_telemetry-deliver json 2 4 (λ k m. m) reports silent master
      (payload-IsReport, (payload-IsReport, tt)) silent-ends (λ k n h. h) master-current

-- A greeting and a snapshot.
abbrev greeted : Conn
greeted = record {
  bytes = 0 ∷ 0 ∷ 0 ∷ 3 ∷ 0x7b ∷ 0x20 ∷ 0x7d ∷ 0 ∷ 0 ∷ 0 ∷ 2 ∷ 0x7b ∷ 0x7d ∷ [];
  deadlines = true ∷ true ∷ true ∷ true ∷ [];
}

abbrev platform : Platform
platform = record {
  transport = "unix_socket";
  endpoint = λ id. "end.sock";
  namespace = some "n";
  process_valid = λ instance. true;
}

abbrev directory : Directory
directory = listed (
    record {
      name = "nowhere.0123456789abcdef0123456789abcdef.json";
      is_dir = false;
      content = some [];
    }
    ∷ [])

-- A process is found and connected to, and nothing else happens.
abbrev round : Round
round = record {
  discovered = discover_telemetry json platform directory 55;
  dial = λ entry. some greeted;
  connecting = λ entry m. m;
  during = λ k m. m;
  pause = λ m. m;
}

-- The snapshot has arrived.
round-heard :
    ((run_telemetry json (round ∷ []) 13 2 4 master).1.heap 2).telemetry_identity
    ≡ "nowhere.0123456789abcdef0123456789abcdef"
unfolding run_telemetry run_rounds telemetry_round try_entries identity_matches connect_telemetry
    greets trim_nowhere hold_session consume_telemetry next_frame snapshot_of all_stated is_null
    read_telemetry_frame read_full set_read_deadline valid_utf8 valid_after rune_lead whole_envelope
    discover_telemetry sort_entries insert_entry found_in registry_of valid_telemetry_registry
    lower_hex apply_telemetry_hello apply_telemetry_snapshot apply_snapshot telemetry_current
    clear_active_telemetry send_sse_event publish_event clamp_signed_int32
round-heard = refl

abbrev pinned : Master
pinned = record master {
  heap = λ p. record (master.heap p) {
    telemetry_identity = "nowhere.0123456789abcdef0123456789abcdef";
  };
}

identity_stays_example :
    IsPinned 2 "nowhere.0123456789abcdef0123456789abcdef"
      (run_telemetry json (round ∷ []) 13 2 4 pinned).1
identity_stays_example =
    identity_stays json 2 "nowhere.0123456789abcdef0123456789abcdef" (round ∷ []) 13 4 pinned
      (λ e. cc)
      (
        record {
          platform = platform;
          directory = directory;
          pid = 55;
          entries = refl;
          connecting = λ entry m h. h;
          during = λ k m h. h;
          pause = λ m h. h;
        },
        tt,
      )
      refl
