-- ===== src/Tests/Pipes.antt =====
-- The pipes of Windows: a connection that is made.
use Prim.Native.String.{len}
use Prim.Native.String.{◌++◌ as str_append}
use open_ctrl.Base.{◌≡◌, refl, String, some, none, [], ◌∷◌, str_eq, if◌then◌else◌}
use open_ctrl.Util.{encode_to_string, hex_digit}
use open_ctrl.Telemetry.Frame.{Conn}
use open_ctrl.Telemetry.Windows.{
  Windows, got, refused, busy, opened, dial_telemetry, pipe_prefix, open_pipe, first_opened,
  telemetry_user_key, process_user_sid, current_user_sid, user_sid, equal_sid,
}
use open_ctrl.Telemetry.Windows.Safe.{IsOwnPipe, dial_telemetry_lem}

abbrev quiet : Conn
quiet = record { bytes = []; deadlines = [] }

-- A system with one user, whose process 55 serves every pipe.
abbrev windows : Windows
windows = record {
  temp_dir = "t";
  join = λ a b. b;
  parent = λ path. "t";
  utf16 = λ s. got s;
  current_process = got 1;
  open_process = λ pid. got pid;
  process_token = λ process. got 2;
  token_user = λ token. got 3;
  copy_sid = λ sid. got sid;
  sid_text = λ sid. got "S-1-5-21";
  sha256 = λ s. 10 ∷ 11 ∷ [];
  attributes = λ path. got 0;
  security_info = λ path. refused;
  to_descriptor = λ s. refused;
  security_text = λ descriptor. refused;
  lstat = λ path. refused;
  read_dir = λ path. none;
  content = λ path. refused;
  create_file = λ path.
      if str_eq path "\\\\.\\pipe\\nowhere-telemetry-0a0b-x" then busy ∷ opened 9 ∷ [] else [];
  server_pid = λ handle. some 55;
  connection = λ handle. quiet;
  creation_time = λ process. refused;
}

-- `\\.\pipe\nowhere-telemetry-`
prefix-len : len pipe_prefix ≡ 27
prefix-len = refl

abbrev name : String
name = "\\\\.\\pipe\\nowhere-telemetry-0a0b-x"

connected : dial_telemetry windows name 55 ≡ some quiet
unfolding dial_telemetry telemetry_user_key process_user_sid current_user_sid user_sid equal_sid
    open_pipe first_opened encode_to_string hex_digit
connected = refl

user_key : telemetry_user_key windows ≡ got "0a0b"
unfolding telemetry_user_key current_user_sid user_sid encode_to_string hex_digit
user_key = refl

own : IsOwnPipe windows name 55 quiet
own = (dial_telemetry_lem windows "0a0b" name "x" 55 quiet user_key).0.0 connected
