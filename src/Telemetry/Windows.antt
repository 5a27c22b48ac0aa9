-- ===== src/Telemetry/Windows.antt =====
-- internal/master/winpipe.go: the telemetry files, processes and pipes on Windows, over the answers
-- of the Windows API. Handles, tokens, security identifiers and descriptors are numbers; that they
-- are freed is not modelled.
mod Calls
pub mod Safe
use Prim.Native.String.{◌++◌ as str_append}
pub use Calls.*
use text.Mathlib.Text.{starts_with}
use open_ctrl.Base.{
  ℕ, suc, ◌+◌, ◌-◌, ◌*◌, ◌/◌, ◌%◌, ◌^◌, String, Bool, true, false, not, ◌&&◌, ◌||◌, Option, none,
  some, List, [], ◌∷◌, ◌==◌, leb, ltb, str_eq, if◌then◌else◌, length, take,
}
use open_ctrl.Util.{encode_to_string}
use open_ctrl.Telemetry.Frame.{Conn}
use open_ctrl.Telemetry.Registry.{DiscoveredInstance}
use open_ctrl.Telemetry.Discover.{Platform, DirEntry, Directory, failed, missing, listed}
use open_ctrl.Telemetry.Unix.{max_registry_size}

-- os.FileInfo
pub record FileInfo : Type 0 where
  pub is_dir : Bool
  pub is_regular : Bool
  pub is_symlink : Bool
  pub size : ℕ

-- How CreateFile ends; ERROR_PIPE_BUSY is 231.
pub data PipeOpen : Type 0 where
  opened : ℕ → PipeOpen
  busy open_failed : PipeOpen

-- The answers: os.TempDir, filepath.Join and Dir; UTF16PtrFromString; GetCurrentProcess, OpenProcess,
-- OpenProcessToken, GetTokenUser, the copy and the text of a security identifier; sha256.Sum256 of a
-- text; GetFileAttributes, GetNamedSecurityInfo with owner and access list, and descriptors from and
-- to text; os.Lstat, os.ReadDir, and all that a file holds; CreateFile of a name, until the context
-- is done; GetNamedPipeServerProcessId, with no
-- value for its result 0; the connection over a handle; the two halves of a creation time.
pub record Windows : Type 0 where
  pub temp_dir : String
  pub join : String → String → String
  pub parent : String → String
  pub utf16 : String → Reply String
  pub current_process : Reply ℕ
  pub open_process : ℕ → Reply ℕ
  pub process_token : ℕ → Reply ℕ
  pub token_user : ℕ → Reply ℕ
  pub copy_sid : ℕ → Reply ℕ
  pub sid_text : ℕ → Reply String
  pub sha256 : String → List ℕ
  pub attributes : String → Reply ℕ
  pub security_info : String → Reply ℕ
  pub to_descriptor : String → Reply ℕ
  pub security_text : ℕ → Reply String
  pub lstat : String → Reply FileInfo
  pub read_dir : String → Option (List (String × Bool))
  pub content : String → Reply (List ℕ)
  pub create_file : String → List PipeOpen
  pub server_pid : ℕ → Option ℕ
  pub connection : ℕ → Conn
  pub creation_time : ℕ → Reply (ℕ × ℕ)

-- The user of a process, by the handle of the process: the tails of currentUserSID and
-- processUserSID.
unfoldable pub user_sid : Windows → ℕ → Reply ℕ
user_sid w process = do token ← w.process_token process; user ← w.token_user token; w.copy_sid user

-- currentUserSID
unfoldable pub current_user_sid : Windows → Reply ℕ
current_user_sid w = do process ← w.current_process; user_sid w process

-- processUserSID
unfoldable pub process_user_sid : Windows → ℕ → Reply ℕ
process_user_sid w pid = do process ← w.open_process pid; user_sid w process

-- FILE_ATTRIBUTE_REPARSE_POINT is 0x400.
unfoldable pub is_reparse_point : ℕ → Bool
is_reparse_point attributes = not ((attributes / 0x400) % 2 == 0)

-- The access list that gives the user alone all access.
abbrev pub own_access : String → String
own_access user =
    str_append "O:" (str_append user (str_append "D:P(A;;FA;;;" (str_append user ")")))

-- validateTelemetryACL
unfoldable pub validate_telemetry_acl : Windows → String → Reply (Unit {0})
validate_telemetry_acl w path = do
  name ← w.utf16 path
  attributes ← w.attributes name
  guard (not (is_reparse_point attributes))
  descriptor ← w.security_info name
  sid ← current_user_sid w
  user ← w.sid_text sid
  text ← w.utf16 (own_access user)
  expected ← w.to_descriptor text
  actual_text ← w.security_text descriptor
  expected_text ← w.security_text expected
  guard (str_eq actual_text expected_text)

-- telemetryUserKey
unfoldable pub telemetry_user_key : Windows → Reply String
telemetry_user_key w = do
  sid ← current_user_sid w
  value ← w.sid_text sid
  got (encode_to_string (take 16 (w.sha256 value)))

-- telemetryDirectory
unfoldable pub telemetry_directory : Windows → Reply String
telemetry_directory w = do
  key ← telemetry_user_key w
  got (w.join w.temp_dir (str_append "nowhere-telemetry-" key))

-- The names of the pipes.
abbrev pub pipe_prefix : String
pipe_prefix = "\\\\.\\pipe\\nowhere-telemetry-"

abbrev pub or_empty : Reply String → String
or_empty (got s) = s
or_empty _ = ""

-- telemetryEndpoint
unfoldable pub telemetry_endpoint : Windows → String → String
telemetry_endpoint w id =
    str_append pipe_prefix (str_append (or_empty (telemetry_user_key w)) (str_append "-" id))

-- validateTelemetryDirectory
unfoldable pub validate_telemetry_directory : Windows → String → Reply (Unit {0})
validate_telemetry_directory w path = do
  info ← w.lstat path
  guard (info.is_dir && not info.is_symlink)
  validate_telemetry_acl w path

-- readTelemetryRegistry; the reader stops one byte behind the limit.
unfoldable pub read_telemetry_registry : Windows → String → Reply (List ℕ)
read_telemetry_registry w path = do
  validate_telemetry_directory w (w.parent path)
  info ← w.lstat path
  guard (info.is_regular && (not info.is_symlink && leb info.size max_registry_size))
  validate_telemetry_acl w path
  content ← w.content path
  guard (leb (length (take (suc max_registry_size) content)) max_registry_size)
  got (take (suc max_registry_size) content)

-- The loop of dialTelemetry, over the answers of CreateFile until the context is done.
unfoldable pub first_opened : List PipeOpen → Reply ℕ
first_opened [] = refused
first_opened (opened handle ∷ rounds) = got handle
first_opened (busy ∷ rounds) = first_opened rounds
first_opened (open_failed ∷ rounds) = refused

-- The pipe of that name.
unfoldable pub open_pipe : Windows → String → Reply ℕ
open_pipe w name = first_opened (w.create_file name)

abbrev pub is_pid : Option ℕ → ℕ → Bool
is_pid none pid = false
is_pid (some server) pid = server == pid

abbrev pub same_text : Reply String → Reply String → Bool
same_text (got left) (got right) = str_eq left right
same_text _ _ = false

-- equalSID, for identifiers that are not nil.
unfoldable pub equal_sid : Windows → ℕ → ℕ → Bool
equal_sid w left right = same_text (w.sid_text left) (w.sid_text right)

-- What a caller that asks for no reason gets.
abbrev pub value_got {ℓ} : {A : Type ℓ} → Reply A → Option A
value_got (got value) = some value
value_got _ = none

-- dialTelemetry
unfoldable pub dial_telemetry : Windows → String → ℕ → Option Conn
dial_telemetry w endpoint pid = value_got (do
  key ← telemetry_user_key w
  guard (starts_with endpoint (str_append pipe_prefix (str_append key "-")))
  name ← w.utf16 endpoint
  handle ← open_pipe w name
  guard (is_pid (w.server_pid handle) pid)
  server_sid ← process_user_sid w pid
  current_sid ← current_user_sid w
  guard (equal_sid w server_sid current_sid)
  got (w.connection handle))

-- The 100-nanosecond ticks of 1601 to 1970, and those of a creation time.
abbrev pub unix_epoch : ℕ
unix_epoch = 116444736000000000

abbrev pub ticks : ℕ × ℕ → ℕ
ticks (high, low) = high * 2 ^ 32 + low

-- validateTelemetryProcess, behind the calls.
unfoldable pub created_at : ℕ × ℕ → ℕ → Bool
created_at time incarnation =
    if ltb (ticks time) unix_epoch then false else (ticks time - unix_epoch) / 10000 == incarnation

abbrev pub is_created_at : Reply (ℕ × ℕ) → ℕ → Bool
is_created_at (got time) incarnation = created_at time incarnation
is_created_at _ incarnation = false

-- validateTelemetryProcess
unfoldable pub validate_telemetry_process : Windows → DiscoveredInstance → Bool
validate_telemetry_process w instance =
    is_created_at (w.open_process instance.pid >>= w.creation_time) instance.incarnation

-- What discoverTelemetry asks of this system.
unfoldable pub windows_platform : Windows → Platform
windows_platform w = record {
  transport = "named_pipe";
  endpoint = telemetry_endpoint w;
  namespace = value_got (telemetry_user_key w);
  process_valid = validate_telemetry_process w;
}

unfoldable pub dir_entries : Windows → String → List (String × Bool) → List DirEntry
dir_entries w directory [] = []
dir_entries w directory ((name, is_dir) ∷ items) =
    record {
      name = name;
      is_dir = is_dir;
      content = value_got (read_telemetry_registry w (w.join directory name));
    }
    ∷ dir_entries w directory items

-- The head of discoverTelemetry, for its directory.
unfoldable pub directory_listing : Windows → String → Directory
directory_listing w directory = elim (validate_telemetry_directory w directory) [
  | not_exist ↦ missing
  | refused ↦ failed
  | got _ ↦ elim (w.read_dir directory) [
    | none ↦ failed
    | some items ↦ listed (dir_entries w directory items)
  ]
]

unfoldable pub listing : Windows → Directory
listing w = elim (telemetry_directory w) [
  | not_exist ↦ failed
  | refused ↦ failed
  | got directory ↦ directory_listing w directory
]
