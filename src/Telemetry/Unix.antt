-- ===== src/Telemetry/Unix.antt =====
-- internal/master/unixipc.go: the telemetry files, processes and sockets on Unix, over the answers of
-- the operating system.
pub mod Safe
pub mod Linux
pub mod OtherUnix
use Prim.Native.String.{◌++◌ as str_append, slice}
use open_ctrl.Base.{
  ℕ, zero, suc, ◌+◌, String, Bool, true, false, not, ◌&&◌, ◌||◌, Option, none, some, List, [], ◌∷◌,
  ◌==◌, leb, ltb, str_eq, if◌then◌else◌, length, take, drop, get_elem?, guard, ◌>>=◌, ◌>>◌,
}
use open_ctrl.Proc.{Bytes, fields, parse_uint, value_of}
use open_ctrl.Telemetry.Frame.{Conn}
use open_ctrl.Telemetry.Registry.{DiscoveredInstance}
use open_ctrl.Telemetry.Discover.{Platform, DirEntry, Directory, failed, missing, listed}

-- os.FileInfo with its syscall.Stat_t.
pub record FileInfo : Type 0 where
  pub is_dir : Bool
  pub is_regular : Bool
  pub is_socket : Bool
  pub perm : ℕ
  pub uid : ℕ
  pub size : ℕ

-- How os.Lstat ends.
pub data Lstat : Type 0 where
  found : FileInfo → Lstat
  not_exist lstat_failed : Lstat

-- What linux.go or unix.go add: validateTelemetryPeer, validateProcessIncarnation and
-- telemetryNamespace.
pub record UnixSystem : Type 0 where
  pub validate_telemetry_peer : Conn → ℕ → Bool
  pub validate_process_incarnation : DiscoveredInstance → Bool
  pub telemetry_namespace : Option String

-- The answers: the effective user, a number in decimal, os.TempDir, filepath.Join, Dir and Ext;
-- Lstat; opening a file without following links, its Stat and all that it holds; os.ReadDir; whether
-- a process exists; connecting.
pub record Unix : Type 0 where
  pub euid : ℕ
  pub decimal : ℕ → String
  pub temp_dir : String
  pub join : String → String → String
  pub parent : String → String
  pub extension : String → String
  pub lstat : String → Lstat
  pub open_file : String → Option FileInfo
  pub content : String → Option Bytes
  pub read_dir : String → Option (List (String × Bool))
  pub signals : ℕ → Bool
  pub connect : String → Option Conn
  pub system : UnixSystem

-- telemetryDirectory
unfoldable pub telemetry_directory : Unix → String
telemetry_directory u = u.join u.temp_dir (str_append "nowhere-telemetry-" (u.decimal u.euid))

-- const maxRegistrySize
abbrev pub max_registry_size : ℕ
max_registry_size = 4096

-- The test in validateTelemetryDirectory, negated; 0700 is 448.
unfoldable pub private_directory : ℕ → FileInfo → Bool
private_directory euid info = info.is_dir && (info.perm == 448 && info.uid == euid)

-- validateTelemetryDirectory, `failed` being any error but that of a missing file.
pub data DirectoryCheck : Type 0 where
  valid absent unsafe : DirectoryCheck

unfoldable pub validate_telemetry_directory : Unix → String → DirectoryCheck
validate_telemetry_directory u path = elim (u.lstat path) [
  | not_exist ↦ absent
  | lstat_failed ↦ unsafe
  | found info ↦ if private_directory u.euid info then valid else unsafe
]

abbrev pub is_valid : DirectoryCheck → Bool
is_valid valid = true
is_valid _ = false

-- The test of the open file in readTelemetryRegistry, negated; 0600 is 384.
unfoldable pub private_file : ℕ → FileInfo → Bool
private_file euid info =
    info.is_regular && (info.perm == 384 && (info.uid == euid && leb info.size max_registry_size))

-- readTelemetryRegistry; the reader stops one byte behind the limit.
unfoldable pub read_telemetry_registry : Unix → String → Option Bytes
read_telemetry_registry u path = do
  guard (is_valid (validate_telemetry_directory u (u.parent path)))
  info ← u.open_file path
  guard (private_file u.euid info)
  content ← u.content path
  let payload = take (suc max_registry_size) content
  guard (leb (length payload) max_registry_size)
  some payload

-- The test of the socket in dialTelemetry, negated.
unfoldable pub private_socket : ℕ → FileInfo → Bool
private_socket euid info = info.is_socket && (info.perm == 384 && info.uid == euid)

abbrev socket_safe : ℕ → Lstat → Bool
socket_safe euid (found info) = private_socket euid info
socket_safe euid _ = false

-- dialTelemetry
unfoldable pub dial_telemetry : Unix → String → ℕ → Option Conn
dial_telemetry u endpoint pid = do
  guard
      (str_eq (u.parent endpoint) (telemetry_directory u) && str_eq (u.extension endpoint) ".sock")
  guard (socket_safe u.euid (u.lstat endpoint))
  conn ← u.connect endpoint
  guard (u.system.validate_telemetry_peer conn pid)
  some conn

-- validateTelemetryProcess
unfoldable pub validate_telemetry_process : Unix → DiscoveredInstance → Bool
validate_telemetry_process u instance =
    if instance.pid == 0 || not (instance.uid == u.euid)
    then false
    else if not (u.signals instance.pid)
    then false
    else u.system.validate_process_incarnation instance

-- telemetryEndpoint
unfoldable pub telemetry_endpoint : Unix → String → String
telemetry_endpoint u id = u.join (telemetry_directory u) (str_append (slice id 0 16) ".sock")

-- What discoverTelemetry asks of this system.
unfoldable pub unix_platform : Unix → Platform
unix_platform u = record {
  transport = "unix_socket";
  endpoint = telemetry_endpoint u;
  namespace = u.system.telemetry_namespace;
  process_valid = validate_telemetry_process u;
}

unfoldable pub dir_entries : Unix → List (String × Bool) → List DirEntry
dir_entries u [] = []
dir_entries u ((name, is_dir) ∷ items) =
    record {
      name = name;
      is_dir = is_dir;
      content = read_telemetry_registry u (u.join (telemetry_directory u) name);
    }
    ∷ dir_entries u items

-- The head of discoverTelemetry.
unfoldable pub listing : Unix → Directory
listing u = elim (validate_telemetry_directory u (telemetry_directory u)) [
  | absent ↦ missing
  | unsafe ↦ failed
  | valid ↦ elim (u.read_dir (telemetry_directory u)) [
    | none ↦ failed
    | some items ↦ listed (dir_entries u items)
  ]
]
