-- ===== src/Tests/System.antt =====
-- The operating system: the discovery of processes and the load of the processor.
use Prim.Native.String.{String}
use open_ctrl.Base.{
  ◌≡◌, ◌≢◌, refl, str_eq, eq_iff, arith, ◌-◌, ◌*◌, ◌/◌, true, false, none, some, List, [], ◌∷◌, pos,
  negsuc,
}
use open_ctrl.Telemetry.Registry.{Json, TelemetryRegistry}
use open_ctrl.Telemetry.Session.{trim_nowhere}
use open_ctrl.Telemetry.Discover.{
  Platform, DirEntry, listed, discover_telemetry, sort_entries, insert_entry, found_in, registry_of,
  valid_telemetry_registry, lower_hex,
}
use open_ctrl.Telemetry.Discover.Order.{IsDiscovery, discover_telemetry-IsDiscovery}
use open_ctrl.Telemetry.Unix.{
  Unix, found, private_directory, private_file, validate_telemetry_directory,
  read_telemetry_registry,
}
use open_ctrl.Telemetry.Unix.Safe.{IsPrivate, read_telemetry_registry-IsPrivate}
use open_ctrl.SysInfo.{CpuTimes, cpu_load, load_in, to_int}
use open_ctrl.SysInfo.Cpu.{cpu_load_lem}

abbrev entry : TelemetryRegistry
entry = record {
  instance = record {
    registry_name = "nowhere.0123456789abcdef0123456789abcdef";
    uid = 7;
    pid = 55;
    incarnation = 9;
  };
  endpoint = "end.sock";
  transport = "unix_socket";
  namespace = "n";
  protocol = "nowhere.telemetry";
}

-- Every text decodes to the entry, and nothing else decodes.
abbrev json : Json
json = record {
  envelope = λ xs. none;
  hello = λ xs. none;
  fields = λ xs. none;
  strict_snapshot = λ xs. none;
  registry = λ xs. some entry;
}

abbrev platform : Platform
platform = record {
  transport = "unix_socket";
  endpoint = λ id. "end.sock";
  namespace = some "n";
  process_valid = λ instance. true;
}

-- A folder, the file of the entry, and a file with another name.
abbrev items : List DirEntry
items =
    record { name = "nowhere.d.json"; is_dir = true; content = none }
    ∷ record {
      name = "nowhere.0123456789abcdef0123456789abcdef.json";
      is_dir = false;
      content = some [];
    }
    ∷ record { name = "nowhere.x.json"; is_dir = false; content = some [] }
    ∷ []

items-found : discover_telemetry json platform (listed items) 55 ≡ some (entry ∷ [])
unfolding discover_telemetry sort_entries insert_entry found_in registry_of valid_telemetry_registry
    lower_hex trim_nowhere
items-found = refl

differ : (s t : String) → str_eq s t ≡ false → s ≢ t
differ s t h e = ground (arith, h, (eq_iff s t).1 e)

discover_telemetry-IsDiscovery_example : IsDiscovery json platform 55 items (entry ∷ [])
discover_telemetry-IsDiscovery_example =
    discover_telemetry-IsDiscovery json platform 55 items (entry ∷ [])
      ((differ _ _ refl, (differ _ _ refl, tt)), ((differ _ _ refl, tt), (tt, tt))) items-found

-- One file, of two bytes, in one directory.
abbrev unix : Unix
unix = record {
  euid = 7;
  decimal = λ number. "7";
  temp_dir = "/t";
  join = λ a b. b;
  parent = λ path. "/t";
  extension = λ path. ".sock";
  lstat = λ path. found (record {
    is_dir = true;
    is_regular = false;
    is_socket = false;
    perm = 448;
    uid = 7;
    size = 0;
  });
  open_file = λ path. some (record {
    is_dir = false;
    is_regular = true;
    is_socket = false;
    perm = 384;
    uid = 7;
    size = 2;
  });
  content = λ path. some (1 ∷ 2 ∷ []);
  read_dir = λ path. none;
  signals = λ pid. true;
  connect = λ path. none;
  system = record {
    validate_telemetry_peer = λ conn pid. false;
    validate_process_incarnation = λ instance. true;
    telemetry_namespace = none;
  };
}

file-read : read_telemetry_registry unix "/t/a" ≡ some (1 ∷ 2 ∷ [])
unfolding read_telemetry_registry validate_telemetry_directory private_directory private_file
file-read = refl

read_telemetry_registry-IsPrivate_example : IsPrivate unix "/t/a" (1 ∷ 2 ∷ [])
read_telemetry_registry-IsPrivate_example =
    read_telemetry_registry-IsPrivate unix "/t/a" (1 ∷ 2 ∷ []) file-read

abbrev before : CpuTimes
before = record { idle = 5; total = 10 }

abbrev after : CpuTimes
after = record { idle = 8; total = 20 }

cpu_load_lem_example : cpu_load before after ≡ pos (((20 - 10) - (8 - 5)) * 100 / (20 - 10))
cpu_load_lem_example = cpu_load_lem before after (record {
  idle_le = omega arith;
  within = omega arith;
  passed = omega arith;
  fits = omega arith;
  idle_fits = omega arith;
  scales = omega arith;
})

-- A time of waiting for devices that runs backwards, as that of the kernel may: a load of 100 of an
-- idle processor, and a negative load.
full_load : cpu_load before (record { idle = 15; total = 15 }) ≡ pos 100
unfolding cpu_load load_in to_int
full_load = refl

negative_load : cpu_load before (record { idle = 7; total = 11 }) ≡ negsuc 99
unfolding cpu_load load_in to_int
negative_load = refl
