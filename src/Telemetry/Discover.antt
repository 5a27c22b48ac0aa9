-- ===== src/Telemetry/Discover.antt =====
-- internal/master/telemetry.go: how the telemetry endpoints of a process are found.
pub mod Sort
pub mod Order
pub mod Pin
use Prim.Native.Char.{code}
use Prim.Native.String.{String, ◌++◌ as str_append, len, slice}
use text.Mathlib.Text.{starts_with}
use open_ctrl.Base.{
  ℕ, ◌-◌, Bool, true, false, not, ◌&&◌, ◌||◌, Option, none, some, List, [], ◌∷◌, ◌==◌, leb, ltb,
  str_eq, str_lt, if◌then◌else◌, guard, ◌>>=◌, ◌>>◌,
}
use open_ctrl.Telemetry.Registry.{DiscoveredInstance, TelemetryRegistry, Json}
use open_ctrl.Telemetry.Session.{trim_nowhere}

-- What unix.go, unixipc.go, linux.go and winpipe.go answer for a system: telemetryTransport,
-- telemetryEndpoint, telemetryNamespace and validateTelemetryProcess.
pub record Platform : Type 0 where
  pub transport : String
  pub endpoint : String → String
  pub namespace : Option String
  pub process_valid : DiscoveredInstance → Bool

-- An entry of the directory, with what readTelemetryRegistry gives for its path.
pub record DirEntry : Type 0 where
  pub name : String
  pub is_dir : Bool
  pub content : Option (List ℕ)

-- How telemetryDirectory, validateTelemetryDirectory and os.ReadDir end: by an error, by the one
-- that says that the directory does not exist, or with its entries.
pub data Directory : Type 0 where
  failed missing : Directory
  listed : List DirEntry → Directory

-- lowerHex, over characters: one that is not of a single byte is refused as its bytes are.
unfoldable pub lower_hex : String → Bool
lower_hex String.[] = true
lower_hex (String.◌∷◌ c s) =
    let rest = lower_hex s in
    ((leb 0x30 (code c) && leb (code c) 0x39) || (leb 0x61 (code c) && leb (code c) 0x66)) && rest

-- strings.HasSuffix(name, ".json")
abbrev pub is_json : String → Bool
is_json name = leb 5 (len name) && str_eq (slice name (len name - 5) (len name)) ".json"

-- validTelemetryRegistry, for the path of the entry `name` in the directory.
unfoldable pub valid_telemetry_registry : Platform → TelemetryRegistry → String → Bool
valid_telemetry_registry platform entry name =
    let registry_name : String = entry.instance.registry_name in
    let id : String = trim_nowhere registry_name in
    if not (starts_with registry_name "nowhere.")
      || (not (len id == 32)
          || (not (lower_hex id)
              || (not (str_eq entry.protocol "nowhere.telemetry")
                  || not (str_eq entry.transport platform.transport))))
    then false
    else if not (str_eq name (str_append registry_name ".json"))
        || not (str_eq entry.endpoint (platform.endpoint id))
    then false
    else elim platform.namespace [
      | none ↦ false
      | some namespace ↦ str_eq entry.namespace namespace && platform.process_valid entry.instance
    ]

-- The body of the loop over the entries of the directory.
unfoldable pub registry_of : Json → Platform → ℕ → DirEntry → Option TelemetryRegistry
registry_of json platform pid item =
    if item.is_dir || (not (starts_with item.name "nowhere.") || not (is_json item.name))
    then none
    else do
      payload ← item.content
      entry ← json.registry payload
      guard (entry.instance.pid == pid && valid_telemetry_registry platform entry item.name)
      some entry

-- The loop over the entries.
unfoldable pub found_in : Json → Platform → ℕ → List DirEntry → List TelemetryRegistry
found_in json platform pid [] = []
found_in json platform pid (item ∷ items) =
    let rest = found_in json platform pid items in
    elim (registry_of json platform pid item) [ none ↦ rest | some entry ↦ entry ∷ rest ]

-- The place of an entry among sorted ones.
unfoldable pub insert_entry : TelemetryRegistry → List TelemetryRegistry → List TelemetryRegistry
insert_entry entry [] = entry ∷ []
insert_entry entry (other ∷ others) =
    let rest = insert_entry entry others in
    if str_lt entry.instance.registry_name other.instance.registry_name
    then entry ∷ other ∷ others
    else other ∷ rest

-- sort.Slice by the names of the registries, which all differ (Order).
unfoldable pub sort_entries : List TelemetryRegistry → List TelemetryRegistry
sort_entries [] = []
sort_entries (entry ∷ entries) = insert_entry entry (sort_entries entries)

-- discoverTelemetry; no value is an error.
unfoldable pub discover_telemetry :
    Json → Platform → Directory → ℕ → Option (List TelemetryRegistry)
discover_telemetry json platform failed pid = none
discover_telemetry json platform missing pid = some []
discover_telemetry json platform (listed items) pid =
    some (sort_entries (found_in json platform pid items))
