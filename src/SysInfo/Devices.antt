-- ===== src/SysInfo/Devices.antt =====
-- internal/master/sysinfo.go: the parts of `linuxSysInfo` on network and disks, and all of it.
use open_ctrl.Base.{
  ℕ, Bool, true, false, ◌&&◌, ◌||◌, Option, none, some, List, [], ◌∷◌, ◌==◌, leb, if◌then◌else◌,
  drop, length, get_elem?, add64, ℤ,
}
use open_ctrl.Proc.{Bytes, has_prefix, lines, fields, parse_uint, if_parsed}
use open_ctrl.SysInfo.{mul64, MemUse, read_stat, cpu_load, memory_use}

-- Bytes received and sent, or read and written.
pub record Volume : Type 0 where
  pub inward : ℕ
  pub outward : ℕ

-- The field `i` of a line, where the code has tested that there is one.
unfoldable pub field : ℕ → List Bytes → Bytes
field i fs = elim (get_elem? fs i) [ none ↦ [] | some f ↦ f ]

-- Whether the name begins with one of the prefixes.
unfoldable pub begins_with : List Bytes → Bytes → Bool
begins_with [] name = false
begins_with (p ∷ ps) name = has_prefix name p || begins_with ps name

-- strings.TrimSuffix(name, ":")
unfoldable pub trim_colon : Bytes → Bytes
trim_colon [] = []
trim_colon (b ∷ []) = if b == 0x3a then [] else b ∷ []
trim_colon (a ∷ b ∷ r) = a ∷ trim_colon (b ∷ r)

-- if val, err := strconv.ParseUint(…); err == nil { sum += val * unit }
unfoldable pub add_parsed : ℕ → Bytes → ℕ → ℕ
add_parsed unit text sum = elim (if_parsed (parse_uint text)) [
  | none ↦ sum
  | some val ↦ add64 sum (mul64 val unit)
]

-- "lo", "veth", "docker", "podman", "br-" and "virbr"
abbrev pub virtual_interfaces : List Bytes
virtual_interfaces =
    (0x6c ∷ 0x6f ∷ [])
    ∷ (0x76 ∷ 0x65 ∷ 0x74 ∷ 0x68 ∷ [])
    ∷ (0x64 ∷ 0x6f ∷ 0x63 ∷ 0x6b ∷ 0x65 ∷ 0x72 ∷ [])
    ∷ (0x70 ∷ 0x6f ∷ 0x64 ∷ 0x6d ∷ 0x61 ∷ 0x6e ∷ [])
    ∷ (0x62 ∷ 0x72 ∷ 0x2d ∷ [])
    ∷ (0x76 ∷ 0x69 ∷ 0x72 ∷ 0x62 ∷ 0x72 ∷ [])
    ∷ []

-- A line of /proc/net/dev.
unfoldable pub add_interface : List Bytes → Volume → Volume
add_interface fs sum =
    if leb 10 (length fs)
    then if begins_with virtual_interfaces (trim_colon (field 0 fs)) then sum else record {
      inward = add_parsed 1 (field 1 fs) sum.inward;
      outward = add_parsed 1 (field 9 fs) sum.outward;
    }
    else sum

unfoldable pub add_interfaces : List Bytes → Volume → Volume
add_interfaces [] sum = sum
add_interfaces (line ∷ rest) sum = add_interfaces rest (add_interface (fields line) sum)

abbrev pub no_volume : Volume
no_volume = record { inward = 0; outward = 0 }

-- The lines behind the first two; no value is the panic of a slice out of range.
unfoldable pub net_volume : Option Bytes → Option Volume
net_volume none = some no_volume
net_volume (some text) =
    if leb 2 (length (lines text))
    then some (add_interfaces (drop 2 (lines text)) no_volume)
    else none

abbrev is_letter : ℕ → Bool
is_letter b = leb 0x61 b && leb b 0x7a

abbrev is_digit : ℕ → Bool
is_digit b = leb 0x30 b && leb b 0x39

-- What follows the bytes of a class at the begin.
unfoldable pub skip : (ℕ → Bool) → Bytes → Bytes
skip class [] = []
skip class (b ∷ r) = let rest = skip class r in if class b then rest else b ∷ r

-- At least one byte of the class, as `+` wants it.
unfoldable pub some_of : (ℕ → Bool) → Bytes → Option Bytes
some_of class [] = none
some_of class (b ∷ r) = if class b then some (skip class r) else none

abbrev is_empty : Bytes → Bool
is_empty [] = true
is_empty _ = false

-- `\d+$`
abbrev ends_in_digits : Bytes → Bool
ends_in_digits xs = elim (some_of is_digit xs) [ none ↦ false | some r ↦ is_empty r ]

-- `[a-z]+\d+$`
abbrev letters_digits : Bytes → Bool
letters_digits xs = elim (some_of is_letter xs) [ none ↦ false | some r ↦ ends_in_digits r ]

-- `p\d+$`
abbrev partition : Bytes → Bool
partition [] = false
partition (b ∷ r) = b == 0x70 && ends_in_digits r

-- `\d+p\d+$`
abbrev digits_partition : Bytes → Bool
digits_partition xs = elim (some_of is_digit xs) [ none ↦ false | some r ↦ partition r ]

-- `n\d+p\d+$`
abbrev namespace_partition : Bytes → Bool
namespace_partition [] = false
namespace_partition (b ∷ r) = b == 0x6e && digits_partition r

-- `\d+n\d+p\d+$`
abbrev controller_partition : Bytes → Bool
controller_partition xs = elim (some_of is_digit xs) [
  | none ↦ false
  | some r ↦ namespace_partition r
]

-- diskPartitionRegexp: sd, vd, xvd, hd, nvme and mmcblk.
unfoldable pub is_disk_partition : Bytes → Bool
is_disk_partition name =
    (has_prefix name (0x73 ∷ 0x64 ∷ []) && letters_digits (drop 2 name))
    || ((has_prefix name (0x76 ∷ 0x64 ∷ []) && letters_digits (drop 2 name))
        || ((has_prefix name (0x78 ∷ 0x76 ∷ 0x64 ∷ []) && letters_digits (drop 3 name))
            || ((has_prefix name (0x68 ∷ 0x64 ∷ []) && letters_digits (drop 2 name))
                || ((has_prefix name (0x6e ∷ 0x76 ∷ 0x6d ∷ 0x65 ∷ [])
                      && controller_partition (drop 4 name))
                    || (has_prefix name (0x6d ∷ 0x6d ∷ 0x63 ∷ 0x62 ∷ 0x6c ∷ 0x6b ∷ [])
                        && digits_partition (drop 6 name))))))

-- "loop", "ram", "dm-" and "md"
abbrev pub virtual_disks : List Bytes
virtual_disks =
    (0x6c ∷ 0x6f ∷ 0x6f ∷ 0x70 ∷ [])
    ∷ (0x72 ∷ 0x61 ∷ 0x6d ∷ [])
    ∷ (0x64 ∷ 0x6d ∷ 0x2d ∷ [])
    ∷ (0x6d ∷ 0x64 ∷ [])
    ∷ []

-- A line of /proc/diskstats, in sectors of 512 bytes.
unfoldable pub add_disk : List Bytes → Volume → Volume
add_disk fs sum =
    if leb 14 (length fs)
    then if begins_with virtual_disks (field 2 fs) || is_disk_partition (field 2 fs)
      then sum
      else record {
        inward = add_parsed 512 (field 5 fs) sum.inward;
        outward = add_parsed 512 (field 9 fs) sum.outward;
      }
    else sum

unfoldable pub add_disks : List Bytes → Volume → Volume
add_disks [] sum = sum
add_disks (line ∷ rest) sum = add_disks rest (add_disk (fields line) sum)

unfoldable pub disk_volume : Option Bytes → Volume
disk_volume none = no_volume
disk_volume (some text) = add_disks (lines text) no_volume

-- SysUp; `parse_float` is strconv.ParseFloat, cut to a uint64.
unfoldable pub up_time : (Bytes → Option ℕ) → Option Bytes → ℕ
up_time parse_float none = 0
up_time parse_float (some text) = elim (fields text) [
  | [] ↦ 0
  | f ∷ fs ↦ elim (parse_float f) [ none ↦ 0 | some up ↦ up ]
]

-- The files read, and how a number with a point is parsed.
pub record ProcFiles : Type 0 where
  pub stat_before : Option Bytes
  pub stat_after : Option Bytes
  pub meminfo : Option Bytes
  pub net_dev : Option Bytes
  pub diskstats : Option Bytes
  pub uptime : Option Bytes
  pub parse_float : Bytes → Option ℕ

-- systemInfo, of internal/master/types.go.
pub record SystemInfo : Type 0 where
  pub cpu : ℤ
  pub memory : MemUse
  pub net : Volume
  pub disk : Volume
  pub sys_up : ℕ

-- linuxSysInfo, on Linux.
unfoldable pub linux_sys_info : ProcFiles → Option SystemInfo
linux_sys_info f = elim (net_volume f.net_dev) [
  | none ↦ none
  | some net ↦ some (record {
    cpu = cpu_load (read_stat f.stat_before) (read_stat f.stat_after);
    memory = memory_use f.meminfo;
    net = net;
    disk = disk_volume f.diskstats;
    sys_up = up_time f.parse_float f.uptime;
  })
]
