-- ===== src/SysInfo.antt =====
-- internal/master/sysinfo.go: `linuxSysInfo`, over the texts of the files of /proc; `none` is a file
-- that cannot be read. Sums and products are those of uint64.
pub mod Cpu
pub mod Devices
use open_ctrl.Base.{
  ℕ, zero, suc, ◌+◌, ◌-◌, ◌*◌, ◌/◌, ◌%◌, ◌^◌, min, Bool, true, false, not, ◌&&◌, ◌||◌, Option, none,
  some, List, [], ◌∷◌, ◌==◌, leb, ltb, if◌then◌else◌, drop, length, add64, sub64, uint64_mod, ℤ,
  pos, negsuc,
}
use open_ctrl.Proc.{Bytes, bytes_eq, has_prefix, lines, fields, parse_uint, value_of, if_parsed}

-- `a * b` on uint64.
abbrev pub mul64 : ℕ → ℕ → ℕ
mul64 a b = (a * b) % uint64_mod

-- int(v) of a uint64.
unfoldable pub to_int : ℕ → ℤ
to_int v = if ltb v 9223372036854775808 then pos v else negsuc (18446744073709551615 - v)

-- min(v, 100)
abbrev pub min_100 : ℤ → ℤ
min_100 (pos n) = pos (min n 100)
min_100 (negsuc n) = negsuc n

-- The times of /proc/stat.
pub record CpuTimes : Type 0 where
  pub idle : ℕ
  pub total : ℕ

-- for i, v := range fields[1:], from index `i` on.
unfoldable pub add_times : ℕ → List Bytes → CpuTimes → CpuTimes
add_times i [] t = t
add_times i (v ∷ vs) t =
    let val : ℕ = value_of (parse_uint v) in
    add_times (suc i) vs
      (record { idle = if i == 3 then val else t.idle; total = add64 t.total val })

abbrev no_times : CpuTimes
no_times = record { idle = 0; total = 0 }

-- The first line that begins with "cpu ".
unfoldable pub times_of : List Bytes → CpuTimes
times_of [] = no_times
times_of (line ∷ rest) = elim (has_prefix line (0x63 ∷ 0x70 ∷ 0x75 ∷ 0x20 ∷ [])) [
  | true ↦ add_times 0 (drop 1 (fields line)) no_times
  | false ↦ times_of rest
]

-- readStat
unfoldable pub read_stat : Option Bytes → CpuTimes
read_stat none = no_times
read_stat (some text) = times_of (lines text)

-- The load in a time `total` of which `idle` was idle, in per cent; -1 if no time has passed.
unfoldable pub load_in : ℕ → ℕ → ℤ
load_in idle zero = negsuc 0
load_in idle (suc n) = min_100 (to_int (mul64 (sub64 (suc n) idle) 100 / suc n))

-- The load between two readings.
unfoldable pub cpu_load : CpuTimes → CpuTimes → ℤ
cpu_load t1 t2 = load_in (sub64 t2.idle t1.idle) (sub64 t2.total t1.total)

-- The variables of the part on /proc/meminfo.
pub record MemInfo : Type 0 where
  pub mem_total : ℕ
  pub mem_available : ℕ
  pub swap_total : ℕ
  pub swap_free : ℕ

-- switch fields[0]
unfoldable pub set_entry : Bytes → ℕ → MemInfo → MemInfo
set_entry name val info =
    if bytes_eq name (0x4d ∷ 0x65 ∷ 0x6d ∷ 0x54 ∷ 0x6f ∷ 0x74 ∷ 0x61 ∷ 0x6c ∷ 0x3a ∷ [])
    then record info { mem_total = val }
    else if bytes_eq name (
        0x4d ∷ 0x65 ∷ 0x6d ∷ 0x41 ∷ 0x76 ∷ 0x61 ∷ 0x69 ∷ 0x6c ∷ 0x61 ∷ 0x62 ∷ 0x6c ∷ 0x65 ∷ 0x3a
        ∷ [])
    then record info { mem_available = val }
    else if bytes_eq name (0x53 ∷ 0x77 ∷ 0x61 ∷ 0x70 ∷ 0x54 ∷ 0x6f ∷ 0x74 ∷ 0x61 ∷ 0x6c ∷ 0x3a ∷ [])
    then record info { swap_total = val }
    else if bytes_eq name (0x53 ∷ 0x77 ∷ 0x61 ∷ 0x70 ∷ 0x46 ∷ 0x72 ∷ 0x65 ∷ 0x65 ∷ 0x3a ∷ [])
    then record info { swap_free = val }
    else info

-- One line.
unfoldable pub read_entry : List Bytes → MemInfo → MemInfo
read_entry (name ∷ v ∷ more) info = elim (if_parsed (parse_uint v)) [
  | none ↦ info
  | some val ↦ set_entry name (mul64 val 1024) info
]
read_entry _ info = info

unfoldable pub read_entries : List Bytes → MemInfo → MemInfo
read_entries [] info = info
read_entries (line ∷ rest) info = read_entries rest (read_entry (fields line) info)

-- MemTotal, MemUsed, SwapTotal and SwapUsed.
pub record MemUse : Type 0 where
  pub mem_total : ℕ
  pub mem_used : ℕ
  pub swap_total : ℕ
  pub swap_used : ℕ

unfoldable pub memory_use : Option Bytes → MemUse
memory_use none = record { mem_total = 0; mem_used = 0; swap_total = 0; swap_used = 0 }
memory_use (some text) =
    let info : MemInfo =
      read_entries (lines text)
        (record { mem_total = 0; mem_available = 0; swap_total = 0; swap_free = 0 }) in
    record {
      mem_total = info.mem_total;
      mem_used = sub64 info.mem_total info.mem_available;
      swap_total = info.swap_total;
      swap_used = sub64 info.swap_total info.swap_free;
    }
