-- ===== src/Tests/Proc.antt =====
-- Texts of /proc, device names and runes.
use open_ctrl.Base.{◌≡◌, refl, true, false, none, some, [], ◌∷◌}
use open_ctrl.Proc.{lines, fields_from, parse_from, parse_uint, parsed, out_of_range, bad_syntax}
use open_ctrl.SysInfo.{
  read_stat, times_of, add_times, memory_use, read_entries, read_entry, set_entry,
}
use open_ctrl.SysInfo.Devices.{
  is_disk_partition, skip, some_of, net_volume, add_interfaces, add_interface, begins_with, field,
  trim_colon, add_parsed,
}
use open_ctrl.Telemetry.Frame.{valid_utf8, valid_after, rune_lead}

-- The lines "intr 7", "cpu  1 2 3 4 5" and "cpu0 9".
stat_read :
    read_stat (
      some (
        0x69 ∷ 0x6e ∷ 0x74 ∷ 0x72 ∷ 0x20 ∷ 0x37 ∷ 0xa ∷ 0x63 ∷ 0x70 ∷ 0x75 ∷ 0x20 ∷ 0x20 ∷ 0x31
        ∷ 0x20 ∷ 0x32 ∷ 0x20 ∷ 0x33 ∷ 0x20 ∷ 0x34 ∷ 0x20 ∷ 0x35 ∷ 0xa ∷ 0x63 ∷ 0x70 ∷ 0x75 ∷ 0x30
        ∷ 0x20 ∷ 0x39 ∷ 0xa ∷ []))
    ≡ record { idle = 4; total = 15 }
unfolding read_stat times_of add_times lines fields_from parse_from parse_uint
stat_read = refl

-- Two kilobytes, one of them available, and no swap.
memory_read :
    memory_use (
      some (
        0x4d ∷ 0x65 ∷ 0x6d ∷ 0x54 ∷ 0x6f ∷ 0x74 ∷ 0x61 ∷ 0x6c ∷ 0x3a ∷ 0x20 ∷ 0x32 ∷ 0x20 ∷ 0x6b
        ∷ 0x42 ∷ 0xa ∷ 0x4d ∷ 0x65 ∷ 0x6d ∷ 0x41 ∷ 0x76 ∷ 0x61 ∷ 0x69 ∷ 0x6c ∷ 0x61 ∷ 0x62 ∷ 0x6c
        ∷ 0x65 ∷ 0x3a ∷ 0x20 ∷ 0x31 ∷ 0x20 ∷ 0x6b ∷ 0x42 ∷ 0xa ∷ []))
    ≡ record { mem_total = 2048; mem_used = 1024; swap_total = 0; swap_used = 0 }
unfolding memory_use read_entries read_entry set_entry lines fields_from parse_from parse_uint
memory_read = refl

-- Two headers, the loopback, which is left out, and one interface.
net_read :
    net_volume (
      some (
        0x68 ∷ 0xa ∷ 0x68 ∷ 0xa ∷ 0x6c ∷ 0x6f ∷ 0x3a ∷ 0x20 ∷ 0x31 ∷ 0x20 ∷ 0x32 ∷ 0x20 ∷ 0x33
        ∷ 0x20 ∷ 0x34 ∷ 0x20 ∷ 0x35 ∷ 0x20 ∷ 0x36 ∷ 0x20 ∷ 0x37 ∷ 0x20 ∷ 0x38 ∷ 0x20 ∷ 0x39 ∷ 0xa
        ∷ 0x65 ∷ 0x74 ∷ 0x68 ∷ 0x30 ∷ 0x3a ∷ 0x20 ∷ 0x31 ∷ 0x20 ∷ 0x32 ∷ 0x20 ∷ 0x33 ∷ 0x20 ∷ 0x34
        ∷ 0x20 ∷ 0x35 ∷ 0x20 ∷ 0x36 ∷ 0x20 ∷ 0x37 ∷ 0x20 ∷ 0x38 ∷ 0x20 ∷ 0x39 ∷ 0xa ∷ []))
    ≡ some (record { inward = 1; outward = 9 })
unfolding net_volume add_interfaces add_interface begins_with field trim_colon add_parsed lines
    fields_from parse_from parse_uint
net_read = refl

-- A text without two lines.
net_short : net_volume (some (0x68 ∷ [])) ≡ none
unfolding net_volume lines
net_short = refl

-- sda1
disk_sda1 : is_disk_partition (0x73 ∷ 0x64 ∷ 0x61 ∷ 0x31 ∷ []) ≡ true
unfolding is_disk_partition skip some_of
disk_sda1 = refl

-- sda
disk_sda : is_disk_partition (0x73 ∷ 0x64 ∷ 0x61 ∷ []) ≡ false
unfolding is_disk_partition skip some_of
disk_sda = refl

-- nvme0n1p2
disk_nvme0n1p2 :
    is_disk_partition (0x6e ∷ 0x76 ∷ 0x6d ∷ 0x65 ∷ 0x30 ∷ 0x6e ∷ 0x31 ∷ 0x70 ∷ 0x32 ∷ []) ≡ true
unfolding is_disk_partition skip some_of
disk_nvme0n1p2 = refl

-- nvme0n1
disk_nvme0n1 : is_disk_partition (0x6e ∷ 0x76 ∷ 0x6d ∷ 0x65 ∷ 0x30 ∷ 0x6e ∷ 0x31 ∷ []) ≡ false
unfolding is_disk_partition skip some_of
disk_nvme0n1 = refl

-- mmcblk0p1
disk_mmcblk0p1 :
    is_disk_partition (0x6d ∷ 0x6d ∷ 0x63 ∷ 0x62 ∷ 0x6c ∷ 0x6b ∷ 0x30 ∷ 0x70 ∷ 0x31 ∷ []) ≡ true
unfolding is_disk_partition skip some_of
disk_mmcblk0p1 = refl

-- xvda12
disk_xvda12 : is_disk_partition (0x78 ∷ 0x76 ∷ 0x64 ∷ 0x61 ∷ 0x31 ∷ 0x32 ∷ []) ≡ true
unfolding is_disk_partition skip some_of
disk_xvda12 = refl

-- sd1
disk_sd1 : is_disk_partition (0x73 ∷ 0x64 ∷ 0x31 ∷ []) ≡ false
unfolding is_disk_partition skip some_of
disk_sd1 = refl

-- The greatest uint64, and one more.
greatest :
    parse_uint (
      0x31 ∷ 0x38 ∷ 0x34 ∷ 0x34 ∷ 0x36 ∷ 0x37 ∷ 0x34 ∷ 0x34 ∷ 0x30 ∷ 0x37 ∷ 0x33 ∷ 0x37 ∷ 0x30
      ∷ 0x39 ∷ 0x35 ∷ 0x35 ∷ 0x31 ∷ 0x36 ∷ 0x31 ∷ 0x35 ∷ [])
    ≡ parsed 18446744073709551615
unfolding parse_uint parse_from
greatest = refl

too_great :
    parse_uint (
      0x31 ∷ 0x38 ∷ 0x34 ∷ 0x34 ∷ 0x36 ∷ 0x37 ∷ 0x34 ∷ 0x34 ∷ 0x30 ∷ 0x37 ∷ 0x33 ∷ 0x37 ∷ 0x30
      ∷ 0x39 ∷ 0x35 ∷ 0x35 ∷ 0x31 ∷ 0x36 ∷ 0x31 ∷ 0x36 ∷ [])
    ≡ out_of_range
unfolding parse_uint parse_from
too_great = refl

signed : parse_uint (0x2d ∷ 0x31 ∷ []) ≡ bad_syntax
unfolding parse_uint parse_from
signed = refl

-- Runes of one to four bytes; an overlong one, a surrogate, and one that is not whole.
runes : valid_utf8 (0x61 ∷ 0xc3 ∷ 0xa9 ∷ 0xe2 ∷ 0x82 ∷ 0xac ∷ 0xf0 ∷ 0x9f ∷ 0x98 ∷ 0x80 ∷ []) ≡ true
unfolding valid_utf8 valid_after rune_lead
runes = refl

overlong : valid_utf8 (0xc0 ∷ 0x80 ∷ []) ≡ false
unfolding valid_utf8 valid_after rune_lead
overlong = refl

surrogate : valid_utf8 (0xed ∷ 0xa0 ∷ 0x80 ∷ []) ≡ false
unfolding valid_utf8 valid_after rune_lead
surrogate = refl

part : valid_utf8 (0xe2 ∷ 0x82 ∷ []) ≡ false
unfolding valid_utf8 valid_after rune_lead
part = refl
