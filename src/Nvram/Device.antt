-- ===== src/Nvram/Device.antt =====
-- The members and operations of `Mk48t02Device`. The calendar time of an access is a parameter: the
-- standard library's `std::tm`, whose year counts from 1900. Files are not modelled.
use em68030_win_ui3cpp.Common.{
  ℕ, ◌+◌, ◌-◌, ◌*◌, ◌/◌, ◌%◌, ◌^◌, List, ◌∷◌, bit_and, bit_or, leb, ◌==◌, if◌then◌else◌, get_or,
  set, replicate,
}
use em68030_win_ui3cpp.Common.Int.{ℤ, pos, ◌-ℤ◌, ◌*ℤ◌, quot_ℤ, rem_ℤ, to_unsigned}

pub record Calendar : Type 0 where
  pub tm_sec : ℕ
  pub tm_min : ℕ
  pub tm_hour : ℕ
  pub tm_wday : ℕ
  pub tm_mday : ℕ
  pub tm_mon : ℕ
  pub tm_year : ℤ

pub record Nvram : Type 0 where
  pub nvram : List ℕ
  pub year_offset : ℤ

unfoldable pub init : Nvram
init = record { nvram = replicate 2048 0; year_offset = pos 0 }

unfoldable pub set_year_offset : ℤ → Nvram → Nvram
set_year_offset offset d = record d { year_offset = offset }

unfoldable pub to_bcd : ℕ → ℕ
to_bcd val = bit_or (val / 10 * 2 ^ 4) (val % 10) % 2 ^ 8

-- `(tm_year - offset) % 100` has the sign of the difference. `ToBcd` of a negative number joins the
-- two's complement bits of its two parts.
unfoldable pub to_bcd_signed : ℤ → ℕ
to_bcd_signed val =
    bit_or (to_unsigned (2 ^ 32) (quot_ℤ val (pos 10) *ℤ pos 16))
      (to_unsigned (2 ^ 32) (rem_ℤ val (pos 10)))
    % 2 ^ 8

unfoldable pub read_clock_register : Calendar → ℕ → Nvram → ℕ
read_clock_register now reg d =
    if reg == 0
    then get_or d.nvram 0x7f8 0
    else if reg == 1
    then to_bcd now.tm_sec
    else if reg == 2
    then to_bcd now.tm_min
    else if reg == 3
    then to_bcd now.tm_hour
    else if reg == 4
    then (now.tm_wday + 1) % 2 ^ 8
    else if reg == 5
    then to_bcd now.tm_mday
    else if reg == 6
    then to_bcd (now.tm_mon + 1)
    else if reg == 7
    then to_bcd_signed (rem_ℤ (now.tm_year -ℤ d.year_offset) (pos 100))
    else 0

abbrev pub offset_in : ℕ → ℕ
offset_in address = (address + 2 ^ 32 - 0xfffe0000) % 2 ^ 32

unfoldable pub read_byte : Calendar → ℕ → Nvram → ℕ
read_byte now address d =
    let offset = offset_in address in
    if leb 2048 offset
    then 0xff
    else if leb 0x7f8 offset
    then read_clock_register now (offset - 0x7f8) d
    else get_or d.nvram offset 0

-- The calendar time may differ from one byte to the next.
unfoldable pub read_word : Calendar → Calendar → ℕ → Nvram → ℕ
read_word now then_ address d =
    bit_or (read_byte now address d * 2 ^ 8) (read_byte then_ ((address + 1) % 2 ^ 32) d)

unfoldable pub read_long : (ℕ → Calendar) → ℕ → Nvram → ℕ
read_long now address d =
    bit_or (read_word (now 0) (now 1) address d * 2 ^ 16)
      (read_word (now 2) (now 3) ((address + 2) % 2 ^ 32) d)

unfoldable pub write_byte : ℕ → ℕ → Nvram → Nvram
write_byte address value d =
    let offset = offset_in address in
    if leb 2048 offset then d else record d { nvram = set d.nvram offset value }

unfoldable pub write_word : ℕ → ℕ → Nvram → Nvram
write_word address value d =
    write_byte ((address + 1) % 2 ^ 32) (bit_and value 0xff) (write_byte address (value / 2 ^ 8) d)

unfoldable pub write_long : ℕ → ℕ → Nvram → Nvram
write_long address value d =
    write_word ((address + 2) % 2 ^ 32) (bit_and value 0xffff)
      (write_word address (value / 2 ^ 16) d)

-- The Ethernet address is the list of `ethernetAddrLen` bytes, of which the first three count.
unfoldable pub set_ethernet : List ℕ → List ℕ → List ℕ
set_ethernet (b0 ∷ b1 ∷ b2 ∷ rest) nvram = set (set (set nvram 0x778 b0) 0x779 b1) 0x77a b2
set_ethernet short nvram = nvram

unfoldable pub set_mvme147_config : ℕ → List ℕ → Nvram → Nvram
set_mvme147_config onboard_ram_end ethernet_addr d =
    let m0 = set d.nvram 0x774 (onboard_ram_end / 2 ^ 24 % 2 ^ 8) in
    let m1 = set m0 0x775 (onboard_ram_end / 2 ^ 16 % 2 ^ 8) in
    let m2 = set m1 0x776 (onboard_ram_end / 2 ^ 8 % 2 ^ 8) in
    let m3 = set m2 0x777 (onboard_ram_end % 2 ^ 8) in
    let m4 = set (set (set (set m3 0x764 0) 0x765 0) 0x766 0) 0x767 0 in
    let m5 = set (set (set (set m4 0x768 0) 0x769 0) 0x76a 0) 0x76b 0 in
    record d { nvram = set_ethernet ethernet_addr m5 }
