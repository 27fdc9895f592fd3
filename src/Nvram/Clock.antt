-- ===== src/Nvram/Clock.antt =====
-- What the clock registers show, and the board's configuration in the NVRAM.
use em68030_win_ui3cpp.Common.{
  ℕ, ◌+◌, ◌-◌, ◌*◌, ◌/◌, ◌%◌, ◌^◌, ◌≤◌, ◌<◌, ◌≡◌, refl, ◌∙◌, arith, true, false, List, ◌∷◌, bit_or,
  leb, length, get_or, get_or-set, length-set,
}
use em68030_win_ui3cpp.Common.Bits.{bit_or_fields}
use em68030_win_ui3cpp.Nvram.Device.{
  Calendar, Nvram, to_bcd, read_clock_register, read_byte, read_long, write_byte, set_ethernet,
  set_mvme147_config,
}
use em68030_win_ui3cpp.Nvram.Laws.{base, read_ram, read_long_ram}

-- The number whose two decimal digits are the two halves of the byte.
abbrev pub Shows : ℕ → ℕ → Type 0
Shows register n =
    (register / 16 ≤ 9) × (register % 16 ≤ 9) × (register / 16 * 10 + register % 16 ≡ n)

to_bcd-Shows : (n : ℕ) → n < 100 → Shows (to_bcd n) n
unfolding to_bcd
to_bcd-Shows n h =
    let joined : bit_or (n / 10 * 2 ^ 4) (n % 10) ≡ n / 10 * 2 ^ 4 + n % 10 =
      bit_or_fields 4 (n / 10) (n % 10) (omega arith) in
    rw joined (omega arith, omega arith, omega arith)

read_clock :
    (now : Calendar) (reg : ℕ) (d : Nvram)
    → reg < 8
    → read_byte now (base + (0x7f8 + reg)) d ≡ read_clock_register now reg d
unfolding read_byte
read_clock now reg d h =
    let at : (base + (0x7f8 + reg) + 2 ^ 32 - base) % 2 ^ 32 ≡ 0x7f8 + reg = omega arith in
    let inside : leb 2048 (0x7f8 + reg) ≡ false = ground arith in
    let clock : leb 0x7f8 (0x7f8 + reg) ≡ true = ground arith in
    let shown : 0x7f8 + reg - 0x7f8 ≡ reg = omega arith in rw (at, inside, clock, shown) refl

-- The second, minute, hour, day and month registers show the calendar time in decimal digits,
-- whatever was written to the array before; the month counts from 1. For a time within the calendar's
-- ranges.
pub read_clock-Shows :
    (now : Calendar) (address value : ℕ) (d : Nvram)
    → now.tm_sec < 61
    → now.tm_min < 60
    → now.tm_hour < 24
    → now.tm_mday < 32
    → now.tm_mon < 12
    → let written = write_byte address value d in
      Shows (read_byte now (base + 0x7f9) written) now.tm_sec
      × Shows (read_byte now (base + 0x7fa) written) now.tm_min
      × Shows (read_byte now (base + 0x7fb) written) now.tm_hour
      × Shows (read_byte now (base + 0x7fd) written) now.tm_mday
      × Shows (read_byte now (base + 0x7fe) written) (now.tm_mon + 1)
unfolding read_clock_register
read_clock-Shows now address value d hs hm hh hd ho =
    let written = write_byte address value d in
    rw
      (
        read_clock now 1 written (omega arith),
        read_clock now 2 written (omega arith),
        read_clock now 3 written (omega arith),
        read_clock now 5 written (omega arith),
        read_clock now 6 written (omega arith),
      )
      (
        to_bcd-Shows now.tm_sec (omega arith),
        to_bcd-Shows now.tm_min (omega arith),
        to_bcd-Shows now.tm_hour (omega arith),
        to_bcd-Shows now.tm_mday (omega arith),
        to_bcd-Shows (now.tm_mon + 1) (omega arith),
      )

-- A long by its four bytes in the array.
long_of :
    (now : ℕ → Calendar) (i v : ℕ) (d : Nvram)
    → i + 4 ≤ 0x7f8
    → v < 2 ^ 32
    → get_or d.nvram i 0 ≡ v / 2 ^ 24 % 2 ^ 8
    → get_or d.nvram (i + 1) 0 ≡ v / 2 ^ 16 % 2 ^ 8
    → get_or d.nvram (i + 2) 0 ≡ v / 2 ^ 8 % 2 ^ 8
    → get_or d.nvram (i + 3) 0 ≡ v % 2 ^ 8
    → read_long now (base + i) d ≡ v
long_of now i v d h hv e0 e1 e2 e3 =
    read_long_ram now i d h (omega arith) (omega arith) (omega arith) ∙ omega arith

-- After the configuration the boot code reads the end of the onboard memory at 0x774, no offboard
-- memory at 0x764 and 0x768, and the three Ethernet bytes at 0x778.
pub set_mvme147_config_lem :
    (now : ℕ → Calendar) (ram_end b0 b1 b2 : ℕ) (rest : List ℕ) (d : Nvram)
    → length d.nvram ≡ 2048
    → ram_end < 2 ^ 32
    → let c = set_mvme147_config ram_end (b0 ∷ b1 ∷ b2 ∷ rest) d in
      (read_long now (base + 0x774) c ≡ ram_end)
      × (read_long now (base + 0x764) c ≡ 0)
      × (read_long now (base + 0x768) c ≡ 0)
      × (read_byte (now 0) (base + 0x778) c ≡ b0)
      × (read_byte (now 0) (base + 0x779) c ≡ b1)
      × (read_byte (now 0) (base + 0x77a) c ≡ b2)
unfolding set_mvme147_config set_ethernet
set_mvme147_config_lem now ram_end b0 b1 b2 rest d n h =
    let c = set_mvme147_config ram_end (b0 ∷ b1 ∷ b2 ∷ rest) d in
    (
      long_of now 0x774 ram_end c (omega arith) h (simp (get_or-set, length-set, n))
          (simp (get_or-set, length-set, n)) (simp (get_or-set, length-set, n))
          (simp (get_or-set, length-set, n)),
      long_of now 0x764 0 c (omega arith) (omega arith) (simp (get_or-set, length-set, n))
          (simp (get_or-set, length-set, n)) (simp (get_or-set, length-set, n))
          (simp (get_or-set, length-set, n)),
      long_of now 0x768 0 c (omega arith) (omega arith) (simp (get_or-set, length-set, n))
          (simp (get_or-set, length-set, n)) (simp (get_or-set, length-set, n))
          (simp (get_or-set, length-set, n)),
      read_ram (now 0) 0x778 c (omega arith) ∙ simp (get_or-set, length-set, n),
      read_ram (now 0) 0x779 c (omega arith) ∙ simp (get_or-set, length-set, n),
      read_ram (now 0) 0x77a c (omega arith) ∙ simp (get_or-set, length-set, n),
    )
