-- ===== src/Common/Size.antt =====
-- The sizes of an operand or a memory access.
use em68030_win_ui3cpp.Common.{ℕ}

pub data Size : Type 0 where
  byte word long : Size

abbrev pub bits : Size → ℕ
bits byte = 8
bits word = 16
bits long = 32

-- 2 ^ bits.
abbrev pub modulus : Size → ℕ
modulus byte = 0x100
modulus word = 0x10000
modulus long = 0x100000000

-- The highest bit: 0x80, 0x8000, 0x80000000.
abbrev pub sign_mask : Size → ℕ
sign_mask byte = 0x80
sign_mask word = 0x8000
sign_mask long = 0x80000000
