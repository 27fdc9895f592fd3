-- ===== src/Alu/Size.antt =====
-- Results and flags of Em68030/Core/Alu.cpp. The source has a function for each of
-- `uint8_t`, `uint16_t` and `uint32_t`; here the size is an argument, passed on from Common.
use em68030_win_ui3cpp.Common.{ℕ, Bool, bit_or, ◌==◌, if◌then◌else◌, has}
pub use em68030_win_ui3cpp.Common.Size.{Size, byte, word, long, bits, modulus, sign_mask}

pub record AluResult : Type 0 where
  pub result : ℕ
  pub ccr : ℕ

pub record DivResult : Type 0 where
  pub quotient : ℕ
  pub remainder : ℕ
  pub ccr : ℕ
  pub overflow : Bool

pub record MulLongResult : Type 0 where
  pub result_lo : ℕ
  pub result_hi : ℕ
  pub ccr : ℕ

-- `if (test) ccr |= mask;`
abbrev pub set_if : Bool → ℕ → ℕ → ℕ
set_if test mask ccr = if test then bit_or ccr mask else ccr

unfoldable pub set_nz_flags : Size → ℕ → ℕ
set_nz_flags s value = set_if (has value (sign_mask s)) 0x08 (set_if (value == 0) 0x04 0)
