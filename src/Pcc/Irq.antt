-- ===== src/Pcc/Irq.antt =====
-- Interrupt control registers and their priority: `WriteIcr`, `WriteDeviceIcr`, `WriteSoftIcr` and
-- `CheckIcr` of Em68030/IO/PccDevice.cpp.
use em68030_win_ui3cpp.Common.{
  ℕ, List, [], ◌∷◌, Bool, bit_and, bit_or, ltb, ◌==◌, if◌then◌else◌, has,
}

unfoldable pub write_icr : ℕ → ℕ → ℕ
write_icr icr value =
    let int_bit = (if has value 0x80 then 0 else bit_and icr 0x80) in
    bit_or int_bit (bit_and value 0x0f)

unfoldable pub write_device_icr : ℕ → ℕ → Bool → ℕ
write_device_icr icr value device_active =
    let acknowledged = (if has value 0x80 then 0 else bit_and icr 0x80) in
    let int_bit = (if device_active then 0x80 else acknowledged) in
    bit_or int_bit (bit_and value 0x0f)

unfoldable pub write_soft_icr : ℕ → ℕ
write_soft_icr value = bit_and value 0x8f

-- `maxLevel` and `maxVector`.
pub record Best : Type 0 where
  pub level : ℕ
  pub vector : ℕ

-- An interrupt source: its register and its vector offset.
pub record Source : Type 0 where
  pub icr : ℕ
  pub vector : ℕ

unfoldable pub is_requesting : ℕ → Bool
is_requesting icr = bit_and icr 0x88 == 0x88

unfoldable pub level_of : ℕ → ℕ
level_of icr = let level = bit_and icr 0x07 in if level == 0 then 1 else level

unfoldable pub check_icr : Source → Best → Best
unfolding is_requesting level_of
check_icr s best =
    if is_requesting s.icr
    then (if ltb best.level (level_of s.icr)
        then record { level = level_of s.icr; vector = s.vector }
        else best)
    else best

-- `CheckIcr` on one source after the other.
unfoldable pub check_all : List Source → Best → Best
check_all [] best = best
check_all (s ∷ rest) best = check_all rest (check_icr s best)
