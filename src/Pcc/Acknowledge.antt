-- ===== src/Pcc/Acknowledge.antt =====
-- What a write to an interrupt control register leaves in it.
use em68030_win_ui3cpp.Common.{
  ℕ, ◌+◌, ◌%◌, ◌<◌, ◌≡◌, refl, arith, Bool, true, false, not, ◌&&◌, ◌||◌, bit_and, bit_or, ◌==◌,
  if◌then◌else◌, has, ==_iff,
}
use em68030_win_ui3cpp.Common.Bits.{bit_and_bit, bit_and_mask, bit_or_fields, bit_at-lt}
use em68030_win_ui3cpp.Common.Tables.{holds_below, holds_below_lem}
use em68030_win_ui3cpp.Pcc.Irq.{write_icr, write_device_icr, write_soft_icr}

-- An ICR as its INT bit and the four bits IEN and level.
abbrev pub icr_of : Bool → ℕ → ℕ
icr_of int enable_and_level = (if int then 0x80 else 0) + enable_and_level

soft_table : holds_below 256 (λ v. bit_and v 0x8f == icr_of (has v 0x80) (v % 16)) ≡ true
unfolding holds_below
soft_table = refl

join_fields : (int : Bool) (v : ℕ) → bit_or (if int then 0x80 else 0) (v % 16) ≡ icr_of int (v % 16)
join_fields true v = bit_or_fields 7 1 (v % 16) (omega arith)
join_fields false v = bit_or_fields 7 0 (v % 16) (omega arith)

bit7 : (icr : ℕ) → bit_and icr 0x80 ≡ (if has icr 0x80 then 0x80 else 0)
bit7 icr = ground (arith, bit_and_bit 7 icr, bit_at-lt 7 icr)

-- A register is put together from the INT bit that is kept and the bits that are written.
compose :
    (int_bit value : ℕ) (int : Bool)
    → int_bit ≡ (if int then 0x80 else 0)
    → bit_or int_bit (bit_and value 0x0f) ≡ icr_of int (value % 16)
compose int_bit value int e = rw (e, bit_and_mask 4 value) (join_fields int value)

-- Each kind of register stores the IEN and level bits that are written. Writing 1 to INT clears it;
-- a device that still asserts its line latches it again; a software register takes INT as written.
pub write_icr_lem :
    (icr value : ℕ) (device_active : Bool)
    → value < 256
    → (write_icr icr value ≡ icr_of (has icr 0x80 && not (has value 0x80)) (value % 16))
      × (write_device_icr icr value device_active
          ≡ icr_of (device_active || (has icr 0x80 && not (has value 0x80))) (value % 16))
      × (write_soft_icr value ≡ icr_of (has value 0x80) (value % 16))
unfolding write_icr write_device_icr write_soft_icr
write_icr_lem icr value device_active h = (
  compose _ value _ (ground (arith, bit7 icr)),
  compose _ value _ (ground (arith, bit7 icr)),
  (==_iff _ _).0 (holds_below_lem 256 _ value soft_table h),
)
