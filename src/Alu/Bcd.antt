-- ===== src/Alu/Bcd.antt =====
-- `AddBcd` and `SubBcd` of Em68030/Core/Alu.cpp.
use em68030_win_ui3cpp.Common.{
  ℕ, ◌+◌, ◌-◌, ◌*◌, ◌/◌, ◌%◌, ◌^◌, bit_and, bit_or, ltb, ◌==◌, if◌then◌else◌, has,
}
use em68030_win_ui3cpp.Alu.Size.{AluResult, set_if}

unfoldable pub low_digit : ℕ → ℕ
low_digit v = bit_and v 0x0f

unfoldable pub high_digit : ℕ → ℕ
high_digit v = bit_and (v / 2 ^ 4) 0x0f

unfoldable pub join_digits : ℕ → ℕ → ℕ
join_digits hi lo = bit_or (bit_and hi 0x0f * 2 ^ 4) (bit_and lo 0x0f) % 2 ^ 8

-- Z keeps its old value on a zero result.
unfoldable pub bcd_flags : ℕ → ℕ → ℕ → ℕ
bcd_flags result carry ccr =
    let carried = (if ltb 0 carry then 0x11 else 0) in
    set_if (has result 0x80) 0x08
      (if result == 0 then bit_or carried (bit_and ccr 0x04) else carried)

abbrev bcd_result : ℕ → ℕ → ℕ → AluResult
bcd_result result carry ccr = record { result = result; ccr = bcd_flags result carry ccr }

unfoldable pub add_bcd : ℕ → ℕ → ℕ → AluResult
add_bcd src dst ccr =
    let x = (if has ccr 0x10 then 1 else 0) in
    let lo = low_digit dst + low_digit src + x in
    let carry = (if ltb 9 lo then 1 else 0) in
    let hi = high_digit dst + high_digit src + carry in
    bcd_result (join_digits (if ltb 9 hi then hi - 10 else hi) (if ltb 9 lo then lo - 10 else lo))
      (if ltb 9 hi then 1 else 0) ccr

-- The differences are `int`s: a negative one is below zero by the subtrahend less the minuend.
-- `hi & 0x0F` of a negative number adds 16, which is kept here by adding 16 before the mask.
unfoldable pub sub_bcd : ℕ → ℕ → ℕ → AluResult
sub_bcd src dst ccr =
    let x = (if has ccr 0x10 then 1 else 0) in
    let lo = 16 + low_digit dst - low_digit src - x in
    let borrow = (if ltb lo 16 then 1 else 0) in
    let hi = 16 + high_digit dst - high_digit src - borrow in
    bcd_result (join_digits (if ltb hi 16 then hi + 10 else hi) (if ltb lo 16 then lo + 10 else lo))
      (if ltb hi 16 then 1 else 0) ccr
