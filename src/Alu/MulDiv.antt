-- ===== src/Alu/MulDiv.antt =====
-- Multiplication and division of Em68030/Core/Alu.cpp. Signed operands are integers.
use em68030_win_ui3cpp.Common.{
  ℕ, ◌-◌, ◌*◌, ◌/◌, ◌%◌, ◌^◌, true, false, ◌||◌, Option, none, some, bit_and, ltb, ◌==◌,
  if◌then◌else◌,
}
use em68030_win_ui3cpp.Common.Int.{ℤ, pos, negsuc, ◌*ℤ◌, ltb_ℤ, quot_ℤ, rem_ℤ, to_unsigned, abs}
use em68030_win_ui3cpp.Alu.Size.{
  word, long, AluResult, DivResult, MulLongResult, set_if, set_nz_flags,
}

abbrev pub int32_max : ℤ
int32_max = pos 0x7fffffff

abbrev pub int32_min : ℤ
int32_min = negsuc 0x7fffffff

abbrev pub int16_max : ℤ
int16_max = pos 0x7fff

abbrev pub int16_min : ℤ
int16_min = negsuc 0x7fff

unfoldable pub mul_signed : ℤ → ℤ → AluResult
mul_signed a b =
    let result = a *ℤ b in
    let r = to_unsigned (2 ^ 32) result in
    record {
      result = r;
      ccr = set_if (ltb_ℤ int32_max result || ltb_ℤ result int32_min) 0x02 (set_nz_flags long r);
    }

unfoldable pub mul_unsigned : ℕ → ℕ → AluResult
mul_unsigned a b =
    let result = a * b in
    let r = result % 2 ^ 32 in
    record { result = r; ccr = set_if (ltb 0xffffffff result) 0x02 (set_nz_flags long r) }

unfoldable pub mul_signed_long : ℤ → ℤ → MulLongResult
mul_signed_long a b =
    let result = to_unsigned (2 ^ 64) (a *ℤ b) in
    let lo = result % 2 ^ 32 in
    record { result_lo = lo; result_hi = result / 2 ^ 32; ccr = set_nz_flags long lo }

unfoldable pub mul_unsigned_long : ℕ → ℕ → MulLongResult
mul_unsigned_long a b =
    let result = a * b in
    let lo = bit_and result 0xffffffff in
    record { result_lo = lo; result_hi = result / 2 ^ 32; ccr = set_nz_flags long lo }

abbrev failed : ℕ → DivResult
failed ccr = record { quotient = 0; remainder = 0; ccr = ccr; overflow = true }

unfoldable pub div_signed : ℤ → ℤ → DivResult
div_signed dividend divisor =
    let q = quot_ℤ dividend divisor in
    let rem = rem_ℤ dividend divisor in
    if abs divisor == 0
    then failed 0
    else if ltb_ℤ int16_max q || ltb_ℤ q int16_min
    then failed 0x02
    else record {
      quotient = to_unsigned (2 ^ 16) q;
      remainder = to_unsigned (2 ^ 16) rem;
      ccr = set_nz_flags word (to_unsigned (2 ^ 16) q);
      overflow = false;
    }

-- `none` is a division by zero, which C++ leaves undefined: the test is on the divisor, the
-- division by its low 16 bits.
unfoldable pub div_unsigned : ℕ → ℕ → Option DivResult
div_unsigned dividend divisor =
    let d16 = divisor % 2 ^ 16 in
    let q = dividend / d16 in
    let rem = dividend % d16 in
    if divisor == 0
    then some (failed 0)
    else if d16 == 0
    then none
    else if ltb 0xffff q
    then some (failed 0x02)
    else some (record {
      quotient = bit_and q 0xffff;
      remainder = bit_and rem 0xffff;
      ccr = set_nz_flags word (q % 2 ^ 16);
      overflow = false;
    })

-- `none` is the quotient 2 ^ 63, which `int64_t` does not hold.
unfoldable pub div_signed_long : ℤ → ℤ → Option DivResult
div_signed_long dividend divisor =
    let q = quot_ℤ dividend divisor in
    let rem = rem_ℤ dividend divisor in
    if abs divisor == 0
    then some (failed 0)
    else if ltb_ℤ (pos (2 ^ 63 - 1)) q
    then none
    else if ltb_ℤ int32_max q || ltb_ℤ q int32_min
    then some (failed 0x02)
    else some (record {
      quotient = to_unsigned (2 ^ 32) q;
      remainder = to_unsigned (2 ^ 32) rem;
      ccr = set_nz_flags long (to_unsigned (2 ^ 32) q);
      overflow = false;
    })

unfoldable pub div_unsigned_long : ℕ → ℕ → DivResult
div_unsigned_long dividend divisor =
    let q = dividend / divisor in
    let rem = dividend % divisor in
    if divisor == 0 then failed 0 else if ltb 0xffffffff q then failed 0x02 else record {
      quotient = q % 2 ^ 32;
      remainder = rem % 2 ^ 32;
      ccr = set_nz_flags long (q % 2 ^ 32);
      overflow = false;
    }
