-- ===== src/Alu/LongMath.antt =====
-- Laws of the unsigned 32-bit multiplication and division.
use em68030_win_ui3cpp.Common.{
  ℕ, ◌+◌, ◌*◌, ◌/◌, ◌%◌, ◌^◌, ◌≤◌, ◌<◌, ◌≡◌, arith, true, false, ltb, leb, ◌==◌, if◌then◌else◌,
}
use native.Mathlib.Nat.{div-add-mod, mul-le-mul, mod-lt, le-div_iff_mul-le}
use native.Mathlib.Decide.{dec_le}
use em68030_win_ui3cpp.Common.Bits.{bit_and_mask}
use em68030_win_ui3cpp.Alu.MulDiv.{mul_unsigned_long, div_unsigned_long}

-- The two halves of an unsigned product make the exact product, each below 2 ^ 32.
pub mul_unsigned_long_lem :
    (a b : ℕ)
    → a < 2 ^ 32
    → b < 2 ^ 32
    → let out = mul_unsigned_long a b in
      (out.result_hi * 2 ^ 32 + out.result_lo ≡ a * b)
      × (out.result_lo < 2 ^ 32)
      × (out.result_hi < 2 ^ 32)
unfolding mul_unsigned_long
mul_unsigned_long_lem a b ha hb = (
  omega (arith, bit_and_mask 32 (a * b)),
  omega (arith, bit_and_mask 32 (a * b)),
  omega (arith, below),
)
  where
    below : a * b ≤ 0xffffffff * 0xffffffff
    below = mul-le-mul {n₂ = 0xffffffff} {m₂ = 0xffffffff} (omega arith) (omega arith)

-- An unsigned division of a 64-bit dividend by a nonzero divisor overflows exactly where the quotient
-- needs more than 32 bits, with no quotient and remainder then, and otherwise gives the quotient and a
-- remainder below the divisor.
pub div_unsigned_long_lem :
    (dividend divisor : ℕ)
    → 0 < divisor
    → divisor < 2 ^ 32
    → let out = div_unsigned_long dividend divisor in
      (out.overflow ≡ leb (2 ^ 32 * divisor) dividend)
      × (out.quotient * divisor + out.remainder ≡ (if out.overflow then 0 else dividend))
      × (out.remainder < divisor)
unfolding div_unsigned_long
div_unsigned_long_lem dividend divisor h small =
    let whole : divisor * (dividend / divisor) + dividend % divisor ≡ dividend =
      div-add-mod dividend divisor in
    let rest : dividend % divisor < divisor = mod-lt dividend h in
    let bound = le-div_iff_mul-le {k = divisor} {x = 2 ^ 32} {y = dividend} h in
    let nonzero : (divisor == 0) ≡ false = ground arith in
    elim (dec_le (2 ^ 32) (dividend / divisor)) [
      | yes big ↦
          let over : ltb 0xffffffff (dividend / divisor) ≡ true = ground arith in
          rw (nonzero, over) (ground (arith, bound.0 big), omega arith, h)
      | no fits ↦
          let over : ltb 0xffffffff (dividend / divisor) ≡ false = ground arith in
          let q : dividend / divisor % 2 ^ 32 ≡ dividend / divisor = omega arith in
          let r : dividend % divisor % 2 ^ 32 ≡ dividend % divisor = omega arith in
          let under : 2 ^ 32 * divisor ≤ dividend → ⊥ = λ k. fits (bound.1 k) in
          rw (nonzero, over, q, r) (ground (arith, under), omega (arith, whole), rest)
    ]
