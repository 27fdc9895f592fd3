-- ===== src/Alu/AddSub.antt =====
-- `AddByte` to `SubLong` of Em68030/Core/Alu.cpp.
use em68030_win_ui3cpp.Common.{
  ℕ, ◌+◌, ◌-◌, ◌%◌, Bool, ◌&&◌, bit_and, bit_xor, ltb, ◌==◌, if◌then◌else◌, has,
}
use em68030_win_ui3cpp.Alu.Size.{Size, modulus, sign_mask, AluResult, set_if}

abbrev pub extend_bit : Bool → ℕ → ℕ
extend_bit with_extend ccr = if with_extend && has ccr 0x10 then 1 else 0

unfoldable pub add : Size → ℕ → ℕ → ℕ → Bool → AluResult
add s a b ccr with_extend =
    let result = a + b + extend_bit with_extend ccr in
    let r = result % modulus s in
    let v = has (bit_and (bit_xor a r) (bit_xor b r)) (sign_mask s) in
    record {
      result = r;
      ccr = set_if v 0x02 (
          set_if (has r (sign_mask s)) 0x08
            (set_if (r == 0) 0x04 (set_if (ltb (modulus s - 1) result) 0x11 0)));
    }

-- The difference is negative where `a < b + x`; it is cast to the operands' type.
unfoldable pub sub : Size → ℕ → ℕ → ℕ → Bool → AluResult
sub s a b ccr with_extend =
    let x = extend_bit with_extend ccr in
    let r = (a + modulus s - (b + x)) % modulus s in
    let v = has (bit_and (bit_xor a b) (bit_xor a r)) (sign_mask s) in
    record {
      result = r;
      ccr = set_if v 0x02 (
          set_if (has r (sign_mask s)) 0x08 (set_if (r == 0) 0x04 (set_if (ltb a (b + x)) 0x11 0)));
    }
