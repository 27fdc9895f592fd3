-- ===== src/Alu/Shifts.antt =====
-- `ShiftLeft`, `ArithShiftRight` and `LogicalShiftRight` of Em68030/Core/Alu.cpp. The loops recur on
-- the rounds left; their variables `r` and `c` are a record.
use em68030_win_ui3cpp.Common.{
  ℕ, zero, suc, ◌-◌, ◌*◌, ◌/◌, ◌%◌, ◌^◌, not, ◌&&◌, bit_and, bit_xor, ltb, ◌==◌, has,
}
use em68030_win_ui3cpp.Common.Int.{ℤ, to_signed, to_unsigned, half_ℤ, parity_ℤ}
use em68030_win_ui3cpp.Alu.Size.{Size, bits, modulus, sign_mask, AluResult, set_if, set_nz_flags}

pub record Shifted : Type 0 where
  pub r : ℕ
  pub c : ℕ

unfoldable pub shift_left_loop : Size → ℕ → Shifted → Shifted
shift_left_loop s zero v = v
shift_left_loop s (suc n) v =
    shift_left_loop s n (record { r = v.r * 2 % modulus s; c = bit_and (v.r / 2 ^ (bits s - 1)) 1 })

unfoldable pub shift_left : Size → ℕ → ℕ → AluResult
shift_left s value count =
    let v = shift_left_loop s count (record { r = value; c = 0 }) in
    record {
      result = v.r;
      ccr =
          set_if (has (bit_xor value v.r) (sign_mask s) && ltb 0 count) 0x02
            (set_if (ltb 0 count && not (v.c == 0)) 0x11 (set_nz_flags s v.r));
    }

unfoldable pub logical_loop : ℕ → Shifted → Shifted
logical_loop zero v = v
logical_loop (suc n) v = logical_loop n (record { r = v.r / 2; c = bit_and v.r 1 })

unfoldable pub logical_shift_right : Size → ℕ → ℕ → AluResult
logical_shift_right s value count =
    let v = logical_loop count (record { r = value; c = 0 }) in
    record { result = v.r; ccr = set_if (ltb 0 count && not (v.c == 0)) 0x11 (set_nz_flags s v.r) }

pub record SignedShifted : Type 0 where
  pub r : ℤ
  pub c : ℕ

unfoldable pub arith_loop : ℕ → SignedShifted → SignedShifted
arith_loop zero v = v
arith_loop (suc n) v = arith_loop n (record { r = half_ℤ v.r; c = parity_ℤ v.r })

unfoldable pub arith_shift_right : Size → ℕ → ℕ → AluResult
arith_shift_right s value count =
    let v = arith_loop count (record { r = to_signed (modulus s) value; c = 0 }) in
    let result = to_unsigned (modulus s) v.r in
    record {
      result = result;
      ccr = set_if (ltb 0 count && not (v.c == 0)) 0x11 (set_nz_flags s result);
    }
