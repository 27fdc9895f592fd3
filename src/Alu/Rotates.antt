-- ===== src/Alu/Rotates.antt =====
-- `RotateLeft` to `RotateRightX` of Em68030/Core/Alu.cpp, whose `size` is 1, 2 or 4.
use em68030_win_ui3cpp.Common.{
  ℕ, zero, suc, ◌-◌, ◌*◌, ◌/◌, ◌^◌, not, ◌&&◌, bit_and, bit_or, ltb, ◌==◌, if◌then◌else◌, has,
}
use em68030_win_ui3cpp.Alu.Size.{Size, bits, modulus, AluResult, set_if, set_nz_flags}
use em68030_win_ui3cpp.Alu.Shifts.{Shifted}

abbrev pub mask : Size → ℕ
mask s = modulus s - 1

abbrev pub top_bit : Size → ℕ → ℕ
top_bit s r = bit_and (r / 2 ^ (bits s - 1)) 1

unfoldable pub rotate_left_loop : Size → ℕ → Shifted → Shifted
rotate_left_loop s zero v = v
rotate_left_loop s (suc n) v =
    let c = top_bit s v.r in
    rotate_left_loop s n (record { r = bit_and (bit_or (v.r * 2) c) (mask s); c = c })

unfoldable pub rotate_left : Size → ℕ → ℕ → AluResult
rotate_left s value count =
    let v = rotate_left_loop s count (record { r = bit_and value (mask s); c = 0 }) in
    record { result = v.r; ccr = set_if (ltb 0 count && not (v.c == 0)) 0x01 (set_nz_flags s v.r) }

unfoldable pub rotate_right_loop : Size → ℕ → Shifted → Shifted
rotate_right_loop s zero v = v
rotate_right_loop s (suc n) v =
    let c = bit_and v.r 1 in
    rotate_right_loop s n
      (record { r = bit_and (bit_or (v.r / 2) (c * 2 ^ (bits s - 1))) (mask s); c = c })

unfoldable pub rotate_right : Size → ℕ → ℕ → AluResult
rotate_right s value count =
    let v = rotate_right_loop s count (record { r = bit_and value (mask s); c = 0 }) in
    record { result = v.r; ccr = set_if (ltb 0 count && not (v.c == 0)) 0x01 (set_nz_flags s v.r) }

-- Through X: `x` is shifted in and `c` becomes the next `x`, so one variable holds both.
unfoldable pub rotate_left_x_loop : Size → ℕ → Shifted → Shifted
rotate_left_x_loop s zero v = v
rotate_left_x_loop s (suc n) v =
    rotate_left_x_loop s n
      (record { r = bit_and (bit_or (v.r * 2) v.c) (mask s); c = top_bit s v.r })

unfoldable pub rotate_right_x_loop : Size → ℕ → Shifted → Shifted
rotate_right_x_loop s zero v = v
rotate_right_x_loop s (suc n) v =
    rotate_right_x_loop s n (record {
      r = bit_and (bit_or (v.r / 2) (v.c * 2 ^ (bits s - 1))) (mask s);
      c = bit_and v.r 1;
    })

abbrev pub x_of : ℕ → ℕ
x_of ccr = if has ccr 0x10 then 1 else 0

-- With no round the old X is kept, and copied to C.
abbrev x_flags : Size → ℕ → ℕ → Shifted → ℕ
x_flags s count ccr v =
    if ltb 0 count
    then set_if (not (v.c == 0)) 0x11 (set_nz_flags s v.r)
    else set_if (has ccr 0x10) 0x01 (bit_or (set_nz_flags s v.r) (bit_and ccr 0x10))

unfoldable pub rotate_left_x : Size → ℕ → ℕ → ℕ → AluResult
rotate_left_x s value count ccr =
    let v = rotate_left_x_loop s count (record { r = bit_and value (mask s); c = x_of ccr }) in
    record { result = v.r; ccr = x_flags s count ccr v }

unfoldable pub rotate_right_x : Size → ℕ → ℕ → ℕ → AluResult
rotate_right_x s value count ccr =
    let v = rotate_right_x_loop s count (record { r = bit_and value (mask s); c = x_of ccr }) in
    record { result = v.r; ccr = x_flags s count ccr v }
