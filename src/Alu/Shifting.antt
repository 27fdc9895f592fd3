-- ===== src/Alu/Shifting.antt =====
-- The shift loops in closed form, and the flags of the shifts.
use native.Mathlib.Nat.{
  pow-suc, add-mul-mod_self_left, mod-add-div, mod-eq_of_lt, div-div-eq-div-mul, div-le_self,
}
use em68030_win_ui3cpp.Common.{
  ℕ, zero, suc, ◌-◌, ◌*◌, ◌/◌, ◌%◌, ◌^◌, ◌<◌, ◌≡◌, refl, sym, ap, ◌∙◌, arith, Bool, false, not,
  ◌&&◌, bit_and, ltb, ◌==◌,
}
use em68030_win_ui3cpp.Common.Bits.{bit_and_mask}
use em68030_win_ui3cpp.Alu.Size.{Size, byte, word, long, bits, modulus}
use em68030_win_ui3cpp.Alu.Shifts.{
  Shifted, shift_left_loop, shift_left, logical_loop, logical_shift_right,
}
use em68030_win_ui3cpp.Alu.Flags.{
  flags_of, has-bit_xor, flags_of-set_nz_flags, is_negative, signs_differ,
}

mod-mul : (m a b : ℕ) → a % m * b % m ≡ a * b % m
mod-mul m a b =
    sym (add-mul-mod_self_left (a % m * b) m (a / m * b))
    ∙ ap (λ (t : ℕ). t % m) (grind (arith, ap (λ (t : ℕ). t * b) (mod-add-div a m)))

double_mod :
    (s : Size) (n r : ℕ) → r * 2 % modulus s * 2 ^ n % modulus s ≡ r * 2 ^ suc n % modulus s
double_mod s n r =
    mod-mul (modulus s) (r * 2) (2 ^ n)
    ∙ ap (λ (t : ℕ). t % modulus s) (omega (arith, ap (λ (t : ℕ). r * t) (pow-suc 2 n)))

mod-lt_modulus : (s : Size) (t : ℕ) → t % modulus s < modulus s
mod-lt_modulus byte t = omega arith
mod-lt_modulus word t = omega arith
mod-lt_modulus long t = omega arith

shift_left_loop-r :
    (s : Size) (n : ℕ) (v : Shifted)
    → v.r < modulus s
    → (shift_left_loop s n v).r ≡ v.r * 2 ^ n % modulus s
unfolding shift_left_loop
shift_left_loop-r s zero v h = sym (mod-eq_of_lt h) ∙ ap (λ (t : ℕ). t % modulus s) (omega arith)
shift_left_loop-r s (suc n) v h =
    shift_left_loop-r s n
      (record { r = v.r * 2 % modulus s; c = bit_and (v.r / 2 ^ (bits s - 1)) 1 })
      (mod-lt_modulus s (v.r * 2))
    ∙ double_mod s n v.r

-- The last round of the loop is the one that C is from.
abbrev left_round : Size → Shifted → Shifted
left_round s v = record { r = v.r * 2 % modulus s; c = bit_and (v.r / 2 ^ (bits s - 1)) 1 }

shift_left_loop-suc :
    (s : Size) (n : ℕ) (v : Shifted)
    → shift_left_loop s (suc n) v ≡ left_round s (shift_left_loop s n v)
unfolding shift_left_loop
shift_left_loop-suc s zero v = refl
shift_left_loop-suc s (suc n) v = shift_left_loop-suc s n (left_round s v)

logical_loop-r : (n : ℕ) (v : Shifted) → (logical_loop n v).r ≡ v.r / 2 ^ n
unfolding logical_loop
logical_loop-r zero v = omega arith
logical_loop-r (suc n) v =
    logical_loop-r n (record { r = v.r / 2; c = bit_and v.r 1 })
    ∙ div-div-eq-div-mul v.r 2 (2 ^ n)
    ∙ ap (λ (t : ℕ). v.r / t) (omega (arith, pow-suc 2 n))

logical_loop-suc : (n : ℕ) (v : Shifted) → (logical_loop (suc n) v).c ≡ (logical_loop n v).r % 2
unfolding logical_loop
logical_loop-suc zero v = bit_and_mask 1 v.r
logical_loop-suc (suc n) v = logical_loop-suc n (record { r = v.r / 2; c = bit_and v.r 1 })

top_bit_lem :
    (s : Size) (r : ℕ)
    → r < modulus s
    → not (bit_and (r / 2 ^ (bits s - 1)) 1 == 0) ≡ is_negative s r
top_bit_lem byte r h = ground (arith, bit_and_mask 1 (r / 2 ^ 7))
top_bit_lem word r h = ground (arith, bit_and_mask 1 (r / 2 ^ 15))
top_bit_lem long r h = ground (arith, bit_and_mask 1 (r / 2 ^ 31))

left_carry :
    (s : Size) (value count : ℕ)
    → value < modulus s
    → (ltb 0 count && not ((shift_left_loop s count (record { r = value; c = 0 })).c == 0))
      ≡ (ltb 0 count && is_negative s (value * 2 ^ (count - 1) % modulus s))
left_carry s value zero h = refl
left_carry s value (suc n) h =
    let start : Shifted = record { r = value; c = 0 } in
    let before = shift_left_loop s n start in
    let less : suc n - 1 ≡ n = omega arith in
    let e = shift_left_loop-r s n start h in
    rw (shift_left_loop-suc s n start, less)
      (ap (λ (b : Bool). ltb 0 (suc n) && b)
        (top_bit_lem s before.r (rw e (mod-lt_modulus s (value * 2 ^ n))) ∙ ap (is_negative s) e))

logical_carry :
    (value count : ℕ)
    → (ltb 0 count && not ((logical_loop count (record { r = value; c = 0 })).c == 0))
      ≡ (ltb 0 count && (value / 2 ^ (count - 1) % 2 == 1))
logical_carry value zero = refl
logical_carry value (suc n) =
    let start : Shifted = record { r = value; c = 0 } in
    let less : suc n - 1 ≡ n = omega arith in
    rw (logical_loop-suc n start, logical_loop-r n start, less)
      (ap (λ (b : Bool). ltb 0 (suc n) && b) (ground arith))

-- ASL and LSL: the low bits of the value shifted by the count; C and X are the top bit before the
-- last shift, and clear for the count 0; V says that the top bit of the result is not that of the
-- value; Z and N describe the result.
pub shift_left_lem :
    (s : Size) (value count : ℕ)
    → value < modulus s
    → let out = shift_left s value count in
      let last_out = ltb 0 count && is_negative s (value * 2 ^ (count - 1) % modulus s) in
      (out.result ≡ value * 2 ^ count % modulus s)
      × (flags_of out.ccr ≡ record {
        c = last_out;
        v = signs_differ s value out.result && ltb 0 count;
        z = out.result == 0;
        n = is_negative s out.result;
        x = last_out;
      })
unfolding shift_left
shift_left_lem s value count h =
    let start : Shifted = record { r = value; c = 0 } in
    let r = (shift_left_loop s count start).r in
    let e = shift_left_loop-r s count start h in
    let hr : r < modulus s = rw e (mod-lt_modulus s (value * 2 ^ count)) in
    (
      e,
      rw (has-bit_xor s value r h hr, left_carry s value count h)
          (flags_of-set_nz_flags s r _ _ hr),
    )

-- LSR: the value divided by the power of two; C and X are the last bit shifted out, and clear for
-- the count 0; V is clear; Z and N describe the result.
pub logical_shift_right_lem :
    (s : Size) (value count : ℕ)
    → value < modulus s
    → let out = logical_shift_right s value count in
      let last_out = ltb 0 count && (value / 2 ^ (count - 1) % 2 == 1) in
      (out.result ≡ value / 2 ^ count)
      × (flags_of out.ccr ≡ record {
        c = last_out;
        v = false;
        z = out.result == 0;
        n = is_negative s out.result;
        x = last_out;
      })
unfolding logical_shift_right
logical_shift_right_lem s value count h =
    let start : Shifted = record { r = value; c = 0 } in
    let r = (logical_loop count start).r in
    let e = logical_loop-r count start in
    let hr : r < modulus s = omega (arith, e, div-le_self value (2 ^ count)) in
    (e, rw (logical_carry value count) (flags_of-set_nz_flags s r _ false hr))
