-- ===== src/Alu/Carry.antt =====
-- Addition and subtraction at every size: the result and all five flags.
use em68030_win_ui3cpp.Common.{
  ℕ, ◌+◌, ◌-◌, ◌*◌, ◌%◌, ◌≤◌, ◌<◌, ◌≡◌, refl, ◌∙◌, ap, ◌↔◌, arith, Bool, false, ◌&&◌, ltb, leb,
  ◌==◌, if◌then◌else◌,
}
use em68030_win_ui3cpp.Common.Int.{ℤ, pos, ◌+ℤ◌, ◌-ℤ◌, to_signed}
use em68030_win_ui3cpp.Alu.Size.{Size, byte, word, long, modulus, sign_mask, AluResult}
use em68030_win_ui3cpp.Alu.AddSub.{extend_bit, add, sub}
use em68030_win_ui3cpp.Alu.Flags.{
  Flags, flags_of, flags_of-set_if, is_negative, has_sign, signs_differ, has-bit_and-bit_xor,
}

abbrev pub signed : Size → ℕ → ℤ
signed s a = to_signed (modulus s) a

-- The flags tell carry, sign and zero of the result, and whether the signed result is the true one.
pub record Reports (s : Size) (out : AluResult) (carry : Bool) (true_result : ℤ) : Type 0 where
  pub in_range : out.result < modulus s
  pub carry_flag : (flags_of out.ccr).c ≡ carry
  pub extend_flag : (flags_of out.ccr).x ≡ carry
  pub zero_flag : (flags_of out.ccr).z ≡ (out.result == 0)
  pub negative_flag : (flags_of out.ccr).n ≡ is_negative s out.result
  pub no_overflow : ((flags_of out.ccr).v ≡ false) ↔ (signed s out.result ≡ true_result)

modulus_sign : (s : Size) → modulus s ≡ 2 * sign_mask s
modulus_sign byte = refl
modulus_sign word = refl
modulus_sign long = refl

pub sum_mod :
    (s : Size) (t : ℕ)
    → t < 2 * modulus s
    → t % modulus s ≡ (if leb (modulus s) t then t - modulus s else t)
sum_mod byte t h = ground arith
sum_mod word t h = ground arith
sum_mod long t h = ground arith

pub sum_mod-lt : (s : Size) (t : ℕ) → t % modulus s < modulus s
sum_mod-lt byte t = omega arith
sum_mod-lt word t = omega arith
sum_mod-lt long t = omega arith

abbrev add_result : Size → ℕ → ℕ → ℕ → ℕ
add_result s a b x = (a + b + x) % modulus s

add-flags :
    (s : Size) (a b ccr : ℕ) (ext : Bool)
    → a < modulus s
    → b < modulus s
    → let r = add_result s a b (extend_bit ext ccr) in
      flags_of (add s a b ccr ext).ccr ≡ record {
        c = ltb (modulus s - 1) (a + b + extend_bit ext ccr);
        v = signs_differ s a r && signs_differ s b r;
        z = r == 0;
        n = is_negative s r;
        x = ltb (modulus s - 1) (a + b + extend_bit ext ccr);
      }
unfolding add
add-flags s a b ccr ext ha hb =
    let r = add_result s a b (extend_bit ext ccr) in
    let hr : r < modulus s = sum_mod-lt s (a + b + extend_bit ext ccr) in
    rw (has-bit_and-bit_xor s a r b r ha hr hb hr, has_sign s r hr)
      (flags_of-set_if (ltb (modulus s - 1) (a + b + extend_bit ext ccr)) (r == 0) (is_negative s r)
        (signs_differ s a r && signs_differ s b r))

overflow_sum :
    (s : Size) (a b x r : ℕ)
    → a < modulus s
    → b < modulus s
    → x ≤ 1
    → r ≡ (if leb (modulus s) (a + b + x) then a + b + x - modulus s else a + b + x)
    → ((signs_differ s a r && signs_differ s b r) ≡ false)
      ↔ (signed s r ≡ signed s a +ℤ signed s b +ℤ pos x)
unfolding ◌+ℤ◌
overflow_sum byte a b x r ha hb hx e = ground arith
overflow_sum word a b x r ha hb hx e = ground arith
overflow_sum long a b x r ha hb hx e = ground arith

-- ADD and ADDX: the sum wraps at the size of the operands; C and X say that it did, Z and N describe
-- the result, and V is clear exactly when the result, read as a signed number, is the true sum.
pub add_lem :
    (s : Size) (a b ccr : ℕ) (ext : Bool)
    → a < modulus s
    → b < modulus s
    → let x = extend_bit ext ccr in
      let carry = leb (modulus s) (a + b + x) in
      ((add s a b ccr ext).result + (if carry then modulus s else 0) ≡ a + b + x)
      × Reports s (add s a b ccr ext) carry (signed s a +ℤ signed s b +ℤ pos x)
unfolding add
add_lem s a b ccr ext ha hb =
    let x = extend_bit ext ccr in
    let hx : x ≤ 1 = ground arith in
    let wraps = sum_mod s (a + b + x) (omega arith) in
    let carry : ltb (modulus s - 1) (a + b + x) ≡ leb (modulus s) (a + b + x) =
      ground (arith, modulus_sign s) in
    let f = add-flags s a b ccr ext ha hb in
    (
      ground (arith, wraps),
      record {
        in_range = sum_mod-lt s (a + b + x);
        carry_flag = ap (λ (g : Flags). g.c) f ∙ carry;
        extend_flag = ap (λ (g : Flags). g.x) f ∙ carry;
        zero_flag = ap (λ (g : Flags). g.z) f;
        negative_flag = ap (λ (g : Flags). g.n) f;
        no_overflow =
            rw (ap (λ (g : Flags). g.v) f)
              (overflow_sum s a b x (add_result s a b x) ha hb hx wraps);
      },
    )

abbrev pub sub_result : Size → ℕ → ℕ → ℕ → ℕ
sub_result s a b x = (a + modulus s - (b + x)) % modulus s

pub sub-flags :
    (s : Size) (a b ccr : ℕ) (ext : Bool)
    → a < modulus s
    → b < modulus s
    → let r = sub_result s a b (extend_bit ext ccr) in
      flags_of (sub s a b ccr ext).ccr ≡ record {
        c = ltb a (b + extend_bit ext ccr);
        v = signs_differ s a b && signs_differ s a r;
        z = r == 0;
        n = is_negative s r;
        x = ltb a (b + extend_bit ext ccr);
      }
unfolding sub
sub-flags s a b ccr ext ha hb =
    let x = extend_bit ext ccr in
    let r = sub_result s a b x in
    let hr : r < modulus s = sum_mod-lt s (a + modulus s - (b + x)) in
    rw (has-bit_and-bit_xor s a b a r ha hb ha hr, has_sign s r hr)
      (flags_of-set_if (ltb a (b + x)) (r == 0) (is_negative s r)
        (signs_differ s a b && signs_differ s a r))

overflow_difference :
    (s : Size) (a b x r : ℕ)
    → a < modulus s
    → b < modulus s
    → x ≤ 1
    → r ≡ (if leb (b + x) a then a - (b + x) else a + modulus s - (b + x))
    → ((signs_differ s a b && signs_differ s a r) ≡ false)
      ↔ (signed s r ≡ signed s a -ℤ signed s b -ℤ pos x)
unfolding ◌-ℤ◌
overflow_difference byte a b x r ha hb hx e = ground arith
overflow_difference word a b x r ha hb hx e = ground arith
overflow_difference long a b x r ha hb hx e = ground arith

-- SUB, SUBX and CMP: the difference wraps at the size of the operands; C and X are the borrow, Z and
-- N describe the result, and V is clear exactly when the result, read as a signed number, is the
-- true difference.
pub sub_lem :
    (s : Size) (a b ccr : ℕ) (ext : Bool)
    → a < modulus s
    → b < modulus s
    → let x = extend_bit ext ccr in
      let borrow = ltb a (b + x) in
      ((sub s a b ccr ext).result + b + x ≡ a + (if borrow then modulus s else 0))
      × Reports s (sub s a b ccr ext) borrow (signed s a -ℤ signed s b -ℤ pos x)
unfolding sub
sub_lem s a b ccr ext ha hb =
    let x = extend_bit ext ccr in
    let hx : x ≤ 1 = ground arith in
    let wraps = sum_mod s (a + modulus s - (b + x)) (omega arith) in
    let value : sub_result s a b x
        ≡ (if leb (b + x) a then a - (b + x) else a + modulus s - (b + x)) =
      ground (arith, wraps) in
    let f = sub-flags s a b ccr ext ha hb in
    (
      ground (arith, value),
      record {
        in_range = sum_mod-lt s (a + modulus s - (b + x));
        carry_flag = ap (λ (g : Flags). g.c) f;
        extend_flag = ap (λ (g : Flags). g.x) f;
        zero_flag = ap (λ (g : Flags). g.z) f;
        negative_flag = ap (λ (g : Flags). g.n) f;
        no_overflow =
            rw (ap (λ (g : Flags). g.v) f)
              (overflow_difference s a b x (sub_result s a b x) ha hb hx value);
      },
    )
