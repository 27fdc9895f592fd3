-- ===== src/Alu/Decimal.antt =====
-- BCD addition and subtraction as decimal arithmetic.
use em68030_win_ui3cpp.Common.{
  ℕ, ◌+◌, ◌-◌, ◌*◌, ◌/◌, ◌%◌, ◌≤◌, ◌≡◌, refl, sym, ◌∙◌, arith, Bool, true, false, bit_and, bit_or,
  ltb, ◌==◌, if◌then◌else◌, has,
}
use em68030_win_ui3cpp.Common.Bits.{bit_and_bit, bit_at-lt, bit_and_mask, bit_or_fields}
use em68030_win_ui3cpp.Alu.Size.{set_if}
use em68030_win_ui3cpp.Alu.Flags.{flags_of}
use em68030_win_ui3cpp.Alu.Bcd.{low_digit, high_digit, join_digits, bcd_flags, add_bcd, sub_bcd}

-- Two decimal digits in a byte, and their number.
abbrev pub IsBcd : ℕ → Type 0
IsBcd v = (v % 16 ≤ 9) × (v / 16 ≤ 9)

abbrev pub decimal : ℕ → ℕ
decimal v = v / 16 * 10 + v % 16

abbrev pub x_bit : ℕ → ℕ
x_bit ccr = if has ccr 0x10 then 1 else 0

low_digit_lem : (v : ℕ) → low_digit v ≡ v % 16
unfolding low_digit
low_digit_lem v = bit_and_mask 4 v

high_digit_lem : (v : ℕ) → high_digit v ≡ v / 16 % 16
unfolding high_digit
high_digit_lem v = bit_and_mask 4 (v / 16)

join_digits_lem : (hi lo : ℕ) → join_digits hi lo ≡ hi % 16 * 16 + lo % 16
unfolding join_digits
join_digits_lem hi lo =
    rw (bit_and_mask 4 hi, bit_and_mask 4 lo)
      (omega (arith, bit_or_fields 4 (hi % 16) (lo % 16) (omega arith)))

put_together :
    (n z c old : Bool)
    → let carried : ℕ = (if c then 0x11 else 0) in
      let ccr = set_if n 0x08 (if z then bit_or carried (if old then 0x04 else 0) else carried) in
      ((flags_of ccr).c ≡ c) × ((flags_of ccr).x ≡ c)
unfolding flags_of
put_together true true true true = (refl, refl)
put_together true true true false = (refl, refl)
put_together true true false true = (refl, refl)
put_together true true false false = (refl, refl)
put_together true false true true = (refl, refl)
put_together true false true false = (refl, refl)
put_together true false false true = (refl, refl)
put_together true false false false = (refl, refl)
put_together false true true true = (refl, refl)
put_together false true true false = (refl, refl)
put_together false true false true = (refl, refl)
put_together false true false false = (refl, refl)
put_together false false true true = (refl, refl)
put_together false false true false = (refl, refl)
put_together false false false true = (refl, refl)
put_together false false false false = (refl, refl)

carry_flags :
    (result ccr : ℕ) (b : Bool)
    → let f = flags_of (bcd_flags result (if b then 1 else 0) ccr) in (f.c ≡ b) × (f.x ≡ b)
unfolding bcd_flags
carry_flags result ccr b =
    let old : bit_and ccr 0x04 ≡ (if has ccr 0x04 then 0x04 else 0) =
      ground (arith, bit_and_bit 2 ccr, bit_at-lt 2 ccr) in
    let one : ltb 0 (if b then 1 else 0) ≡ b = ground arith in
    rw (old, one) (put_together (has result 0x80) (result == 0) b (has ccr 0x04))

-- A valid result with its decimal carry, which the flags hold.
finish :
    (result left right ccr : ℕ) (b : Bool)
    → IsBcd result
    → decimal result + (if b then left else 0) ≡ right
    → let f = flags_of (bcd_flags result (if b then 1 else 0) ccr) in
      IsBcd result × (f.x ≡ f.c) × (decimal result + (if f.c then left else 0) ≡ right)
finish result left right ccr b valid e =
    let k = carry_flags result ccr b in (valid, k.1 ∙ sym k.0, rw k.0 e)

-- The two digit additions, with the carry between them.
add_digits :
    (src dst x lo carry hi : ℕ)
    → IsBcd src
    → IsBcd dst
    → x ≤ 1
    → lo ≡ dst % 16 + src % 16 + x
    → carry ≡ (if ltb 9 lo then 1 else 0)
    → hi ≡ dst / 16 % 16 + src / 16 % 16 + carry
    → let result =
        (if ltb 9 hi then hi - 10 else hi) % 16 * 16 + (if ltb 9 lo then lo - 10 else lo) % 16 in
      IsBcd result
      × (decimal result + (if ltb 9 hi then 100 else 0) ≡ decimal src + decimal dst + x)
add_digits src dst x lo carry hi hs hd hx el ec eh = ground arith

-- ABCD: on valid operands the result is valid, and with its carry, which C and X hold, it is the
-- decimal sum of the operands and X.
pub add_bcd_lem :
    (src dst ccr : ℕ)
    → IsBcd src
    → IsBcd dst
    → let out = add_bcd src dst ccr in
      let carry = (flags_of out.ccr).c in
      IsBcd out.result
      × ((flags_of out.ccr).x ≡ carry)
      × (decimal out.result + (if carry then 100 else 0) ≡ decimal src + decimal dst + x_bit ccr)
unfolding add_bcd
add_bcd_lem src dst ccr hs hd =
    let hx : x_bit ccr ≤ 1 = ground arith in
    let d = add_digits src dst (x_bit ccr) _ _ _ hs hd hx refl refl refl in
    simp (join_digits_lem, low_digit_lem, high_digit_lem) (finish _ 100 _ ccr _ d.0 d.1)

-- The two digit subtractions, 16 above the difference, with the borrow between them.
sub_digits :
    (src dst x lo borrow hi : ℕ)
    → IsBcd src
    → IsBcd dst
    → x ≤ 1
    → lo ≡ 16 + dst % 16 - src % 16 - x
    → borrow ≡ (if ltb lo 16 then 1 else 0)
    → hi ≡ 16 + dst / 16 % 16 - src / 16 % 16 - borrow
    → let result =
        (if ltb hi 16 then hi + 10 else hi) % 16 * 16 + (if ltb lo 16 then lo + 10 else lo) % 16 in
      IsBcd result
      × (decimal result + (decimal src + x) ≡ decimal dst + (if ltb hi 16 then 100 else 0))
sub_digits src dst x lo borrow hi hs hd hx el eb eh = ground arith

finish_sub :
    (result left right ccr : ℕ) (b : Bool)
    → IsBcd result
    → decimal result + left ≡ right + (if b then 100 else 0)
    → let f = flags_of (bcd_flags result (if b then 1 else 0) ccr) in
      IsBcd result × (f.x ≡ f.c) × (decimal result + left ≡ right + (if f.c then 100 else 0))
finish_sub result left right ccr b valid e =
    let k = carry_flags result ccr b in (valid, k.1 ∙ sym k.0, rw k.0 e)

-- SBCD: on valid operands the result is valid, and it is the decimal difference, destination less
-- source less X, plus 100 for the borrow that C and X hold.
pub sub_bcd_lem :
    (src dst ccr : ℕ)
    → IsBcd src
    → IsBcd dst
    → let out = sub_bcd src dst ccr in
      let borrow = (flags_of out.ccr).c in
      IsBcd out.result
      × ((flags_of out.ccr).x ≡ borrow)
      × (decimal out.result + (decimal src + x_bit ccr) ≡ decimal dst + (if borrow then 100 else 0))
unfolding sub_bcd
sub_bcd_lem src dst ccr hs hd =
    let hx : x_bit ccr ≤ 1 = ground arith in
    let d = sub_digits src dst (x_bit ccr) _ _ _ hs hd hx refl refl refl in
    simp (join_digits_lem, low_digit_lem, high_digit_lem) (finish_sub _ _ _ ccr _ d.0 d.1)
