-- ===== src/Alu/Flags.antt =====
-- The five bits of a condition code register, and the sign bits of operands.
use em68030_win_ui3cpp.Common.{
  ℕ, ◌<◌, ◌≡◌, refl, arith, Bool, true, false, not, ◌&&◌, bit_and, bit_xor, leb, ◌==◌,
  if◌then◌else◌, has,
}
use em68030_win_ui3cpp.Common.Bits.{
  bit_at, bit_at_div, bit_and_bit, bit_at-bit_and, bit_at-bit_xor, bit_at-lt,
}
use em68030_win_ui3cpp.Alu.Size.{Size, byte, word, long, modulus, sign_mask, set_if, set_nz_flags}

-- Carry, zero, negative, overflow and extend, as the CPU reads them.
pub record Flags : Type 0 where
  pub c : Bool
  pub v : Bool
  pub z : Bool
  pub n : Bool
  pub x : Bool

unfoldable pub flags_of : ℕ → Flags
flags_of ccr = record {
  c = has ccr 0x01;
  v = has ccr 0x02;
  z = has ccr 0x04;
  n = has ccr 0x08;
  x = has ccr 0x10;
}

-- The register that an addition or a subtraction puts together.
pub flags_of-set_if :
    (c z n v : Bool)
    → flags_of (set_if v 0x02 (set_if n 0x08 (set_if z 0x04 (set_if c 0x11 0))))
      ≡ record { c = c; v = v; z = z; n = n; x = c }
unfolding flags_of
flags_of-set_if true true true true = refl
flags_of-set_if true true true false = refl
flags_of-set_if true true false true = refl
flags_of-set_if true true false false = refl
flags_of-set_if true false true true = refl
flags_of-set_if true false true false = refl
flags_of-set_if true false false true = refl
flags_of-set_if true false false false = refl
flags_of-set_if false true true true = refl
flags_of-set_if false true true false = refl
flags_of-set_if false true false true = refl
flags_of-set_if false true false false = refl
flags_of-set_if false false true true = refl
flags_of-set_if false false true false = refl
flags_of-set_if false false false true = refl
flags_of-set_if false false false false = refl

-- The number has its top bit set.
abbrev pub is_negative : Size → ℕ → Bool
is_negative s a = leb (sign_mask s) a

pub has_sign : (s : Size) (a : ℕ) → a < modulus s → has a (sign_mask s) ≡ is_negative s a
has_sign byte a h = ground (arith, bit_and_bit 7 a, bit_at_div 7 a)
has_sign word a h = ground (arith, bit_and_bit 15 a, bit_at_div 15 a)
has_sign long a h = ground (arith, bit_and_bit 31 a, bit_at_div 31 a)

-- `differ a b`: the top bits are not the same.
abbrev pub signs_differ : Size → ℕ → ℕ → Bool
signs_differ s a b = if is_negative s a then not (is_negative s b) else is_negative s b

abbrev top : Size → ℕ
top byte = 7
top word = 15
top long = 31

has-top : (s : Size) (a : ℕ) → has a (sign_mask s) ≡ (bit_at (top s) a == 1)
has-top byte a = ground (arith, bit_and_bit 7 a, bit_at-lt 7 a)
has-top word a = ground (arith, bit_and_bit 15 a, bit_at-lt 15 a)
has-top long a = ground (arith, bit_and_bit 31 a, bit_at-lt 31 a)

-- `((a ^ b) & sign) != 0`.
pub has-bit_xor :
    (s : Size) (a b : ℕ)
    → a < modulus s
    → b < modulus s
    → has (bit_xor a b) (sign_mask s) ≡ signs_differ s a b
has-bit_xor s a b ha hb = ground (
  arith,
  has-top s (bit_xor a b),
  bit_at-bit_xor (top s) a b,
  has-top s a,
  has-top s b,
  has_sign s a ha,
  has_sign s b hb,
  bit_at-lt (top s) a,
  bit_at-lt (top s) b,
)

-- `((a ^ b) & (c ^ d) & sign) != 0`.
pub has-bit_and-bit_xor :
    (s : Size) (a b c d : ℕ)
    → a < modulus s
    → b < modulus s
    → c < modulus s
    → d < modulus s
    → has (bit_and (bit_xor a b) (bit_xor c d)) (sign_mask s)
      ≡ (signs_differ s a b && signs_differ s c d)
has-bit_and-bit_xor s a b c d ha hb hc hd = ground (
  arith,
  has-top s (bit_and (bit_xor a b) (bit_xor c d)),
  bit_at-bit_and (top s) (bit_xor a b) (bit_xor c d),
  bit_at-bit_xor (top s) a b,
  bit_at-bit_xor (top s) c d,
  has-top s a,
  has-top s b,
  has-top s c,
  has-top s d,
  has_sign s a ha,
  has_sign s b hb,
  has_sign s c hc,
  has_sign s d hd,
  bit_at-lt (top s) a,
  bit_at-lt (top s) b,
  bit_at-lt (top s) c,
  bit_at-lt (top s) d,
)

-- The register that a shift puts together: N and Z, then C with X, then V.
flags_of-set_nz :
    (c v n z : Bool)
    → flags_of (set_if v 0x02 (set_if c 0x11 (set_if n 0x08 (set_if z 0x04 0))))
      ≡ record { c = c; v = v; z = z; n = n; x = c }
unfolding flags_of
flags_of-set_nz true true true true = refl
flags_of-set_nz true true true false = refl
flags_of-set_nz true true false true = refl
flags_of-set_nz true true false false = refl
flags_of-set_nz true false true true = refl
flags_of-set_nz true false true false = refl
flags_of-set_nz true false false true = refl
flags_of-set_nz true false false false = refl
flags_of-set_nz false true true true = refl
flags_of-set_nz false true true false = refl
flags_of-set_nz false true false true = refl
flags_of-set_nz false true false false = refl
flags_of-set_nz false false true true = refl
flags_of-set_nz false false true false = refl
flags_of-set_nz false false false true = refl
flags_of-set_nz false false false false = refl

pub flags_of-set_nz_flags :
    (s : Size) (r : ℕ) (c v : Bool)
    → r < modulus s
    → flags_of (set_if v 0x02 (set_if c 0x11 (set_nz_flags s r)))
      ≡ record { c = c; v = v; z = r == 0; n = is_negative s r; x = c }
unfolding set_nz_flags
flags_of-set_nz_flags s r c v h =
    rw (has_sign s r h) (flags_of-set_nz c v (is_negative s r) (r == 0))
