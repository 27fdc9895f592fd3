-- ===== src/Common/Bits.antt =====
-- Facts about `&`, `|` and `^` on single bits, masks and disjoint fields, at every width.
mod Step
pub mod Masks
use Prim.Native.Nat.{
  ℕ, zero, suc, ◌+◌, ◌-◌, ◌*◌, ◌/◌, ◌%◌, ◌^◌, ◌≤◌, ◌<◌, min, max, bit_and, bit_or, bit_xor,
}
use mathlib.Core.Path.{◌≡◌, refl, ap, ◌∙◌}
use native.Mathlib.Omega.{arith}
use native.Mathlib.Nat.{pow-suc, one-le-pow, div-add-mod, div-div-eq-div-mul}
use Step.{bit_and_step, bit_or_step, bit_xor_step, differ_mod}

-- Bit `k` of `a`.
unfoldable pub bit_at : ℕ → ℕ → ℕ
bit_at zero a = a % 2
bit_at (suc k) a = bit_at k (a / 2)

half_pow : (k a : ℕ) → a / 2 / 2 ^ k ≡ a / 2 ^ suc k
half_pow k a = div-div-eq-div-mul a 2 (2 ^ k) ∙ ap (λ (t : ℕ). a / t) (omega (arith, pow-suc 2 k))

pub bit_at_div : (k a : ℕ) → bit_at k a ≡ a / 2 ^ k % 2
unfolding bit_at
bit_at_div zero a = omega arith
bit_at_div (suc k) a = omega (arith, bit_at_div k (a / 2), half_pow k a)

pub bit_at-bit_and : (k a b : ℕ) → bit_at k (bit_and a b) ≡ min (bit_at k a) (bit_at k b)
unfolding bit_at
bit_at-bit_and zero a b = omega (arith, bit_and_step a b)
bit_at-bit_and (suc k) a b =
    ap (bit_at k) (omega (arith, bit_and_step a b)) ∙ bit_at-bit_and k (a / 2) (b / 2)

pub bit_at-bit_or : (k a b : ℕ) → bit_at k (bit_or a b) ≡ max (bit_at k a) (bit_at k b)
unfolding bit_at
bit_at-bit_or zero a b = omega (arith, bit_or_step a b)
bit_at-bit_or (suc k) a b =
    ap (bit_at k) (omega (arith, bit_or_step a b)) ∙ bit_at-bit_or k (a / 2) (b / 2)

pub bit_at-bit_xor : (k a b : ℕ) → bit_at k (bit_xor a b) ≡ (bit_at k a + bit_at k b) % 2
unfolding bit_at
bit_at-bit_xor zero a b = omega (arith, bit_xor_step a b, differ_mod a b)
bit_at-bit_xor (suc k) a b =
    ap (bit_at k) (omega (arith, bit_xor_step a b, differ_mod a b))
    ∙ bit_at-bit_xor k (a / 2) (b / 2)

pub bit_at-lt : (k a : ℕ) → bit_at k a < 2
bit_at-lt k a = omega (arith, bit_at_div k a)

bit_and-zero_below : (n a : ℕ) → a ≤ n → bit_and a 0 ≡ 0
bit_and-zero_below n zero h = refl
bit_and-zero_below zero (suc a) h = absurd (omega arith)
bit_and-zero_below (suc n) (suc a) h =
    omega (arith, bit_and_step (suc a) 0, bit_and-zero_below n (suc a / 2) (omega arith))

pub bit_and-zero : (a : ℕ) → bit_and a 0 ≡ 0
bit_and-zero a = bit_and-zero_below a a (omega arith)

zero_bit_and_below : (n b : ℕ) → b ≤ n → bit_and 0 b ≡ 0
zero_bit_and_below n zero h = refl
zero_bit_and_below zero (suc b) h = absurd (omega arith)
zero_bit_and_below (suc n) (suc b) h =
    omega (arith, bit_and_step 0 (suc b), zero_bit_and_below n (suc b / 2) (omega arith))

bit_and-le_below : (n a b : ℕ) → a ≤ n → bit_and a b ≤ a
bit_and-le_below n zero b h = omega (arith, zero_bit_and_below b b (omega arith))
bit_and-le_below zero (suc a) b h = absurd (omega arith)
bit_and-le_below (suc n) (suc a) b h =
    omega (arith, bit_and_step (suc a) b, bit_and-le_below n (suc a / 2) (b / 2) (omega arith))

pub bit_and-le : (a b : ℕ) → bit_and a b ≤ a
bit_and-le a b = bit_and-le_below a a b (omega arith)

pub bit_or-zero : (n a : ℕ) → a ≤ n → bit_or a 0 ≡ a
bit_or-zero n zero h = refl
bit_or-zero zero (suc a) h = absurd (omega arith)
bit_or-zero (suc n) (suc a) h =
    omega (arith, bit_or_step (suc a) 0, bit_or-zero n (suc a / 2) (omega arith))

-- Setting bits a second time changes nothing.
bit_or_absorb_below : (n a b : ℕ) → b ≤ n → bit_or (bit_or a b) b ≡ bit_or a b
bit_or_absorb_below n a zero h = bit_or-zero (bit_or a 0) (bit_or a 0) (omega arith)
bit_or_absorb_below zero a (suc b) h = absurd (omega arith)
bit_or_absorb_below (suc n) a (suc b) h =
    let half : bit_or a (suc b) / 2 ≡ bit_or (a / 2) (suc b / 2) =
      omega (arith, bit_or_step a (suc b)) in
    omega (
      arith,
      bit_or_step a (suc b),
      bit_or_step (bit_or a (suc b)) (suc b),
      ap (λ (t : ℕ). bit_or t (suc b / 2)) half,
      bit_or_absorb_below n (a / 2) (suc b / 2) (omega arith),
    )

pub bit_or_absorb : (a b : ℕ) → bit_or (bit_or a b) b ≡ bit_or a b
bit_or_absorb a b = bit_or_absorb_below b a b (omega arith)

-- The mask of one bit.
pub bit_and_bit : (k a : ℕ) → bit_and a (2 ^ k) ≡ bit_at k a * 2 ^ k
unfolding bit_at
bit_and_bit zero a = omega (arith, bit_and_step a 1, bit_and-zero (a / 2))
bit_and_bit (suc k) a =
    let even : 2 ^ suc k / 2 ≡ 2 ^ k = omega (arith, pow-suc 2 k) in
    omega (
      arith,
      bit_and_step a (2 ^ suc k),
      ap (bit_and (a / 2)) even,
      bit_and_bit k (a / 2),
      pow-suc 2 k,
      ap (λ (t : ℕ). bit_at k (a / 2) * t) (pow-suc 2 k),
    )

half_mod : (j b : ℕ) → b % 2 ^ suc j ≡ b / 2 % 2 ^ j * 2 + b % 2
half_mod j b = omega (
  arith,
  div-add-mod b (2 ^ suc j),
  div-add-mod (b / 2) (2 ^ j),
  half_pow j b,
  ap (λ (t : ℕ). 2 ^ suc j * t) (half_pow j b),
  ap (λ (t : ℕ). t * (b / 2 / 2 ^ j)) (pow-suc 2 j),
)

-- A mask of low bits is a remainder.
pub bit_and_mask : (k a : ℕ) → bit_and a (2 ^ k - 1) ≡ a % 2 ^ k
bit_and_mask zero a = omega (arith, bit_and-zero a)
bit_and_mask (suc k) a =
    let pos : 1 ≤ 2 ^ k = one-le-pow k 2 (omega arith) in
    let half : (2 ^ suc k - 1) / 2 ≡ 2 ^ k - 1 = omega (arith, pow-suc 2 k) in
    omega (
      arith,
      bit_and_step a (2 ^ suc k - 1),
      ap (bit_and (a / 2)) half,
      bit_and_mask k (a / 2),
      pow-suc 2 k,
      half_mod k a,
    )

-- Fields that do not overlap add up.
pub bit_or_fields : (k hi lo : ℕ) → lo < 2 ^ k → bit_or (hi * 2 ^ k) lo ≡ hi * 2 ^ k + lo
bit_or_fields zero hi lo h =
    let none_left : lo ≡ 0 = omega arith in
    rw none_left (omega (arith, bit_or-zero (hi * 1) (hi * 1) (omega arith)))
bit_or_fields (suc k) hi lo h =
    let two : hi * 2 ^ suc k ≡ 2 * (hi * 2 ^ k) =
      omega (arith, ap (λ (t : ℕ). hi * t) (pow-suc 2 k)) in
    let half : hi * 2 ^ suc k / 2 ≡ hi * 2 ^ k = omega (arith, two) in
    omega (
      arith,
      bit_or_step (hi * 2 ^ suc k) lo,
      ap (λ (t : ℕ). bit_or t (lo / 2)) half,
      bit_or_fields k hi (lo / 2) (omega (arith, pow-suc 2 k)),
      two,
    )

bit_or_comm_below : (n a b : ℕ) → a ≤ n → b ≤ n → bit_or a b ≡ bit_or b a
bit_or_comm_below zero a b p q =
    let a_zero : a ≡ 0 = omega arith in let b_zero : b ≡ 0 = omega arith in rw (a_zero, b_zero)
bit_or_comm_below (suc n) a b p q = omega (
  arith,
  bit_or_step a b,
  bit_or_step b a,
  bit_or_comm_below n (a / 2) (b / 2) (omega arith) (omega arith),
)

pub bit_or_comm : (a b : ℕ) → bit_or a b ≡ bit_or b a
bit_or_comm a b = bit_or_comm_below (a + b) a b (omega arith) (omega arith)
