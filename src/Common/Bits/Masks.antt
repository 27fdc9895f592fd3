-- ===== src/Common/Bits/Masks.antt =====
-- `&` against `|` and `&`: what a mask sees of a number whose other bits are set or cleared.
use Prim.Native.Nat.{ℕ, zero, suc, ◌+◌, ◌*◌, ◌/◌, ◌^◌, ◌≤◌, bit_and, bit_or}
use mathlib.Core.Path.{◌≡◌, refl, ap, ◌∙◌}
use native.Mathlib.Omega.{arith}
use native.Mathlib.Nat.{pow-suc, div-div-eq-div-mul}
use em68030_win_ui3cpp.Common.Bits.Step.{bit_and_step, bit_or_step}

bit_and-bit_or_below :
    (n a b m : ℕ)
    → a ≤ n
    → b ≤ n
    → m ≤ n
    → bit_and (bit_or a b) m ≡ bit_or (bit_and a m) (bit_and b m)
bit_and-bit_or_below zero a b m p q r =
    let a_zero : a ≡ 0 = omega arith in
    let b_zero : b ≡ 0 = omega arith in
    let m_zero : m ≡ 0 = omega arith in rw (a_zero, b_zero, m_zero) refl
bit_and-bit_or_below (suc n) a b m p q r =
    let half_or : bit_or a b / 2 ≡ bit_or (a / 2) (b / 2) = omega (arith, bit_or_step a b) in
    let half_a : bit_and a m / 2 ≡ bit_and (a / 2) (m / 2) = omega (arith, bit_and_step a m) in
    let half_b : bit_and b m / 2 ≡ bit_and (b / 2) (m / 2) = omega (arith, bit_and_step b m) in
    let rest =
      bit_and-bit_or_below n (a / 2) (b / 2) (m / 2) (omega arith) (omega arith) (omega arith) in
    omega (
      arith,
      bit_and_step (bit_or a b) m,
      ap (λ (t : ℕ). bit_and t (m / 2)) half_or,
      bit_or_step (bit_and a m) (bit_and b m),
      ap (λ (t : ℕ). bit_or t (bit_and b m / 2)) half_a,
      ap (λ (t : ℕ). bit_or (bit_and (a / 2) (m / 2)) t) half_b,
      bit_or_step a b,
      bit_and_step a m,
      bit_and_step b m,
      rest,
    )

pub bit_and-bit_or : (a b m : ℕ) → bit_and (bit_or a b) m ≡ bit_or (bit_and a m) (bit_and b m)
bit_and-bit_or a b m =
    bit_and-bit_or_below (a + b + m) a b m (omega arith) (omega arith) (omega arith)

bit_and_assoc_below :
    (n a b m : ℕ) → a ≤ n → b ≤ n → m ≤ n → bit_and (bit_and a b) m ≡ bit_and a (bit_and b m)
bit_and_assoc_below zero a b m p q r =
    let a_zero : a ≡ 0 = omega arith in
    let b_zero : b ≡ 0 = omega arith in
    let m_zero : m ≡ 0 = omega arith in rw (a_zero, b_zero, m_zero) refl
bit_and_assoc_below (suc n) a b m p q r =
    let half_l : bit_and a b / 2 ≡ bit_and (a / 2) (b / 2) = omega (arith, bit_and_step a b) in
    let half_r : bit_and b m / 2 ≡ bit_and (b / 2) (m / 2) = omega (arith, bit_and_step b m) in
    omega (
      arith,
      bit_and_step (bit_and a b) m,
      ap (λ (t : ℕ). bit_and t (m / 2)) half_l,
      bit_and_step a (bit_and b m),
      ap (λ (t : ℕ). bit_and (a / 2) t) half_r,
      bit_and_step a b,
      bit_and_step b m,
      bit_and_assoc_below n (a / 2) (b / 2) (m / 2) (omega arith) (omega arith) (omega arith),
    )

pub bit_and_assoc : (a b m : ℕ) → bit_and (bit_and a b) m ≡ bit_and a (bit_and b m)
bit_and_assoc a b m =
    bit_and_assoc_below (a + b + m) a b m (omega arith) (omega arith) (omega arith)

-- A mask of high bits.
pub bit_and_high : (k m a : ℕ) → bit_and a (m * 2 ^ k) ≡ bit_and (a / 2 ^ k) m * 2 ^ k
bit_and_high zero m a =
    let whole : m * 2 ^ 0 ≡ m = omega arith in
    let same : a / 2 ^ 0 ≡ a = omega arith in rw (whole, same) (omega arith)
bit_and_high (suc k) m a =
    let two : m * 2 ^ suc k ≡ 2 * (m * 2 ^ k) =
      omega (arith, ap (λ (t : ℕ). m * t) (pow-suc 2 k)) in
    let half : m * 2 ^ suc k / 2 ≡ m * 2 ^ k = omega (arith, two) in
    let deep : a / 2 / 2 ^ k ≡ a / 2 ^ suc k =
      div-div-eq-div-mul a 2 (2 ^ k) ∙ ap (λ (t : ℕ). a / t) (omega (arith, pow-suc 2 k)) in
    let twice : bit_and (a / 2 ^ suc k) m * 2 ^ suc k ≡ 2 * (bit_and (a / 2 ^ suc k) m * 2 ^ k) =
      omega (arith, ap (λ (t : ℕ). bit_and (a / 2 ^ suc k) m * t) (pow-suc 2 k)) in
    omega (
      arith,
      bit_and_step a (m * 2 ^ suc k),
      ap (bit_and (a / 2)) half,
      bit_and_high k m (a / 2),
      ap (λ (t : ℕ). bit_and t m * 2 ^ k) deep,
      two,
      twice,
    )
