-- ===== src/Cpu/Status.antt =====
-- The bits of SR: the supervisor bit, the interrupt mask and the condition codes.
use em68030_win_ui3cpp.Common.{
  ℕ, ◌*◌, ◌/◌, ◌%◌, ◌^◌, ◌≡◌, ◌<◌, refl, arith, true, bit_and, bit_or, ◌==◌, has,
}
use em68030_win_ui3cpp.Common.Bits.{
  bit_at, bit_at_div, bit_at-bit_or, bit_at-bit_and, bit_and_bit, bit_and_mask, bit_at-lt,
}
use em68030_win_ui3cpp.Cpu.State.{
  interrupt_mask, with_interrupt_mask, with_supervisor, supervisor_bit,
}

-- A test of one bit.
pub has-bit_at : (k x : ℕ) → 0 < 2 ^ k → has x (2 ^ k) ≡ (bit_at k x == 1)
has-bit_at k x h = ground (arith, bit_and_bit k x, bit_at-lt k x)

pub with_supervisor-IsSet : (sr : ℕ) → has (with_supervisor true sr) supervisor_bit ≡ true
unfolding with_supervisor
with_supervisor-IsSet sr = ground (
  arith,
  has-bit_at 13 (bit_or sr 0x2000),
  bit_at-bit_or 13 sr 0x2000,
  bit_at_div 13 0x2000,
  bit_at-lt 13 sr,
)

-- The mask is stored, and the other bits are kept.
pub with_interrupt_mask-supervisor :
    (v sr : ℕ) → has (with_interrupt_mask v sr) supervisor_bit ≡ has sr supervisor_bit
unfolding with_interrupt_mask
with_interrupt_mask-supervisor v sr = ground (
  arith,
  has-bit_at 13 sr,
  has-bit_at 13 (bit_or (bit_and sr 0xf8ff) (bit_and v 7 * 2 ^ 8)),
  bit_at-bit_or 13 (bit_and sr 0xf8ff) (bit_and v 7 * 2 ^ 8),
  bit_at-bit_and 13 sr 0xf8ff,
  bit_at_div 13 0xf8ff,
  bit_at_div 13 (bit_and v 7 * 2 ^ 8),
  bit_and_mask 3 v,
  bit_at-lt 13 sr,
)

abbrev stored : ℕ → ℕ → ℕ
stored v sr = bit_or (bit_and sr 0xf8ff) (bit_and v 7 * 2 ^ 8)

mask_bit :
    (k m v sr : ℕ)
    → bit_at k 0xf8ff ≡ 0
    → bit_at k (bit_and v 7 * 2 ^ 8) ≡ m
    → bit_at k (stored v sr) ≡ m
mask_bit k m v sr e f = omega (
  arith,
  bit_at-bit_or k (bit_and sr 0xf8ff) (bit_and v 7 * 2 ^ 8),
  bit_at-bit_and k sr 0xf8ff,
  bit_at-lt k sr,
)

pub interrupt_mask-with_interrupt_mask :
    (v sr : ℕ) → interrupt_mask (with_interrupt_mask v sr) ≡ v % 8
unfolding interrupt_mask with_interrupt_mask bit_at
interrupt_mask-with_interrupt_mask v sr =
    let seven : bit_and v 7 ≡ v % 8 = bit_and_mask 3 v in
    let moved = bit_and v 7 * 2 ^ 8 in
    let b8 = mask_bit 8 (v % 2) v sr refl (omega (arith, seven, bit_at_div 8 moved)) in
    let b9 = mask_bit 9 (v / 2 % 2) v sr refl (omega (arith, seven, bit_at_div 9 moved)) in
    let b10 = mask_bit 10 (v / 4 % 2) v sr refl (omega (arith, seven, bit_at_div 10 moved)) in
    omega (
      arith,
      b8,
      b9,
      b10,
      bit_and_mask 3 (stored v sr / 2 ^ 8),
      bit_at_div 8 (stored v sr),
      bit_at_div 9 (stored v sr),
      bit_at_div 10 (stored v sr),
    )
