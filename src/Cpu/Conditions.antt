-- ===== src/Cpu/Conditions.antt =====
-- `EvaluateCondition` after a comparison.
use em68030_win_ui3cpp.Common.{
  ℕ, ◌+◌, ◌-◌, ◌<◌, ◌≡◌, ◌^◌, ◌∙◌, refl, ap, arith, false, not, ◌&&◌, ltb, leb, ◌==◌, bit_and,
  bit_or, if◌then◌else◌, has,
}
use em68030_win_ui3cpp.Common.Int.{ltb_ℤ}
use em68030_win_ui3cpp.Common.Bits.{bit_at, bit_at-bit_or, bit_at-bit_and, bit_at-lt}
use em68030_win_ui3cpp.Alu.Size.{Size, byte, word, long, modulus}
use em68030_win_ui3cpp.Alu.AddSub.{sub}
use em68030_win_ui3cpp.Alu.Flags.{Flags, flags_of}
use em68030_win_ui3cpp.Alu.Carry.{signed, sub-flags, sum_mod}
use em68030_win_ui3cpp.Alu.Compare.{compare_flags}
use em68030_win_ui3cpp.Cpu.State.{Mc68030, set_ccr_byte}
use em68030_win_ui3cpp.Cpu.Exceptions.{evaluate_condition}
use em68030_win_ui3cpp.Cpu.Status.{has-bit_at}

-- A condition code in the low byte.
has-low :
    (k sr v : ℕ)
    → 0 < 2 ^ k
    → bit_at k 0xff00 ≡ 0
    → has (bit_or (bit_and sr 0xff00) v) (2 ^ k) ≡ has v (2 ^ k)
has-low k sr v h e = ground (
  arith,
  has-bit_at k (bit_or (bit_and sr 0xff00) v),
  has-bit_at k v,
  bit_at-bit_or k (bit_and sr 0xff00) v,
  bit_at-bit_and k sr 0xff00,
  bit_at-lt k sr,
  bit_at-lt k v,
)

-- The order of signed numbers, turned round.
signed_order :
    (s : Size) (a b : ℕ)
    → a < modulus s
    → b < modulus s
    → ltb_ℤ (signed s b) (signed s a) ≡ (not (a == b) && not (ltb_ℤ (signed s a) (signed s b)))
signed_order byte a b ha hb = ground arith
signed_order word a b ha hb = ground arith
signed_order long a b ha hb = ground arith

compare_zero :
    (s : Size) (a b ccr : ℕ)
    → a < modulus s
    → b < modulus s
    → (flags_of (sub s a b ccr false).ccr).z ≡ (a == b)
compare_zero s a b ccr ha hb =
    let wraps = sum_mod s (a + modulus s - (b + 0)) (omega arith) in
    ap (λ (g : Flags). g.z) (sub-flags s a b ccr false ha hb) ∙ ground (arith, wraps)

-- The flags of SR after a comparison whose condition codes `SetCCR` stored.
abbrev pub compared : {Mem : Type 0} → Size → ℕ → ℕ → ℕ → Mc68030 Mem → ℕ
compared s a b ccr cpu = (set_ccr_byte (sub s a b ccr false).ccr cpu).sr

compared-flags :
    {Mem : Type 0} (s : Size) (a b ccr : ℕ) (cpu : Mc68030 Mem)
    → a < modulus s
    → b < modulus s
    → let f = flags_of (compared s a b ccr cpu) in
      ((if f.n then not f.v else f.v) ≡ ltb_ℤ (signed s a) (signed s b))
      × (f.c ≡ ltb a b)
      × (f.z ≡ (a == b))
unfolding set_ccr_byte flags_of bit_at
compared-flags s a b ccr cpu ha hb =
    let v = (sub s a b ccr false).ccr in
    let c = has-low 0 cpu.sr v (omega arith) refl in
    let o = has-low 1 cpu.sr v (omega arith) refl in
    let z = has-low 2 cpu.sr v (omega arith) refl in
    let n = has-low 3 cpu.sr v (omega arith) refl in
    let f = compare_flags s a b ccr ha hb in
    let g = compare_zero s a b ccr ha hb in
    (ground (arith, n, o, f), ground (arith, c, f), ground (arith, z, g))

-- After a comparison of two operands at a size, whose condition codes `SetCCR` stores: HI, LS, CC and
-- CS order them as unsigned numbers, NE and EQ tell whether they differ, and GE, LT, GT and LE
-- order them as signed numbers.
pub evaluate_condition-Compares :
    {Mem : Type 0} (s : Size) (a b ccr : ℕ) (cpu : Mc68030 Mem)
    → a < modulus s
    → b < modulus s
    → let sr = compared s a b ccr cpu in
      let signed_lt = ltb_ℤ (signed s a) (signed s b) in
      let signed_gt = ltb_ℤ (signed s b) (signed s a) in
      (evaluate_condition 0x2 sr ≡ ltb b a)
      × (evaluate_condition 0x3 sr ≡ leb a b)
      × (evaluate_condition 0x4 sr ≡ leb b a)
      × (evaluate_condition 0x5 sr ≡ ltb a b)
      × (evaluate_condition 0x6 sr ≡ not (a == b))
      × (evaluate_condition 0x7 sr ≡ (a == b))
      × (evaluate_condition 0xc sr ≡ not signed_lt)
      × (evaluate_condition 0xd sr ≡ signed_lt)
      × (evaluate_condition 0xe sr ≡ signed_gt)
      × (evaluate_condition 0xf sr ≡ not signed_gt)
unfolding evaluate_condition flags_of
evaluate_condition-Compares s a b ccr cpu ha hb =
    let (nv, c, z) = compared-flags s a b ccr cpu ha hb in
    let o = signed_order s a b ha hb in
    (
      ground (arith, c, z),
      ground (arith, c, z),
      ground (arith, c),
      c,
      ground (arith, z),
      z,
      ground (arith, nv),
      ground (arith, nv),
      ground (arith, nv, z, o),
      ground (arith, nv, z, o),
    )
