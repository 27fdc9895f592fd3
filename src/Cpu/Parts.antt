-- ===== src/Cpu/Parts.antt =====
-- The data registers as operands, in Em68030/Core/AddressingModes.cpp.
use em68030_win_ui3cpp.Common.{
  ℕ, ◌+◌, ◌*◌, ◌/◌, ◌%◌, ◌^◌, ◌<◌, ◌≡◌, refl, ◌-◌, ap, ◌∙◌, arith, length, get_or-set, ◌==◌,
  if◌then◌else◌, bit_and, bit_or,
}
use native.Mathlib.Nat.{one-le-pow, mod-lt, mod-eq_of_lt, div-lt_iff_lt-mul}
use em68030_win_ui3cpp.Common.Size.{Size, byte, word, long, modulus}
use em68030_win_ui3cpp.Common.Bits.{bit_or_fields, bit_and_mask}
use em68030_win_ui3cpp.Common.Bits.Masks.{bit_and_high}
use em68030_win_ui3cpp.Cpu.State.{Mc68030}
use em68030_win_ui3cpp.Cpu.Access.{Board}
use em68030_win_ui3cpp.Cpu.Addressing.{data_reg_direct, data_register}
use em68030_win_ui3cpp.Cpu.Operands.{
  merge, low_part, write_data_register, read_value, read_value_for_modify, write_value,
  write_value_from_modify,
}

-- A value in the low part of another.
abbrev pub replaced : Size → ℕ → ℕ → ℕ
replaced z old v = old / modulus z * modulus z + v % modulus z

-- The high part kept by a mask, with a low part put in.
masked_in :
    (k high old v : ℕ)
    → old < 2 ^ high * 2 ^ k
    → bit_or (bit_and old ((2 ^ high - 1) * 2 ^ k)) (bit_and v (2 ^ k - 1))
      ≡ old / 2 ^ k * 2 ^ k + v % 2 ^ k
masked_in k high old v h =
    let lo : bit_and v (2 ^ k - 1) ≡ v % 2 ^ k = bit_and_mask k v in
    let kept : bit_and old ((2 ^ high - 1) * 2 ^ k) ≡ old / 2 ^ k * 2 ^ k =
      bit_and_high k (2 ^ high - 1) old
      ∙ ap (λ (x : ℕ). x * 2 ^ k)
          (bit_and_mask high (old / 2 ^ k)
            ∙ mod-eq_of_lt ((div-lt_iff_lt-mul (one-le-pow k 2 (omega arith))).1 h)) in
    rw (kept, lo)
      (bit_or_fields k (old / 2 ^ k) (v % 2 ^ k) (mod-lt v (one-le-pow k 2 (omega arith))))

merge-replaced :
    (z : Size) (old v : ℕ) → old < 2 ^ 32 → v < 2 ^ 32 → merge z old v ≡ replaced z old v
unfolding merge
merge-replaced byte old v ho hv = masked_in 8 24 old v ho
merge-replaced word old v ho hv = masked_in 16 16 old v ho
merge-replaced long old v ho hv =
    let none_above : old / modulus long ≡ 0 = omega arith in rw none_above (omega arith)

low_part_lem : (z : Size) (v : ℕ) → v < 2 ^ 32 → low_part z v ≡ v % modulus z
unfolding low_part
low_part_lem byte v h = bit_and_mask 8 v
low_part_lem word v h = bit_and_mask 16 v
low_part_lem long v h = omega arith

replaced-low :
    (z : Size) (old v : ℕ)
    → old < 2 ^ 32
    → v < 2 ^ 32
    → replaced z old v % modulus z ≡ v % modulus z
replaced-low byte old v ho hv = omega arith
replaced-low word old v ho hv = omega arith
replaced-low long old v ho hv = omega arith

replaced-fits : (z : Size) (old v : ℕ) → old < 2 ^ 32 → v < 2 ^ 32 → replaced z old v < 2 ^ 32
replaced-fits byte old v ho hv = omega arith
replaced-fits word old v ho hv = omega arith
replaced-fits long old v ho hv = omega arith

module _ {Mem : Type 0} (board : Board Mem) where
  data_register-set :
      (z : Size) (reg j v : ℕ) (s : Mc68030 Mem)
      → reg < 8
      → length s.d ≡ 8
      → data_register reg s < 2 ^ 32
      → v < 2 ^ 32
      → data_register j (write_data_register z reg v s)
        ≡ (if reg == j then replaced z (data_register reg s) v else data_register j s)
  unfolding write_data_register
  data_register-set z reg j v s h all ho hv = ground (
    arith,
    get_or-set s.d reg j (merge z (data_register reg s) v) 0,
    merge-replaced z (data_register reg s) v ho hv,
  )

  -- A value that is written to a data register replaces the byte, word or long word at its low end: the
  -- bits above stay as they were, as do the other data registers, and reading the register at
  -- that size gives the value's low part. The same holds where the value is written after a read for
  -- modification. For a register number below 8 and values of 32 bits.
  pub write_value-replaced :
      (z : Size) (reg j v : ℕ) (s : Mc68030 Mem)
      → reg < 8
      → length s.d ≡ 8
      → data_register reg s < 2 ^ 32
      → v < 2 ^ 32
      → let t = write_value board data_reg_direct reg z v s in
        (data_register j t
          ≡ (if reg == j then replaced z (data_register reg s) v else data_register j s))
        × ((read_value board data_reg_direct reg z t).value ≡ v % modulus z)
        × (write_value_from_modify board data_reg_direct reg z v s ≡ t)
        × ((read_value_for_modify board data_reg_direct reg z t).value ≡ v % modulus z)
  unfolding write_value read_value write_value_from_modify read_value_for_modify
  write_value-replaced z reg j v s h all ho hv =
      let new = replaced z (data_register reg s) v in
      let t = write_data_register z reg v s in
      let here : data_register reg t ≡ new =
        ground (arith, data_register-set z reg reg v s h all ho hv) in
      let low : low_part z (data_register reg t) ≡ v % modulus z =
        ap (low_part z) here
        ∙ low_part_lem z new (replaced-fits z (data_register reg s) v ho hv)
        ∙ replaced-low z (data_register reg s) v ho hv in
      (data_register-set z reg j v s h all ho hv, low, refl, low)
