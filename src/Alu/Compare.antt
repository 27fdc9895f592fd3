-- ===== src/Alu/Compare.antt =====
-- What a comparison tells the conditional branches.
use em68030_win_ui3cpp.Common.{
  ℕ, ◌+◌, ◌-◌, ◌<◌, ◌≡◌, ◌∙◌, ap, arith, Bool, false, not, ◌&&◌, ltb, leb, if◌then◌else◌,
}
use em68030_win_ui3cpp.Common.Int.{ltb_ℤ}
use em68030_win_ui3cpp.Alu.Size.{Size, byte, word, long, modulus}
use em68030_win_ui3cpp.Alu.AddSub.{sub}
use em68030_win_ui3cpp.Alu.Flags.{Flags, flags_of, is_negative, signs_differ}
use em68030_win_ui3cpp.Alu.Carry.{signed, sub_result, sub-flags, sum_mod}

abbrev n_xor_v : Bool → Bool → Bool
n_xor_v n v = if n then not v else v

signed_less :
    (s : Size) (a b r : ℕ)
    → a < modulus s
    → b < modulus s
    → r ≡ (if leb b a then a - b else a + modulus s - b)
    → n_xor_v (is_negative s r) (signs_differ s a b && signs_differ s a r)
      ≡ ltb_ℤ (signed s a) (signed s b)
signed_less byte a b r ha hb e = ground arith
signed_less word a b r ha hb e = ground arith
signed_less long a b r ha hb e = ground arith

-- After a comparison N and V differ exactly when the first operand, read as a signed number, is the
-- smaller one, and C is set exactly when it is the smaller one unsigned.
pub compare_flags :
    (s : Size) (a b ccr : ℕ)
    → a < modulus s
    → b < modulus s
    → let f = flags_of (sub s a b ccr false).ccr in
      ((if f.n then not f.v else f.v) ≡ ltb_ℤ (signed s a) (signed s b)) × (f.c ≡ ltb a b)
compare_flags s a b ccr ha hb =
    let f = sub-flags s a b ccr false ha hb in
    let wraps = sum_mod s (a + modulus s - (b + 0)) (omega arith) in
    let value : sub_result s a b 0 ≡ (if leb b a then a - b else a + modulus s - b) =
      ground (arith, wraps) in
    (
      ap (λ (g : Flags). n_xor_v g.n g.v) f ∙ signed_less s a b (sub_result s a b 0) ha hb value,
      ap (λ (g : Flags). g.c) f ∙ ground arith,
    )
