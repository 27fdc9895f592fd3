-- ===== src/VirtualNetwork/Summing.antt =====
-- The checksum of data that holds its own checksum.
use em68030_win_ui3cpp.Common.{
  ℕ, zero, suc, ◌+◌, ◌-◌, ◌*◌, ◌/◌, ◌%◌, ◌^◌, ◌<◌, ◌≡◌, refl, ap, ◌∙◌, arith, List, [], ◌∷◌, bit_or,
  ◌==◌, if◌then◌else◌, get_or, length,
}
use native.Mathlib.Numerals.{add-one}
use em68030_win_ui3cpp.Common.Bits.{bit_or_fields}
use em68030_win_ui3cpp.Common.Size.{word}
use em68030_win_ui3cpp.Common.Bytes.{write_be}
use em68030_win_ui3cpp.VirtualNetwork.Checksum.{add_words, fold_carries, compute_checksum}

-- The words' sum, which nothing bounds.
abbrev pub sum_words : List ℕ → ℕ
sum_words [] = 0
sum_words (a ∷ []) = a * 2 ^ 8
sum_words (a ∷ b ∷ rest) = bit_or (a * 2 ^ 8) b + sum_words rest

abbrev pub twice : ℕ → ℕ
twice zero = 0
twice (suc j) = suc (suc (twice j))

add_words_lem :
    (acc : ℕ) (d : List ℕ) → acc < 2 ^ 32 → add_words acc d ≡ (acc + sum_words d) % 2 ^ 32
unfolding add_words
add_words_lem acc [] h = omega arith
add_words_lem acc (a ∷ []) h = refl
add_words_lem acc (a ∷ b ∷ rest) h =
    add_words_lem ((acc + bit_or (a * 2 ^ 8) b) % 2 ^ 32) rest (omega arith) ∙ omega arith

-- Three rounds leave no carry: the sum modulo 0xffff, where 0xffff stands for a positive multiple.
fold_carries_lem :
    (s : ℕ) → s < 2 ^ 32 → fold_carries 3 s ≡ (if s == 0 then 0 else (s - 1) % 0xffff + 1)
unfolding fold_carries
fold_carries_lem s h = ground arith

-- A word that is put where two zero bytes were adds itself to the sum.
sum_words-put :
    (j : ℕ) (d : List ℕ) (v : ℕ)
    → v < 2 ^ 16
    → twice j + 1 < length d
    → get_or d (twice j) 0 ≡ 0
    → get_or d (twice j + 1) 0 ≡ 0
    → sum_words (write_be word v d (twice j)) ≡ sum_words d + v
unfolding write_be
sum_words-put zero [] v hv l x y = absurd (omega arith)
sum_words-put zero (a ∷ []) v hv l x y = absurd (omega arith)
sum_words-put zero (a ∷ b ∷ rest) v hv l x y =
    let a_zero : a ≡ 0 = x in
    let b_zero : b ≡ 0 = y in
    rw (a_zero, b_zero)
      (omega (arith, bit_or_fields 8 (v / 2 ^ 8 % 2 ^ 8) (v % 2 ^ 8) (omega arith)))
sum_words-put (suc j) [] v hv l x y = absurd (omega arith)
sum_words-put (suc j) (a ∷ []) v hv l x y = absurd (omega arith)
sum_words-put (suc j) (a ∷ b ∷ rest) v hv l x y =
    let below : get_or rest (twice j + 1) 0 ≡ 0 =
      rw (add-one (twice j)) (rw (add-one (suc (suc (twice j)))) at y) in
    let put = sum_words-put j rest v hv (omega arith) x below in
    rw (add-one (suc (suc (twice j)))) (omega (arith, rw (add-one (twice j)) at put))

-- Data with two zero bytes at an even offset, whose words add up to less than 2 ^ 32 - 2 ^ 16, has the
-- checksum 0 once its checksum is put there.
pub compute_checksum-put :
    (j : ℕ) (d : List ℕ)
    → sum_words d + 2 ^ 16 < 2 ^ 32
    → twice j + 1 < length d
    → get_or d (twice j) 0 ≡ 0
    → get_or d (twice j + 1) 0 ≡ 0
    → compute_checksum (write_be word (compute_checksum d) d (twice j)) ≡ 0
unfolding compute_checksum
compute_checksum-put j d small l x y =
    let s = sum_words d in
    let c = 0xffff - fold_carries 3 (add_words 0 d) % 2 ^ 16 in
    let first : add_words 0 d ≡ s = omega (arith, add_words_lem 0 d (omega arith)) in
    let folded : fold_carries 3 (add_words 0 d) ≡ (if s == 0 then 0 else (s - 1) % 0xffff + 1) =
      ap (fold_carries 3) first ∙ fold_carries_lem s (omega arith) in
    let d2 = write_be word c d (twice j) in
    let second : add_words 0 d2 ≡ s + c =
      omega (arith, add_words_lem 0 d2 (omega arith), sum_words-put j d c (omega arith) l x y) in
    let folded2 : fold_carries 3 (add_words 0 d2)
        ≡ (if s + c == 0 then 0 else (s + c - 1) % 0xffff + 1) =
      ap (fold_carries 3) second ∙ fold_carries_lem (s + c) (omega arith) in
    ground (arith, folded, folded2)
