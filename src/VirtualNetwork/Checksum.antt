-- ===== src/VirtualNetwork/Checksum.antt =====
-- `ComputeChecksum`, the Internet checksum, and bytes that are copied.
use em68030_win_ui3cpp.Common.{
  ℕ, zero, suc, ◌+◌, ◌-◌, ◌*◌, ◌/◌, ◌%◌, ◌^◌, List, [], ◌∷◌, bit_or, ◌==◌, if◌then◌else◌, get_or,
  set,
}

-- The words of the data are added, a last byte as the high one of a word.
unfoldable pub add_words : ℕ → List ℕ → ℕ
add_words sum [] = sum
add_words sum (a ∷ []) = (sum + a * 2 ^ 8) % 2 ^ 32
add_words sum (a ∷ b ∷ rest) = add_words ((sum + bit_or (a * 2 ^ 8) b) % 2 ^ 32) rest

-- The carries are added in until none is left, in so many rounds.
unfoldable pub fold_carries : ℕ → ℕ → ℕ
fold_carries zero sum = sum
fold_carries (suc rounds) sum =
    let rest = fold_carries rounds (sum % 2 ^ 16 + sum / 2 ^ 16) in
    if sum / 2 ^ 16 == 0 then sum else rest

unfoldable pub compute_checksum : List ℕ → ℕ
compute_checksum buffer = 0xffff - fold_carries 3 (add_words 0 buffer) % 2 ^ 16

-- `n` bytes from an offset on.
abbrev pub bytes_at : ℕ → List ℕ → ℕ → List ℕ
bytes_at zero buffer offset = []
bytes_at (suc n) buffer offset = get_or buffer offset 0 ∷ bytes_at n buffer (offset + 1)

-- `memcpy` to an offset of a buffer.
abbrev pub copy_to : ℕ → List ℕ → List ℕ → List ℕ
copy_to offset [] buffer = buffer
copy_to offset (v ∷ vs) buffer = copy_to (offset + 1) vs (set buffer offset v)
