-- ===== src/VirtualNetwork/Tests.antt =====
-- The virtual network at concrete inputs.
use em68030_win_ui3cpp.Common.{ℕ, ◌≡◌, refl, arith, List, [], ◌∷◌}
use em68030_win_ui3cpp.Common.Size.{word}
use em68030_win_ui3cpp.Common.Bytes.{write_be}
use em68030_win_ui3cpp.VirtualNetwork.Checksum.{add_words, fold_carries, compute_checksum}
use em68030_win_ui3cpp.VirtualNetwork.Summing.{compute_checksum-put}

-- An IPv4 header with an empty checksum.
abbrev header : List ℕ
header =
    0x45 ∷ 0 ∷ 0 ∷ 40 ∷ 0 ∷ 0 ∷ 0x40 ∷ 0 ∷ 64 ∷ 6 ∷ 0 ∷ 0 ∷ 10 ∷ 0 ∷ 2 ∷ 2 ∷ 10 ∷ 0 ∷ 2 ∷ 15 ∷ []

header_sum : compute_checksum header ≡ 0x22c0
unfolding compute_checksum add_words fold_carries
header_sum = refl

compute_checksum-put_example :
    compute_checksum (write_be word (compute_checksum header) header 10) ≡ 0
compute_checksum-put_example = compute_checksum-put 5 header (omega arith) (omega arith) refl refl
