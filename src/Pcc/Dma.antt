-- ===== src/Pcc/Dma.antt =====
-- The DMA address and count registers as 32-bit numbers.
use em68030_win_ui3cpp.Common.{
  ℕ, ◌+◌, ◌*◌, ◌/◌, ◌%◌, ◌^◌, ◌<◌, ◌≡◌, ◌∙◌, arith, bit_or, length, get_or-set, length-set,
}
use em68030_win_ui3cpp.Common.Bits.{bit_and_mask, bit_or_fields}
use em68030_win_ui3cpp.Pcc.State.{
  Pcc, dma_reg, bytes_to_long, get_dma_data_address, set_dma_data_address, get_dma_byte_count,
}

pub bytes_to_long_sum :
    (a b c d : ℕ)
    → b < 256
    → c < 256
    → d < 256
    → bytes_to_long a b c d ≡ a * 2 ^ 24 + b * 2 ^ 16 + c * 2 ^ 8 + d
bytes_to_long_sum a b c d hb hc hd =
    let first : bit_or (a * 2 ^ 24) (b * 2 ^ 16) ≡ (a * 2 ^ 8 + b) * 2 ^ 16 =
      omega (arith, bit_or_fields 24 a (b * 2 ^ 16) (omega arith)) in
    let second : bit_or ((a * 2 ^ 8 + b) * 2 ^ 16) (c * 2 ^ 8)
        ≡ (a * 2 ^ 16 + b * 2 ^ 8 + c) * 2 ^ 8 =
      omega (arith, bit_or_fields 16 (a * 2 ^ 8 + b) (c * 2 ^ 8) (omega arith)) in
    rw (first, second) (omega (arith, bit_or_fields 8 (a * 2 ^ 16 + b * 2 ^ 8 + c) d (omega arith)))

-- With sixteen DMA registers, a 32-bit data address that is set is read back, and the byte count
-- stays as it was.
pub get-set_dma_data_address :
    (p : Pcc) (addr : ℕ)
    → length p.dma_regs ≡ 16
    → addr < 2 ^ 32
    → (get_dma_data_address (set_dma_data_address addr p) ≡ addr)
      × (get_dma_byte_count (set_dma_data_address addr p) ≡ get_dma_byte_count p)
unfolding get_dma_data_address set_dma_data_address get_dma_byte_count
get-set_dma_data_address p addr h k = (
  simp (get_or-set, length-set, h)
      (bytes_to_long_sum (addr / 2 ^ 24 % 2 ^ 8) (addr / 2 ^ 16 % 2 ^ 8) (addr / 2 ^ 8 % 2 ^ 8)
          (addr % 2 ^ 8) (omega arith) (omega arith) (omega arith)
        ∙ omega arith),
  simp get_or-set,
)

-- The byte count keeps 31 bits of registers 8 to 11, not 24.
pub get_dma_byte_count_lem :
    (p : Pcc)
    → dma_reg p 9 < 256
    → dma_reg p 10 < 256
    → dma_reg p 11 < 256
    → get_dma_byte_count p
      ≡ dma_reg p 8 % 128 * 2 ^ 24 + dma_reg p 9 * 2 ^ 16 + dma_reg p 10 * 2 ^ 8 + dma_reg p 11
unfolding get_dma_byte_count
get_dma_byte_count_lem p h9 h10 h11 =
    rw (bit_and_mask 7 (dma_reg p 8)) (bytes_to_long_sum (dma_reg p 8 % 128) _ _ _ h9 h10 h11)
