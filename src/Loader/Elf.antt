-- ===== src/Loader/Elf.antt =====
-- `LoadElf` of a file whose bytes have been read. What it throws is a value, beside the memory.
-- A read beyond the end of the file, which a program header of less than 24 bytes or a wrapped offset
-- allows, is undefined in C++; here it gives 0.
use em68030_win_ui3cpp.Common.{
  ℕ, zero, suc, ◌+◌, ◌-◌, ◌*◌, ◌%◌, ◌^◌, ◌⊎◌, inl, inr, Bool, not, ◌&&◌, ◌||◌, List, bit_or, ltb,
  leb, ◌==◌, if◌then◌else◌, length, get_or,
}
use em68030_win_ui3cpp.Common.Size.{byte}
use em68030_win_ui3cpp.Memory.Interface.{Dma}

-- The exceptions.
pub data ElfError : Type 0 where
  not_elf not_32_bit unknown_encoding : ElfError
  not_executable : ℕ → ElfError
  no_segments : ElfError

pub record ElfLoadResult : Type 0 where
  pub entry_point : ℕ
  pub start_address : ℕ
  pub end_address : ℕ
  pub machine : ℕ
  pub segments_loaded : ℕ

abbrev pub at32 : List ℕ → ℕ → ℕ
at32 file offset = get_or file (offset % 2 ^ 32) 0

unfoldable pub read_u16 : List ℕ → ℕ → Bool → ℕ
read_u16 file offset big_endian =
    if big_endian
    then bit_or (at32 file offset * 2 ^ 8) (at32 file (offset + 1))
    else bit_or (at32 file (offset + 1) * 2 ^ 8) (at32 file offset)

unfoldable pub read_u32 : List ℕ → ℕ → Bool → ℕ
read_u32 file offset big_endian =
    let b0 = at32 file offset in
    let b1 = at32 file (offset + 1) in
    let b2 = at32 file (offset + 2) in
    let b3 = at32 file (offset + 3) in
    if big_endian
    then bit_or (bit_or (bit_or (b0 * 2 ^ 24) (b1 * 2 ^ 16)) (b2 * 2 ^ 8)) b3
    else bit_or (bit_or (bit_or (b3 * 2 ^ 24) (b2 * 2 ^ 16)) (b1 * 2 ^ 8)) b0

-- The tests of the header.
abbrev pub lacks_magic : List ℕ → Bool
lacks_magic file =
    ltb (length file) 52
    || not (get_or file 0 0 == 0x7f)
    || not (get_or file 1 0 == 0x45)
    || not (get_or file 2 0 == 0x4c)
    || not (get_or file 3 0 == 0x46)

abbrev pub lacks_encoding : List ℕ → Bool
lacks_encoding file = not (get_or file 5 0 == 2) && not (get_or file 5 0 == 1)

abbrev pub is_no_program : ℕ → Bool
is_no_program e_type = not (e_type == 2) && not (e_type == 3)

-- The variables of the loop over the program headers.
pub record Loaded (Mem : Type 0) : Type 0 where
  pub mem : Mem
  pub min_addr : ℕ
  pub max_addr : ℕ
  pub segments : ℕ

module _ {Mem : Type 0} (dma : Dma Mem) where
  -- `n` bytes of the file.
  unfoldable pub poke_file : ℕ → List ℕ → ℕ → ℕ → Mem → Mem
  poke_file zero file offset address m = m
  poke_file (suc n) file offset address m =
      poke_file n file ((offset + 1) % 2 ^ 32) ((address + 1) % 2 ^ 32)
        (dma.poke byte address (at32 file offset) m)

  unfoldable pub poke_zeros : ℕ → ℕ → Mem → Mem
  poke_zeros zero address m = m
  poke_zeros (suc n) address m = poke_zeros n ((address + 1) % 2 ^ 32) (dma.poke byte address 0 m)

  -- One PT_LOAD segment.
  unfoldable pub load_segment : List ℕ → Bool → ℕ → Loaded Mem → Loaded Mem
  load_segment file big ph s =
      let p_offset = read_u32 file (ph + 4) big in
      let p_vaddr = read_u32 file (ph + 8) big in
      let p_filesz = read_u32 file (ph + 16) big in
      let p_memsz = read_u32 file (ph + 20) big in
      let filled =
        (if ltb 0 p_filesz && leb ((p_offset + p_filesz) % 2 ^ 32) (length file)
          then poke_file p_filesz file p_offset p_vaddr s.mem
          else s.mem) in
      let end = (p_vaddr + p_memsz) % 2 ^ 32 in
      record {
        mem = poke_zeros (p_memsz - p_filesz) ((p_vaddr + p_filesz) % 2 ^ 32) filled;
        min_addr = (if ltb p_vaddr s.min_addr then p_vaddr else s.min_addr);
        max_addr = (if ltb s.max_addr end then end else s.max_addr);
        segments = s.segments + 1;
      }

  -- The headers from number `i` on, `n` of them, up to the first that the file does not hold.
  unfoldable pub load_segments : ℕ → ℕ → List ℕ → Bool → ℕ → ℕ → Loaded Mem → Loaded Mem
  load_segments zero i file big e_phoff e_phentsize s = s
  load_segments (suc n) i file big e_phoff e_phentsize s =
      let ph = (e_phoff + i * e_phentsize) % 2 ^ 32 in
      let next = (if read_u32 file ph big == 1 then load_segment file big ph s else s) in
      let rest = load_segments n (suc i) file big e_phoff e_phentsize next in
      if ltb (length file) ((ph + e_phentsize) % 2 ^ 32) then s else rest

  unfoldable pub finish : ℕ → ℕ → Loaded Mem → (ElfError ⊎ ElfLoadResult) × Mem
  finish e_entry e_machine s = if s.segments == 0 then (inl ElfError.no_segments, s.mem) else (
    inr (record {
      entry_point = e_entry;
      start_address = (if s.min_addr == 0xffffffff then 0 else s.min_addr);
      end_address = s.max_addr;
      machine = e_machine;
      segments_loaded = s.segments;
    }),
    s.mem,
  )

  unfoldable pub load_elf : List ℕ → Mem → (ElfError ⊎ ElfLoadResult) × Mem
  load_elf file m =
      let big = get_or file 5 0 == 2 in
      let e_type = read_u16 file 16 big in
      let start : Loaded Mem = record {
        mem = m;
        min_addr = 0xffffffff;
        max_addr = 0;
        segments = 0;
      } in
      let loaded =
        load_segments (read_u16 file 44 big) 0 file big (read_u32 file 28 big)
          (read_u16 file 42 big) start in
      if lacks_magic file
      then (inl ElfError.not_elf, m)
      else if not (get_or file 4 0 == 1)
      then (inl ElfError.not_32_bit, m)
      else if lacks_encoding file
      then (inl ElfError.unknown_encoding, m)
      else if is_no_program e_type
      then (inl (ElfError.not_executable e_type), m)
      else finish (read_u32 file 24 big) (read_u16 file 18 big) loaded
