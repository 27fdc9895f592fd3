-- ===== src/Cpu/Access.antt =====
-- The translated accesses of `MC68030`: `TranslateRead` to `WriteLong`, the fetches, `PushWord` to
-- `PopLong`, and `ReadUserLong`, `ReadUserWord`, `WriteUserLong`.
use em68030_win_ui3cpp.Common.{
  ℕ, ◌+◌, ◌*◌, ◌/◌, ◌%◌, ◌^◌, Bool, true, false, ◌&&◌, none, some, bit_and, bit_or, ltb, ◌==◌,
  if◌then◌else◌,
}
use em68030_win_ui3cpp.Common.Size.{Size, byte, word, long}
use em68030_win_ui3cpp.Mmu.State.{clear_bits}
use em68030_win_ui3cpp.Mmu.Walk.{Bus, Reading, Memory, Machine, Access}
use em68030_win_ui3cpp.Mmu.Translate.{translate, translate_read_fast}
use em68030_win_ui3cpp.Cpu.State.{PageCache, Mc68030, add32, invalid, is_pending, get_function_code}

-- The memory of the board, and what a translation does where C++ leaves it undefined.
pub record Board (Mem : Type 0) : Type 0 where
  pub read : Size → ℕ → Bus Mem → Reading (Bus Mem)
  pub write : Size → ℕ → ℕ → Bus Mem → Bus Mem
  pub undefined : Access → Machine Mem → Reading (Machine Mem)

-- What the MMU uses of the memory.
abbrev pub mmu_memory : {Mem : Type 0} → Board Mem → Memory Mem
mmu_memory board = record { read_long = board.read long; write_long = board.write long }

-- The bytes of an access that follow its first.
abbrev pub tail : Size → ℕ
tail byte = 0
tail word = 1
tail long = 3

-- The test of a page cache: `byte` needs no room behind the address.
abbrev pub room : Size → ℕ → ℕ → Bool
room byte offset mask = true
room word offset mask = ltb (offset + 1) mask
room long offset mask = ltb (offset + 3) mask

unfoldable pub hits : Size → ℕ → PageCache → Bool
hits z addr p = p.valid && (clear_bits addr p.mask == p.va) && room z (bit_and addr p.mask) p.mask

abbrev pub in_page : ℕ → PageCache → ℕ
in_page addr p = add32 p.pa (bit_and addr p.mask)

-- The page that holds the address, with the mask of the MMU.
unfoldable pub page_of : ℕ → ℕ → ℕ → PageCache
page_of addr pa mask = record {
  va = clear_bits addr mask;
  pa = clear_bits pa mask;
  mask = mask;
  valid = true;
}

abbrev pub reading : {S : Type 0} → ℕ → S → Reading S
reading v s = record { value = v; after = s }

module _ {Mem : Type 0} where
  -- The page is kept where the MMU is on.
  unfoldable pub keep_page : ℕ → ℕ → Mc68030 Mem → Mc68030 Mem
  keep_page addr pa s =
      if s.machine.mmu.enabled
      then record s { pages = record (s.pages) { read = page_of addr pa s.machine.mmu.page_mask } }
      else s

  abbrev pub ends_page : ℕ → Mc68030 Mem → Bool
  ends_page addr s =
      s.machine.mmu.enabled && (bit_and addr s.machine.mmu.page_mask == s.machine.mmu.page_mask)

  abbrev pub crosses_page : ℕ → Mc68030 Mem → Bool
  crosses_page addr s =
      s.machine.mmu.enabled
      && ltb s.machine.mmu.page_mask (add32 (bit_and addr s.machine.mmu.page_mask) 3)

  abbrev pub forget_page : Mc68030 Mem → Mc68030 Mem
  forget_page s = record s { pages = record (s.pages) { read = invalid s.pages.read } }

module _ {Mem : Type 0} (board : Board Mem) where
  -- `m_mmu.Translate`.
  unfoldable pub translate_in : Access → Mc68030 Mem → Reading (Mc68030 Mem)
  translate_in access s =
      let r : Reading (Machine Mem) = elim (translate (mmu_memory board) access s.machine) [
        | some r ↦ r
        | none ↦ board.undefined access s.machine
      ] in
      record { value = r.value; after = record s { machine = r.after } }

  unfoldable pub translate_read : ℕ → Bool → Mc68030 Mem → Reading (Mc68030 Mem)
  translate_read addr is_program s =
      let fc = get_function_code is_program s in
      let pa = translate_read_fast addr fc s.machine.mmu in
      if pa == 0xffffffff
      then translate_in (record { logical = addr; write = false; fc = fc }) s
      else reading pa s

  unfoldable pub translate_write : ℕ → Mc68030 Mem → Reading (Mc68030 Mem)
  translate_write addr s =
      translate_in (record { logical = addr; write = true; fc = get_function_code false s }) s

  unfoldable pub memory_read : Size → ℕ → Mc68030 Mem → Reading (Mc68030 Mem)
  memory_read z pa s =
      let r = board.read z pa s.machine.bus in
      record {
        value = r.value;
        after = record s { machine = record (s.machine) { bus = r.after } };
      }

  unfoldable pub memory_write : Size → ℕ → ℕ → Mc68030 Mem → Mc68030 Mem
  memory_write z pa v s = record s {
    machine = record (s.machine) { bus = board.write z pa v s.machine.bus };
  }

  -- The end of `ReadByte`, `ReadWord` and `ReadLong`, after their tests.
  unfoldable pub read_translated : Size → ℕ → Mc68030 Mem → Reading (Mc68030 Mem)
  read_translated z addr s =
      let t = translate_read addr false s in
      if is_pending t.after
      then reading 0 t.after
      else memory_read z t.value (keep_page addr t.value t.after)

  unfoldable pub read_byte : ℕ → Mc68030 Mem → Reading (Mc68030 Mem)
  read_byte addr s =
      if is_pending s
      then reading 0 s
      else if hits byte addr s.pages.read
      then memory_read byte (in_page addr s.pages.read) s
      else read_translated byte addr s

  -- The two bytes of a word that crosses a page.
  unfoldable pub read_split : ℕ → Mc68030 Mem → Reading (Mc68030 Mem)
  read_split addr s =
      let pa_hi = translate_read addr false s in
      let hi = memory_read byte pa_hi.value pa_hi.after in
      let pa_lo = translate_read (add32 addr 1) false hi.after in
      let lo = memory_read byte pa_lo.value pa_lo.after in
      if is_pending pa_hi.after
      then reading 0 pa_hi.after
      else if is_pending pa_lo.after
      then reading 0 pa_lo.after
      else reading (bit_or (hi.value * 2 ^ 8) lo.value) lo.after

  unfoldable pub read_word : ℕ → Mc68030 Mem → Reading (Mc68030 Mem)
  read_word addr s =
      if is_pending s
      then reading 0 s
      else if hits word addr s.pages.read
      then memory_read word (in_page addr s.pages.read) s
      else if ends_page addr s
      then read_split addr s
      else read_translated word addr s

  unfoldable pub read_long : ℕ → Mc68030 Mem → Reading (Mc68030 Mem)
  read_long addr s =
      let hi = read_word addr s in
      let lo = read_word (add32 addr 2) hi.after in
      if is_pending s
      then reading 0 s
      else if hits long addr s.pages.read
      then memory_read long (in_page addr s.pages.read) s
      else if crosses_page addr s
      then reading (bit_or (hi.value * 2 ^ 16) lo.value) lo.after
      else read_translated long addr s

  -- The end of `WriteByte`, `WriteWord` and `WriteLong`, after their tests.
  unfoldable pub write_translated : Size → ℕ → ℕ → Mc68030 Mem → Mc68030 Mem
  write_translated z addr v s =
      let t = translate_write addr s in
      if is_pending t.after then t.after else memory_write z t.value v t.after

  unfoldable pub write_byte : ℕ → ℕ → Mc68030 Mem → Mc68030 Mem
  write_byte addr v s = if is_pending s then s else write_translated byte addr v (forget_page s)

  unfoldable pub write_split : ℕ → ℕ → Mc68030 Mem → Mc68030 Mem
  write_split addr v s =
      let pa_hi = translate_write addr s in
      let hi = memory_write byte pa_hi.value (v / 2 ^ 8 % 2 ^ 8) pa_hi.after in
      let pa_lo = translate_write (add32 addr 1) hi in
      if is_pending pa_hi.after
      then pa_hi.after
      else if is_pending pa_lo.after
      then pa_lo.after
      else memory_write byte pa_lo.value (v % 2 ^ 8) pa_lo.after

  unfoldable pub write_word : ℕ → ℕ → Mc68030 Mem → Mc68030 Mem
  write_word addr v s =
      if is_pending s
      then s
      else if ends_page addr s
      then write_split addr v (forget_page s)
      else write_translated word addr v (forget_page s)

  unfoldable pub write_long : ℕ → ℕ → Mc68030 Mem → Mc68030 Mem
  write_long addr v s =
      if is_pending s
      then s
      else if crosses_page addr s
      then write_word (add32 addr 2) (v % 2 ^ 16) (write_word addr (v / 2 ^ 16) (forget_page s))
      else write_translated long addr v (forget_page s)
