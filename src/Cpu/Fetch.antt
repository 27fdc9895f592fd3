-- ===== src/Cpu/Fetch.antt =====
-- The fetches of `MC68030` with their page cache, its stack operations, and the accesses of the
-- user's memory that the interception of `ioctl` makes.
use em68030_win_ui3cpp.Common.{ℕ, ◌*◌, ◌^◌, true, false, bit_or, if◌then◌else◌}
use em68030_win_ui3cpp.Common.Size.{Size, word, long}
use em68030_win_ui3cpp.Mmu.Walk.{Reading}
use em68030_win_ui3cpp.Cpu.State.{Mc68030, add32, sub32, is_pending}
use em68030_win_ui3cpp.Cpu.Access.{
  Board, hits, in_page, page_of, translate_in, translate_read, memory_read, memory_write, read_word,
  read_long, write_word, write_long, reading,
}

module _ {Mem : Type 0} where
  abbrev advance : ℕ → Reading (Mc68030 Mem) → Reading (Mc68030 Mem)
  advance n r = record r { after = record (r.after) { pc = add32 r.after.pc n } }

  abbrev above : ℕ → Reading (Mc68030 Mem) → Reading (Mc68030 Mem)
  above n r = record r { after = record (r.after) { a7 = add32 r.after.a7 n } }

  unfoldable pub keep_fetch_page : ℕ → ℕ → Mc68030 Mem → Mc68030 Mem
  keep_fetch_page addr pa s =
      if s.machine.mmu.enabled
      then record s { pages = record (s.pages) { fetch = page_of addr pa s.machine.mmu.page_mask } }
      else s

module _ {Mem : Type 0} (board : Board Mem) where
  unfoldable pub fetch_word : Mc68030 Mem → Reading (Mc68030 Mem)
  fetch_word s =
      let t = translate_read board s.pc true s in
      if is_pending s
      then reading 0 s
      else if hits word s.pc s.pages.fetch
      then advance 2 (memory_read board word (in_page s.pc s.pages.fetch) s)
      else if is_pending t.after
      then reading 0 t.after
      else advance 2 (memory_read board word t.value (keep_fetch_page s.pc t.value t.after))

  unfoldable pub fetch_long : Mc68030 Mem → Reading (Mc68030 Mem)
  fetch_long s =
      let hi = fetch_word s in
      let lo = fetch_word hi.after in
      if hits long s.pc s.pages.fetch
      then advance 4 (memory_read board long (in_page s.pc s.pages.fetch) s)
      else reading (bit_or (hi.value * 2 ^ 16) lo.value) lo.after

  unfoldable pub push_word : ℕ → Mc68030 Mem → Mc68030 Mem
  push_word v s = let lower = sub32 s.a7 2 in write_word board lower v (record s { a7 = lower })

  unfoldable pub push_long : ℕ → Mc68030 Mem → Mc68030 Mem
  push_long v s = let lower = sub32 s.a7 4 in write_long board lower v (record s { a7 = lower })

  unfoldable pub pop_word : Mc68030 Mem → Reading (Mc68030 Mem)
  pop_word s = above 2 (read_word board s.a7 s)

  unfoldable pub pop_long : Mc68030 Mem → Reading (Mc68030 Mem)
  pop_long s = above 4 (read_long board s.a7 s)

  -- `ReadUserLong` and `ReadUserWord`. `Translate` reports a fault by the CPU's flag and throws
  -- nothing, so that a value is always returned.
  unfoldable pub read_user : Size → ℕ → Mc68030 Mem → Reading (Mc68030 Mem)
  read_user z addr s =
      let t = translate_in board (record { logical = addr; write = false; fc = 1 }) s in
      memory_read board z t.value t.after

  -- `WriteUserLong`, which always returns true.
  unfoldable pub write_user_long : ℕ → ℕ → Mc68030 Mem → Mc68030 Mem
  write_user_long addr v s =
      let t = translate_in board (record { logical = addr; write = true; fc = 1 }) s in
      memory_write board long t.value v t.after
