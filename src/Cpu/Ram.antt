-- ===== src/Cpu/Ram.antt =====
-- A range of the board's memory that is RAM, as an interface, and the accesses of the CPU to it while
-- the MMU is off.
use em68030_win_ui3cpp.Common.{
  ℕ, ◌+◌, ◌-◌, ◌<◌, ◌≤◌, ◌≡◌, refl, ap, ◌∙◌, arith, Bool, false, true, not, ◌||◌, List, length,
  some, Option,
}
use em68030_win_ui3cpp.Common.Size.{Size, byte, word, long}
use em68030_win_ui3cpp.Common.Bytes.{last, read_be, write_be}
use em68030_win_ui3cpp.Mmu.State.{Mmu, BusError}
use em68030_win_ui3cpp.Mmu.Walk.{Bus, Reading, Access, Machine}
use em68030_win_ui3cpp.Mmu.Translate.{translate, translate_read_fast, passes}
use em68030_win_ui3cpp.Cpu.State.{Mc68030, is_pending, get_function_code}
use em68030_win_ui3cpp.Cpu.Access.{
  Board, mmu_memory, hits, reading, translate_in, translate_read, translate_write, memory_read,
  memory_write, keep_page, ends_page, crosses_page, forget_page, read_translated, read_byte,
  read_word, read_long, write_translated, write_byte, write_word, write_long,
}
use em68030_win_ui3cpp.Cpu.Keeping.{if-P_true, if-P_false, if-P}

-- From `base` on, `size` bytes are RAM: `Holds` is a state of the memory in which they have these
-- values.
pub record Ram {Mem : Type 0} (board : Board Mem) (base size : ℕ) : Type 1 where
  pub Holds : List ℕ → Bus Mem → Type 0
  pub length-Holds : (bytes : List ℕ) (b : Bus Mem) → Holds bytes b → length bytes ≡ size
  pub read-Holds :
      (z : Size) (a : ℕ) (bytes : List ℕ) (b : Bus Mem)
      → Holds bytes b
      → base ≤ a
      → a + last z < base + size
      → ((board.read z a b).value ≡ read_be z bytes (a - base))
        × Holds bytes (board.read z a b).after
        × ((board.read z a b).after.fault ≡ b.fault)
  pub write-Holds :
      (z : Size) (a v : ℕ) (bytes : List ℕ) (b : Bus Mem)
      → Holds bytes b
      → base ≤ a
      → a + last z < base + size
      → Holds (write_be z v bytes (a - base)) (board.write z a v b)
        × ((board.write z a v b).fault ≡ b.fault)

module _ {Mem : Type 0} (board : Board Mem) where
  pub fast-off : (a fc : ℕ) (m : Mmu) → m.enabled ≡ false → translate_read_fast a fc m ≡ a
  unfolding translate_read_fast
  fast-off a fc m off = if-P_true (λ (x : ℕ). x ≡ a) (not m.enabled) _ _ (ap not off) refl

  pub translate-off :
      (a : Access) (s : Machine Mem)
      → s.mmu.enabled ≡ false
      → translate (mmu_memory board) a s ≡ some (reading a.logical s)
  unfolding translate
  translate-off a s off =
      if-P_true (λ (x : Option (Reading (Machine Mem))). x ≡ some (reading a.logical s))
        (not s.mmu.enabled || passes a s.mmu) _ _ (ground arith) refl

  translate_in-off :
      (a : Access) (s : Mc68030 Mem)
      → s.machine.mmu.enabled ≡ false
      → translate_in board a s ≡ reading a.logical s
  unfolding translate_in
  translate_in-off a s off = rw (translate-off a s.machine off) refl

  pub translate_read-off :
      (a : ℕ) (p : Bool) (s : Mc68030 Mem)
      → s.machine.mmu.enabled ≡ false
      → translate_read board a p s ≡ reading a s
  unfolding translate_read
  translate_read-off a p s off =
      if-P (λ (x : Reading (Mc68030 Mem)). x ≡ reading a s) _ _ _
        (translate_in-off (record { logical = a; write = false; fc = get_function_code p s }) s off)
        (ap (λ (pa : ℕ). reading pa s) (fast-off a (get_function_code p s) s.machine.mmu off))

  pub translate_write-off :
      (a : ℕ) (s : Mc68030 Mem)
      → s.machine.mmu.enabled ≡ false
      → translate_write board a s ≡ reading a s
  unfolding translate_write
  translate_write-off a s off =
      translate_in-off (record { logical = a; write = true; fc = get_function_code false s }) s off

-- The CPU runs with the MMU off, without a fault and without a page of data in its cache, and the RAM
-- holds these bytes.
pub record Ready {Mem : Type 0} {board : Board Mem} {base size : ℕ} (ram : Ram board base size)
    (bytes : List ℕ) (s : Mc68030 Mem) : Type 0 where
  pub holds : ram.Holds bytes s.machine.bus
  pub settled : is_pending s ≡ false
  pub off : s.machine.mmu.enabled ≡ false
  pub no_page : s.pages.read.valid ≡ false

module _ {Mem : Type 0} {board : Board Mem} {base size : ℕ} (ram : Ram board base size) where
  -- An access of these bytes.
  abbrev pub Within : Size → ℕ → Type 0
  Within z a = (base ≤ a) × (a + last z < base + size)

  abbrev pub Reads : Size → ℕ → List ℕ → Reading (Mc68030 Mem) → Type 0
  Reads z a bytes r = (r.value ≡ read_be z bytes (a - base)) × Ready ram bytes r.after

  memory_read-Reads :
      (z : Size) (a : ℕ) (bytes : List ℕ) (s : Mc68030 Mem)
      → Within z a
      → Ready ram bytes s
      → Reads z a bytes (memory_read board z a s)
  unfolding memory_read
  memory_read-Reads z a bytes s w r =
      let h = ram.read-Holds z a bytes s.machine.bus r.holds w.0 w.1 in
      (
        h.0,
        record {
          holds = h.1;
          settled = ap (λ (e : BusError). e.pending) h.2 ∙ r.settled;
          off = r.off;
          no_page = r.no_page;
        },
      )

  read_translated-Reads :
      (z : Size) (a : ℕ) (bytes : List ℕ) (s : Mc68030 Mem)
      → Within z a
      → Ready ram bytes s
      → Reads z a bytes (read_translated board z a s)
  unfolding read_translated keep_page
  read_translated-Reads z a bytes s w r = rw (translate_read-off board a false s r.off) (
      if-P_false (Reads z a bytes) (is_pending s) _ _ r.settled (
        if-P_false (λ (x : Mc68030 Mem). Reads z a bytes (memory_read board z a x))
          s.machine.mmu.enabled _ _ r.off (memory_read-Reads z a bytes s w r)))

  pub read_word-Reads :
      (a : ℕ) (bytes : List ℕ) (s : Mc68030 Mem)
      → Within word a
      → Ready ram bytes s
      → Reads word a bytes (read_word board a s)
  unfolding read_word hits
  read_word-Reads a bytes s w r = if-P_false (Reads word a bytes) (is_pending s) _ _ r.settled (
      if-P_false (Reads word a bytes) (hits word a s.pages.read) _ _ (ground (arith, r.no_page)) (
        if-P_false (Reads word a bytes) (ends_page a s) _ _ (ground (arith, r.off))
          (read_translated-Reads word a bytes s w r)))

  pub read_long-Reads :
      (a : ℕ) (bytes : List ℕ) (s : Mc68030 Mem)
      → Within long a
      → Ready ram bytes s
      → Reads long a bytes (read_long board a s)
  unfolding read_long hits
  read_long-Reads a bytes s w r = if-P_false (Reads long a bytes) (is_pending s) _ _ r.settled (
      if-P_false (Reads long a bytes) (hits long a s.pages.read) _ _ (ground (arith, r.no_page)) (
        if-P_false (Reads long a bytes) (crosses_page a s) _ _ (ground (arith, r.off))
          (read_translated-Reads long a bytes s w r)))

  pub read_byte-Reads :
      (a : ℕ) (bytes : List ℕ) (s : Mc68030 Mem)
      → Within byte a
      → Ready ram bytes s
      → Reads byte a bytes (read_byte board a s)
  unfolding read_byte hits
  read_byte-Reads a bytes s w r = if-P_false (Reads byte a bytes) (is_pending s) _ _ r.settled (
      if-P_false (Reads byte a bytes) (hits byte a s.pages.read) _ _ (ground (arith, r.no_page))
        (read_translated-Reads byte a bytes s w r))

  abbrev pub Writes : Size → ℕ → ℕ → List ℕ → Mc68030 Mem → Type 0
  Writes z a v bytes t = Ready ram (write_be z v bytes (a - base)) t

  write_translated-Writes :
      (z : Size) (a v : ℕ) (bytes : List ℕ) (s : Mc68030 Mem)
      → Within z a
      → Ready ram bytes s
      → Writes z a v bytes (write_translated board z a v (forget_page s))
  unfolding write_translated memory_write
  write_translated-Writes z a v bytes s w r =
      let h = ram.write-Holds z a v bytes s.machine.bus r.holds w.0 w.1 in
      rw (translate_write-off board a (forget_page s) r.off) (
        if-P_false (Writes z a v bytes) (is_pending s) _ _ r.settled (record {
          holds = h.0;
          settled = ap (λ (e : BusError). e.pending) h.1 ∙ r.settled;
          off = r.off;
          no_page = refl;
        }))

  pub write_byte-Writes :
      (a v : ℕ) (bytes : List ℕ) (s : Mc68030 Mem)
      → Within byte a
      → Ready ram bytes s
      → Writes byte a v bytes (write_byte board a v s)
  unfolding write_byte
  write_byte-Writes a v bytes s w r =
      if-P_false (Writes byte a v bytes) (is_pending s) _ _ r.settled
        (write_translated-Writes byte a v bytes s w r)

  pub write_word-Writes :
      (a v : ℕ) (bytes : List ℕ) (s : Mc68030 Mem)
      → Within word a
      → Ready ram bytes s
      → Writes word a v bytes (write_word board a v s)
  unfolding write_word
  write_word-Writes a v bytes s w r =
      if-P_false (Writes word a v bytes) (is_pending s) _ _ r.settled (
        if-P_false (Writes word a v bytes) (ends_page a s) _ _ (ground (arith, r.off))
          (write_translated-Writes word a v bytes s w r))

  pub write_long-Writes :
      (a v : ℕ) (bytes : List ℕ) (s : Mc68030 Mem)
      → Within long a
      → Ready ram bytes s
      → Writes long a v bytes (write_long board a v s)
  unfolding write_long
  write_long-Writes a v bytes s w r =
      if-P_false (Writes long a v bytes) (is_pending s) _ _ r.settled (
        if-P_false (Writes long a v bytes) (crosses_page a s) _ _ (ground (arith, r.off))
          (write_translated-Writes long a v bytes s w r))
