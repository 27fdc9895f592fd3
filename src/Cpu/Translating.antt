-- ===== src/Cpu/Translating.antt =====
-- `TranslateRead` against `Translate`.
use em68030_win_ui3cpp.Common.{
  ℕ, ◌≡◌, refl, sym, ap, ◌∙◌, arith, inl, inr, Bool, true, false, not, ◌&&◌, ◌||◌, ◌==◌, Bool-cases,
  some,
}
use em68030_win_ui3cpp.Mmu.State.{Mmu, make_atc_key, make_atc_index}
use em68030_win_ui3cpp.Mmu.Walk.{Reading, Machine}
use em68030_win_ui3cpp.Mmu.Translate.{translate, translate_read_fast, passes}
use em68030_win_ui3cpp.Mmu.Agreement.{load, hits, translate-translate_read_fast}
use em68030_win_ui3cpp.Cpu.State.{Mc68030, get_function_code}
use em68030_win_ui3cpp.Cpu.Access.{Board, mmu_memory, reading, translate_in, translate_read}
use em68030_win_ui3cpp.Cpu.Ram.{fast-off, translate-off}
use em68030_win_ui3cpp.Cpu.Keeping.{if-P_eq}

-- Where the fast path finds an address, the MMU is off or the entry is in the cache.
found-hits :
    (logical fc : ℕ) (m : Mmu)
    → (translate_read_fast logical fc m == 0xffffffff) ≡ false
    → (not m.enabled || hits logical fc m) ≡ true
unfolding translate_read_fast make_atc_key make_atc_index
found-hits logical fc m h = ground (arith, h)

module _ {Mem : Type 0} (board : Board Mem) where
  -- Without a transparent register that passes the read.
  fast-translate :
      (logical fc : ℕ) (s : Machine Mem)
      → (s.mmu.enabled && passes (load logical fc) s.mmu) ≡ false
      → (translate_read_fast logical fc s.mmu == 0xffffffff) ≡ false
      → translate (mmu_memory board) (load logical fc) s
        ≡ some (reading (translate_read_fast logical fc s.mmu) s)
  fast-translate logical fc s skip found = elim (Bool-cases s.mmu.enabled) [
    | inl on ↦
        translate-translate_read_fast (mmu_memory board) logical fc s (ground (arith, on))
          (found-hits logical fc s.mmu found)
    | inr off ↦
        translate-off board (load logical fc) s off
        ∙ ap (λ (x : ℕ). some (reading x s)) (sym (fast-off board logical fc s.mmu off))
  ]

  -- `TranslateRead`, which looks in the cache by itself before it calls `Translate`, comes to what
  -- `Translate` comes to: on a hit, on a miss, on a fault and with the MMU off. For a read that no
  -- transparent translation register passes while the MMU is on.
  pub translate_read-translate_in :
      (addr : ℕ) (is_program : Bool) (s : Mc68030 Mem)
      → (s.machine.mmu.enabled && passes (load addr (get_function_code is_program s)) s.machine.mmu)
        ≡ false
      → translate_read board addr is_program s
        ≡ translate_in board (load addr (get_function_code is_program s)) s
  unfolding translate_read translate_in
  translate_read-translate_in addr is_program s skip =
      let fc = get_function_code is_program s in
      let there = translate_in board (load addr fc) s in
      if-P_eq (λ (x : Reading (Mc68030 Mem)). x ≡ there)
        (translate_read_fast addr fc s.machine.mmu == 0xffffffff) _ _ (λ _. refl)
        (λ found. rw (fast-translate addr fc s.machine skip found) refl)
