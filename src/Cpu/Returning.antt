-- ===== src/Cpu/Returning.antt =====
-- The way back from an exception: the frame that was pushed is popped.
use em68030_win_ui3cpp.Common.{
  ℕ, ◌+◌, ◌-◌, ◌^◌, ◌<◌, ◌≤◌, ◌≡◌, refl, ap, sym, ◌∙◌, arith, false, List, [], bit_and, set,
}
use em68030_win_ui3cpp.Common.Bits.{bit_at, bit_at-bit_and, bit_at-lt}
use em68030_win_ui3cpp.Cpu.Status.{has-bit_at}
use em68030_win_ui3cpp.Common.Size.{word, long}
use em68030_win_ui3cpp.Common.Bytes.{read_be}
use em68030_win_ui3cpp.Mmu.Walk.{Reading}
use em68030_win_ui3cpp.Cpu.State.{Mc68030, add32, set_sr, is_pending}
use em68030_win_ui3cpp.Cpu.Access.{Board}
use em68030_win_ui3cpp.Cpu.Fetch.{pop_word, pop_long}
use em68030_win_ui3cpp.Cpu.Exceptions.{push_frame, skip_syscall, clear_flag_c}
use em68030_win_ui3cpp.Cpu.Keeping.{Keeps, read_word-Keeps, read_long-Keeps}
use em68030_win_ui3cpp.Cpu.Ram.{Ram, Ready, Within, read_word-Reads, read_long-Reads}
use em68030_win_ui3cpp.Cpu.Stacks.{
  stacks, entered, entered_lem, entered-stacks, set_sr-stacks, push_frame-Pushes,
}
use em68030_win_ui3cpp.Cpu.Frames.{OnStack, frame_fields, push_frame-OnStack}

module _ {Mem : Type 0} where
  -- The state `u` as the state `x` with `n` bytes popped.
  abbrev popped_like : ℕ → Mc68030 Mem → Mc68030 Mem → Mc68030 Mem
  popped_like n u x = record x { a7 = add32 x.a7 n; pages = u.pages; machine = u.machine }

  set_sr-registers : (v : ℕ) (s : Mc68030 Mem) → ((set_sr v s).d ≡ s.d) × ((set_sr v s).a ≡ s.a)
  unfolding set_sr
  set_sr-registers v s = ground arith

  set_sr-sr : (v : ℕ) (s : Mc68030 Mem) → (set_sr v s).sr ≡ v
  unfolding set_sr
  set_sr-sr v s = refl

  set_sr-settled : (v : ℕ) (s : Mc68030 Mem) → is_pending (set_sr v s) ≡ is_pending s
  unfolding set_sr
  set_sr-settled v s = ground arith

  -- Clearing C does not change the mode.
  clear_flag_c-stacks : (s : Mc68030 Mem) → stacks (clear_flag_c s) ≡ stacks s
  unfolding stacks bit_at
  clear_flag_c-stacks s = ground (
    arith,
    has-bit_at 13 (bit_and s.sr 0xfffe),
    has-bit_at 13 s.sr,
    bit_at-bit_and 13 s.sr 0xfffe,
    bit_at-lt 13 s.sr,
  )

module _ {Mem : Type 0} {board : Board Mem} {base size : ℕ} (ram : Ram board base size) where
  abbrev raised : ℕ → Mc68030 Mem → Mc68030 Mem
  raised n s = record s { a7 = add32 s.a7 n }

  -- What a pop gives: the value at the stack pointer, and the stack above.
  abbrev Pops : ℕ → ℕ → List ℕ → Mc68030 Mem → Reading (Mc68030 Mem) → Type 0
  Pops n v bytes s r = (r.value ≡ v) × Ready ram bytes r.after × Keeps (raised n s) r.after

  pop_word-Pops :
      (bytes : List ℕ) (s : Mc68030 Mem)
      → Within ram word s.a7
      → Ready ram bytes s
      → Pops 2 (read_be word bytes (s.a7 - base)) bytes s (pop_word board s)
  unfolding pop_word
  pop_word-Pops bytes s w r =
      let got = read_word-Reads ram s.a7 bytes s w r in
      (
        got.0,
        record {
          holds = got.1.holds;
          settled = got.1.settled;
          off = got.1.off;
          no_page = got.1.no_page;
        },
        ap (raised 2) (read_word-Keeps board s.a7 s),
      )

  pop_long-Pops :
      (bytes : List ℕ) (s : Mc68030 Mem)
      → Within ram long s.a7
      → Ready ram bytes s
      → Pops 4 (read_be long bytes (s.a7 - base)) bytes s (pop_long board s)
  unfolding pop_long
  pop_long-Pops bytes s w r =
      let got = read_long-Reads ram s.a7 bytes s w r in
      (
        got.0,
        record {
          holds = got.1.holds;
          settled = got.1.settled;
          off = got.1.off;
          no_page = got.1.no_page;
        },
        ap (raised 4) (read_long-Keeps board s.a7 s),
      )

  -- The three pops of a frame of format 0.
  abbrev pop_sr : Mc68030 Mem → Reading (Mc68030 Mem)
  pop_sr s = pop_word board s

  abbrev pop_pc : Mc68030 Mem → Reading (Mc68030 Mem)
  pop_pc s = pop_long board (pop_sr s).after

  abbrev pop_format : Mc68030 Mem → Reading (Mc68030 Mem)
  pop_format s = pop_word board (pop_pc s).after

  abbrev PopsFrame : ℕ → ℕ → ℕ → Mc68030 Mem → Type 0
  PopsFrame f sr pc s =
      ((pop_sr s).value ≡ sr)
      × ((pop_pc s).value ≡ pc)
      × (is_pending (pop_format s).after ≡ false)
      × Keeps (record s { a7 = f + 8 }) (pop_format s).after

  pops_frame :
      (f vector sr pc : ℕ) (s : Mc68030 Mem)
      → base ≤ f
      → f + 8 < 2 ^ 32
      → OnStack ram f (frame_fields ram f vector sr pc) s
      → PopsFrame f sr pc s
  pops_frame f vector sr pc s room space o =
      let all = ram.length-Holds o.bytes s.machine.bus o.ready.holds in
      let first = pop_word-Pops o.bytes s (omega (arith, o.at_top, o.laid, all)) o.ready in
      let s1 = (pop_sr s).after in
      let at1 : s1.a7 ≡ f + 2 = omega (arith, ap (λ (x : Mc68030 Mem). x.a7) first.2, o.at_top) in
      let second = pop_long-Pops o.bytes s1 (omega (arith, at1, o.laid, all)) first.1 in
      let s2 = (pop_pc s).after in
      let at2 : s2.a7 ≡ f + 6 = omega (arith, ap (λ (x : Mc68030 Mem). x.a7) second.2, at1) in
      let u = (pop_format s).after in
      let third = pop_word-Pops o.bytes s2 (omega (arith, at2, o.laid, all)) second.1 in
      (
        first.0 ∙ ap (λ (x : ℕ). read_be word o.bytes (x - base)) o.at_top ∙ o.laid.2,
        second.0 ∙ ap (λ (x : ℕ). read_be long o.bytes (x - base)) at1 ∙ o.laid.3.2,
        third.1.settled,
        third.2
            ∙ ap (popped_like 2 u) second.2
            ∙ ap (λ (x : Mc68030 Mem). popped_like 2 u (raised 4 x)) first.2
            ∙ ap (λ (x : ℕ). record s { a7 = x; pages = u.pages; machine = u.machine })
                (omega (arith, o.at_top)),
      )

  skip_syscall-pops :
      (f vector sr pc : ℕ) (s : Mc68030 Mem)
      → base ≤ f
      → f + 8 < 2 ^ 32
      → OnStack ram f (frame_fields ram f vector sr pc) s
      → let t = skip_syscall board s in
        (t.pc ≡ pc)
        × (t.sr ≡ bit_and sr 0xfffe)
        × (t.d ≡ set s.d 0 0)
        × (t.a ≡ s.a)
        × (is_pending t ≡ false)
        × (stacks t ≡ stacks (record s { a7 = f + 8 }))
  unfolding skip_syscall stacks
  skip_syscall-pops f vector sr pc s room space o =
      let (v, address, clean, kept) = pops_frame f vector sr pc s room space o in
      let u = (pop_format s).after in
      let back = set_sr (pop_sr s).value u in
      let there : Mc68030 Mem = record back { pc = (pop_pc s).value; d = set back.d 0 0 } in
      let registers = set_sr-registers (pop_sr s).value u in
      (
        address,
        ap (λ (x : ℕ). bit_and x 0xfffe) (set_sr-sr (pop_sr s).value u ∙ v),
        ap (λ (x : List ℕ). set x 0 0) (registers.0 ∙ ap (λ (x : Mc68030 Mem). x.d) kept),
        registers.1 ∙ ap (λ (x : Mc68030 Mem). x.a) kept,
        set_sr-settled (pop_sr s).value u ∙ clean,
        clear_flag_c-stacks there ∙ set_sr-stacks (pop_sr s).value u ∙ ap stacks kept,
      )

  -- The short cut for `TIOCDRAIN`: popping the frame that the system call pushed on the supervisor's
  -- stack leads back to the caller. PC, A0 to A6, both stacks and SR are as before, but that C is
  -- clear, D0 is 0, and no fault is pending. For a frame that lies in RAM, with the MMU off.
  pub skip_syscall-Returns :
      (f vector : ℕ) (s : Mc68030 Mem)
      → base ≤ f
      → f + 8 < 2 ^ 32
      → s.sr < 2 ^ 16
      → s.pc < 2 ^ 32
      → OnStack ram (f + 8) [] (entered s)
      → let t = skip_syscall board (push_frame board vector s.sr (entered s)) in
        (t.pc ≡ s.pc)
        × (t.sr ≡ bit_and s.sr 0xfffe)
        × (t.d ≡ set s.d 0 0)
        × (t.a ≡ s.a)
        × (is_pending t ≡ false)
        × (stacks t ≡ stacks s)
  unfolding stacks
  skip_syscall-Returns f vector s room space hsr hpc o =
      let e = entered s in
      let same = entered_lem s in
      let pc : e.pc ≡ s.pc = ap (λ (x : Mc68030 Mem). x.pc) same in
      let pushed = push_frame board vector s.sr e in
      let framed = push_frame-OnStack ram f vector s.sr e room hsr (omega (arith, pc, hpc)) o in
      let back = skip_syscall-pops f vector s.sr e.pc pushed room space framed in
      let kept = push_frame-Pushes board vector s.sr e in
      (
        back.0 ∙ pc,
        back.1,
        back.2
            ∙ ap (λ (x : Mc68030 Mem). set x.d 0 0) kept
            ∙ ap (λ (x : Mc68030 Mem). set x.d 0 0) same,
        back.3 ∙ ap (λ (x : Mc68030 Mem). x.a) kept ∙ ap (λ (x : Mc68030 Mem). x.a) same,
        back.4,
        back.5
            ∙ ap (λ (x : Mc68030 Mem). stacks (record x { a7 = f + 8 })) kept
            ∙ ap (λ (x : ℕ). stacks (record e { a7 = x })) (sym o.at_top)
            ∙ entered-stacks s,
      )
