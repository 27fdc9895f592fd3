-- ===== src/Cpu/Entering.antt =====
-- What an interrupt and a bus error leave of the processor's state.
use em68030_win_ui3cpp.Common.{
  ℕ, ◌+◌, ◌*◌, ◌<◌, ◌≡◌, refl, ap, ◌∙◌, arith, some, none, true, ◌&&◌, ltb, has, length,
}
use em68030_win_ui3cpp.Cpu.State.{
  Mc68030, add32, sub32, get_supervisor_mode, set_supervisor_mode, set_interrupt_mask, shadow_push,
  interrupt_mask, supervisor_bit, with_supervisor,
}
use em68030_win_ui3cpp.Cpu.Access.{Board, read_long}
use em68030_win_ui3cpp.Cpu.Exceptions.{enter_stack, push_frame, jump_vector, process_interrupt}
use em68030_win_ui3cpp.Cpu.Status.{
  with_supervisor-IsSet, with_interrupt_mask-supervisor, interrupt_mask-with_interrupt_mask,
}
use em68030_win_ui3cpp.Cpu.Keeping.{if-P, Keeps, read_long-Keeps}
use em68030_win_ui3cpp.Cpu.Stacks.{stacks, push_supervisor, push_frame-Pushes}

module _ {Mem : Type 0} where
  -- The second state is the first at another address, with another shadow stack.
  abbrev pub Jumps : Mc68030 Mem → Mc68030 Mem → Type 0
  Jumps s t =
      t
      ≡ record s { pc = t.pc; shadow_stack = t.shadow_stack; pages = t.pages; machine = t.machine }

  abbrev pub jumped_like : Mc68030 Mem → Mc68030 Mem → Mc68030 Mem
  jumped_like u x = record x {
    pc = u.pc;
    shadow_stack = u.shadow_stack;
    pages = u.pages;
    machine = u.machine;
  }

  pub Jumps-trans : (s t u : Mc68030 Mem) → Jumps s t → Jumps t u → Jumps s u
  Jumps-trans s t u p q = q ∙ ap (jumped_like u) p

  Keeps-Jumps : (s t : Mc68030 Mem) → Keeps s t → Jumps s t
  Keeps-Jumps s t p = ap (jumped_like t) p

  shadow_push-Jumps :
      (call target back kind : ℕ) (s : Mc68030 Mem) → Jumps s (shadow_push call target back kind s)
  unfolding shadow_push
  shadow_push-Jumps call target back kind s =
      if-P (Jumps s) (s.shadow_stack_enabled && ltb (length s.shadow_stack) 256) _ _ refl refl

  abbrev pub frame_below : ℕ → Mc68030 Mem → Mc68030 Mem
  frame_below n s = record s { a7 = sub32 s.a7 n }

  -- In supervisor mode, with the mask of the request and the supervisor's stack.
  abbrev pub masked : ℕ → Mc68030 Mem → Mc68030 Mem
  masked level s = enter_stack s.sr (set_interrupt_mask level (set_supervisor_mode true s))

  abbrev Switches : Mc68030 Mem → Mc68030 Mem → Type 0
  Switches s t = t ≡ record s { sr = t.sr; usp = t.usp; a7 = t.a7; pages = t.pages }

  pub masked_lem : (level : ℕ) (s : Mc68030 Mem) → Switches s (masked level s)
  unfolding enter_stack set_interrupt_mask set_supervisor_mode
  masked_lem level s = if-P (Switches s) (has s.sr supervisor_bit) _ _ refl refl

  pub masked-supervisor :
      (level : ℕ) (s : Mc68030 Mem) → get_supervisor_mode (masked level s) ≡ true
  unfolding enter_stack set_interrupt_mask set_supervisor_mode
  masked-supervisor level s = ground (
    arith,
    with_interrupt_mask-supervisor level (with_supervisor true s.sr),
    with_supervisor-IsSet s.sr,
  )

  pub masked-stacks : (level : ℕ) (s : Mc68030 Mem) → stacks (masked level s) ≡ stacks s
  unfolding stacks enter_stack set_interrupt_mask set_supervisor_mode
  masked-stacks level s = ground (
    arith,
    with_interrupt_mask-supervisor level (with_supervisor true s.sr),
    with_supervisor-IsSet s.sr,
  )

  -- In supervisor mode a frame moves the supervisor's stack alone.
  pub frame_below-stacks :
      (n : ℕ) (s : Mc68030 Mem)
      → get_supervisor_mode s ≡ true
      → stacks (frame_below n s) ≡ push_supervisor n (stacks s)
  unfolding stacks
  frame_below-stacks n s h = ground arith

  pub masked-mask :
      (level : ℕ) (s : Mc68030 Mem) → level < 8 → interrupt_mask (masked level s).sr ≡ level
  unfolding enter_stack set_interrupt_mask set_supervisor_mode
  masked-mask level s h =
      ground (arith, interrupt_mask-with_interrupt_mask level (with_supervisor true s.sr))

module _ {Mem : Type 0} (board : Board Mem) where
  pub jump_vector-Jumps :
      (vector kind : ℕ) (s : Mc68030 Mem) → Jumps s (jump_vector board vector kind s)
  unfolding jump_vector
  jump_vector-Jumps vector kind s =
      let r = read_long board (add32 s.control.vbr (vector * 4)) s in
      let there : Mc68030 Mem = record (r.after) { pc = r.value } in
      Jumps-trans s there _
        (ap (jumped_like there) (read_long-Keeps board (add32 s.control.vbr (vector * 4)) s))
        (shadow_push-Jumps s.pc r.value s.pc kind there)

  -- An interrupt: the entry, 8 bytes pushed, and the jump.
  pub process_interrupt-Jumps :
      (level : ℕ) (s : Mc68030 Mem)
      → Jumps (frame_below 8 (masked level s)) (process_interrupt board level s)
  unfolding process_interrupt
  process_interrupt-Jumps level s =
      let vector = elim s.irq.pending_vector as (λ _. ℕ) [ some v ↦ v | none ↦ 24 + level ] in
      let pushed = push_frame board vector s.sr (masked level s) in
      Jumps-trans (frame_below 8 (masked level s)) pushed _
        (Keeps-Jumps (frame_below 8 (masked level s)) pushed
          (push_frame-Pushes board vector s.sr (masked level s)))
        (jump_vector-Jumps vector 2 pushed)
