-- ===== src/Cpu/Interrupts.antt =====
-- What an accepted interrupt does: `ProcessInterrupt` with the handling of a fault on its way.
use em68030_win_ui3cpp.Common.{ℕ, ◌<◌, ◌≡◌, ap, ◌∙◌, arith, true, false, ◌==◌, if◌then◌else◌, has}
use em68030_win_ui3cpp.Cpu.State.{
  Mc68030, is_pending, get_supervisor_mode, set_supervisor_mode, set_interrupt_mask, interrupt_mask,
  supervisor_bit,
}
use em68030_win_ui3cpp.Cpu.Access.{Board}
use em68030_win_ui3cpp.Cpu.Exceptions.{enter_stack, process_interrupt, handle_bus_error}
use em68030_win_ui3cpp.Cpu.Execute.{accept_interrupt, save_registers, wake, is_eligible}
use em68030_win_ui3cpp.Cpu.Keeping.{if-P_eq, if-P_true, if-P_false}
use em68030_win_ui3cpp.Cpu.Status.{with_supervisor-IsSet}
use em68030_win_ui3cpp.Cpu.Stacks.{stacks, push_supervisor}
use em68030_win_ui3cpp.Cpu.Entering.{
  jumped_like, masked, frame_below, masked-stacks, masked-supervisor, masked-mask, masked_lem,
  frame_below-stacks, process_interrupt-Jumps,
}
use em68030_win_ui3cpp.Cpu.Faults.{before, handle_bus_error-Frames}

module _ {Mem : Type 0} where
  -- The data and address registers stay, the CPU runs in supervisor mode, and the supervisor's stack
  -- pointer is lower by `n`.
  abbrev pub Enters : ℕ → Mc68030 Mem → Mc68030 Mem → Type 0
  Enters n s t =
      (t.d ≡ s.d)
      × (t.a ≡ s.a)
      × (get_supervisor_mode t ≡ true)
      × (t.stopped ≡ false)
      × (stacks t ≡ push_supervisor n (stacks s))

  abbrev pub readied : Mc68030 Mem → Mc68030 Mem
  readied s = save_registers (wake s)

  -- Rolled back, the stacks are those from before the interrupt.
  before-masked :
      (u : Mc68030 Mem) (level : ℕ) (s : Mc68030 Mem)
      → stacks (before (jumped_like u (frame_below 8 (masked level (readied s))))) ≡ stacks s
  unfolding stacks enter_stack set_interrupt_mask set_supervisor_mode
  before-masked u level s = ground arith

module _ {Mem : Type 0} (board : Board Mem) where
  abbrev pub taken : Mc68030 Mem → Mc68030 Mem
  taken s = process_interrupt board s.irq.pending_ipl (readied s)

  pub taken-Enters : (s : Mc68030 Mem) → Enters 8 s (taken s)
  unfolding stacks
  taken-Enters s =
      let level = s.irq.pending_ipl in
      let m = masked level (readied s) in
      let j = process_interrupt-Jumps board level (readied s) in
      let there =
        j
        ∙ ap (λ (x : Mc68030 Mem). jumped_like (taken s) (frame_below 8 x))
            (masked_lem level (readied s)) in
      let mode = masked-supervisor level (readied s) in
      (
        ap (λ (x : Mc68030 Mem). x.d) there,
        ap (λ (x : Mc68030 Mem). x.a) there,
        ap (λ (x : Mc68030 Mem). get_supervisor_mode x) j ∙ mode,
        ap (λ (x : Mc68030 Mem). x.stopped) there,
        ap stacks j
            ∙ frame_below-stacks 8 m mode
            ∙ ap (push_supervisor 8) (masked-stacks level (readied s)),
      )

  faulted-Enters :
      (s : Mc68030 Mem)
      → s.snapshot.needed ≡ false
      → s.processing_bus_error ≡ false
      → is_pending (taken s) ≡ true
      → Enters 32 s (handle_bus_error board (taken s))
  faulted-Enters s whole idle pending =
      let level = s.irq.pending_ipl in
      let j = process_interrupt-Jumps board level (readied s) in
      let there =
        j
        ∙ ap (λ (x : Mc68030 Mem). jumped_like (taken s) (frame_below 8 x))
            (masked_lem level (readied s)) in
      let f =
        handle_bus_error-Frames board (taken s) pending
          (ap (λ (x : Mc68030 Mem). x.processing_bus_error) there ∙ idle)
          (ap (λ (x : Mc68030 Mem). x.snapshot.needed) there ∙ whole) in
      let (d, a, stopped, sr, k) = f in
      (
        d ∙ ap (λ (x : Mc68030 Mem). x.snapshot.d) there,
        a ∙ ap (λ (x : Mc68030 Mem). x.snapshot.a) there,
        ap (λ (x : ℕ). has x supervisor_bit) sr ∙ with_supervisor-IsSet (taken s).snapshot.sr,
        stopped ∙ ap (λ (x : Mc68030 Mem). x.stopped) there,
        k
            ∙ ap (λ (x : Mc68030 Mem). push_supervisor 32 (stacks (before x))) j
            ∙ ap (push_supervisor 32) (before-masked (taken s) level s),
      )

  -- An interrupt that is accepted keeps the data and address registers and the user's stack pointer,
  -- wakes the CPU in supervisor mode, and lowers the supervisor's stack pointer by 8, or by 32 where an
  -- access of its entry faults. For a state that is not in a bus error and has its registers saved.
  pub accept_interrupt-Enters :
      (s : Mc68030 Mem)
      → s.snapshot.needed ≡ false
      → s.processing_bus_error ≡ false
      → Enters (if is_pending (taken s) then 32 else 8) s (accept_interrupt board s)
  unfolding accept_interrupt stacks
  accept_interrupt-Enters s whole idle =
      if-P_eq (λ (n : ℕ). Enters n s (accept_interrupt board s)) (is_pending (taken s)) 32 8
        (λ e.
          if-P_true (Enters 32 s) (is_pending (taken s)) (handle_bus_error board (taken s))
            (taken s) e (faulted-Enters s whole idle e))
        (λ e.
          if-P_false (Enters 8 s) (is_pending (taken s)) (handle_bus_error board (taken s))
            (taken s) e (taken-Enters s))

  -- While the handler runs at the level of its interrupt, the same request interrupts it again
  -- exactly where it is of level 7. For a request of level 1 to 7 whose entry does not fault.
  pub accept_interrupt-is_eligible :
      (s : Mc68030 Mem)
      → 0 < s.irq.pending_ipl
      → s.irq.pending_ipl < 8
      → is_pending (taken s) ≡ false
      → is_eligible (accept_interrupt board s) ≡ (s.irq.pending_ipl == 7)
  unfolding accept_interrupt is_eligible
  accept_interrupt-is_eligible s some_level three_bits clean =
      let level = s.irq.pending_ipl in
      let j = process_interrupt-Jumps board level (readied s) in
      let there =
        j
        ∙ ap (λ (x : Mc68030 Mem). jumped_like (taken s) (frame_below 8 x))
            (masked_lem level (readied s)) in
      let mask : interrupt_mask (taken s).sr ≡ level =
        ap (λ (x : Mc68030 Mem). interrupt_mask x.sr) j
        ∙ masked-mask level (readied s) three_bits in
      let request : (taken s).irq.pending_ipl ≡ level =
        ap (λ (x : Mc68030 Mem). x.irq.pending_ipl) there in
      if-P_false (λ (x : Mc68030 Mem). is_eligible x ≡ (level == 7)) (is_pending (taken s)) _ _
        clean (ground (arith, mask, request))
