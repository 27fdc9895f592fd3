-- ===== src/Cpu/Framing.antt =====
-- The frames that `ProcessInterrupt` and `HandleBusError` leave in RAM, and the handlers they go on to.
use mathlib.Core.Path.{subst}
use em68030_win_ui3cpp.Common.{
  ltb, length, ℕ, ◌+◌, ◌-◌, ◌*◌, ◌^◌, ◌<◌, ◌≤◌, ◌≡◌, refl, sym, ap, ◌∙◌, arith, ◌&&◌, List, [],
  none, some,
}
use em68030_win_ui3cpp.Common.Size.{long}
use em68030_win_ui3cpp.Common.Bytes.{read_be}
use em68030_win_ui3cpp.Cpu.State.{Mc68030, add32, is_pending, interrupt_mask, shadow_push}
use em68030_win_ui3cpp.Cpu.Access.{Board, read_long}
use em68030_win_ui3cpp.Cpu.Exceptions.{push_frame, process_interrupt, jump_vector, handle_bus_error}
use em68030_win_ui3cpp.Cpu.Execute.{accept_interrupt, count}
use em68030_win_ui3cpp.Cpu.Keeping.{if-P, if-P_false, read_long-Keeps}
use em68030_win_ui3cpp.Cpu.Ram.{Ram, Within, read_long-Reads}
use em68030_win_ui3cpp.Cpu.Stacks.{stacks, push_frame-Pushes}
use em68030_win_ui3cpp.Cpu.Entering.{process_interrupt-Jumps, masked, masked_lem, masked-mask}
use em68030_win_ui3cpp.Cpu.Interrupts.{Enters, taken, taken-Enters, readied}
use em68030_win_ui3cpp.Cpu.Frames.{Field, OnStack, frame_fields, push_frame-OnStack}

-- The vector of the request.
abbrev pub vector_of : {Mem : Type 0} → Mc68030 Mem → ℕ
vector_of s = elim s.irq.pending_vector as (λ _. ℕ) [ some v ↦ v | none ↦ 24 + s.irq.pending_ipl ]

module _ {Mem : Type 0} {board : Board Mem} {base size : ℕ} (ram : Ram board base size) where
  -- These fields lie on the stack, and PC is the long at the address, in the RAM as it is then.
  abbrev pub Handles : ℕ → List Field → ℕ → Mc68030 Mem → Type 0
  Handles f fs address t = (o : OnStack ram f fs t) × (t.pc ≡ read_be long o.bytes (address - base))

  -- Another state with the same stack pointer, bus and caches.
  unfoldable pub moved-OnStack :
      (top : ℕ) (fs : List Field) (s t : Mc68030 Mem)
      → OnStack ram top fs s
      → t.a7 ≡ s.a7
      → t.machine.bus ≡ s.machine.bus
      → t.machine.mmu.enabled ≡ s.machine.mmu.enabled
      → t.pages.read.valid ≡ s.pages.read.valid
      → OnStack ram top fs t
  moved-OnStack top fs s t o a b m p = record {
    bytes = o.bytes;
    ready = record {
      holds = rw b o.ready.holds;
      settled = rw b o.ready.settled;
      off = m ∙ o.ready.off;
      no_page = p ∙ o.ready.no_page;
    };
    at_top = a ∙ o.at_top;
    laid = o.laid;
    within = o.within;
    in_space = o.in_space;
  }

  -- The handler's address is read after the frame is laid.
  pub read_vector :
      (f : ℕ) (fs : List Field) (address : ℕ) (s : Mc68030 Mem)
      → Within ram long address
      → OnStack ram f fs s
      → let r = read_long board address s in
        Handles f fs address (record (r.after) { pc = r.value })
  read_vector f fs address s w o =
      let got = read_long-Reads ram address o.bytes s w o.ready in
      (
        record {
          bytes = o.bytes;
          ready = record {
            holds = got.1.holds;
            settled = got.1.settled;
            off = got.1.off;
            no_page = got.1.no_page;
          };
          at_top = ap (λ (x : Mc68030 Mem). x.a7) (read_long-Keeps board address s) ∙ o.at_top;
          laid = o.laid;
          within = o.within;
          in_space = o.in_space;
        },
        got.0,
      )

  moved-Handles :
      (f : ℕ) (fs : List Field) (address : ℕ) (s t : Mc68030 Mem)
      → Handles f fs address s
      → t ≡ record s { shadow_stack = t.shadow_stack }
      → Handles f fs address t
  unfolding moved-OnStack
  moved-Handles f fs address s t h e = (
    moved-OnStack f fs s t h.0 (ap (λ (x : Mc68030 Mem). x.a7) e)
        (ap (λ (x : Mc68030 Mem). x.machine.bus) e)
        (ap (λ (x : Mc68030 Mem). x.machine.mmu.enabled) e)
        (ap (λ (x : Mc68030 Mem). x.pages.read.valid) e),
    ap (λ (x : Mc68030 Mem). x.pc) e ∙ h.1,
  )

  shadow_push-same :
      (call target back kind : ℕ) (s : Mc68030 Mem)
      → let t = shadow_push call target back kind s in
        t ≡ record s { shadow_stack = t.shadow_stack }
  unfolding shadow_push
  shadow_push-same call target back kind s =
      if-P (λ (x : Mc68030 Mem). x ≡ record s { shadow_stack = x.shadow_stack })
        (s.shadow_stack_enabled && ltb (length s.shadow_stack) 256) _ _ refl refl

  -- The entry of an interrupt, from the state with the supervisor's stack.
  process_interrupt-Handles :
      (f : ℕ) (s : Mc68030 Mem)
      → let level = s.irq.pending_ipl in
        let table = add32 s.control.vbr (vector_of s * 4) in
        base ≤ f
        → s.sr < 2 ^ 16
        → s.pc < 2 ^ 32
        → Within ram long table
        → OnStack ram (f + 8) [] (masked level s)
        → Handles f
            (frame_fields ram f (vector_of s) s.sr s.pc)
            table
            (process_interrupt board level s)
  unfolding process_interrupt jump_vector
  process_interrupt-Handles f s room hsr hpc w o =
      let level = s.irq.pending_ipl in
      let vector = vector_of s in
      let table = add32 s.control.vbr (vector * 4) in
      let m = masked level s in
      let fs = frame_fields ram f vector s.sr s.pc in
      let pc : m.pc ≡ s.pc = ap (λ (x : Mc68030 Mem). x.pc) (masked_lem level s) in
      let vbr : m.control.vbr ≡ s.control.vbr =
        ap (λ (x : Mc68030 Mem). x.control.vbr) (masked_lem level s) in
      let pushed = push_frame board vector s.sr m in
      let same : pushed.control.vbr ≡ s.control.vbr =
        ap (λ (x : Mc68030 Mem). x.control.vbr) (push_frame-Pushes board vector s.sr m) ∙ vbr in
      let framed : OnStack ram f fs pushed =
        subst (λ (x : ℕ). OnStack ram f (frame_fields ram f vector s.sr x) pushed) pc
          (push_frame-OnStack ram f vector s.sr m room hsr (omega (arith, pc, hpc)) o) in
      let at : add32 pushed.control.vbr (vector * 4) ≡ table =
        ap (λ (x : ℕ). add32 x (vector * 4)) same in
      let r = read_long board (add32 pushed.control.vbr (vector * 4)) pushed in
      let there : Mc68030 Mem = record (r.after) { pc = r.value } in
      let read : Handles f fs (add32 pushed.control.vbr (vector * 4)) there =
        read_vector f fs (add32 pushed.control.vbr (vector * 4)) pushed
          (subst (λ (x : ℕ). Within ram long x) (sym at) w) framed in
      let t = shadow_push pushed.pc r.value pushed.pc 2 there in
      subst (λ (x : ℕ). Handles f fs x t) at
        (moved-Handles f fs (add32 pushed.control.vbr (vector * 4)) there t read
          (shadow_push-same pushed.pc r.value pushed.pc 2 there))

  counted-Handles :
      (f n : ℕ) (fs : List Field) (address : ℕ) (s : Mc68030 Mem)
      → Handles f fs address s
      → Handles f fs address (count n s)
  unfolding moved-OnStack
  counted-Handles f n fs address s h =
      (moved-OnStack f fs s (count n s) h.0 refl refl refl refl, h.1)

  -- An accepted interrupt of level 1 to 7 lays its frame in RAM: A7 points to SR as it was, PC as it was is
  -- at offset 2 and the format and vector word at 6, and the CPU goes on at the handler that the
  -- vector's entry names, with the mask at the request's level and without a fault. The data and
  -- address registers and the user's stack pointer are kept, and the supervisor's is lower by 8. For a
  -- stack and an entry of the table in RAM, with the MMU off.
  pub accept_interrupt-Handles :
      (f : ℕ) (s : Mc68030 Mem)
      → let table = add32 s.control.vbr (vector_of s * 4) in
        base ≤ f
        → s.sr < 2 ^ 16
        → s.pc < 2 ^ 32
        → s.irq.pending_ipl < 8
        → Within ram long table
        → OnStack ram (f + 8) [] (masked s.irq.pending_ipl (readied s))
        → let t = accept_interrupt board s in
          Handles f (frame_fields ram f (vector_of s) s.sr s.pc) table t
          × Enters 8 s t
          × (interrupt_mask t.sr ≡ s.irq.pending_ipl)
  unfolding accept_interrupt stacks
  accept_interrupt-Handles f s room hsr hpc level w o =
      let there = taken board s in
      let table = add32 s.control.vbr (vector_of s * 4) in
      let fs = frame_fields ram f (vector_of s) s.sr s.pc in
      let h : Handles f fs table there = process_interrupt-Handles f (readied s) room hsr hpc w o in
      let j = process_interrupt-Jumps board s.irq.pending_ipl (readied s) in
      if-P_false
        (λ (x : Mc68030 Mem).
          Handles f fs table (count 34 x)
          × Enters 8 s (count 34 x)
          × (interrupt_mask x.sr ≡ s.irq.pending_ipl))
        (is_pending there) (handle_bus_error board there) there h.0.ready.settled
        (
          counted-Handles f 34 fs table there h,
          taken-Enters board s,
          ap (λ (x : Mc68030 Mem). interrupt_mask x.sr) j
              ∙ masked-mask s.irq.pending_ipl (readied s) level,
        )
