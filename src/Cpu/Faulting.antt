-- ===== src/Cpu/Faulting.antt =====
-- The frame that `HandleBusError` leaves in RAM, and the handler it goes on to.
use em68030_win_ui3cpp.Common.{
  ℕ, ◌+◌, ◌^◌, ◌<◌, ◌≤◌, ◌≡◌, refl, sym, ap, ◌∙◌, arith, inl, inr, Bool, true, false, ◌&&◌, List,
  [], ◌==◌, if◌then◌else◌, Bool-cases, has,
}
use mathlib.Core.Path.{subst}
use em68030_win_ui3cpp.Common.Size.{long}
use em68030_win_ui3cpp.Mmu.State.{clear_bus_error}
use em68030_win_ui3cpp.Mmu.Walk.{Access, Reading}
use em68030_win_ui3cpp.Mmu.Probe.{p_test}
use em68030_win_ui3cpp.Cpu.State.{
  Mc68030, add32, is_pending, fault_of, with_fault, get_function_code, set_supervisor_mode,
  supervisor_bit,
}
use em68030_win_ui3cpp.Cpu.Access.{Board, read_long, translate_read}
use em68030_win_ui3cpp.Cpu.Exceptions.{
  enter_stack, push_fault_frame, handle_bus_error, drain, raise_bus_error, take_fault, test_fault,
  finish_fault, fault_ssw, doubled, vectored,
}
use em68030_win_ui3cpp.Cpu.Keeping.{read_long-Keeps, if-P_true, if-P_false}
use em68030_win_ui3cpp.Cpu.Ram.{Ram, Within, translate_read-off}
use em68030_win_ui3cpp.Cpu.Stacks.{stacks, entered, entered_lem, push_fault_frame-Pushes}
use em68030_win_ui3cpp.Cpu.Faults.{before, roll_back-before, Frames, handle_bus_error-Frames}
use em68030_win_ui3cpp.Cpu.Frames.{Field, OnStack, fault_fields, push_fault_frame-OnStack}
use em68030_win_ui3cpp.Cpu.Framing.{Handles, moved-OnStack, read_vector}

-- The special status word that `HandleBusError` reports.
abbrev pub reported_ssw : {Mem : Type 0} → Mc68030 Mem → ℕ
reported_ssw s =
    let e = fault_of s in
    let physical = (e.ssw == 0) && (e.function_code == 0) in
    let fc = (if physical then get_function_code false s else e.function_code) in
    if physical then fault_ssw fc e.is_write else e.ssw

-- The state in which the frame of a fault is built.
abbrev pub cleared : {Mem : Type 0} → Mc68030 Mem → Mc68030 Mem
cleared s = with_fault clear_bus_error (before s)

module _ {Mem : Type 0} (board : Board Mem) where
  -- With the MMU off, testing the fault leaves all but MMUSR and the last descriptor address.
  tested_off :
      (access : Access) (s : Mc68030 Mem)
      → s.machine.mmu.enabled ≡ false
      → test_fault board access s ≡ record s {
        machine = record (s.machine) {
          mmu = record (s.machine.mmu) { mmusr = 0; last_descriptor_address = 0 };
        };
      }
  unfolding test_fault p_test
  tested_off access s off = rw off refl

module _ {Mem : Type 0} {board : Board Mem} {base size : ℕ} (ram : Ram board base size) where
  entered-OnStack :
      (top : ℕ) (s t : Mc68030 Mem)
      → t ≡ record s {
        machine = record (s.machine) {
          mmu = record (s.machine.mmu) { mmusr = 0; last_descriptor_address = 0 };
        };
        processing_bus_error = true;
      }
      → OnStack ram top [] (entered s)
      → OnStack ram top [] (entered t)
  unfolding enter_stack set_supervisor_mode
  entered-OnStack top s t e o = rw e (elim (Bool-cases (has s.sr supervisor_bit)) [
    | inl b ↦
        moved-OnStack ram top [] (entered s) _ o (rw b refl) (rw b refl) (rw b refl) (rw b refl)
    | inr b ↦
        moved-OnStack ram top [] (entered s) _ o (rw b refl) (rw b refl) (rw b refl) (rw b refl)
  ])

  finish_fault-Handles :
      (f : ℕ) (fs : List Field) (address : ℕ) (r : Reading (Mc68030 Mem))
      → Handles ram f fs address (record (r.after) { pc = r.value })
      → Handles ram f fs address (finish_fault r) × ((finish_fault r).halted ≡ r.after.halted)
  unfolding finish_fault moved-OnStack
  finish_fault-Handles f fs address r h =
      let there : Mc68030 Mem = record (r.after) { pc = r.value } in
      if-P_false (λ (x : Mc68030 Mem). Handles ram f fs address x × (x.halted ≡ r.after.halted))
        (is_pending r.after) (doubled r) (vectored r) h.0.ready.settled
        ((moved-OnStack ram f fs there (vectored r) h.0 refl refl refl refl, h.1), refl)

  -- The frame is built and the handler's address read, in a state that is marked as in a bus error.
  take_fault-Handles :
      (f address ssw fc : ℕ) (write : Bool) (s : Mc68030 Mem)
      → let table = add32 s.control.vbr 8 in
        base ≤ f
        → address < 2 ^ 32
        → ssw < 2 ^ 16
        → s.sr < 2 ^ 16
        → s.pc < 2 ^ 32
        → s.machine.mmu.enabled ≡ false
        → Within ram long table
        → OnStack ram (f + 32) [] (entered s)
        → let r =
            take_fault board address write fc ssw (record s { processing_bus_error = true }) in
          Handles ram f
            (fault_fields ram f address ssw s.sr s.pc)
            table
            (record (r.after) { pc = r.value })
          × (r.after.halted ≡ s.halted)
  unfolding take_fault
  take_fault-Handles f address ssw fc write s room ha hssw hsr hpc off w o =
      let access : Access = record { logical = address; write = write; fc = fc } in
      let marked : Mc68030 Mem = record s { processing_bus_error = true } in
      let tested = test_fault board access marked in
      let e = tested_off board access marked off in
      let entering = entered tested in
      let there = entered_lem tested in
      let ready = entered-OnStack (f + 32) s tested e o in
      let sr : tested.sr ≡ s.sr = ap (λ (x : Mc68030 Mem). x.sr) e in
      let pc : entering.pc ≡ s.pc =
        ap (λ (x : Mc68030 Mem). x.pc) there ∙ ap (λ (x : Mc68030 Mem). x.pc) e in
      let pushed = push_fault_frame board address ssw tested.sr entering in
      let kept = push_fault_frame-Pushes board address ssw tested.sr entering in
      let fs = fault_fields ram f address ssw s.sr s.pc in
      let framed : OnStack ram f (fault_fields ram f address ssw tested.sr entering.pc) pushed =
        push_fault_frame-OnStack ram f address ssw tested.sr entering room ha hssw
          (omega (arith, sr, hsr)) (omega (arith, pc, hpc)) ready in
      let laid : OnStack ram f fs pushed =
        subst (λ (x : ℕ). OnStack ram f (fault_fields ram f address ssw x s.pc) pushed) sr
          (subst (λ (x : ℕ). OnStack ram f (fault_fields ram f address ssw tested.sr x) pushed) pc
            framed) in
      let at : add32 pushed.control.vbr 8 ≡ add32 s.control.vbr 8 =
        ap (λ (x : Mc68030 Mem). add32 x.control.vbr 8) kept
        ∙ ap (λ (x : Mc68030 Mem). add32 x.control.vbr 8) there
        ∙ ap (λ (x : Mc68030 Mem). add32 x.control.vbr 8) e in
      let halted : pushed.halted ≡ s.halted =
        ap (λ (x : Mc68030 Mem). x.halted) kept
        ∙ ap (λ (x : Mc68030 Mem). x.halted) there
        ∙ ap (λ (x : Mc68030 Mem). x.halted) e in
      let table = add32 s.control.vbr 8 in
      let r = read_long board table pushed in
      let same : read_long board (add32 pushed.control.vbr 8)
            (translate_read board (add32 pushed.control.vbr 8) false pushed).after
          ≡ r =
        ap (λ (x : Reading (Mc68030 Mem)). read_long board (add32 pushed.control.vbr 8) x.after)
          (translate_read-off board (add32 pushed.control.vbr 8) false pushed laid.ready.off)
        ∙ ap (λ (x : ℕ). read_long board x pushed) at in
      rw same (
        read_vector ram f fs table pushed w laid,
        ap (λ (x : Mc68030 Mem). x.halted) (read_long-Keeps board table pushed) ∙ halted,
      )

  -- A pending bus error that is taken lays its frame in RAM: A7 points to SR from before the instruction,
  -- PC of that instruction is at offset 2, 0xA008 at 6, the special status word at 10, the fault
  -- address at 16 and 0 elsewhere in the 32 bytes. The CPU goes on at the handler that the table's
  -- entry 2 names, in supervisor mode, and is halted only where it was. The data and address registers
  -- and the user's stack pointer are those from before the instruction, and the supervisor's is lower
  -- by 32. For a state that is not in a
  -- bus error and has its registers saved, a stack and an entry of the table in RAM, and the MMU off.
  pub handle_bus_error-Handles :
      (f : ℕ) (s : Mc68030 Mem)
      → let e = fault_of s in
        let table = add32 s.control.vbr 8 in
        is_pending s ≡ true
        → s.processing_bus_error ≡ false
        → s.snapshot.needed ≡ false
        → base ≤ f
        → e.fault_address < 2 ^ 32
        → reported_ssw (before s) < 2 ^ 16
        → s.snapshot.sr < 2 ^ 16
        → s.snapshot.last_pc < 2 ^ 32
        → Within ram long table
        → OnStack ram (f + 32) [] (entered (cleared s))
        → let t = handle_bus_error board s in
          Handles ram f
            (fault_fields ram f e.fault_address
              (reported_ssw (before s))
              s.snapshot.sr
              s.snapshot.last_pc)
            table
            t
          × Frames board (before s) t
          × (t.halted ≡ s.halted)
  unfolding handle_bus_error drain raise_bus_error stacks fault_ssw
  handle_bus_error-Handles f s pending idle saved room ha hssw hsr hpc w o =
      let e = fault_of s in
      let table = add32 s.control.vbr 8 in
      let fc =
        (if (e.ssw == 0) && (e.function_code == 0)
          then get_function_code false (before s)
          else e.function_code) in
      let fs =
        fault_fields ram f e.fault_address (reported_ssw (before s)) s.snapshot.sr
          s.snapshot.last_pc in
      let off : (cleared s).machine.mmu.enabled ≡ false =
        sym (ap (λ (x : Mc68030 Mem). x.machine.mmu.enabled) (entered_lem (cleared s)))
        ∙ o.ready.off in
      let taken =
        take_fault-Handles f e.fault_address (reported_ssw (before s)) fc e.is_write (cleared s)
          room ha hssw hsr hpc off w o in
      let r =
        take_fault board e.fault_address e.is_write fc (reported_ssw (before s))
          (record (cleared s) { processing_bus_error = true }) in
      let done = finish_fault-Handles f fs table r taken.0 in
      let goal = λ (x : Mc68030 Mem). Handles ram f fs table x × (x.halted ≡ s.halted) in
      let drained : goal (drain board (before s)) =
        if-P_false goal s.processing_bus_error _ (finish_fault r) idle (done.0, done.1 ∙ taken.1) in
      let handled : goal (handle_bus_error board s) =
        if-P_true goal (is_pending s) _ _ pending (rw (roll_back-before s saved) drained) in
      (handled.0, handle_bus_error-Frames board s pending idle saved, handled.1)
