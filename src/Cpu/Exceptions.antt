-- ===== src/Cpu/Exceptions.antt =====
-- `RaiseException`, `RaiseBusError`, `HandleBusError`, `ProcessInterrupt` and `RaiseTrap`.
use Prim.Native.String.{String}
use em68030_win_ui3cpp.Common.{
  ℕ, ◌+◌, ◌*◌, List, Bool, true, false, not, ◌&&◌, ◌||◌, none, some, bit_and, bit_or, ◌==◌,
  if◌then◌else◌, get_or, set, has,
}
use em68030_win_ui3cpp.Common.Size.{long}
use em68030_win_ui3cpp.Mmu.State.{clear_bus_error}
use em68030_win_ui3cpp.Mmu.Walk.{Reading, Access}
use em68030_win_ui3cpp.Mmu.Probe.{p_test}
use em68030_win_ui3cpp.Cpu.State.{
  Mc68030, add32, is_pending, fault_of, with_fault, no_pages, get_function_code,
  set_supervisor_mode, set_interrupt_mask, set_sr, shadow_push, supervisor_bit,
}
use em68030_win_ui3cpp.Cpu.Access.{Board, mmu_memory, translate_read, read_long}
use em68030_win_ui3cpp.Cpu.Fetch.{
  push_word, push_long, pop_word, pop_long, read_user, write_user_long,
}

-- The vector's offset with format 0.
abbrev pub format_vector : ℕ → ℕ
format_vector vector = bit_and (vector * 4) 0x0fff

-- The `switch` on the command of an intercepted `ioctl`.
abbrev is_tiocsetaw : ℕ → Bool
is_tiocsetaw cmd = (cmd == 0x802c7415) || (cmd == 0x802c7416)

abbrev pub tiocdrain : ℕ
tiocdrain = 0x2000745e

-- A fault of the memory comes without function code and status word.
unfoldable pub fault_ssw : ℕ → Bool → ℕ
fault_ssw fc is_write =
    let ssw = bit_or (bit_and fc 7) 0x0100 in if is_write then ssw else bit_or ssw 0x0040

module _ {Mem : Type 0} where
  -- The supervisor's stack is taken where the processor was in user mode.
  unfoldable pub enter_stack : ℕ → Mc68030 Mem → Mc68030 Mem
  enter_stack old_sr s =
      if has old_sr supervisor_bit then s else record s { usp = s.a7; a7 = s.ssp }

  abbrev pub clear_flag_c : Mc68030 Mem → Mc68030 Mem
  clear_flag_c s = record s { sr = bit_and s.sr 0xfffe }

  abbrev pub halt : String → Mc68030 Mem → Mc68030 Mem
  halt reason s = record s { halted = true; stop_reason = reason }

  -- A fault while the frame is built halts the processor.
  abbrev pub doubled : Reading (Mc68030 Mem) → Mc68030 Mem
  doubled r =
      halt "Double bus fault (during stack frame construction)"
        (with_fault clear_bus_error (record (r.after) { processing_bus_error = false }))

  abbrev pub vectored : Reading (Mc68030 Mem) → Mc68030 Mem
  vectored r = record (r.after) { pc = r.value; processing_bus_error = false }

  unfoldable pub finish_fault : Reading (Mc68030 Mem) → Mc68030 Mem
  finish_fault r = if is_pending r.after then doubled r else vectored r

  -- The registers as they were before the instruction.
  unfoldable pub roll_back : Mc68030 Mem → Mc68030 Mem
  roll_back s =
      let restored : Mc68030 Mem =
        (if s.snapshot.needed
          then s
          else record s { a = s.snapshot.a; a7 = s.snapshot.a7; d = s.snapshot.d }) in
      record restored { pc = s.snapshot.last_pc; sr = s.snapshot.sr; pages = no_pages s.pages }

module _ {Mem : Type 0} (board : Board Mem) where
  -- The frame of format 0: SR, PC, format and vector.
  unfoldable pub push_frame : ℕ → ℕ → Mc68030 Mem → Mc68030 Mem
  push_frame vector old_sr s =
      let format = push_word board (format_vector vector) s in
      push_word board old_sr (push_long board s.pc format)

  -- The handler's address, and the entry of the shadow stack.
  unfoldable pub jump_vector : ℕ → ℕ → Mc68030 Mem → Mc68030 Mem
  jump_vector vector kind s =
      let r = read_long board (add32 s.control.vbr (vector * 4)) s in
      shadow_push s.pc r.value s.pc kind (record (r.after) { pc = r.value })

  -- `TIOCDRAIN` returns to the caller with success.
  unfoldable pub skip_syscall : Mc68030 Mem → Mc68030 Mem
  skip_syscall s =
      let frame_sr = pop_word board s in
      let frame_pc = pop_long board frame_sr.after in
      let format = pop_word board frame_pc.after in
      let back = set_sr frame_sr.value format.after in
      clear_flag_c (record back { pc = frame_pc.value; d = set back.d 0 0 })

  unfoldable pub intercept : Mc68030 Mem → Mc68030 Mem
  intercept s =
      let cmd = read_user board long (add32 s.usp 8) s in
      if is_tiocsetaw cmd.value
      then write_user_long board (add32 cmd.after.usp 8) 0x802c7414 cmd.after
      else if cmd.value == tiocdrain
      then skip_syscall cmd.after
      else cmd.after

  abbrev pub is_ioctl : ℕ → ℕ → List ℕ → Bool
  is_ioctl vector old_sr d =
      (vector == 32) && not (has old_sr supervisor_bit) && (get_or d 0 0 == 54)

  unfoldable pub raise_exception : ℕ → Mc68030 Mem → Mc68030 Mem
  raise_exception vector s =
      let old_sr = s.sr in
      let pushed = push_frame vector old_sr (enter_stack old_sr (set_supervisor_mode true s)) in
      let jumped = jump_vector vector 1 pushed in
      if is_pending pushed
      then record pushed {
        sr = old_sr;
        a7 = (if has old_sr supervisor_bit then pushed.a7 else pushed.usp);
      }
      else if is_ioctl vector old_sr jumped.d
      then intercept jumped
      else jumped

  -- The frame of format $A, 16 words.
  unfoldable pub push_fault_frame : ℕ → ℕ → ℕ → Mc68030 Mem → Mc68030 Mem
  push_fault_frame fault_address ssw old_sr s =
      let internal =
        push_word board 0 (push_word board 0 (push_long board 0 (push_long board 0 s))) in
      let pipe = push_word board 0 (push_word board 0 (push_long board fault_address internal)) in
      let status = push_word board 0 (push_word board ssw pipe) in
      push_word board old_sr (push_long board s.pc (push_word board (bit_or 0xa000 8) status))

  -- `m_mmu.PTest`, whose status is only logged.
  unfoldable pub test_fault : Access → Mc68030 Mem → Mc68030 Mem
  test_fault access s = record s {
    machine = elim (p_test (mmu_memory board) access 7 s.machine) [
      | some m ↦ m
      | none ↦ (board.undefined access s.machine).after
    ];
  }

  -- The frame, and the handler's address.
  unfoldable pub take_fault : ℕ → Bool → ℕ → ℕ → Mc68030 Mem → Reading (Mc68030 Mem)
  take_fault fault_address is_write fc ssw s =
      let tested = test_fault (record { logical = fault_address; write = is_write; fc = fc }) s in
      let entered = enter_stack tested.sr (set_supervisor_mode true tested) in
      let pushed = push_fault_frame fault_address ssw tested.sr entered in
      let vector_addr = add32 pushed.control.vbr 8 in
      read_long board vector_addr (translate_read board vector_addr false pushed).after

  unfoldable pub raise_bus_error : ℕ → Bool → ℕ → ℕ → Mc68030 Mem → Mc68030 Mem
  raise_bus_error fault_address is_write fc ssw s =
      if s.processing_bus_error
      then halt "Double bus fault" s
      else finish_fault
          (take_fault fault_address is_write fc ssw (record s { processing_bus_error = true }))

  -- The pending fault is taken.
  unfoldable pub drain : Mc68030 Mem → Mc68030 Mem
  unfolding fault_ssw
  drain s =
      let e = fault_of s in
      let physical = (e.ssw == 0) && (e.function_code == 0) in
      let fc = (if physical then get_function_code false s else e.function_code) in
      let ssw = (if physical then fault_ssw fc e.is_write else e.ssw) in
      raise_bus_error e.fault_address e.is_write fc ssw (with_fault clear_bus_error s)

  unfoldable pub handle_bus_error : Mc68030 Mem → Mc68030 Mem
  handle_bus_error s = if is_pending s then drain (roll_back s) else s

  unfoldable pub process_interrupt : ℕ → Mc68030 Mem → Mc68030 Mem
  process_interrupt level s =
      let vector = elim s.irq.pending_vector as (λ _. ℕ) [ some v ↦ v | none ↦ 24 + level ] in
      let entered = enter_stack s.sr (set_interrupt_mask level (set_supervisor_mode true s)) in
      jump_vector vector 2 (push_frame vector s.sr entered)

  -- `TrapExecuted` may set `TrapHandled`.
  unfoldable pub raise_trap : (ℕ → Mc68030 Mem → Mc68030 Mem) → ℕ → Mc68030 Mem → Mc68030 Mem
  raise_trap trap_executed trap_num s =
      let called = trap_executed trap_num (record s { trap_handled = false }) in
      if called.trap_handled then called else raise_exception (32 + trap_num) called

-- `EvaluateCondition`, by the four flags.
unfoldable pub evaluate_condition : ℕ → ℕ → Bool
evaluate_condition code sr =
    let c = has sr 0x01 in
    let v = has sr 0x02 in
    let z = has sr 0x04 in
    let n = has sr 0x08 in
    let same = (if n then v else not v) in
    if code == 0x0
    then true
    else if code == 0x1
    then false
    else if code == 0x2
    then not c && not z
    else if code == 0x3
    then c || z
    else if code == 0x4
    then not c
    else if code == 0x5
    then c
    else if code == 0x6
    then not z
    else if code == 0x7
    then z
    else if code == 0x8
    then not v
    else if code == 0x9
    then v
    else if code == 0xa
    then not n
    else if code == 0xb
    then n
    else if code == 0xc
    then same
    else if code == 0xd
    then not same
    else if code == 0xe
    then not z && same
    else if code == 0xf
    then z || not same
    else false
