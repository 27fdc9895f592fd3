-- ===== src/Cpu/Execute.antt =====
-- `Reset`, `ExecuteStep` and `ExecuteNextFast`. The instruction decoder and the tick handlers are
-- parameters.
use em68030_win_ui3cpp.Common.{
  ℕ, ◌+◌, ◌-◌, List, [], ◌∷◌, Bool, true, false, ◌&&◌, ◌||◌, not, none, ltb, leb, ◌==◌,
  if◌then◌else◌, replicate,
}
use em68030_win_ui3cpp.Common.Size.{long}
use em68030_win_ui3cpp.Mmu.State.{reset as mmu_reset}
use em68030_win_ui3cpp.Mmu.Walk.{Reading}
use em68030_win_ui3cpp.Cpu.State.{Snapshot, Mc68030, is_pending, no_pages, interrupt_mask}
use em68030_win_ui3cpp.Cpu.Access.{Board, memory_read}
use em68030_win_ui3cpp.Cpu.Exceptions.{handle_bus_error, process_interrupt}

-- `m_decoder->ExecuteNext`, `InstructionDecoder::GetCycles` and the devices' handlers.
pub record Engine (Mem : Type 0) : Type 0 where
  pub execute_next : Mc68030 Mem → Reading (Mc68030 Mem)
  pub get_cycles : ℕ → ℕ
  pub tick_handlers : List (Mc68030 Mem → Mc68030 Mem)

abbrev pub tick_interval : ℕ
tick_interval = 256

-- A result of `ExecuteNextFast`: whether the CPU goes on.
pub record Step (Mem : Type 0) : Type 0 where
  pub goes_on : Bool
  pub cpu : Mc68030 Mem

module _ {Mem : Type 0} where
  unfoldable pub run_handlers : List (Mc68030 Mem → Mc68030 Mem) → Mc68030 Mem → Mc68030 Mem
  run_handlers [] s = s
  run_handlers (h ∷ hs) s = run_handlers hs (h s)

  abbrev pub all_registers : Bool → Mc68030 Mem → Snapshot
  all_registers needed s = record {
    last_pc = s.pc;
    a = s.a;
    a7 = s.a7;
    d = s.d;
    sr = s.sr;
    needed = needed;
  }

  abbrev pub save_registers : Mc68030 Mem → Mc68030 Mem
  save_registers s = record s { snapshot = all_registers s.snapshot.needed s }

  -- Without the registers, which the instructions that change them save.
  abbrev pub defer_registers : Mc68030 Mem → Mc68030 Mem
  defer_registers s = record s {
    snapshot = record (s.snapshot) { last_pc = s.pc; sr = s.sr; needed = true };
  }

  -- The request is above the mask, or of level 7.
  unfoldable pub is_eligible : Mc68030 Mem → Bool
  is_eligible s =
      ltb 0 s.irq.pending_ipl
      && ((s.irq.pending_ipl == 7) || ltb (interrupt_mask s.sr) s.irq.pending_ipl)

  abbrev pub is_suppressed : Mc68030 Mem → Bool
  is_suppressed s = ltb 0 s.irq.interrupt_suppress

  abbrev pub count_down : Mc68030 Mem → Mc68030 Mem
  count_down s = record s {
    irq = record (s.irq) { interrupt_suppress = s.irq.interrupt_suppress - 1 };
  }

  abbrev pub wake : Mc68030 Mem → Mc68030 Mem
  wake s = record s { stopped = false; stop_reason = "" }

  abbrev pub count : ℕ → Mc68030 Mem → Mc68030 Mem
  count cycles s = record s {
    cycle_count = s.cycle_count + cycles;
    instruction_count = s.instruction_count + 1;
  }

  -- The handlers run at every 256th call.
  unfoldable pub tick : Engine Mem → Mc68030 Mem → Mc68030 Mem
  tick engine s =
      let next = s.tick_divider + 1 in
      if leb tick_interval next
      then run_handlers engine.tick_handlers (record s { tick_divider = 0 })
      else record s { tick_divider = next }

module _ {Mem : Type 0} (board : Board Mem) where
  abbrev pub settle : Mc68030 Mem → Mc68030 Mem
  settle s = if is_pending s then handle_bus_error board s else s

  unfoldable pub reset : Mc68030 Mem → Mc68030 Mem
  reset s =
      let ssp = memory_read board long 0 s in
      let pc = memory_read board long 4 ssp.after in
      record (pc.after) {
        d = replicate 8 0;
        a = replicate 7 0;
        a7 = ssp.value;
        pc = pc.value;
        sr = 0x2700;
        ssp = ssp.value;
        usp = 0;
        control = record { vbr = 0; cacr = 0; caar = 0; sfc = 0; dfc = 0 };
        function_code_override = none;
        machine = record (pc.after.machine) { mmu = mmu_reset pc.after.machine.mmu };
        pages = no_pages s.pages;
        processing_bus_error = false;
        irq = record (s.irq) { pending_ipl = 0; pending_vector = none };
        tick_divider = 0;
        halted = false;
        stopped = false;
        stop_reason = "";
        cycle_count = 0;
        instruction_count = 0;
        shadow_stack = [];
      }

  unfoldable pub accept_interrupt : Mc68030 Mem → Mc68030 Mem
  accept_interrupt s =
      let saved = save_registers (wake s) in
      count 34 (settle (process_interrupt board s.irq.pending_ipl saved))

  module _ (engine : Engine Mem) where
    -- The instruction, from a state that has its snapshot.
    unfoldable pub execute_instruction : Mc68030 Mem → Mc68030 Mem
    execute_instruction s =
        let r = engine.execute_next s in
        if is_pending r.after
        then handle_bus_error board r.after
        else count (engine.get_cycles r.value) r.after

    unfoldable pub execute_step : Mc68030 Mem → Mc68030 Mem
    execute_step s =
        let ticked = tick engine s in
        let ready = (if is_eligible ticked then count_down ticked else ticked) in
        if s.halted
        then s
        else if is_eligible ticked && not (is_suppressed ticked)
        then accept_interrupt ticked
        else if ready.stopped
        then ready
        else execute_instruction (save_registers ready)

    unfoldable pub execute_next_fast : Mc68030 Mem → Step Mem
    execute_next_fast s =
        let ticked = tick engine s in
        let accepted = accept_interrupt ticked in
        let ready = (if is_eligible ticked then count_down ticked else ticked) in
        let executed = execute_instruction (defer_registers ready) in
        let fault = is_pending (engine.execute_next (defer_registers ready)).after in
        if is_eligible ticked && not (is_suppressed ticked)
        then record { goes_on = not accepted.halted; cpu = accepted }
        else if ready.stopped
        then record { goes_on = false; cpu = ready }
        else record { goes_on = not fault || not executed.halted; cpu = executed }
