-- ===== src/Cpu/Tests.antt =====
-- The CPU at concrete inputs, on a memory bus with 64 bytes of RAM.
use em68030_win_ui3cpp.Common.{some}
use em68030_win_ui3cpp.Common.{ℕ, ◌≡◌, refl, arith, true, false, [], ◌∷◌, bit_and}
use em68030_win_ui3cpp.Common.Size.{long}
use em68030_win_ui3cpp.Mmu.State.{BusError, clear_bus_error}
use em68030_win_ui3cpp.Memory.Store.{Store}
use em68030_win_ui3cpp.Cpu.State.{get_function_code, interrupt_mask}
use em68030_win_ui3cpp.Cpu.Exceptions.{fault_ssw}
use em68030_win_ui3cpp.Cpu.State.{
  Mc68030, set_sr, set_supervisor_mode, set_interrupt_mask, shadow_push, is_pending, with_fault,
}
use em68030_win_ui3cpp.Mmu.Translate.{translate, translate_read_fast}
use em68030_win_ui3cpp.Cpu.Access.{
  Board, read_long, write_word, write_long, write_translated, read_translated, translate_write,
  translate_read, translate_in, keep_page, hits, memory_read, memory_write,
}
use em68030_win_ui3cpp.Cpu.Fetch.{push_word, push_long}
use em68030_win_ui3cpp.Cpu.Exceptions.{
  evaluate_condition, skip_syscall, push_frame, push_fault_frame, handle_bus_error, enter_stack,
  process_interrupt, jump_vector,
}
use em68030_win_ui3cpp.Cpu.Execute.{Engine, accept_interrupt, is_eligible}
use em68030_win_ui3cpp.Cpu.Conditions.{compared, evaluate_condition-Compares}
use em68030_win_ui3cpp.Cpu.Stacks.{stacks, entered}
use em68030_win_ui3cpp.Cpu.Faults.{before, Frames}
use em68030_win_ui3cpp.Cpu.Interrupts.{Enters, readied, taken, accept_interrupt-is_eligible}
use em68030_win_ui3cpp.Breakpoint.Evaluate.{evaluate_condition as evaluate_breakpoint}
use em68030_win_ui3cpp.Cpu.Entering.{masked}
use em68030_win_ui3cpp.Cpu.Framing.{Handles, accept_interrupt-Handles}
use em68030_win_ui3cpp.Cpu.Faulting.{reported_ssw, cleared, handle_bus_error-Handles}
use em68030_win_ui3cpp.Cpu.Translating.{translate_read-translate_in}
use em68030_win_ui3cpp.Mmu.Agreement.{load}
use em68030_win_ui3cpp.Cpu.Samples.{mmu_off}
use em68030_win_ui3cpp.Cpu.Frames.{OnStack, fault_fields, frame_fields, push_fault_frame-OnStack}
use em68030_win_ui3cpp.Cpu.Returning.{skip_syscall-Returns}
use em68030_win_ui3cpp.Cpu.Samples.{
  zeros, board, user_state, stack_ram, store-HoldsRegion, user_state-OnStack, eight,
}
use em68030_win_ui3cpp.Common.{◌-◌}
use em68030_win_ui3cpp.Common.Size.{byte, word}
use em68030_win_ui3cpp.Common.Bytes.{read_be}
use em68030_win_ui3cpp.Cpu.State.{address_register, set_address_register}
use em68030_win_ui3cpp.Cpu.Keeping.{Keeps}
use em68030_win_ui3cpp.Cpu.Ram.{Writes}
use em68030_win_ui3cpp.Cpu.Addressing.{
  data_reg_direct, addr_reg_post_inc, addr_reg_pre_dec, resolve_address, data_register,
}
use em68030_win_ui3cpp.Cpu.Operands.{
  read_value, read_value_for_modify, write_value, write_value_from_modify,
}
use em68030_win_ui3cpp.Cpu.Modifying.{resolved, write_value_from_modify-Modifies, pre_dec-post_inc}
use em68030_win_ui3cpp.Cpu.Parts.{write_value-replaced}

set_sr_test : (set_sr 0x2700 user_state).a7 ≡ 64
unfolding set_sr
set_sr_test = refl

push_fault_frame-OnStack_example :
    OnStack stack_ram 32
      (fault_fields stack_ram 32 0x8000_0000 0x0145 0x0013 0x1000)
      (push_fault_frame board 0x8000_0000 0x0145 0x0013 (entered user_state))
unfolding enter_stack set_supervisor_mode
push_fault_frame-OnStack_example =
    push_fault_frame-OnStack stack_ram 32 0x8000_0000 0x0145 0x0013 (entered user_state)
      (omega arith) (omega arith) (omega arith) (omega arith) (omega arith) user_state-OnStack

skip_syscall-Returns_example :
    let t = skip_syscall board (push_frame board 32 0x0013 (entered user_state)) in
    (t.pc ≡ 0x1000)
    × (t.sr ≡ bit_and 0x0013 0xfffe)
    × (t.d ≡ eight 0)
    × (t.a ≡ user_state.a)
    × (is_pending t ≡ false)
    × (stacks t ≡ stacks user_state)
skip_syscall-Returns_example =
    skip_syscall-Returns stack_ram 56 32 user_state (omega arith) (omega arith) (omega arith)
      (omega arith) user_state-OnStack

-- An access of an address where nothing is.
abbrev bad_access : BusError
bad_access = record {
  pending = true;
  fault_address = 0x8000_0000;
  is_write = false;
  function_code = 0;
  ssw = 0;
}

abbrev faulted_state : Mc68030 (Store ℕ)
faulted_state = with_fault bad_access user_state

-- A memory that always reads as 0.
abbrev blank : Board (Store ℕ)
blank = record {
  read = λ z a b. record { value = 0; after = b };
  write = λ z a v b. b;
  undefined = λ a m. record { value = 0; after = m };
}

taken_settled : is_pending (taken blank user_state) ≡ false
unfolding process_interrupt jump_vector push_frame push_word push_long write_word write_long
    read_long write_translated read_translated translate_write translate_read translate_in translate
    translate_read_fast keep_page hits memory_read memory_write shadow_push enter_stack
    set_interrupt_mask set_supervisor_mode clear_bus_error
taken_settled = refl

accept_interrupt-is_eligible_example : is_eligible (accept_interrupt blank user_state) ≡ false
accept_interrupt-is_eligible_example =
    accept_interrupt-is_eligible blank user_state (omega arith) (omega arith) taken_settled

-- An instruction that reads where nothing is.
abbrev failing : Engine (Store ℕ)
failing = record {
  execute_next = λ s. read_long board 0x100 s;
  get_cycles = λ opcode. 4;
  tick_handlers = (λ s. s) ∷ [];
}

evaluate_condition-Compares_example :
    let sr = compared long 0xffff_ffff 1 0 user_state in
    (evaluate_condition 0x2 sr ≡ true)
    × (evaluate_condition 0x3 sr ≡ false)
    × (evaluate_condition 0x4 sr ≡ true)
    × (evaluate_condition 0x5 sr ≡ false)
    × (evaluate_condition 0x6 sr ≡ true)
    × (evaluate_condition 0x7 sr ≡ false)
    × (evaluate_condition 0xc sr ≡ false)
    × (evaluate_condition 0xd sr ≡ true)
    × (evaluate_condition 0xe sr ≡ false)
    × (evaluate_condition 0xf sr ≡ true)
evaluate_condition-Compares_example =
    evaluate_condition-Compares long 0xffff_ffff 1 0 user_state (omega arith) (omega arith)

-- An address register that points into the RAM.
abbrev pointing : Mc68030 (Store ℕ)
pointing = record user_state { a = 16 ∷ 0 ∷ 0 ∷ 0 ∷ 0 ∷ 0 ∷ 0 ∷ [] }

write_value_from_modify-Modifies_example :
    let a = (resolve_address board addr_reg_post_inc 0 word pointing).value in
    let r = read_value_for_modify board addr_reg_post_inc 0 word pointing in
    let t = write_value_from_modify board addr_reg_post_inc 0 word 0x1234 r.after in
    (r.value ≡ read_be word zeros (a - 0))
    × Writes stack_ram word a 0x1234 zeros t
    × Keeps (resolved stack_ram addr_reg_post_inc 0 word pointing) t
unfolding resolve_address set_address_register address_register clear_bus_error
write_value_from_modify-Modifies_example =
    write_value_from_modify-Modifies stack_ram addr_reg_post_inc 0 word 0x1234 zeros pointing refl
      (omega arith) (omega arith, omega arith)
      (record { holds = store-HoldsRegion; settled = refl; off = refl; no_page = refl })

pre_dec-post_inc_example :
    let up = (resolve_address board addr_reg_post_inc 0 byte pointing).after in
    let down = resolve_address board addr_reg_pre_dec 0 byte up in
    (down.value ≡ (resolve_address board addr_reg_post_inc 0 byte pointing).value)
    × (address_register 1 down.after ≡ address_register 1 pointing)
unfolding address_register
pre_dec-post_inc_example = pre_dec-post_inc board 0 1 byte pointing (omega arith) refl (omega arith)

write_value-replaced_example :
    let t = write_value board data_reg_direct 0 byte 0x1234 user_state in
    (data_register 0 t ≡ 0x34)
    × ((read_value board data_reg_direct 0 byte t).value ≡ 0x34)
    × (write_value_from_modify board data_reg_direct 0 byte 0x1234 user_state ≡ t)
    × ((read_value_for_modify board data_reg_direct 0 byte t).value ≡ 0x34)
write_value-replaced_example =
    write_value-replaced board byte 0 0 0x1234 user_state (omega arith) refl (omega arith)
      (omega arith)

-- A request whose vector lies in the RAM.
abbrev interrupted : Mc68030 (Store ℕ)
interrupted = record user_state {
  irq = record { pending_ipl = 5; pending_vector = some 5; interrupt_suppress = 0 };
}

interrupted-OnStack : OnStack stack_ram 64 [] (masked 5 (readied interrupted))
unfolding enter_stack set_supervisor_mode set_interrupt_mask clear_bus_error
interrupted-OnStack = record {
  bytes = zeros;
  ready = record { holds = store-HoldsRegion; settled = refl; off = refl; no_page = refl };
  at_top = refl;
  laid = tt;
  within = omega arith;
  in_space = omega arith;
}

accept_interrupt-Handles_example :
    let t = accept_interrupt board interrupted in
    Handles stack_ram 56 (frame_fields stack_ram 56 5 0x0013 0x1000) 20 t
    × Enters 8 interrupted t
    × (interrupt_mask t.sr ≡ 5)
accept_interrupt-Handles_example =
    accept_interrupt-Handles stack_ram 56 interrupted (omega arith) (omega arith) (omega arith)
      (omega arith) (omega arith, omega arith) interrupted-OnStack

faulted-OnStack : OnStack stack_ram 64 [] (entered (cleared faulted_state))
unfolding enter_stack set_supervisor_mode clear_bus_error
faulted-OnStack = record {
  bytes = zeros;
  ready = record { holds = store-HoldsRegion; settled = refl; off = refl; no_page = refl };
  at_top = refl;
  laid = tt;
  within = omega arith;
  in_space = omega arith;
}

handle_bus_error-Handles_example :
    let t = handle_bus_error board faulted_state in
    Handles stack_ram 32
      (fault_fields stack_ram 32 0x8000_0000 (reported_ssw (before faulted_state)) 0x0013 0x1000)
      8
      t
    × Frames board (before faulted_state) t
    × (t.halted ≡ false)
unfolding fault_ssw get_function_code
handle_bus_error-Handles_example =
    handle_bus_error-Handles stack_ram 32 faulted_state refl refl refl (omega arith) (omega arith)
      (omega arith) (omega arith) (omega arith) (omega arith, omega arith) faulted-OnStack

-- With the MMU on and nothing in its cache.
abbrev translating : Mc68030 (Store ℕ)
translating = record user_state {
  machine = record (user_state.machine) { mmu = record (mmu_off) { enabled = true } };
}

translate_read-translate_in_example :
    translate_read board 0x1234 false translating
    ≡ translate_in board (load 0x1234 (get_function_code false translating)) translating
translate_read-translate_in_example =
    translate_read-translate_in board 0x1234 false translating refl
