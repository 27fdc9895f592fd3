-- ===== src/Cpu/Faults.antt =====
-- What a bus error leaves: `RaiseBusError` and `HandleBusError`.
use mathlib.Core.Path.{subst}
use em68030_win_ui3cpp.Common.{
  arith, ℕ, ◌≡◌, refl, ap, ◌∙◌, inl, inr, Bool, true, false, Bool-cases, has,
}
use em68030_win_ui3cpp.Mmu.State.{clear_bus_error}
use em68030_win_ui3cpp.Mmu.Walk.{Access, Machine, Reading}
use em68030_win_ui3cpp.Cpu.State.{
  Mc68030, add32, is_pending, with_fault, get_supervisor_mode, set_supervisor_mode, with_supervisor,
  supervisor_bit, no_pages,
}
use em68030_win_ui3cpp.Cpu.Access.{Board, translate_read}
use em68030_win_ui3cpp.Cpu.Exceptions.{
  enter_stack, push_fault_frame, raise_bus_error, test_fault, take_fault, finish_fault, doubled,
  vectored, drain, roll_back, handle_bus_error,
}
use em68030_win_ui3cpp.Cpu.Status.{with_supervisor-IsSet}
use em68030_win_ui3cpp.Cpu.Keeping.{
  if-P, if-P_eq, if-P_true, if-P_false, Keeps, Keeps-trans, read_long-Keeps, translate_read-Keeps,
}
use em68030_win_ui3cpp.Cpu.Stacks.{
  stacks, push_supervisor, entered, entered_lem, entered-stacks, push_fault_frame-Pushes,
}
use em68030_win_ui3cpp.Cpu.Entering.{frame_below, frame_below-stacks}

module _ {Mem : Type 0} where
  -- The second state is the first but for where it goes on.
  abbrev faulted_like : Mc68030 Mem → Mc68030 Mem → Mc68030 Mem
  faulted_like u x = record x {
    pc = u.pc;
    halted = u.halted;
    stop_reason = u.stop_reason;
    processing_bus_error = u.processing_bus_error;
    pages = u.pages;
    machine = u.machine;
  }

  abbrev pub Faults : Mc68030 Mem → Mc68030 Mem → Type 0
  Faults s t = t ≡ faulted_like t s

  -- No fault is pending.
  abbrev pub IsSettled : Mc68030 Mem → Type 0
  IsSettled s = is_pending s ≡ false

  -- Nor is one being processed.
  abbrev pub IsSteady : Mc68030 Mem → Type 0
  IsSteady s = (is_pending s ≡ false) × (s.processing_bus_error ≡ false)

  roll_back-processing :
      (s : Mc68030 Mem) → (roll_back s).processing_bus_error ≡ s.processing_bus_error
  unfolding roll_back
  roll_back-processing s = ground arith

  abbrev with_machine : Machine Mem → Mc68030 Mem → Mc68030 Mem
  with_machine m s = record s { processing_bus_error = true; machine = m }

  entered_like :
      (u : Mc68030 Mem) (m : Machine Mem) (s : Mc68030 Mem)
      → faulted_like u (frame_below 32 (entered (with_machine m s)))
        ≡ faulted_like u (frame_below 32 (entered s))
  unfolding enter_stack set_supervisor_mode
  entered_like u m s = elim (Bool-cases (has s.sr supervisor_bit)) [
    | inl e ↦ rw e refl
    | inr e ↦ rw e refl
  ]

  -- The state before the instruction, on the machine as it is.
  abbrev pub before : Mc68030 Mem → Mc68030 Mem
  before s = record s {
    d = s.snapshot.d;
    a = s.snapshot.a;
    a7 = s.snapshot.a7;
    pc = s.snapshot.last_pc;
    sr = s.snapshot.sr;
    pages = no_pages s.pages;
  }

  pub roll_back-before : (s : Mc68030 Mem) → s.snapshot.needed ≡ false → roll_back s ≡ before s
  unfolding roll_back
  roll_back-before s taken =
      if-P_eq
        (λ (x : Mc68030 Mem).
          (record x { pc = s.snapshot.last_pc; sr = s.snapshot.sr; pages = no_pages s.pages })
          ≡ before s)
        s.snapshot.needed _ _ (λ lost. cc) (λ _. refl)

module _ {Mem : Type 0} (board : Board Mem) where
  -- Everything but the machine, the page caches and what `entered` changes.
  take_fault-Keeps :
      (address : ℕ) (write : Bool) (fc ssw : ℕ) (s : Mc68030 Mem)
      → (m : Machine Mem) × Keeps
          (frame_below 32 (entered (record s { machine = m })))
          (take_fault board address write fc ssw s).after
  unfolding take_fault test_fault
  take_fault-Keeps address write fc ssw s =
      let access : Access = record { logical = address; write = write; fc = fc } in
      let tested = test_fault board access s in
      let pushed = push_fault_frame board address ssw tested.sr (entered tested) in
      let vector_addr = add32 pushed.control.vbr 8 in
      let logged = (translate_read board vector_addr false pushed).after in
      let down = frame_below 32 (entered tested) in
      (
        tested.machine,
        Keeps-trans down pushed _
            (push_fault_frame-Pushes board address ssw tested.sr (entered tested))
            (Keeps-trans pushed logged _ (translate_read-Keeps board vector_addr false pushed)
              (read_long-Keeps board vector_addr logged)),
      )

  pub raise_bus_error-Faults :
      (address : ℕ) (write : Bool) (fc ssw : ℕ) (s : Mc68030 Mem)
      → s.processing_bus_error ≡ false
      → Faults (frame_below 32 (entered s)) (raise_bus_error board address write fc ssw s)
  unfolding raise_bus_error finish_fault
  raise_bus_error-Faults address write fc ssw s idle =
      let r = take_fault board address write fc ssw (record s { processing_bus_error = true }) in
      let (m, kept) =
        take_fault-Keeps address write fc ssw (record s { processing_bus_error = true }) in
      let alike = λ (u : Mc68030 Mem). ap (faulted_like u) kept ∙ entered_like u m s in
      let fault = Faults (frame_below 32 (entered s)) in
      if-P_false fault s.processing_bus_error _ _ idle
        (if-P fault (is_pending r.after) _ _ (alike (doubled r)) (alike (vectored r)))

  finish_fault-IsSteady : (r : Reading (Mc68030 Mem)) → IsSteady (finish_fault r)
  unfolding finish_fault clear_bus_error
  finish_fault-IsSteady r =
      if-P_eq IsSteady (is_pending r.after) _ _ (λ _. (refl, refl)) (λ e. (e, refl))

  raise_bus_error-IsSteady :
      (address : ℕ) (write : Bool) (fc ssw : ℕ) (s : Mc68030 Mem)
      → s.processing_bus_error ≡ false
      → IsSteady (raise_bus_error board address write fc ssw s)
  unfolding raise_bus_error
  raise_bus_error-IsSteady address write fc ssw s idle =
      if-P_false IsSteady s.processing_bus_error _ _ idle (finish_fault-IsSteady _)

  -- `HandleBusError` leaves no fault pending, also where building the frame faults again.
  pub handle_bus_error-IsSteady :
      (s : Mc68030 Mem) → s.processing_bus_error ≡ false → IsSteady (handle_bus_error board s)
  unfolding handle_bus_error drain
  handle_bus_error-IsSteady s idle =
      if-P_eq IsSteady (is_pending s) _ _
        (λ _. raise_bus_error-IsSteady _ _ _ _ _ (roll_back-processing s ∙ idle)) (λ e. (e, idle))

  -- The supervisor's stack pointer of the state `s` lower by 32, and the user's and the data and address
  -- registers kept.
  abbrev pub Frames : Mc68030 Mem → Mc68030 Mem → Type 0
  Frames s t =
      (t.d ≡ s.d)
      × (t.a ≡ s.a)
      × (t.stopped ≡ s.stopped)
      × (t.sr ≡ with_supervisor true s.sr)
      × (stacks t ≡ push_supervisor 32 (stacks s))

  Faults-Frames : (s t : Mc68030 Mem) → Faults (frame_below 32 (entered s)) t → Frames s t
  unfolding stacks
  Faults-Frames s t f =
      let e = entered_lem s in
      let mode : get_supervisor_mode (entered s) ≡ true =
        ap (λ (x : Mc68030 Mem). get_supervisor_mode x) e ∙ with_supervisor-IsSet s.sr in
      let there = f ∙ ap (λ (x : Mc68030 Mem). faulted_like t (frame_below 32 x)) e in
      (
        ap (λ (x : Mc68030 Mem). x.d) there,
        ap (λ (x : Mc68030 Mem). x.a) there,
        ap (λ (x : Mc68030 Mem). x.stopped) there,
        ap (λ (x : Mc68030 Mem). x.sr) there,
        ap stacks f
            ∙ frame_below-stacks 32 (entered s) mode
            ∙ ap (push_supervisor 32) (entered-stacks s),
      )

  -- The same from whatever the registers are rolled back to.
  pub handle_bus_error-rolls_back :
      (s : Mc68030 Mem)
      → is_pending s ≡ true
      → s.processing_bus_error ≡ false
      → Frames (roll_back s) (handle_bus_error board s)
  unfolding handle_bus_error drain stacks
  handle_bus_error-rolls_back s pending idle =
      let cleared = with_fault clear_bus_error (roll_back s) in
      if-P_true (Frames (roll_back s)) (is_pending s) _ _ pending (
        Faults-Frames cleared _
          (raise_bus_error-Faults _ _ _ _ cleared (roll_back-processing s ∙ idle)))

  -- `HandleBusError` takes a pending fault from the state before the instruction: the data and address
  -- registers and whether the CPU is stopped are as they were, SR is but for the supervisor bit, which
  -- is set, the supervisor's stack pointer is lower by 32 and the user's is kept. For a state that
  -- is not in a bus error and has its registers saved, whether the CPU halts or not.
  pub handle_bus_error-Frames :
      (s : Mc68030 Mem)
      → is_pending s ≡ true
      → s.processing_bus_error ≡ false
      → s.snapshot.needed ≡ false
      → Frames (before s) (handle_bus_error board s)
  handle_bus_error-Frames s pending idle taken =
      subst (λ (x : Mc68030 Mem). Frames x (handle_bus_error board s)) (roll_back-before s taken)
        (handle_bus_error-rolls_back s pending idle)
