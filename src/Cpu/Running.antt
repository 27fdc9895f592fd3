-- ===== src/Cpu/Running.antt =====
-- The CPU along every sequence of steps and requests.
use em68030_win_ui3cpp.Common.{
  suc, false, ◌≡◌, ◌⊎◌, length, ℕ, not, ◌&&◌, List, [], ◌∷◌, Option, if◌then◌else◌,
}
use em68030_win_ui3cpp.Pcc.State.{set_ipl, suppress_interrupt}
use em68030_win_ui3cpp.Cpu.State.{Mc68030, is_pending}
use em68030_win_ui3cpp.Cpu.Access.{Board}
use em68030_win_ui3cpp.Cpu.Exceptions.{process_interrupt, roll_back}
use em68030_win_ui3cpp.Cpu.Execute.{
  Engine, tick, execute_step, execute_next_fast, is_eligible, is_suppressed, count_down,
  defer_registers, save_registers, wake,
}
use em68030_win_ui3cpp.Cpu.Faults.{IsSteady, Frames}
use em68030_win_ui3cpp.Breakpoint.Text.{Text}
use em68030_win_ui3cpp.Breakpoint.Evaluate.{evaluate_condition}

-- What happens to the CPU from outside, its own steps, and a breakpoint whose condition is evaluated.
pub data Event : Type 0 where
  step : Event
  fast_step : Event
  request : ℕ → Option ℕ → Event
  suppress : ℕ → Event
  check : Text → Event

module _ {Mem : Type 0} where
  -- No handler leaves a fault behind.
  abbrev pub Settling : List (Mc68030 Mem → Mc68030 Mem) → Type 0
  Settling [] = Unit
  Settling (h ∷ hs) = ((s : Mc68030 Mem) → IsSteady s → IsSteady (h s)) × Settling hs

  -- The instructions leave the mark of a bus error to `HandleBusError`.
  abbrev pub Unmarking : Engine Mem → Type 0
  Unmarking engine =
      (s : Mc68030 Mem)
      → s.processing_bus_error ≡ false
      → (engine.execute_next s).after.processing_bus_error ≡ false

module _ {Mem : Type 0} (board : Board Mem) where
  -- The first state meets no fault, or the second is the one in which its fault is taken: from the
  -- registers rolled back, in supervisor mode and with the supervisor's stack pointer lower by 32.
  abbrev pub Takes : Mc68030 Mem → Mc68030 Mem → Type 0
  Takes m t = (is_pending m ≡ false) ⊎ Frames board (roll_back m) t

  -- Afterwards no fault is pending, and what was met has been taken.
  abbrev Settles : Mc68030 Mem → Mc68030 Mem → Type 0
  Settles m t = Takes m t × IsSteady t

  abbrev pub entry : Mc68030 Mem → Mc68030 Mem
  entry s = process_interrupt board s.irq.pending_ipl (save_registers (wake s))

  module _ (engine : Engine Mem) where
    -- What a step comes to before a fault is taken.
    abbrev pub met_ticked : (Mc68030 Mem → Mc68030 Mem) → Mc68030 Mem → Mc68030 Mem
    met_ticked save ticked =
        let ready = (if is_eligible ticked then count_down ticked else ticked) in
        if is_eligible ticked && not (is_suppressed ticked)
        then entry ticked
        else if ready.stopped
        then ready
        else (engine.execute_next (save ready)).after

    abbrev pub met : Event → Mc68030 Mem → Mc68030 Mem
    met step s = if s.halted then s else met_ticked save_registers (tick engine s)
    met fast_step s = met_ticked defer_registers (tick engine s)
    met (request level vector) s = s
    met (suppress n) s = s
    met (check t) s = s

    abbrev pub happen : Event → Mc68030 Mem → Mc68030 Mem
    happen step s = execute_step board engine s
    happen fast_step s = (execute_next_fast board engine s).cpu
    happen (request level vector) s = record s { irq = set_ipl s.irq level vector }
    happen (suppress n) s = record s { irq = suppress_interrupt n s.irq }
    happen (check t) s = (evaluate_condition board (suc (length t)) t s).after

    abbrev pub run : List Event → Mc68030 Mem → Mc68030 Mem
    run [] s = s
    run (e ∷ es) s = run es (happen e s)

    -- A condition reads nothing that faults.
    abbrev Reads : Event → Mc68030 Mem → Type 0
    Reads (check t) s = is_pending (happen (check t) s) ≡ false
    Reads _ s = Unit

    abbrev pub AllRead : List Event → Mc68030 Mem → Type 0
    AllRead [] s = Unit
    AllRead (e ∷ es) s = Reads e s × AllRead es (happen e s)

    -- Every event's fault is taken in that event, and none is pending or processed after it.
    abbrev pub AllSettle : List Event → Mc68030 Mem → Type 0
    AllSettle [] s = IsSteady s
    AllSettle (e ∷ es) s = IsSteady s × Takes (met e s) (happen e s) × AllSettle es (happen e s)
