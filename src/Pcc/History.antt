-- ===== src/Pcc/History.antt =====
-- Everything that reaches the PCC, in any order: bus writes, ticks, device lines, DMA, resets.
-- The CPU sets its level back by itself only in `MC68030::Reset`, which is no event here.
use Prim.Native.String.{String}
use em68030_win_ui3cpp.Common.{ℕ, refl, List, [], ◌∷◌, Bool, false, none, replicate}
use em68030_win_ui3cpp.Pcc.Timer.{Timer}
use em68030_win_ui3cpp.Pcc.Irq.{check_icr, check_all}
use em68030_win_ui3cpp.Pcc.State.{
  Pcc, hardware_reset, tick, set_device_interrupt, set_dma_data_address, set_dma_done,
}
use em68030_win_ui3cpp.Pcc.Registers.{write_byte, write_word, write_long}
use em68030_win_ui3cpp.Pcc.Wiring.{
  IsWired, write_byte-IsWired, write_word-IsWired, write_long-IsWired, hardware_reset-IsWired,
  tick-IsWired, set_device_interrupt-IsWired, set_dma_done-IsWired,
}

pub data Event : Type 0 where
  writes_byte writes_word writes_long : ℕ → ℕ → Event
  ticks resets : ℕ → Event
  line : String → Bool → Event
  dma_address : ℕ → Event
  dma_done : Event

abbrev timer_off : Timer
timer_off = record {
  preload = 0;
  count = 0;
  icr = 0;
  control = 0;
  overflow_count = 0;
  fractional = 0;
}

-- The initial values of the members.
unfoldable pub power_on : ℕ → Pcc
power_on now = record {
  cpu = record { pending_ipl = 0; pending_vector = none; interrupt_suppress = 0 };
  dma_regs = replicate 16 0;
  timer1 = timer_off;
  timer2 = timer_off;
  ac_fail_icr = 0;
  wdog_icr = 0;
  printer_icr = 0;
  printer_control = 0;
  dma_icr = 0;
  dma_control = 0;
  bus_err_icr = 0;
  dma_status = 0;
  abort_icr = 0;
  table_addr_fc = 0;
  scc_icr = 0;
  general_control = 0;
  lance_icr = 0;
  general_status = 0;
  scsi_icr = 0;
  slave_base_addr = 0;
  soft1_icr = 0;
  vector_base = 0x40;
  soft2_icr = 0;
  revision = 0;
  last_timer_timestamp = now;
  scc_device_active = false;
  scsi_device_active = false;
  lance_device_active = false;
}

power_on-IsWired : (now : ℕ) → IsWired (power_on now)
unfolding power_on check_all check_icr
power_on-IsWired now = record { in_sync = refl; latched = (λ e. cc, λ e. cc, λ e. cc) }

-- `scsi_tick` and `reset` are the SCSI controller's `Tick` and the watchdog callback.
module _ (scsi_tick reset : Pcc → Pcc) where
  unfoldable pub step : Pcc → Event → Pcc
  step p (writes_byte address value) = write_byte reset p address value
  step p (writes_word address value) = write_word reset p address value
  step p (writes_long address value) = write_long reset p address value
  step p (ticks now) = tick scsi_tick now p
  step p (resets now) = hardware_reset now p
  step p (line device active) = set_device_interrupt device active p
  step p (dma_address addr) = set_dma_data_address addr p
  step p dma_done = set_dma_done p

  unfoldable pub run : Pcc → List Event → Pcc
  run p [] = p
  run p (e ∷ rest) = run (step p e) rest

  module _ (scsi_keeps : (p : Pcc) → IsWired p → IsWired (scsi_tick p))
      (reset_keeps : (p : Pcc) → IsWired p → IsWired (reset p)) where
    step-IsWired : (p : Pcc) (e : Event) → IsWired p → IsWired (step p e)
    unfolding step set_dma_data_address
    step-IsWired p (writes_byte address value) w =
        write_byte-IsWired reset reset_keeps p address value w
    step-IsWired p (writes_word address value) w =
        write_word-IsWired reset reset_keeps p address value w
    step-IsWired p (writes_long address value) w =
        write_long-IsWired reset reset_keeps p address value w
    step-IsWired p (ticks now) w = tick-IsWired scsi_tick scsi_keeps now p w
    step-IsWired p (resets now) w = hardware_reset-IsWired now p
    step-IsWired p (line device active) w = set_device_interrupt-IsWired device active p w
    step-IsWired p (dma_address addr) w = record { in_sync = w.in_sync; latched = w.latched }
    step-IsWired p dma_done w = set_dma_done-IsWired p w

    run_from-IsWired : (p : Pcc) (es : List Event) → IsWired p → IsWired (run p es)
    unfolding run
    run_from-IsWired p [] w = w
    run_from-IsWired p (e ∷ rest) w = run_from-IsWired (step p e) rest (step-IsWired p e w)

    -- From power-on, after any bus writes, ticks, line changes, DMA calls and resets: the level that
    -- the CPU sees is the highest that the registers ask for, and the INT bit of every device that
    -- asserts its line is latched. The SCSI controller's tick and the watchdog callback keep it so.
    pub run-IsWired : (now : ℕ) (es : List Event) → IsWired (run (power_on now) es)
    run-IsWired now es = run_from-IsWired (power_on now) es (power_on-IsWired now)
