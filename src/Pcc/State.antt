-- ===== src/Pcc/State.antt =====
-- The members of `PccDevice` and what it does to the CPU; the operations that no bus access makes:
-- reset, tick, interrupt lines, DMA registers.
use Prim.Native.String.{String}
use text.Mathlib.Text.{◌==◌ as str_eq}
use em68030_win_ui3cpp.Common.{
  ℕ, ◌+◌, ◌-◌, ◌*◌, ◌/◌, ◌%◌, ◌^◌, List, [], ◌∷◌, Bool, false, ◌&&◌, Option, none, some, bit_and,
  bit_or, ltb, leb, if◌then◌else◌, get_or, set,
}
use em68030_win_ui3cpp.Pcc.Timer.{Timer, tick_timer}
use em68030_win_ui3cpp.Pcc.Irq.{Best, Source, check_all}

-- The members of MC68030 that the PCC writes. A vector of -1 is `none`.
pub record Cpu : Type 0 where
  pub pending_ipl : ℕ
  pub pending_vector : Option ℕ
  pub interrupt_suppress : ℕ

pub record Pcc : Type 0 where
  pub cpu : Cpu
  pub dma_regs : List ℕ
  pub timer1 : Timer
  pub timer2 : Timer
  pub ac_fail_icr : ℕ
  pub wdog_icr : ℕ
  pub printer_icr : ℕ
  pub printer_control : ℕ
  pub dma_icr : ℕ
  pub dma_control : ℕ
  pub bus_err_icr : ℕ
  pub dma_status : ℕ
  pub abort_icr : ℕ
  pub table_addr_fc : ℕ
  pub scc_icr : ℕ
  pub general_control : ℕ
  pub lance_icr : ℕ
  pub general_status : ℕ
  pub scsi_icr : ℕ
  pub slave_base_addr : ℕ
  pub soft1_icr : ℕ
  pub vector_base : ℕ
  pub soft2_icr : ℕ
  pub revision : ℕ
  pub last_timer_timestamp : ℕ
  pub scc_device_active : Bool
  pub scsi_device_active : Bool
  pub lance_device_active : Bool

-- The calls of `CheckIcr` in `UpdateIPL`, in their order.
abbrev pub sources : Pcc → List Source
sources p =
    record { icr = p.ac_fail_icr; vector = 0 }
    ∷ record { icr = p.bus_err_icr; vector = 1 }
    ∷ record { icr = p.abort_icr; vector = 2 }
    ∷ record { icr = p.scc_icr; vector = 3 }
    ∷ record { icr = p.lance_icr; vector = 4 }
    ∷ record { icr = p.scsi_icr; vector = 5 }
    ∷ record { icr = p.dma_icr; vector = 6 }
    ∷ record { icr = p.printer_icr; vector = 7 }
    ∷ record { icr = p.timer1.icr; vector = 8 }
    ∷ record { icr = p.timer2.icr; vector = 9 }
    ∷ record { icr = p.soft1_icr; vector = 10 }
    ∷ record { icr = p.soft2_icr; vector = 11 }
    ∷ []

abbrev pub no_request : Best
no_request = record { level = 0; vector = 0 }

-- `SetIPL` of Em68030/Core/MC68030.cpp.
unfoldable pub set_ipl : Cpu → ℕ → Option ℕ → Cpu
set_ipl cpu level vector = record cpu { pending_ipl = level; pending_vector = vector }

unfoldable pub update_ipl : Pcc → Pcc
unfolding set_ipl
update_ipl p =
    let best = check_all (sources p) no_request in
    record p {
      cpu =
          set_ipl p.cpu best.level
            (if ltb 0 best.level then some (p.vector_base + best.vector) else none);
    }

abbrev stopped : Timer → Timer
stopped t = record t { control = 0; icr = 0; overflow_count = 0; count = 0; fractional = 0 }

unfoldable pub hardware_reset : ℕ → Pcc → Pcc
hardware_reset now p = update_ipl (record p {
  timer1 = stopped p.timer1;
  timer2 = stopped p.timer2;
  last_timer_timestamp = now;
  ac_fail_icr = 0;
  wdog_icr = 0;
  printer_icr = 0;
  printer_control = 0;
  dma_icr = 0;
  dma_control = 0;
  bus_err_icr = 0;
  dma_status = 0;
  abort_icr = 0;
  scc_icr = 0;
  general_control = 0;
  lance_icr = 0;
  scsi_icr = 0;
  soft1_icr = 0;
  soft2_icr = 0;
  scc_device_active = false;
  scsi_device_active = false;
  lance_device_active = false;
})

abbrev pub max_elapsed_ns : ℕ
max_elapsed_ns = 100_000_000

abbrev update_if : Bool → Pcc → Pcc
update_if latched p = if latched then update_ipl p else p

unfoldable pub tick_timer1 : ℕ → Pcc → Pcc
tick_timer1 elapsed p =
    let r = tick_timer p.timer1 elapsed in update_if r.1 (record p { timer1 = r.0 })

unfoldable pub tick_timer2 : ℕ → Pcc → Pcc
tick_timer2 elapsed p =
    let r = tick_timer p.timer2 elapsed in update_if r.1 (record p { timer2 = r.0 })

-- `scsi_tick` is what `Wd33c93Device::Tick` does to the PCC, the identity with no SCSI device.
unfoldable pub tick : (Pcc → Pcc) → ℕ → Pcc → Pcc
tick scsi_tick now p =
    let elapsed = now - p.last_timer_timestamp in
    let clamped = (if ltb max_elapsed_ns elapsed then max_elapsed_ns else elapsed) in
    let stamped = record p { last_timer_timestamp = now } in
    if leb elapsed 0 then stamped else scsi_tick (tick_timer2 clamped (tick_timer1 clamped stamped))

-- `icr |= 0x80` or `icr &= 0x7F`.
abbrev line_icr : Bool → ℕ → ℕ
line_icr active icr = if active then bit_or icr 0x80 else bit_and icr 0x7f

-- `SuppressInterrupt` of Em68030/Core/MC68030.h.
unfoldable pub suppress_interrupt : ℕ → Cpu → Cpu
suppress_interrupt instructions cpu = record cpu { interrupt_suppress = instructions }

-- The line of the device, before `UpdateIPL`.
unfoldable pub set_line : String → Bool → Pcc → Pcc
set_line device active p =
    if str_eq device "scc"
    then record p { scc_device_active = active; scc_icr = line_icr active p.scc_icr }
    else if str_eq device "scsi"
    then record p { scsi_device_active = active; scsi_icr = line_icr active p.scsi_icr }
    else if str_eq device "lance"
    then record p { lance_device_active = active; lance_icr = line_icr active p.lance_icr }
    else p

unfoldable pub set_device_interrupt : String → Bool → Pcc → Pcc
unfolding set_line
set_device_interrupt device active p =
    let q = update_ipl (set_line device active p) in
    if str_eq device "scsi" && active then record q { cpu = suppress_interrupt 8 q.cpu } else q

abbrev pub dma_reg : Pcc → ℕ → ℕ
dma_reg p i = get_or p.dma_regs i 0

-- Four bytes, the highest first, by shifts and `|`.
abbrev pub bytes_to_long : ℕ → ℕ → ℕ → ℕ → ℕ
bytes_to_long b3 b2 b1 b0 = bit_or (bit_or (bit_or (b3 * 2 ^ 24) (b2 * 2 ^ 16)) (b1 * 2 ^ 8)) b0

unfoldable pub get_dma_data_address : Pcc → ℕ
get_dma_data_address p = bytes_to_long (dma_reg p 4) (dma_reg p 5) (dma_reg p 6) (dma_reg p 7)

unfoldable pub set_dma_data_address : ℕ → Pcc → Pcc
set_dma_data_address addr p = record p {
  dma_regs =
      set
        (set (set (set p.dma_regs 4 (addr / 2 ^ 24 % 2 ^ 8)) 5 (addr / 2 ^ 16 % 2 ^ 8)) 6
          (addr / 2 ^ 8 % 2 ^ 8))
        7 (addr % 2 ^ 8);
}

unfoldable pub get_dma_byte_count : Pcc → ℕ
get_dma_byte_count p =
    bytes_to_long (bit_and (dma_reg p 8) 0x7f) (dma_reg p 9) (dma_reg p 10) (dma_reg p 11)

unfoldable pub set_dma_done : Pcc → Pcc
set_dma_done p =
    update_ipl
      (record p { dma_control = bit_or p.dma_control 0x80; dma_icr = bit_or p.dma_icr 0x80 })
