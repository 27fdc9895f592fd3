-- ===== src/Pcc/Registers.antt =====
-- Bus accesses: `ReadByte` to `WriteLong` of Em68030/IO/PccDevice.cpp. The two `switch`es over the
-- offset are a decoder and a function by clauses on the register that it finds.
use em68030_win_ui3cpp.Common.{
  ℕ, ◌+◌, ◌-◌, ◌*◌, ◌/◌, ◌%◌, ◌^◌, Option, none, some, bit_and, bit_or, ltb, ◌==◌, if◌then◌else◌,
  set,
}
use em68030_win_ui3cpp.Pcc.Timer.{current_timer_count, write_timer_control}
use em68030_win_ui3cpp.Pcc.Irq.{write_icr, write_device_icr, write_soft_icr}
use em68030_win_ui3cpp.Pcc.State.{Pcc, update_ipl, dma_reg}

-- The `case` labels 0x10 to 0x2F of the switches.
pub data Register : Type 0 where
  timer1_preload_high timer1_preload_low timer1_count_high timer1_count_low : Register
  timer2_preload_high timer2_preload_low timer2_count_high timer2_count_low : Register
  timer1_icr timer1_control timer2_icr timer2_control : Register
  ac_fail_icr wdog_icr printer_icr printer_control : Register
  dma_icr dma_control bus_err_icr dma_status : Register
  abort_icr table_addr_fc scc_icr general_control : Register
  lance_icr general_status scsi_icr slave_base_addr : Register
  soft1_icr vector_base soft2_icr revision : Register

abbrev pub base_address : ℕ
base_address = 0xfffe1000

-- `address - BaseAddress` in `uint32_t`.
abbrev pub offset_in : ℕ → ℕ
offset_in address = (address + 2 ^ 32 - base_address) % 2 ^ 32

unfoldable pub decode : ℕ → Option Register
decode offset =
    if offset == 0x10
    then some Register.timer1_preload_high
    else if offset == 0x11
    then some Register.timer1_preload_low
    else if offset == 0x12
    then some Register.timer1_count_high
    else if offset == 0x13
    then some Register.timer1_count_low
    else if offset == 0x14
    then some Register.timer2_preload_high
    else if offset == 0x15
    then some Register.timer2_preload_low
    else if offset == 0x16
    then some Register.timer2_count_high
    else if offset == 0x17
    then some Register.timer2_count_low
    else if offset == 0x18
    then some Register.timer1_icr
    else if offset == 0x19
    then some Register.timer1_control
    else if offset == 0x1a
    then some Register.timer2_icr
    else if offset == 0x1b
    then some Register.timer2_control
    else if offset == 0x1c
    then some Register.ac_fail_icr
    else if offset == 0x1d
    then some Register.wdog_icr
    else if offset == 0x1e
    then some Register.printer_icr
    else if offset == 0x1f
    then some Register.printer_control
    else if offset == 0x20
    then some Register.dma_icr
    else if offset == 0x21
    then some Register.dma_control
    else if offset == 0x22
    then some Register.bus_err_icr
    else if offset == 0x23
    then some Register.dma_status
    else if offset == 0x24
    then some Register.abort_icr
    else if offset == 0x25
    then some Register.table_addr_fc
    else if offset == 0x26
    then some Register.scc_icr
    else if offset == 0x27
    then some Register.general_control
    else if offset == 0x28
    then some Register.lance_icr
    else if offset == 0x29
    then some Register.general_status
    else if offset == 0x2a
    then some Register.scsi_icr
    else if offset == 0x2b
    then some Register.slave_base_addr
    else if offset == 0x2c
    then some Register.soft1_icr
    else if offset == 0x2d
    then some Register.vector_base
    else if offset == 0x2e
    then some Register.soft2_icr
    else if offset == 0x2f
    then some Register.revision
    else none

-- `elapsed` is the time since the last `Tick` at each reading of the clock.
unfoldable pub read_register : Pcc → ℕ → Register → ℕ
read_register p elapsed Register.timer1_preload_high = p.timer1.preload / 2 ^ 8
read_register p elapsed Register.timer1_preload_low = bit_and p.timer1.preload 0xff
read_register p elapsed Register.timer1_count_high =
    bit_and (current_timer_count p.timer1 elapsed / 2 ^ 8) 0xff
read_register p elapsed Register.timer1_count_low =
    bit_and (current_timer_count p.timer1 elapsed) 0xff
read_register p elapsed Register.timer2_preload_high = p.timer2.preload / 2 ^ 8
read_register p elapsed Register.timer2_preload_low = bit_and p.timer2.preload 0xff
read_register p elapsed Register.timer2_count_high =
    bit_and (current_timer_count p.timer2 elapsed / 2 ^ 8) 0xff
read_register p elapsed Register.timer2_count_low =
    bit_and (current_timer_count p.timer2 elapsed) 0xff
read_register p elapsed Register.timer1_icr = p.timer1.icr
read_register p elapsed Register.timer1_control =
    bit_or p.timer1.control (p.timer1.overflow_count * 2 ^ 4) % 2 ^ 8
read_register p elapsed Register.timer2_icr = p.timer2.icr
read_register p elapsed Register.timer2_control =
    bit_or p.timer2.control (p.timer2.overflow_count * 2 ^ 4) % 2 ^ 8
read_register p elapsed Register.ac_fail_icr = p.ac_fail_icr
read_register p elapsed Register.wdog_icr = p.wdog_icr
read_register p elapsed Register.printer_icr = p.printer_icr
read_register p elapsed Register.printer_control = p.printer_control
read_register p elapsed Register.dma_icr = p.dma_icr
read_register p elapsed Register.dma_control = p.dma_control
read_register p elapsed Register.bus_err_icr = p.bus_err_icr
read_register p elapsed Register.dma_status = p.dma_status
read_register p elapsed Register.abort_icr = p.abort_icr
read_register p elapsed Register.table_addr_fc = p.table_addr_fc
read_register p elapsed Register.scc_icr = p.scc_icr
read_register p elapsed Register.general_control = p.general_control
read_register p elapsed Register.lance_icr = p.lance_icr
read_register p elapsed Register.general_status = p.general_status
read_register p elapsed Register.scsi_icr = p.scsi_icr
read_register p elapsed Register.slave_base_addr = p.slave_base_addr
read_register p elapsed Register.soft1_icr = p.soft1_icr
read_register p elapsed Register.vector_base = p.vector_base
read_register p elapsed Register.soft2_icr = p.soft2_icr
read_register p elapsed Register.revision = p.revision

unfoldable pub read_byte : ℕ → Pcc → ℕ → ℕ
read_byte elapsed p address =
    let offset = offset_in address in
    if ltb offset 0x10
    then dma_reg p offset
    else elim (decode offset) [ none ↦ 0 | some r ↦ read_register p elapsed r ]

-- The two `ReadByte` calls may find the clock at two times.
unfoldable pub read_word : ℕ → ℕ → Pcc → ℕ → ℕ
read_word elapsed later p address =
    let offset = offset_in address in
    if offset == 0x10
    then p.timer1.preload
    else if offset == 0x12
    then current_timer_count p.timer1 elapsed
    else if offset == 0x14
    then p.timer2.preload
    else if offset == 0x16
    then current_timer_count p.timer2 elapsed
    else bit_or (read_byte elapsed p address * 2 ^ 8) (read_byte later p ((address + 1) % 2 ^ 32))

unfoldable pub read_long : ℕ → ℕ → ℕ → ℕ → Pcc → ℕ → ℕ
read_long t1 t2 t3 t4 p address =
    bit_or (read_word t1 t2 p address * 2 ^ 16) (read_word t3 t4 p ((address + 2) % 2 ^ 32))

abbrev set_high : ℕ → ℕ → ℕ
set_high old value = bit_or (bit_and old 0x00ff) (value * 2 ^ 8)

abbrev set_low : ℕ → ℕ → ℕ
set_low old value = bit_or (bit_and old 0xff00) value

-- `on_watchdog_reset` is the callback `OnWatchdogReset`, the identity where none is set.
unfoldable pub write_register : (Pcc → Pcc) → Pcc → ℕ → Register → Pcc
write_register reset p value Register.timer1_preload_high = record p {
  timer1 = record (p.timer1) { preload = set_high p.timer1.preload value };
}
write_register reset p value Register.timer1_preload_low = record p {
  timer1 = record (p.timer1) { preload = set_low p.timer1.preload value };
}
write_register reset p value Register.timer1_count_high = record p {
  timer1 = record (p.timer1) { count = set_high p.timer1.count value };
}
write_register reset p value Register.timer1_count_low = record p {
  timer1 = record (p.timer1) { count = set_low p.timer1.count value };
}
write_register reset p value Register.timer2_preload_high = record p {
  timer2 = record (p.timer2) { preload = set_high p.timer2.preload value };
}
write_register reset p value Register.timer2_preload_low = record p {
  timer2 = record (p.timer2) { preload = set_low p.timer2.preload value };
}
write_register reset p value Register.timer2_count_high = record p {
  timer2 = record (p.timer2) { count = set_high p.timer2.count value };
}
write_register reset p value Register.timer2_count_low = record p {
  timer2 = record (p.timer2) { count = set_low p.timer2.count value };
}
write_register reset p value Register.timer1_icr =
    update_ipl (record p { timer1 = record (p.timer1) { icr = write_icr p.timer1.icr value } })
write_register reset p value Register.timer1_control = record p {
  timer1 = write_timer_control p.timer1 value;
}
write_register reset p value Register.timer2_icr =
    update_ipl (record p { timer2 = record (p.timer2) { icr = write_icr p.timer2.icr value } })
write_register reset p value Register.timer2_control = record p {
  timer2 = write_timer_control p.timer2 value;
}
write_register reset p value Register.ac_fail_icr =
    update_ipl (record p { ac_fail_icr = write_icr p.ac_fail_icr value })
write_register reset p value Register.wdog_icr =
    if value == 0xa5
    then reset p
    else update_ipl (record p { wdog_icr = write_icr p.wdog_icr value })
write_register reset p value Register.printer_icr =
    update_ipl (record p { printer_icr = write_icr p.printer_icr value })
write_register reset p value Register.printer_control = record p { printer_control = value }
write_register reset p value Register.dma_icr =
    update_ipl (record p { dma_icr = write_icr p.dma_icr value })
write_register reset p value Register.dma_control = record p { dma_control = value }
write_register reset p value Register.bus_err_icr =
    update_ipl (record p { bus_err_icr = write_icr p.bus_err_icr value })
write_register reset p value Register.dma_status = record p { dma_status = value }
write_register reset p value Register.abort_icr =
    update_ipl (record p { abort_icr = write_icr p.abort_icr value })
write_register reset p value Register.table_addr_fc = record p { table_addr_fc = value }
write_register reset p value Register.scc_icr =
    update_ipl (record p { scc_icr = write_device_icr p.scc_icr value p.scc_device_active })
write_register reset p value Register.general_control = record p { general_control = value }
write_register reset p value Register.lance_icr =
    update_ipl (record p { lance_icr = write_device_icr p.lance_icr value p.lance_device_active })
write_register reset p value Register.general_status = record p { general_status = value }
write_register reset p value Register.scsi_icr =
    update_ipl (record p { scsi_icr = write_device_icr p.scsi_icr value p.scsi_device_active })
write_register reset p value Register.slave_base_addr = record p { slave_base_addr = value }
write_register reset p value Register.soft1_icr =
    update_ipl (record p { soft1_icr = write_soft_icr value })
write_register reset p value Register.vector_base = record p { vector_base = value }
write_register reset p value Register.soft2_icr =
    update_ipl (record p { soft2_icr = write_soft_icr value })
write_register reset p value Register.revision = record p { revision = value }

unfoldable pub write_byte : (Pcc → Pcc) → Pcc → ℕ → ℕ → Pcc
write_byte reset p address value =
    let offset = offset_in address in
    if ltb offset 0x10
    then record p { dma_regs = set p.dma_regs offset value }
    else elim (decode offset) [ none ↦ p | some r ↦ write_register reset p value r ]

unfoldable pub write_word : (Pcc → Pcc) → Pcc → ℕ → ℕ → Pcc
write_word reset p address value =
    let offset = offset_in address in
    if offset == 0x10
    then record p { timer1 = record (p.timer1) { preload = value } }
    else if offset == 0x12
    then record p { timer1 = record (p.timer1) { count = value } }
    else if offset == 0x14
    then record p { timer2 = record (p.timer2) { preload = value } }
    else if offset == 0x16
    then record p { timer2 = record (p.timer2) { count = value } }
    else write_byte reset (write_byte reset p address (value / 2 ^ 8)) ((address + 1) % 2 ^ 32)
        (bit_and value 0xff)

unfoldable pub write_long : (Pcc → Pcc) → Pcc → ℕ → ℕ → Pcc
write_long reset p address value =
    write_word reset (write_word reset p address (value / 2 ^ 16)) ((address + 2) % 2 ^ 32)
      (bit_and value 0xffff)
