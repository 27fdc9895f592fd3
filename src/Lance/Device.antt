-- ===== src/Lance/Device.antt =====
-- The registers of the LANCE on the bus, CSR writes, and `Tick`.
use em68030_win_ui3cpp.Common.{
  ℕ, ◌+◌, ◌-◌, ◌*◌, ◌/◌, ◌%◌, ◌^◌, true, false, not, ◌&&◌, Option, none, some, bit_and, bit_or,
  ◌==◌, if◌then◌else◌, has, set,
}
use em68030_win_ui3cpp.Lance.State.{
  Dma, Network, Lance, Machine, csr0, with_csr0, clear16, update_interrupt, read_csr, on_lance,
}
use em68030_win_ui3cpp.Lance.Rings.{do_init, process_tx_ring, process_rx_ring}

-- `address - BaseAddress`.
abbrev pub offset_of : ℕ → ℕ
offset_of address = (address + 2 ^ 32 - 0xfffe1800) % 2 ^ 32

unfoldable pub read_word : ℕ → Lance → ℕ
read_word address d =
    let offset = offset_of address in
    if offset == 0 then read_csr (bit_and d.rap 0x03) d else if offset == 2 then d.rap else 0

unfoldable pub read_byte : ℕ → Lance → ℕ
read_byte address d =
    let v = read_word (bit_and address 0xfffffffe) d in
    if bit_and (offset_of address) 1 == 0 then v / 2 ^ 8 else bit_and v 0xff

unfoldable pub read_long : ℕ → Lance → ℕ
read_long address d = bit_or (read_word address d * 2 ^ 16) (read_word ((address + 2) % 2 ^ 32) d)

module _ {Mem Net : Type 0} (dma : Dma Mem) (network : Network Net) where
  -- A CSR0 write with STOP.
  unfoldable pub stop : Machine Mem Net → Machine Mem Net
  stop s = record s {
    lance = update_interrupt (
        with_csr0 0x0004
          (record (s.lance) { running = false; initialized = false; tx_pending = false }));
    net = network.reset s.net;
  }

  -- The status bits, INEA and TDMD of a CSR0 write.
  unfoldable pub acknowledge : ℕ → Lance → Lance
  acknowledge value d =
      let cleared = clear16 (csr0 d) (bit_and value 0x7f00) in
      let enabled = (if has value 0x0040 then bit_or cleared 0x0040 else cleared) in
      let acknowledged = with_csr0 enabled d in
      if has value 0x0008 then record acknowledged { tx_pending = true } else acknowledged

  unfoldable pub start : Lance → Lance
  start d =
      if d.initialized then with_csr0 (clear16 (csr0 d) 0x0005) (record d { running = true }) else d

  unfoldable pub write_csr0 : ℕ → Machine Mem Net → Machine Mem Net
  write_csr0 value s =
      if has value 0x0004
      then stop s
      else (let acknowledged = on_lance (acknowledge value) s in
          let begun =
            (if has value 0x0001 then do_init dma network acknowledged else acknowledged) in
          let started = (if has value 0x0002 then on_lance start begun else begun) in
          on_lance update_interrupt started)

  unfoldable pub write_csr : ℕ → ℕ → Machine Mem Net → Machine Mem Net
  write_csr csr_num value s =
      if not (csr_num == 0)
      then (if has (csr0 s.lance) 0x0004
          then on_lance (λ d. record d { csr = set d.csr csr_num value }) s
          else s)
      else write_csr0 value s

  unfoldable pub write_word : ℕ → ℕ → Machine Mem Net → Machine Mem Net
  write_word address value s =
      let offset = offset_of address in
      if offset == 0
      then write_csr (bit_and s.lance.rap 0x03) value s
      else if offset == 2
      then on_lance (λ d. record d { rap = value }) s
      else s

  -- Byte writes are ignored.
  unfoldable pub write_byte : ℕ → ℕ → Machine Mem Net → Machine Mem Net
  write_byte address value s = s

  unfoldable pub write_long : ℕ → ℕ → Machine Mem Net → Machine Mem Net
  write_long address value s =
      write_word ((address + 2) % 2 ^ 32) (bit_and value 0xffff)
        (write_word address (value / 2 ^ 16) s)

  -- Another handler, which learns the address of a device that is initialised.
  unfoldable pub set_network_handler : Net → Machine Mem Net → Machine Mem Net
  set_network_handler net s = record s {
    net = (if s.lance.initialized then network.set_guest_mac s.lance.mac_address net else net);
  }

  unfoldable pub tick_receiver : ℕ → Option (Machine Mem Net) → Option (Machine Mem Net)
  tick_receiver fuel none = none
  tick_receiver fuel (some s) =
      if s.lance.running && network.has_pending_packet s.net
      then process_rx_ring dma network fuel s
      else some s

  unfoldable pub tick : ℕ → Machine Mem Net → Option (Machine Mem Net)
  tick fuel s =
      tick_receiver fuel (if s.lance.tx_pending then process_tx_ring dma network fuel s else some s)

unfoldable pub attach_memory : Lance → Lance
attach_memory d = record d { attached = true }
