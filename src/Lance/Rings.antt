-- ===== src/Lance/Rings.antt =====
-- `DoInit`, and the two descriptor rings: `ProcessTxRing` and `ProcessRxRing`.
-- Addresses have 24 bits, so that the sums of them do not wrap. The loops run on fuel: `none` is a loop
-- that has not ended when the fuel is used up.
use em68030_win_ui3cpp.Common.{
  ℕ, zero, suc, ◌+◌, ◌-◌, ◌*◌, ◌/◌, ◌%◌, ◌^◌, Bool, true, false, not, ◌&&◌, ◌||◌, List, [], ◌∷◌,
  Option, none, some, bit_and, bit_or, ltb, leb, if◌then◌else◌, has, length, get_or,
}
use em68030_win_ui3cpp.Common.Size.{byte, word}
use em68030_win_ui3cpp.Lance.State.{
  Dma, Network, Machine, csr0, with_csr0, clear16, update_interrupt,
}

-- The 24-bit address in a low word and the low byte of a high one.
abbrev pub address24 : ℕ → ℕ → ℕ
address24 lo hi = bit_or (bit_and lo 0xffff) (bit_and hi 0x00ff * 2 ^ 16)

-- `-static_cast<int16_t>(w | 0xF000)`, which is positive.
abbrev pub byte_count : ℕ → ℕ
byte_count w = 0x10000 - bit_or w 0xf000

-- The status word of a descriptor without the flags `OWN` and with those of a result.
abbrev pub returned : ℕ → ℕ → ℕ
returned flags status = bit_or (flags * 2 ^ 8) (bit_and status 0xff)

abbrev pub flags_of : ℕ → ℕ
flags_of status = status / 2 ^ 8 % 2 ^ 8

module _ {Mem : Type 0} (dma : Dma Mem) where
  unfoldable pub peek_bytes : ℕ → ℕ → Mem → List ℕ × Mem
  peek_bytes zero addr m = ([], m)
  peek_bytes (suc n) addr m =
      let first = dma.peek byte addr m in
      let rest = peek_bytes n (addr + 1) first.after in (first.value ∷ rest.0, rest.1)

  unfoldable pub poke_bytes : List ℕ → ℕ → Mem → Mem
  poke_bytes [] addr m = m
  poke_bytes (v ∷ vs) addr m = poke_bytes vs (addr + 1) (dma.poke byte addr v m)

module _ {Mem Net : Type 0} (dma : Dma Mem) (network : Network Net) where
  unfoldable pub do_init : Machine Mem Net → Machine Mem Net
  do_init s =
      let d = s.lance in
      if not d.attached
      then s
      else (let iadr = address24 (get_or d.csr 1 0) (get_or d.csr 2 0) in
          let mode = dma.peek word iadr s.mem in
          let padr0 = dma.peek word (iadr + 0x02) mode.after in
          let padr1 = dma.peek word (iadr + 0x04) padr0.after in
          let padr2 = dma.peek word (iadr + 0x06) padr1.after in
          let rdra_lo = dma.peek word (iadr + 0x10) padr2.after in
          let rlen_rhi = dma.peek word (iadr + 0x12) rdra_lo.after in
          let tdra_lo = dma.peek word (iadr + 0x14) rlen_rhi.after in
          let tlen_thi = dma.peek word (iadr + 0x16) tdra_lo.after in
          let mac =
            bit_and padr0.value 0xff
            ∷ padr0.value / 2 ^ 8
            ∷ bit_and padr1.value 0xff
            ∷ padr1.value / 2 ^ 8
            ∷ bit_and padr2.value 0xff
            ∷ padr2.value / 2 ^ 8
            ∷ [] in
          record {
            lance = with_csr0 (bit_or (clear16 (csr0 d) 0x0004) 0x0100) (record d {
              mode = mode.value;
              mac_address = mac;
              rx_ring_addr = address24 rdra_lo.value rlen_rhi.value;
              rx_ring_len = 2 ^ bit_and (rlen_rhi.value / 2 ^ 13) 7;
              tx_ring_addr = address24 tdra_lo.value tlen_thi.value;
              tx_ring_len = 2 ^ bit_and (tlen_thi.value / 2 ^ 13) 7;
              initialized = true;
              tx_ring_index = 0;
              rx_ring_index = 0;
            });
            mem = tlen_thi.after;
            net = network.set_guest_mac mac s.net;
          })

  -- The packet of a descriptor is read, and given to the handler where one buffer holds it.
  unfoldable pub send : ℕ → ℕ → ℕ → Machine Mem Net → Machine Mem Net
  send tmd0 tmd1 tmd2 s =
      let count = byte_count tmd2 in
      if ltb 0 count && leb count 1536
      then (let packet = peek_bytes dma count (address24 tmd0 tmd1) s.mem in
          let flags = flags_of tmd1 in
          record s {
            mem = packet.1;
            net =
                (if has flags 0x02 && has flags 0x01
                  then network.process_packet packet.0 s.net
                  else s.net);
          })
      else s

  -- One round for a descriptor that the device owns.
  unfoldable pub transmit : ℕ → ℕ → ℕ → Machine Mem Net → Machine Mem Net
  transmit tmd0 tmd1 tmd2 s =
      let d = s.lance in
      let desc = d.tx_ring_addr + d.tx_ring_index * 8 in
      let sent = send tmd0 tmd1 tmd2 s in
      let handed =
        dma.poke word (desc + 2) (returned (bit_and (flags_of tmd1) 0x7f) tmd1) sent.mem in
      record sent {
        lance = record d { tx_ring_index = (d.tx_ring_index + 1) % d.tx_ring_len };
        mem = dma.poke word (desc + 6) 0 handed;
      }

  -- The loop, with whether a descriptor has been processed.
  unfoldable pub tx_loop : ℕ → Bool → Machine Mem Net → Option (Bool × Machine Mem Net)
  tx_loop zero processed s = none
  tx_loop (suc fuel) processed s =
      let desc = s.lance.tx_ring_addr + s.lance.tx_ring_index * 8 in
      let tmd0 = dma.peek word desc s.mem in
      let tmd1 = dma.peek word (desc + 2) tmd0.after in
      let tmd2 = dma.peek word (desc + 4) tmd1.after in
      let looked = record s { mem = tmd2.after } in
      let rest = tx_loop fuel true (transmit tmd0.value tmd1.value tmd2.value looked) in
      if not (has (flags_of tmd1.value) 0x80) then some (processed, looked) else rest

  unfoldable pub finish_tx : Option (Bool × Machine Mem Net) → Option (Machine Mem Net)
  finish_tx none = none
  finish_tx (some (processed, s)) =
      let idle = record (s.lance) { tx_pending = false } in
      some (record s {
        lance =
            (if processed
              then update_interrupt (with_csr0 (bit_or (csr0 idle) 0x0200) idle)
              else idle);
      })

  unfoldable pub process_tx_ring : ℕ → Machine Mem Net → Option (Machine Mem Net)
  process_tx_ring fuel s =
      if not s.lance.attached || not s.lance.running
      then some s
      else finish_tx (tx_loop fuel false s)

  -- A packet is put into a descriptor's buffer, or dropped where it is too large.
  unfoldable pub deliver : ℕ → ℕ → ℕ → ℕ → List ℕ → Mem → Mem
  deliver desc rmd0 rmd1 rmd2 packet m =
      if ltb (byte_count rmd2) (length packet)
      then dma.poke word (desc + 6) 0 (dma.poke word (desc + 2) (returned 0x44 rmd1) m)
      else (let filled = poke_bytes dma packet (address24 rmd0 rmd1) m in
          dma.poke word (desc + 6) (bit_and (length packet + 4) 0x0fff)
            (dma.poke word (desc + 2) (returned 0x03 rmd1) filled))

  -- One round for a descriptor that the device owns.
  unfoldable pub receive : ℕ → Machine Mem Net → Machine Mem Net
  receive rmd1 s =
      let d = s.lance in
      let desc = d.rx_ring_addr + d.rx_ring_index * 8 in
      let rmd0 = dma.peek word desc s.mem in
      let rmd2 = dma.peek word (desc + 4) rmd0.after in
      let packet = network.dequeue_packet s.net in
      record {
        lance = update_interrupt (
            with_csr0 (bit_or (csr0 d) 0x0400)
              (record d { rx_ring_index = (d.rx_ring_index + 1) % d.rx_ring_len }));
        mem = deliver desc rmd0.value rmd1 rmd2.value packet.0 rmd2.after;
        net = packet.1;
      }

  unfoldable pub rx_loop : ℕ → Machine Mem Net → Option (Machine Mem Net)
  rx_loop zero s = none
  rx_loop (suc fuel) s =
      let desc = s.lance.rx_ring_addr + s.lance.rx_ring_index * 8 in
      let rmd1 = dma.peek word (desc + 2) s.mem in
      let looked = record s { mem = rmd1.after } in
      let rest = rx_loop fuel (receive rmd1.value looked) in
      if not (network.has_pending_packet s.net)
      then some s
      else if not (has (flags_of rmd1.value) 0x80)
      then some (record looked {
        lance = update_interrupt (with_csr0 (bit_or (csr0 s.lance) 0x1000) s.lance);
      })
      else rest

  unfoldable pub process_rx_ring : ℕ → Machine Mem Net → Option (Machine Mem Net)
  process_rx_ring fuel s =
      if not s.lance.attached || not s.lance.running then some s else rx_loop fuel s
