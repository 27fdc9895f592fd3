-- ===== src/Scc/Output.antt =====
-- The interrupt output of the Z8530 after each operation of a channel.
use em68030_win_ui3cpp.Common.{
  ℕ, ◌+◌, ◌/◌, ◌^◌, ◌≡◌, refl, arith, inl, inr, Bool, true, false, not, ◌&&◌, List, [], ◌∷◌,
  bit_and, leb, ◌==◌, if◌then◌else◌, has, get_or, set, get_or-set, Bool-cases,
}
use em68030_win_ui3cpp.Scc.Device.{
  Channel, Scc, Which, channel, put, changed, is_empty, is_rx_int_pending, is_tx_interrupt_enabled,
  is_rx_interrupt_enabled, wants_tx, wants_rx, composite, compute_rr3, update_composite_interrupt,
  read_control, read_data, read_fifo, read_pending, write_data, command, write_wr0, write_selected,
  write_control, tick_transmitter, tick_receiver, tick_channel,
}

-- The value that `InterruptOutput` was last called with; false before the first call.
abbrev pub latest : List Bool → Bool
latest [] = false
latest (x ∷ xs) = x

-- `InterruptOutput` is set, and its last value is the one that the channels ask for.
pub record IsReported (s : Scc) : Type 0 where
  pub connected : s.has_interrupt_output ≡ true
  pub reported : latest s.outputs ≡ composite s.channel_a s.channel_b

update-IsReported :
    (s : Scc) → s.has_interrupt_output ≡ true → IsReported (update_composite_interrupt s)
unfolding update_composite_interrupt
update-IsReported s e = record { connected = rw e refl; reported = rw e refl }

pub changed-IsReported :
    (w : Which) (c : Channel) (s : Scc) → IsReported s → IsReported (changed w c s)
changed-IsReported Which.a c s h = update-IsReported _ h.connected
changed-IsReported Which.b c s h = update-IsReported _ h.connected

-- A new state of one channel with the same requests.
quiet-IsReported :
    (w : Which) (c : Channel) (s : Scc)
    → wants_tx c ≡ wants_tx (channel w s)
    → wants_rx c ≡ wants_rx (channel w s)
    → IsReported s
    → IsReported (put w c s)
unfolding composite
quiet-IsReported Which.a c s t r h = record {
  connected = h.connected;
  reported = rw (t, r) h.reported;
}
quiet-IsReported Which.b c s t r h = record {
  connected = h.connected;
  reported = rw (t, r) h.reported;
}

pub if-IsReported :
    (q r : Scc) (x : Bool) → IsReported q → IsReported r → IsReported (if x then q else r)
if-IsReported q r true hq hr = hq
if-IsReported q r false hq hr = hr

-- A register other than WR1 has no part in the requests.
stored-wants :
    (c : Channel) (reg value : ℕ)
    → (reg == 1) ≡ false
    → (wants_tx (record c { write_regs = set c.write_regs reg value }) ≡ wants_tx c)
      × (wants_rx (record c { write_regs = set c.write_regs reg value }) ≡ wants_rx c)
unfolding wants_tx wants_rx is_tx_interrupt_enabled is_rx_interrupt_enabled is_rx_int_pending
stored-wants c reg value e =
    let same : get_or (set c.write_regs reg value) 1 0 ≡ get_or c.write_regs 1 0 =
      rw (get_or-set c.write_regs reg 1 value 0, e) refl in
    (rw same refl, rw same refl)

point-IsReported :
    (w : Which) (p : ℕ) (s : Scc)
    → IsReported s
    → IsReported (put w (record (channel w s) { register_pointer = p }) s)
unfolding wants_tx wants_rx is_tx_interrupt_enabled is_rx_interrupt_enabled is_rx_int_pending
point-IsReported w p s h = quiet-IsReported w _ s refl refl h

idle-IsReported :
    (w : Which) (n : ℕ) (s : Scc)
    → IsReported s
    → IsReported (put w (record (channel w s) { tx_idle_ticks = n }) s)
unfolding wants_tx wants_rx is_tx_interrupt_enabled is_rx_interrupt_enabled is_rx_int_pending
idle-IsReported w n s h = quiet-IsReported w _ s refl refl h

pub staged-IsReported :
    (w : Which) (q : List ℕ) (s : Scc)
    → IsReported s
    → IsReported (put w (record (channel w s) { pending_input = q }) s)
unfolding wants_tx wants_rx is_tx_interrupt_enabled is_rx_interrupt_enabled is_rx_int_pending
staged-IsReported w q s h = quiet-IsReported w _ s refl refl h

command-IsReported : (w : Which) (cmd : ℕ) (s : Scc) → IsReported s → IsReported (command w cmd s)
unfolding command
command-IsReported w cmd s h =
    if-IsReported _ _ (cmd == 5) (changed-IsReported w _ s h)
      (if-IsReported _ _ (cmd == 7) (update-IsReported s h.connected) h)

write_wr0-IsReported :
    (w : Which) (value : ℕ) (s : Scc) → IsReported s → IsReported (write_wr0 w value s)
unfolding write_wr0
write_wr0-IsReported w value s h =
    let after = command-IsReported w (bit_and (value / 2 ^ 3) 0x07) s h in
    let same = stored-wants (channel w (command w (bit_and (value / 2 ^ 3) 0x07) s)) 0 value refl in
    if-IsReported _ _ (bit_and value 0x07 == 0) (quiet-IsReported w _ _ same.0 same.1 after)
      (point-IsReported w _ _ after)

write_selected-IsReported :
    (w : Which) (reg value : ℕ) (s : Scc) → IsReported s → IsReported (write_selected w reg value s)
unfolding write_selected write_data
write_selected-IsReported w reg value s h =
    if-IsReported _ _ (reg == 8) (changed-IsReported w _ s h) (elim (Bool-cases (reg == 1)) [
      | inl e ↦ rw e (changed-IsReported w _ s h)
      | inr e ↦
          let same = stored-wants (channel w s) reg value e in
          rw e (quiet-IsReported w _ s same.0 same.1 h)
    ])

pub write_control-IsReported :
    (w : Which) (value : ℕ) (s : Scc) → IsReported s → IsReported (write_control w value s)
unfolding write_control
write_control-IsReported w value s h =
    if-IsReported _ _ ((channel w s).register_pointer == 0) (write_wr0-IsReported w value s h)
      (write_selected-IsReported w _ value _ (point-IsReported w 0 s h))

pub write_data-IsReported :
    (w : Which) (value : ℕ) (s : Scc) → IsReported s → IsReported (write_data w value s)
unfolding write_data
write_data-IsReported w value s h = changed-IsReported w _ s h

pub read_control-IsReported :
    (w : Which) (s : Scc) → IsReported s → IsReported (read_control w s).scc
unfolding read_control
read_control-IsReported w s h = ground (arith, point-IsReported w 0 s h)

read_pending-IsReported :
    (w : Which) (q : List ℕ) (s : Scc) → IsReported s → IsReported (read_pending w q s).scc
unfolding read_pending
read_pending-IsReported w [] s h = h
read_pending-IsReported w (ch ∷ rest) s h = staged-IsReported w rest s h

-- A character that is not the last one leaves the receive request as it was.
popped-IsReported :
    (w : Which) (x ch : ℕ) (rest : List ℕ) (s : Scc)
    → (channel w s).rx_fifo ≡ x ∷ ch ∷ rest
    → IsReported s
    → IsReported (put w (record (channel w s) { rx_fifo = ch ∷ rest }) s)
unfolding wants_tx wants_rx is_tx_interrupt_enabled is_rx_interrupt_enabled is_rx_int_pending
popped-IsReported w x ch rest s e h = quiet-IsReported w _ s refl (rw e refl) h

read_fifo-IsReported :
    (w : Which) (q : List ℕ) (s : Scc)
    → (channel w s).rx_fifo ≡ q
    → IsReported s
    → IsReported (read_fifo w q s).scc
unfolding read_fifo
read_fifo-IsReported w [] s e h = read_pending-IsReported w (channel w s).pending_input s h
read_fifo-IsReported w (x ∷ []) s e h = changed-IsReported w _ s h
read_fifo-IsReported w (x ∷ ch ∷ rest) s e h = popped-IsReported w x ch rest s e h

pub read_data-IsReported : (w : Which) (s : Scc) → IsReported s → IsReported (read_data w s).scc
unfolding read_data
read_data-IsReported w s h = read_fifo-IsReported w _ s refl h

tick_transmitter-IsReported :
    (w : Which) (cpu_stopped : Bool) (s : Scc)
    → IsReported s
    → IsReported (tick_transmitter w cpu_stopped s)
unfolding tick_transmitter
tick_transmitter-IsReported w cpu_stopped s h =
    if-IsReported _ _ (channel w s).tx_in_progress (changed-IsReported w _ s h) (
      if-IsReported _ _ (is_tx_interrupt_enabled (channel w s) && not (channel w s).tx_int_pending)
        (if-IsReported _ _ (leb 16 ((channel w s).tx_idle_ticks + 1)) (changed-IsReported w _ s h)
          (idle-IsReported w _ s h))
        (if-IsReported _ _
          (cpu_stopped
            && (channel w s).tx_int_pending
            && not (is_tx_interrupt_enabled (channel w s)))
          (changed-IsReported w _ s h) (idle-IsReported w 0 s h)))

pub tick_channel-IsReported :
    (w : Which) (cpu_stopped : Bool) (s : Scc)
    → IsReported s
    → IsReported (tick_channel w cpu_stopped s)
unfolding tick_channel tick_receiver
tick_channel-IsReported w cpu_stopped s h =
    let sent = tick_transmitter-IsReported w cpu_stopped s h in
    let c = channel w (tick_transmitter w cpu_stopped s) in
    if-IsReported _ _ (is_rx_interrupt_enabled c && not (is_empty c.pending_input))
      (changed-IsReported w _ _ sent) sent

-- RR3 is nonzero exactly when some channel asks for an interrupt.
pub compute_rr3_lem : (s : Scc) → has (compute_rr3 s) 0xff ≡ composite s.channel_a s.channel_b
unfolding compute_rr3 composite
compute_rr3_lem s = ground arith
