-- ===== src/Scc/Device.antt =====
-- `Z8530Channel` and the callbacks that the constructor of `Z8530Device` gives its two channels.
-- A channel's operation acts on the whole device, because `InterruptStateChanged` reads both
-- channels. `CharTransmitted` and `InterruptOutput` are lists of the values that they were called
-- with, the latest first, where they are set. The mutex is not modelled: every operation is one step.
use em68030_win_ui3cpp.Common.{
  ℕ, ◌+◌, ◌/◌, ◌^◌, Bool, true, false, not, ◌&&◌, ◌||◌, List, [], ◌∷◌, ◌++◌, bit_and, bit_or, leb,
  ◌==◌, if◌then◌else◌, has, get_or, set, replicate,
}

pub record Channel : Type 0 where
  pub register_pointer : ℕ
  pub write_regs : List ℕ
  pub read_regs : List ℕ
  -- The front of a queue is the head of the list.
  pub rx_fifo : List ℕ
  pub tx_int_pending : Bool
  pub tx_in_progress : Bool
  pub tx_idle_ticks : ℕ
  pub pending_input : List ℕ
  pub has_char_transmitted : Bool
  pub transmitted : List ℕ

unfoldable pub fresh_channel : Channel
fresh_channel = record {
  register_pointer = 0;
  write_regs = replicate 16 0;
  read_regs = replicate 16 0;
  rx_fifo = [];
  tx_int_pending = false;
  tx_in_progress = false;
  tx_idle_ticks = 0;
  pending_input = [];
  has_char_transmitted = false;
  transmitted = [];
}

abbrev pub is_empty : List ℕ → Bool
is_empty [] = true
is_empty (x ∷ xs) = false

unfoldable pub is_rx_int_pending : Channel → Bool
is_rx_int_pending c = not (is_empty c.rx_fifo)

unfoldable pub is_tx_interrupt_enabled : Channel → Bool
is_tx_interrupt_enabled c = has (get_or c.write_regs 1 0) 0x02

unfoldable pub is_rx_interrupt_enabled : Channel → Bool
is_rx_interrupt_enabled c = has (get_or c.write_regs 1 0) 0x18

pub record Scc : Type 0 where
  pub channel_a : Channel
  pub channel_b : Channel
  pub has_interrupt_output : Bool
  pub outputs : List Bool

pub data Which : Type 0 where
  a b : Which

abbrev pub channel : Which → Scc → Channel
channel Which.a s = s.channel_a
channel Which.b s = s.channel_b

abbrev pub put : Which → Channel → Scc → Scc
put Which.a c s = record s { channel_a = c }
put Which.b c s = record s { channel_b = c }

-- The interrupt requests of one channel.
unfoldable pub wants_tx : Channel → Bool
wants_tx c = c.tx_int_pending && is_tx_interrupt_enabled c

unfoldable pub wants_rx : Channel → Bool
wants_rx c = is_rx_int_pending c && is_rx_interrupt_enabled c

unfoldable pub composite : Channel → Channel → Bool
composite first second = wants_tx first || wants_rx first || wants_tx second || wants_rx second

unfoldable pub update_composite_interrupt : Scc → Scc
update_composite_interrupt s =
    if s.has_interrupt_output
    then record s { outputs = composite s.channel_a s.channel_b ∷ s.outputs }
    else s

unfoldable pub compute_rr3 : Scc → ℕ
compute_rr3 s =
    let r0 = (if wants_rx s.channel_a then 0x20 else 0) in
    let r1 = (if wants_tx s.channel_a then bit_or r0 0x10 else r0) in
    let r2 = (if wants_rx s.channel_b then bit_or r1 0x04 else r1) in
    (if wants_tx s.channel_b then bit_or r2 0x02 else r2)

-- The channel's new state, and `InterruptStateChanged`.
abbrev pub changed : Which → Channel → Scc → Scc
changed w c s = update_composite_interrupt (put w c s)

unfoldable pub receive_char : Which → ℕ → Scc → Scc
receive_char w ch s =
    let c = channel w s in changed w (record c { rx_fifo = c.rx_fifo ++ ch ∷ [] }) s

unfoldable pub queue_input : Which → ℕ → Scc → Scc
queue_input w ch s =
    let c = channel w s in put w (record c { pending_input = c.pending_input ++ ch ∷ [] }) s

-- A value read, and the state after it.
pub record Read : Type 0 where
  pub value : ℕ
  pub scc : Scc

abbrev pub reading : Scc → ℕ → Read
reading s v = record { value = v; scc = s }

-- `GetRR3` is set for channel A only.
abbrev rr3 : Which → Scc → ℕ
rr3 Which.a s = compute_rr3 s
rr3 Which.b s = 0

unfoldable pub rr0 : Channel → ℕ
rr0 c =
    bit_or
      (bit_or
        (bit_or (if not (is_empty c.rx_fifo) || not (is_empty c.pending_input) then 0x01 else 0)
          (if c.tx_in_progress then 0 else 0x04))
        0x08)
      0x20

unfoldable pub read_control : Which → Scc → Read
read_control w s =
    let c = channel w s in
    let reg = c.register_pointer in
    let after = put w (record c { register_pointer = 0 }) s in
    if reg == 0
    then reading after (rr0 c)
    else if reg == 1
    then reading after 0x01
    else if reg == 2
    then reading after (get_or c.read_regs 2 0)
    else if reg == 3
    then reading after (rr3 w after)
    else reading after (get_or c.read_regs reg 0)

unfoldable pub write_data : Which → ℕ → Scc → Scc
write_data w value s =
    let c = channel w s in
    changed w
      (record c {
        transmitted = (if c.has_char_transmitted then value ∷ c.transmitted else c.transmitted);
        tx_in_progress = true;
        tx_int_pending = false;
        tx_idle_ticks = 0;
      })
      s

-- The command in bits 5 to 3 of WR0.
unfoldable pub command : Which → ℕ → Scc → Scc
command w cmd s =
    if cmd == 5
    then changed w (record (channel w s) { tx_int_pending = false }) s
    else if cmd == 7
    then update_composite_interrupt s
    else s

-- A write with the pointer at zero: a command, and a register to point at.
unfoldable pub write_wr0 : Which → ℕ → Scc → Scc
write_wr0 w value s =
    let after = command w (bit_and (value / 2 ^ 3) 0x07) s in
    let c = channel w after in
    if bit_and value 0x07 == 0
    then put w (record c { write_regs = set c.write_regs 0 value }) after
    else put w (record c { register_pointer = bit_and value 0x07 }) after

-- A write to the register that the pointer names; `s` has the pointer at zero again.
unfoldable pub write_selected : Which → ℕ → ℕ → Scc → Scc
write_selected w reg value s =
    if reg == 8
    then write_data w value s
    else let c = channel w s in
      let stored = record c { write_regs = set c.write_regs reg value } in
      if reg == 1
      then changed w
          (if is_tx_interrupt_enabled stored && not c.tx_in_progress && not c.tx_int_pending
            then record stored { tx_int_pending = true }
            else stored)
          s
      else put w stored s

unfoldable pub write_control : Which → ℕ → Scc → Scc
write_control w value s =
    let c = channel w s in
    if c.register_pointer == 0
    then write_wr0 w value s
    else write_selected w c.register_pointer value (put w (record c { register_pointer = 0 }) s)

-- `ReadData` by the receive queue, and by the staging queue where that is empty.
unfoldable pub read_pending : Which → List ℕ → Scc → Read
read_pending w [] s = reading s 0
read_pending w (ch ∷ rest) s = reading (put w (record (channel w s) { pending_input = rest }) s) ch

unfoldable pub read_fifo : Which → List ℕ → Scc → Read
read_fifo w [] s = read_pending w (channel w s).pending_input s
read_fifo w (ch ∷ rest) s =
    let popped = put w (record (channel w s) { rx_fifo = rest }) s in
    reading (if is_empty rest then update_composite_interrupt popped else popped) ch

unfoldable pub read_data : Which → Scc → Read
read_data w s = read_fifo w (channel w s).rx_fifo s

-- The transmitter's part of `Tick`.
unfoldable pub tick_transmitter : Which → Bool → Scc → Scc
tick_transmitter w cpu_stopped s =
    let c = channel w s in
    if c.tx_in_progress
    then changed w (record c { tx_in_progress = false; tx_int_pending = true; tx_idle_ticks = 0 }) s
    else if is_tx_interrupt_enabled c && not c.tx_int_pending
    then (if leb 16 (c.tx_idle_ticks + 1)
        then changed w (record c { tx_idle_ticks = 0; tx_int_pending = true }) s
        else put w (record c { tx_idle_ticks = c.tx_idle_ticks + 1 }) s)
    else if cpu_stopped && c.tx_int_pending && not (is_tx_interrupt_enabled c)
    then changed w
        (record c {
          write_regs = set c.write_regs 1 (bit_or (get_or c.write_regs 1 0) 0x02);
          tx_idle_ticks = 0;
        })
        s
    else put w (record c { tx_idle_ticks = 0 }) s

-- The receiver's part: the loop takes every character out of the staging queue.
unfoldable pub promote : List ℕ → List ℕ → List ℕ
promote rx [] = rx
promote rx (ch ∷ rest) = promote (rx ++ ch ∷ []) rest

unfoldable pub tick_receiver : Which → Scc → Scc
tick_receiver w s =
    let c = channel w s in
    if is_rx_interrupt_enabled c && not (is_empty c.pending_input)
    then changed w (record c { rx_fifo = promote c.rx_fifo c.pending_input; pending_input = [] }) s
    else s

unfoldable pub tick_channel : Which → Bool → Scc → Scc
tick_channel w cpu_stopped s = tick_receiver w (tick_transmitter w cpu_stopped s)
