-- ===== src/Scc/Bus.antt =====
-- `Z8530Device`: the constructor, the tick of both channels and the four bytes on the bus.
use em68030_win_ui3cpp.Common.{
  ℕ, ◌+◌, ◌-◌, ◌*◌, ◌/◌, ◌%◌, ◌^◌, Bool, false, [], bit_and, bit_or, ◌==◌, if◌then◌else◌,
}
use em68030_win_ui3cpp.Scc.Device.{
  Scc, Which, Read, reading, fresh_channel, read_control, read_data, write_control, write_data,
  tick_channel,
}

unfoldable pub init : Scc
init = record {
  channel_a = fresh_channel;
  channel_b = fresh_channel;
  has_interrupt_output = false;
  outputs = [];
}

unfoldable pub tick : Bool → Scc → Scc
tick cpu_stopped s = tick_channel Which.b cpu_stopped (tick_channel Which.a cpu_stopped s)

abbrev pub offset_in : ℕ → ℕ
offset_in address = (address + 2 ^ 32 - 0xfffe3000) % 2 ^ 32

unfoldable pub read_byte : ℕ → Scc → Read
read_byte address s =
    if offset_in address == 0
    then read_control Which.b s
    else if offset_in address == 1
    then read_data Which.b s
    else if offset_in address == 2
    then read_control Which.a s
    else if offset_in address == 3
    then read_data Which.a s
    else reading s 0

-- The two calls of `ReadByte` in one expression, in the order in which they are written.
unfoldable pub read_word : ℕ → Scc → Read
read_word address s =
    let high = read_byte address s in
    let low = read_byte ((address + 1) % 2 ^ 32) high.scc in
    reading low.scc (bit_or (high.value * 2 ^ 8) low.value)

unfoldable pub read_long : ℕ → Scc → Read
read_long address s =
    let high = read_word address s in
    let low = read_word ((address + 2) % 2 ^ 32) high.scc in
    reading low.scc (bit_or (high.value * 2 ^ 16) low.value)

unfoldable pub write_byte : ℕ → ℕ → Scc → Scc
write_byte address value s =
    if offset_in address == 0
    then write_control Which.b value s
    else if offset_in address == 1
    then write_data Which.b value s
    else if offset_in address == 2
    then write_control Which.a value s
    else if offset_in address == 3
    then write_data Which.a value s
    else s

unfoldable pub write_word : ℕ → ℕ → Scc → Scc
write_word address value s =
    write_byte ((address + 1) % 2 ^ 32) (bit_and value 0xff) (write_byte address (value / 2 ^ 8) s)

unfoldable pub write_long : ℕ → ℕ → Scc → Scc
write_long address value s =
    write_word ((address + 2) % 2 ^ 32) (bit_and value 0xffff)
      (write_word address (value / 2 ^ 16) s)
