-- ===== src/Uart/Device.antt =====
-- The members of `Uart16550Device` and its operations. The callbacks `OnTransmit` and
-- `InterruptOutput` are lists of the values that they were called with, the latest first, where
-- they are set; the mutex is not modelled, every operation being one step.
use em68030_win_ui3cpp.Common.{
  ℕ, ◌+◌, ◌-◌, ◌*◌, ◌/◌, ◌%◌, ◌^◌, Bool, true, false, not, ◌&&◌, List, [], ◌∷◌, ◌++◌, bit_and,
  bit_or, ltb, leb, ◌==◌, if◌then◌else◌, has, length,
}

pub record Uart : Type 0 where
  pub base_address : ℕ
  -- The front of the queue is the head of the list.
  pub rx_fifo : List ℕ
  pub ier : ℕ
  pub fcr : ℕ
  pub lcr : ℕ
  pub mcr : ℕ
  pub scr : ℕ
  pub dll : ℕ
  pub dlm : ℕ
  pub fifo_enabled : Bool
  pub thr_empty : Bool
  pub has_on_transmit : Bool
  pub transmitted : List ℕ
  pub has_interrupt_output : Bool
  pub interrupts : List Bool

unfoldable pub init : ℕ → Uart
init base = record {
  base_address = base;
  rx_fifo = [];
  ier = 0;
  fcr = 0;
  lcr = 0;
  mcr = 0;
  scr = 0;
  dll = 0x01;
  dlm = 0;
  fifo_enabled = false;
  thr_empty = true;
  has_on_transmit = false;
  transmitted = [];
  has_interrupt_output = false;
  interrupts = [];
}

abbrev pub is_empty : List ℕ → Bool
is_empty [] = true
is_empty (x ∷ xs) = false

unfoldable pub compute_iir : Uart → ℕ
compute_iir u =
    let fifo_flag = (if u.fifo_enabled then 0xc0 else 0) in
    if has u.ier 0x01 && not (is_empty u.rx_fifo)
    then bit_or 0x04 fifo_flag
    else if has u.ier 0x02 && u.thr_empty
    then bit_or 0x02 fifo_flag
    else bit_or 0x01 fifo_flag

unfoldable pub update_interrupt : Uart → Uart
unfolding compute_iir
update_interrupt u =
    if u.has_interrupt_output
    then record u { interrupts = not (has (compute_iir u) 0x01) ∷ u.interrupts }
    else u

-- A value read, and the state after it.
pub record Read : Type 0 where
  pub value : ℕ
  pub uart : Uart

abbrev reading : Uart → ℕ → Read
reading u v = record { value = v; uart = u }

-- The receive buffer register with the divisor latch off.
unfoldable pub pop_rx : Uart → List ℕ → Read
pop_rx u [] = reading u 0
pop_rx u (ch ∷ rest) = reading (update_interrupt (record u { rx_fifo = rest })) ch

abbrev msr_loopback : Uart → ℕ
msr_loopback u = bit_or (if has u.mcr 0x02 then 0x10 else 0) (if has u.mcr 0x01 then 0x20 else 0)

unfoldable pub read_byte : Uart → ℕ → Read
unfolding pop_rx
read_byte u address =
    let reg = (address + 2 ^ 32 - u.base_address) % 2 ^ 32 in
    if reg == 0
    then (if has u.lcr 0x80 then reading u u.dll else pop_rx u u.rx_fifo)
    else if reg == 1
    then reading u (if has u.lcr 0x80 then u.dlm else u.ier)
    else if reg == 2
    then reading u (compute_iir u)
    else if reg == 3
    then reading u u.lcr
    else if reg == 4
    then reading u u.mcr
    else if reg == 5
    then reading u (if is_empty u.rx_fifo then bit_or 0x20 0x40 else bit_or (bit_or 0x20 0x40) 0x01)
    else if reg == 6
    then reading u (if has u.mcr 0x10 then msr_loopback u else 0x30)
    else if reg == 7
    then reading u u.scr
    else reading u 0

unfoldable pub read_word : Uart → ℕ → Read
read_word u address =
    let high = read_byte u address in
    let low = read_byte high.uart ((address + 1) % 2 ^ 32) in
    reading low.uart (bit_or (high.value * 2 ^ 8) low.value)

unfoldable pub read_long : Uart → ℕ → Read
read_long u address =
    let high = read_word u address in
    let low = read_word high.uart ((address + 2) % 2 ^ 32) in
    reading low.uart (bit_or (high.value * 2 ^ 16) low.value)

-- The transmit holding register with the divisor latch off: loopback feeds the receive queue up to
-- sixteen characters.
unfoldable pub write_thr : Uart → ℕ → Uart
write_thr u value =
    let sent =
      (if has u.mcr 0x10
        then (if ltb (length u.rx_fifo) 16
            then record u { rx_fifo = u.rx_fifo ++ value ∷ [] }
            else u)
        else (if u.has_on_transmit then record u { transmitted = value ∷ u.transmitted } else u)) in
    update_interrupt (record sent { thr_empty = true })

unfoldable pub write_byte : Uart → ℕ → ℕ → Uart
unfolding write_thr
write_byte u address value =
    let reg = (address + 2 ^ 32 - u.base_address) % 2 ^ 32 in
    if reg == 0
    then (if has u.lcr 0x80 then record u { dll = value } else write_thr u value)
    else if reg == 1
    then (if has u.lcr 0x80
        then record u { dlm = value }
        else update_interrupt (record u { ier = bit_and value 0x0f }))
    else if reg == 2
    then record u {
      fcr = value;
      fifo_enabled = has value 0x01;
      rx_fifo = (if has value 0x02 then [] else u.rx_fifo);
    }
    else if reg == 3
    then record u { lcr = value }
    else if reg == 4
    then record u { mcr = value }
    else if reg == 5
    then u
    else if reg == 6
    then u
    else if reg == 7
    then record u { scr = value }
    else u

unfoldable pub write_word : Uart → ℕ → ℕ → Uart
write_word u address value =
    write_byte (write_byte u address (value / 2 ^ 8)) ((address + 1) % 2 ^ 32) (bit_and value 0xff)

unfoldable pub write_long : Uart → ℕ → ℕ → Uart
write_long u address value =
    write_word (write_word u address (value / 2 ^ 16)) ((address + 2) % 2 ^ 32)
      (bit_and value 0xffff)

unfoldable pub receive_char : Uart → ℕ → Uart
receive_char u ch =
    if leb 64 (length u.rx_fifo)
    then u
    else update_interrupt (record u { rx_fifo = u.rx_fifo ++ ch ∷ [] })

unfoldable pub get_rx_fifo_free_space : Uart → ℕ
get_rx_fifo_free_space u = if leb 64 (length u.rx_fifo) then 0 else 64 - length u.rx_fifo
