-- ===== src/Uart/Tests.antt =====
-- Runs of the UART at concrete inputs.
use em68030_win_ui3cpp.Common.{◌+◌, ◌≡◌, refl, arith, true, false, [], ◌∷◌, length}
use em68030_win_ui3cpp.Uart.Device.{Uart, receive_char, get_rx_fifo_free_space}
use em68030_win_ui3cpp.Uart.Laws.{
  IsValid, receive_all, read_all, read_all-receive_all, receive_char-free_space,
}

-- A port with one character waiting and both interrupts enabled.
abbrev busy : Uart
busy = record {
  base_address = 0xfffe2000;
  rx_fifo = 65 ∷ [];
  ier = 3;
  fcr = 0;
  lcr = 0;
  mcr = 0;
  scr = 0;
  dll = 1;
  dlm = 0;
  fifo_enabled = false;
  thr_empty = true;
  has_on_transmit = false;
  transmitted = [];
  has_interrupt_output = true;
  interrupts = [];
}

busy-IsValid : IsValid busy
busy-IsValid = record { bounded = omega arith; base = omega arith }

read_all-receive_all_example : read_all 3 (receive_all (66 ∷ 67 ∷ []) busy) ≡ 65 ∷ 66 ∷ 67 ∷ []
read_all-receive_all_example =
    read_all-receive_all (66 ∷ 67 ∷ []) busy busy-IsValid refl (omega arith)

receive_char-free_space_example :
    (get_rx_fifo_free_space busy + length busy.rx_fifo ≡ 64)
    × ((receive_char busy 66).rx_fifo ≡ 65 ∷ 66 ∷ [])
unfolding get_rx_fifo_free_space receive_char
receive_char-free_space_example = receive_char-free_space busy 66 busy-IsValid
