-- ===== src/Uart/Latch.antt =====
-- The divisor latch of the UART.
use em68030_win_ui3cpp.Common.{ℕ, ◌+◌, ◌-◌, ◌%◌, ◌^◌, ◌≤◌, ◌≡◌, refl, ap, ◌∙◌, arith, true, has}
use em68030_win_ui3cpp.Uart.Device.{Uart, read_byte, write_byte}

write-lcr :
    (u : Uart) (value : ℕ)
    → u.base_address + 8 ≤ 2 ^ 32
    → write_byte u (u.base_address + 3) value ≡ record u { lcr = value }
unfolding write_byte
write-lcr u value fits =
    let reg : (u.base_address + 3 + 2 ^ 32 - u.base_address) % 2 ^ 32 ≡ 3 = omega arith in rw reg

write-dll :
    (u : Uart) (value : ℕ)
    → u.base_address + 8 ≤ 2 ^ 32
    → has u.lcr 0x80 ≡ true
    → write_byte u u.base_address value ≡ record u { dll = value }
unfolding write_byte
write-dll u value fits on =
    let reg : (u.base_address + 2 ^ 32 - u.base_address) % 2 ^ 32 ≡ 0 = omega arith in rw (reg, on)

write-dlm :
    (u : Uart) (value : ℕ)
    → u.base_address + 8 ≤ 2 ^ 32
    → has u.lcr 0x80 ≡ true
    → write_byte u (u.base_address + 1) value ≡ record u { dlm = value }
unfolding write_byte
write-dlm u value fits on =
    let reg : (u.base_address + 1 + 2 ^ 32 - u.base_address) % 2 ^ 32 ≡ 1 = omega arith in
    rw (reg, on)

read_latch :
    (u : Uart)
    → u.base_address + 8 ≤ 2 ^ 32
    → has u.lcr 0x80 ≡ true
    → ((read_byte u u.base_address).value ≡ u.dll)
      × ((read_byte u (u.base_address + 1)).value ≡ u.dlm)
unfolding read_byte
read_latch u fits on =
    let reg0 : (u.base_address + 2 ^ 32 - u.base_address) % 2 ^ 32 ≡ 0 = omega arith in
    let reg1 : (u.base_address + 1 + 2 ^ 32 - u.base_address) % 2 ^ 32 ≡ 1 = omega arith in
    (rw (reg0, on), rw (reg1, on))

-- The state after the divisor latch is opened and its two bytes are written.
abbrev pub latch : Uart → ℕ → ℕ → Uart
latch u low high =
    write_byte (write_byte (write_byte u (u.base_address + 3) 0x80) u.base_address low)
      (u.base_address + 1) high

latch_lem :
    (u : Uart) (low high : ℕ)
    → u.base_address + 8 ≤ 2 ^ 32
    → latch u low high ≡ record u { lcr = 0x80; dll = low; dlm = high }
latch_lem u low high fits =
    ap (λ (w : Uart). write_byte (write_byte w u.base_address low) (u.base_address + 1) high)
      (write-lcr u 0x80 fits)
    ∙ ap (λ (w : Uart). write_byte w (u.base_address + 1) high)
        (write-dll (record u { lcr = 0x80 }) low fits refl)
    ∙ write-dlm (record u { lcr = 0x80; dll = low }) high fits refl

-- With the divisor latch opened by LCR, the two latch bytes that are written are read back; writing
-- the old LCR leaves the port as it was but for the two latch bytes. The eight registers lie below
-- 2 ^ 32.
pub divisor_latch :
    (u : Uart) (low high : ℕ)
    → u.base_address + 8 ≤ 2 ^ 32
    → ((read_byte (latch u low high) u.base_address).value ≡ low)
      × ((read_byte (latch u low high) (u.base_address + 1)).value ≡ high)
      × (write_byte (latch u low high) (u.base_address + 3) u.lcr
          ≡ record u { dll = low; dlm = high })
divisor_latch u low high fits =
    let opened = record u { lcr = 0x80; dll = low; dlm = high } in
    rw (latch_lem u low high fits) (
      (read_latch opened fits refl).0,
      (read_latch opened fits refl).1,
      write-lcr opened u.lcr fits,
    )
