-- ===== src/Uart/Laws.antt =====
-- The receive queue and the interrupt output of the UART.
use mathlib.Core.List.{append_assoc, append-nil}
use em68030_win_ui3cpp.Common.{
  ℕ, zero, suc, ◌+◌, ◌-◌, ◌%◌, ◌^◌, ◌≤◌, ◌<◌, ◌≡◌, refl, sym, ap, ◌∙◌, arith, Bool, true, false,
  not, ◌&&◌, ◌||◌, List, [], ◌∷◌, ◌++◌, ltb, if◌then◌else◌, has, length, length-append,
}
use em68030_win_ui3cpp.Uart.Device.{
  Uart, is_empty, compute_iir, update_interrupt, read_byte, pop_rx, write_byte, receive_char,
  get_rx_fifo_free_space,
}

-- The queue holds at most 64 characters, and the base address is a 32-bit one.
pub record IsValid (u : Uart) : Type 0 where
  pub bounded : length u.rx_fifo ≤ 64
  pub base : u.base_address < 2 ^ 32

update_interrupt-keeps :
    (u : Uart)
    → ((update_interrupt u).rx_fifo ≡ u.rx_fifo)
      × ((update_interrupt u).base_address ≡ u.base_address)
      × ((update_interrupt u).lcr ≡ u.lcr)
unfolding update_interrupt
update_interrupt-keeps u = ground arith

abbrev pub rbr : Uart → ℕ
rbr u = u.base_address

-- A read of the receive buffer with the divisor latch off.
read-rbr :
    (u : Uart) → IsValid u → has u.lcr 0x80 ≡ false → read_byte u (rbr u) ≡ pop_rx u u.rx_fifo
unfolding read_byte
read-rbr u v h =
    let zero_reg : (u.base_address + 2 ^ 32 - u.base_address) % 2 ^ 32 ≡ 0 = omega arith in
    rw (zero_reg, h) refl

unfoldable pub receive_all : List ℕ → Uart → Uart
receive_all [] u = u
receive_all (c ∷ cs) u = receive_all cs (receive_char u c)

-- The values of `n` reads of the receive buffer.
unfoldable pub read_all : ℕ → Uart → List ℕ
read_all zero u = []
read_all (suc n) u = (read_byte u (rbr u)).value ∷ read_all n (read_byte u (rbr u)).uart

receive_char_room :
    (u : Uart) (c : ℕ)
    → length u.rx_fifo < 64
    → ((receive_char u c).rx_fifo ≡ u.rx_fifo ++ c ∷ [])
      × ((receive_char u c).base_address ≡ u.base_address)
      × ((receive_char u c).lcr ≡ u.lcr)
unfolding receive_char
receive_char_room u c h =
    ground (arith, update_interrupt-keeps (record u { rx_fifo = u.rx_fifo ++ c ∷ [] }))

receive_all_room :
    (cs : List ℕ) (u : Uart)
    → length u.rx_fifo + length cs ≤ 64
    → ((receive_all cs u).rx_fifo ≡ u.rx_fifo ++ cs)
      × ((receive_all cs u).base_address ≡ u.base_address)
      × ((receive_all cs u).lcr ≡ u.lcr)
unfolding receive_all
receive_all_room [] u h = (sym (append-nil u.rx_fifo), refl, refl)
receive_all_room (c ∷ cs) u h =
    let one = receive_char_room u c (omega arith) in
    let rest =
      receive_all_room cs (receive_char u c)
        (omega (arith, ap length one.0, length-append u.rx_fifo (c ∷ []))) in
    (
      rest.0 ∙ ap (λ (q : List ℕ). q ++ cs) one.0 ∙ append_assoc u.rx_fifo (c ∷ []) cs,
      rest.1 ∙ one.1,
      rest.2 ∙ one.2,
    )

read_all_fifo :
    (q : List ℕ) (u : Uart)
    → u.rx_fifo ≡ q
    → IsValid u
    → has u.lcr 0x80 ≡ false
    → read_all (length q) u ≡ q
unfolding read_all pop_rx
read_all_fifo [] u e v h = refl
read_all_fifo (c ∷ q) u e v h =
    let popped : Uart = update_interrupt (record u { rx_fifo = q }) in
    let k = update_interrupt-keeps (record u { rx_fifo = q }) in
    let front : read_byte u (rbr u) ≡ record { value = c; uart = popped } =
      read-rbr u v h ∙ ap (pop_rx u) e in
    let valid : IsValid popped = record {
      bounded = omega (arith, v.bounded, ap length e, ap length k.0);
      base = omega (arith, v.base, k.1);
    } in
    rw front (
      ap (λ (r : List ℕ). c ∷ r)
        (read_all_fifo q popped k.0 valid (ap (λ (l : ℕ). has l 0x80) k.2 ∙ h)))

-- Characters that fit behind those that wait are read from the receive buffer in the order in which
-- they came, after those that waited. The divisor latch is off.
pub read_all-receive_all :
    (cs : List ℕ) (u : Uart)
    → IsValid u
    → has u.lcr 0x80 ≡ false
    → length u.rx_fifo + length cs ≤ 64
    → read_all (length (u.rx_fifo ++ cs)) (receive_all cs u) ≡ u.rx_fifo ++ cs
read_all-receive_all cs u v h room =
    let r = receive_all_room cs u room in
    let valid : IsValid (receive_all cs u) = record {
      bounded = omega (arith, ap length r.0, length-append u.rx_fifo cs);
      base = omega (arith, v.base, r.1);
    } in
    read_all_fifo (u.rx_fifo ++ cs) (receive_all cs u) r.0 valid
      (ap (λ (l : ℕ). has l 0x80) r.2 ∙ h)

-- The free space is exact: it and the characters that wait make 64, and a character is taken in, at
-- the end of the queue, exactly where there is some.
pub receive_char-free_space :
    (u : Uart) (c : ℕ)
    → IsValid u
    → (get_rx_fifo_free_space u + length u.rx_fifo ≡ 64)
      × ((receive_char u c).rx_fifo
          ≡ (if ltb 0 (get_rx_fifo_free_space u) then u.rx_fifo ++ c ∷ [] else u.rx_fifo))
unfolding get_rx_fifo_free_space receive_char
receive_char-free_space u c v = (
  ground arith,
  ground (arith, update_interrupt-keeps (record u { rx_fifo = u.rx_fifo ++ c ∷ [] })),
)

abbrev pub wants_rx : Uart → Bool
wants_rx u = has u.ier 0x01 && not (is_empty u.rx_fifo)

abbrev pub wants_tx : Uart → Bool
wants_tx u = has u.ier 0x02 && u.thr_empty

-- `InterruptOutput` goes active exactly when received data waits and its interrupt is enabled, or
-- the transmitter is empty and its interrupt is enabled; IIR tells data before transmitter and
-- carries the FIFO bits.
pub update_interrupt_lem :
    (u : Uart)
    → u.has_interrupt_output ≡ true
    → ((update_interrupt u).interrupts ≡ (wants_rx u || wants_tx u) ∷ u.interrupts)
      × (compute_iir u
          ≡ (if wants_rx u then 4 else if wants_tx u then 2 else 1)
            + (if u.fifo_enabled then 0xc0 else 0))
unfolding update_interrupt compute_iir
update_interrupt_lem u h = ground arith

write_byte-bounded :
    (u : Uart) (address value : ℕ)
    → length u.rx_fifo ≤ 64
    → length (write_byte u address value).rx_fifo ≤ 64
unfolding write_byte update_interrupt
write_byte-bounded u address value h = ground (arith, length-append u.rx_fifo (value ∷ []))

write_byte-base :
    (u : Uart) (address value : ℕ) → (write_byte u address value).base_address ≡ u.base_address
unfolding write_byte update_interrupt
write_byte-base u address value = ground arith

pop_rx-keeps :
    (u : Uart) (q : List ℕ)
    → u.rx_fifo ≡ q
    → (length (pop_rx u q).uart.rx_fifo ≤ length u.rx_fifo)
      × ((pop_rx u q).uart.base_address ≡ u.base_address)
unfolding pop_rx update_interrupt
pop_rx-keeps u [] e = (omega arith, refl)
pop_rx-keeps u (c ∷ q) e = (ground (arith, ap length e), ground arith)

read_byte-keeps :
    (u : Uart) (address : ℕ)
    → (length (read_byte u address).uart.rx_fifo ≤ length u.rx_fifo)
      × ((read_byte u address).uart.base_address ≡ u.base_address)
unfolding read_byte
read_byte-keeps u address = ground (arith, pop_rx-keeps u u.rx_fifo refl)

receive_char-keeps :
    (u : Uart) (c : ℕ)
    → length u.rx_fifo ≤ 64
    → (length (receive_char u c).rx_fifo ≤ 64) × ((receive_char u c).base_address ≡ u.base_address)
unfolding receive_char update_interrupt
receive_char-keeps u c h = ground (arith, length-append u.rx_fifo (c ∷ []))

-- No bus access and no received character makes the receive queue longer than 64.
pub access-IsValid :
    (u : Uart) (address value : ℕ)
    → IsValid u
    → IsValid (write_byte u address value)
      × IsValid (read_byte u address).uart
      × IsValid (receive_char u value)
access-IsValid u address value v = (
  record {
    bounded = write_byte-bounded u address value v.bounded;
    base = omega (arith, write_byte-base u address value, v.base);
  },
  omega (arith, read_byte-keeps u address, v.base, v.bounded),
  omega (arith, receive_char-keeps u value v.bounded, v.base),
)
