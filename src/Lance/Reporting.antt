-- ===== src/Lance/Reporting.antt =====
-- Every operation reports the interrupt that CSR0 asks for.
use em68030_win_ui3cpp.Common.{
  ℕ, zero, suc, ◌+◌, ◌≡◌, refl, arith, inl, inr, Bool, true, false, not, List, [], ◌∷◌, Option,
  none, some, bit_and, bit_or, ◌*◌, ◌==◌, if◌then◌else◌, has, Bool-cases, get_or-set, get_or, set,
}
use em68030_win_ui3cpp.Common.Size.{word}
use em68030_win_ui3cpp.Lance.State.{
  Dma, Network, Lance, Machine, csr0, wants_interrupt, update_interrupt, with_csr0,
}
use em68030_win_ui3cpp.Lance.Rings.{
  flags_of, transmit, tx_loop, finish_tx, process_tx_ring, receive, rx_loop, process_rx_ring,
}
use em68030_win_ui3cpp.Lance.Device.{
  write_csr0, write_csr, write_word, write_long, stop, tick_receiver, tick, offset_of,
}
use em68030_win_ui3cpp.Lance.Transmit.{looked, transmitted}

-- The last value given to the output, which starts inactive.
abbrev pub reported : List Bool → Bool
reported [] = false
reported (b ∷ _) = b

abbrev pub IsReported : Lance → Type 0
IsReported d = reported d.interrupts ≡ wants_interrupt (csr0 d)

-- A result, if there is one, has a property.
abbrev pub OnSome : {S : Type 0} → (S → Type 0) → Option S → Type 0
OnSome P none = Unit
OnSome P (some r) = P r

if-OnSome :
    {S : Type 0} (P : S → Type 0) (b : Bool) (x y : Option S)
    → OnSome P x
    → OnSome P y
    → OnSome P (if b then x else y)
if-OnSome P true x y h k = h
if-OnSome P false x y h k = k

module _ {Mem Net : Type 0} where
  abbrev pub Reports : Machine Mem Net → Type 0
  Reports s = IsReported s.lance

  if-Reports :
      (b : Bool) (s t : Machine Mem Net) → Reports s → Reports t → Reports (if b then s else t)
  if-Reports true s t h k = h
  if-Reports false s t h k = k

module _ {Mem Net : Type 0} (dma : Dma Mem) (network : Network Net) where
  write_csr0-Reports : (value : ℕ) (s : Machine Mem Net) → Reports (write_csr0 dma network value s)
  unfolding write_csr0 stop update_interrupt
  write_csr0-Reports value s = if-Reports (has value 0x0004) _ _ refl refl

  write_csr-Reports :
      (csr_num value : ℕ) (s : Machine Mem Net)
      → Reports s
      → Reports (write_csr dma network csr_num value s)
  unfolding write_csr
  write_csr-Reports csr_num value s h = elim (Bool-cases (csr_num == 0)) [
    | inl e ↦ rw e (write_csr0-Reports value s)
    | inr e ↦
        let kept : get_or (set s.lance.csr csr_num value) 0 0 ≡ csr0 s.lance =
          ground (arith, get_or-set s.lance.csr csr_num 0 value 0) in
        rw e (if-Reports (has (csr0 s.lance) 0x0004) _ s (rw kept h) h)
  ]

  pub write_word-Reports :
      (address value : ℕ) (s : Machine Mem Net)
      → Reports s
      → Reports (write_word dma network address value s)
  unfolding write_word
  write_word-Reports address value s h =
      if-Reports (offset_of address == 0) _ _
        (write_csr-Reports (bit_and s.lance.rap 0x03) value s h)
        (if-Reports (offset_of address == 2) _ s h h)

  pub write_long-Reports :
      (address value : ℕ) (s : Machine Mem Net)
      → Reports s
      → Reports (write_long dma network address value s)
  unfolding write_long
  write_long-Reports address value s h = write_word-Reports _ _ _ (write_word-Reports address _ s h)

  tx_loop-Reports :
      (fuel : ℕ) (processed : Bool) (s : Machine Mem Net)
      → Reports s
      → OnSome (λ (x : Bool × Machine Mem Net). Reports x.1) (tx_loop dma network fuel processed s)
  unfolding tx_loop transmit
  tx_loop-Reports zero processed s h = tt
  tx_loop-Reports (suc fuel) processed s h =
      let desc = s.lance.tx_ring_addr + s.lance.tx_ring_index * 8 in
      let tmd1 = dma.peek word (desc + 2) (dma.peek word desc s.mem).after in
      if-OnSome (λ (x : Bool × Machine Mem Net). Reports x.1) (not (has (flags_of tmd1.value) 0x80))
        (some (processed, looked dma network s))
        (tx_loop dma network fuel true (transmitted dma network s)) h
        (tx_loop-Reports fuel true (transmitted dma network s) h)

  finish_tx-Reports :
      (o : Option (Bool × Machine Mem Net))
      → OnSome (λ (x : Bool × Machine Mem Net). Reports x.1) o
      → OnSome Reports (finish_tx dma network o)
  unfolding finish_tx update_interrupt
  finish_tx-Reports none h = tt
  finish_tx-Reports (some (true, s)) h = refl
  finish_tx-Reports (some (false, s)) h = h

  process_tx_ring-Reports :
      (fuel : ℕ) (s : Machine Mem Net)
      → Reports s
      → OnSome Reports (process_tx_ring dma network fuel s)
  unfolding process_tx_ring
  process_tx_ring-Reports fuel s h =
      if-OnSome Reports _ (some s) _ h
        (finish_tx-Reports (tx_loop dma network fuel false s) (tx_loop-Reports fuel false s h))

  rx_loop-Reports :
      (fuel : ℕ) (s : Machine Mem Net) → Reports s → OnSome Reports (rx_loop dma network fuel s)
  unfolding rx_loop receive update_interrupt
  rx_loop-Reports zero s h = tt
  rx_loop-Reports (suc fuel) s h =
      let desc = s.lance.rx_ring_addr + s.lance.rx_ring_index * 8 in
      let rmd1 = dma.peek word (desc + 2) s.mem in
      let looked = record s { mem = rmd1.after } in
      let missed : Machine Mem Net = record looked {
        lance = update_interrupt (with_csr0 (bit_or (csr0 s.lance) 0x1000) s.lance);
      } in
      let next = receive dma network rmd1.value looked in
      let rest = rx_loop dma network fuel next in
      let full = not (has (flags_of rmd1.value) 0x80) in
      if-OnSome Reports (not (network.has_pending_packet s.net)) (some s)
        (if full then some missed else rest) h
        (if-OnSome Reports full (some missed) rest refl (rx_loop-Reports fuel next refl))

  process_rx_ring-Reports :
      (fuel : ℕ) (s : Machine Mem Net)
      → Reports s
      → OnSome Reports (process_rx_ring dma network fuel s)
  unfolding process_rx_ring
  process_rx_ring-Reports fuel s h = if-OnSome Reports _ (some s) _ h (rx_loop-Reports fuel s h)

  tick_receiver-Reports :
      (fuel : ℕ) (o : Option (Machine Mem Net))
      → OnSome Reports o
      → OnSome Reports (tick_receiver dma network fuel o)
  unfolding tick_receiver
  tick_receiver-Reports fuel none h = tt
  tick_receiver-Reports fuel (some s) h =
      if-OnSome Reports _ _ (some s) (process_rx_ring-Reports fuel s h) h

  pub tick-Reports :
      (fuel : ℕ) (s : Machine Mem Net) → Reports s → OnSome Reports (tick dma network fuel s)
  unfolding tick
  tick-Reports fuel s h =
      tick_receiver-Reports fuel _
        (if-OnSome Reports s.lance.tx_pending _ (some s) (process_tx_ring-Reports fuel s h) h)
