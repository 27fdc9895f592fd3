-- ===== src/Lance/Receiving.antt =====
-- The loop of `ProcessRxRing` ends.
use em68030_win_ui3cpp.Common.{
  ℕ, zero, suc, ◌+◌, ◌*◌, ◌<◌, ◌≡◌, ◌⊎◌, refl, arith, inl, inr, true, false, not, ◌||◌, some,
  bit_or, ltb, has, Bool-cases, get_or-set, length-set, length, get_or, set,
}
use em68030_win_ui3cpp.Common.Bits.{bit_and_bit, bit_at-bit_or, bit_at-lt, bit_at_div}
use em68030_win_ui3cpp.Common.Size.{word}
use em68030_win_ui3cpp.Mmu.Walk.{Reading}
use em68030_win_ui3cpp.Lance.State.{Dma, Network, Machine, csr0, update_interrupt, with_csr0}
use em68030_win_ui3cpp.Lance.Rings.{flags_of, receive, rx_loop, process_rx_ring}

-- A handler's packets are numbered: each one that is taken leaves fewer.
pub record IsQueue {Net : Type 0} (network : Network Net) (pending : Net → ℕ) : Type 0 where
  pub has_some : (net : Net) → network.has_pending_packet net ≡ ltb 0 (pending net)
  pub takes_one :
      (net : Net) → 0 < pending net → suc (pending (network.dequeue_packet net).1) ≡ pending net

has_miss : (v : ℕ) → has (bit_or v 0x1000) 0x1000 ≡ true
has_miss v = ground (
  arith,
  bit_and_bit 12 (bit_or v 0x1000),
  bit_at-bit_or 12 v 0x1000,
  bit_at-lt 12 v,
  bit_at_div 12 0x1000,
)

module _ {Mem Net : Type 0} (dma : Dma Mem) (network : Network Net) where
  abbrev rmd1 : Machine Mem Net → Reading Mem
  rmd1 s = dma.peek word (s.lance.rx_ring_addr + s.lance.rx_ring_index * 8 + 2) s.mem

  abbrev received : Machine Mem Net → Machine Mem Net
  received s = receive dma network (rmd1 s).value (record s { mem = (rmd1 s).after })

  -- No packet waits, or MISS is set.
  abbrev pub IsServed : Machine Mem Net → Type 0
  IsServed r = (network.has_pending_packet r.net ≡ false) ⊎ (has (csr0 r.lance) 0x1000 ≡ true)

  rx_loop-IsServed :
      (pending : Net → ℕ) (fuel : ℕ) (s : Machine Mem Net)
      → IsQueue network pending
      → 0 < length s.lance.csr
      → pending s.net < fuel
      → (r : Machine Mem Net) × (rx_loop dma network fuel s ≡ some r) × IsServed r
  unfolding rx_loop receive update_interrupt
  rx_loop-IsServed pending zero s q c f = absurd (omega arith)
  rx_loop-IsServed pending (suc fuel) s q c f =
      elim (Bool-cases (network.has_pending_packet s.net)) [
        | inr e ↦ (s, rw e refl, inl e)
        | inl e ↦ elim (Bool-cases (has (flags_of (rmd1 s).value) 0x80)) [
          | inr full ↦
              let v = bit_or (csr0 s.lance) 0x1000 in
              let stored : get_or (set s.lance.csr 0 v) 0 0 ≡ v =
                ground (arith, get_or-set s.lance.csr 0 0 v 0) in
              (
                record {
                  lance = update_interrupt (with_csr0 v s.lance);
                  mem = (rmd1 s).after;
                  net = s.net;
                },
                rw (e, full) refl,
                inr (rw stored (has_miss (csr0 s.lance))),
              )
          | inl own ↦
              let fewer : suc (pending (network.dequeue_packet s.net).1) ≡ pending s.net =
                q.takes_one s.net (ground (arith, q.has_some s.net)) in
              let grown : 0 < length (set s.lance.csr 0 (bit_or (csr0 s.lance) 0x0400)) =
                omega (arith, length-set s.lance.csr 0 (bit_or (csr0 s.lance) 0x0400)) in
              let (r, found, served) =
                rx_loop-IsServed pending fuel (received s) q grown (omega arith) in
              (r, rw (e, own) found, served)
        ]
      ]

  -- Where each packet that is taken leaves one fewer, `ProcessRxRing` of an attached device that runs
  -- ends after at most one round more than packets wait, whatever the ring holds: either no packet waits
  -- any more, or MISS is set.
  pub process_rx_ring-IsServed :
      (pending : Net → ℕ) (s : Machine Mem Net)
      → s.lance.attached ≡ true
      → s.lance.running ≡ true
      → IsQueue network pending
      → 0 < length s.lance.csr
      → (r : Machine Mem Net) × (process_rx_ring dma network (suc (pending s.net)) s ≡ some r)
        × IsServed r
  unfolding process_rx_ring
  process_rx_ring-IsServed pending s at run q c =
      let awake : (not s.lance.attached || not s.lance.running) ≡ false = rw (at, run) refl in
      let (r, e, served) = rx_loop-IsServed pending (suc (pending s.net)) s q c (omega arith) in
      (r, rw awake e, served)
