-- ===== src/Lance/Transmit.antt =====
-- One round of `ProcessTxRing`: what it does to the status words of the ring.
use em68030_win_ui3cpp.Common.{
  ℕ, zero, suc, ◌+◌, ◌*◌, ◌<◌, ◌≡◌, refl, ap, ◌∙◌, arith, inl, inr, false, ◌&&◌, ltb, leb, ◌==◌,
  if◌then◌else◌, Bool-cases,
}
use em68030_win_ui3cpp.Common.Size.{byte, word}
use em68030_win_ui3cpp.Lance.State.{Dma, Network, Lance, Machine}
use em68030_win_ui3cpp.Lance.Rings.{address24, byte_count, peek_bytes, send, transmit}
use em68030_win_ui3cpp.Lance.Ring.{
  owned, handed_back, handed_back-fits, not_owned-handed_back, IsRing, status, count,
}

module _ {Mem Net : Type 0} (dma : Dma Mem) (network : Network Net) where
  peek_bytes-status :
      (n a j : ℕ) (d : Lance) (m : Mem)
      → (ring : IsRing dma d.tx_ring_addr d.tx_ring_len) → ring.Holds m
      → j < d.tx_ring_len
      → (status dma d (peek_bytes dma n a m).1 j ≡ status dma d m j)
        × ring.Holds (peek_bytes dma n a m).1
  unfolding peek_bytes
  peek_bytes-status zero a j d m ring k l = (refl, k)
  peek_bytes-status (suc n) a j d m ring k l =
      let rest =
        peek_bytes-status n (a + 1) j d (dma.peek byte a m).after ring (ring.peek_holds byte a m k)
          l in
      (rest.0 ∙ ring.peek_keeps byte a j m k l, rest.1)

  send-status :
      (tmd0 tmd1 tmd2 j : ℕ) (s : Machine Mem Net)
      → (ring : IsRing dma s.lance.tx_ring_addr s.lance.tx_ring_len) → ring.Holds s.mem
      → j < s.lance.tx_ring_len
      → (status dma s.lance (send dma network tmd0 tmd1 tmd2 s).mem j ≡ status dma s.lance s.mem j)
        × ring.Holds (send dma network tmd0 tmd1 tmd2 s).mem
  unfolding send
  send-status tmd0 tmd1 tmd2 j s ring k l =
      elim (Bool-cases (ltb 0 (byte_count tmd2) && leb (byte_count tmd2) 1536)) [
        | inl e ↦
            rw e
              (peek_bytes-status (byte_count tmd2) (address24 tmd0 tmd1) j s.lance s.mem ring k l)
        | inr e ↦ rw e (refl, k)
      ]

  -- A round hands the descriptor at the index back, and leaves the others' status.
  transmit-status :
      (tmd0 tmd1 tmd2 j : ℕ) (s : Machine Mem Net)
      → (ring : IsRing dma s.lance.tx_ring_addr s.lance.tx_ring_len) → ring.Holds s.mem
      → s.lance.tx_ring_index < s.lance.tx_ring_len
      → j < s.lance.tx_ring_len
      → (status dma s.lance (transmit dma network tmd0 tmd1 tmd2 s).mem j
          ≡ (if s.lance.tx_ring_index == j then handed_back tmd1 else status dma s.lance s.mem j))
        × ring.Holds (transmit dma network tmd0 tmd1 tmd2 s).mem
  unfolding transmit
  transmit-status tmd0 tmd1 tmd2 j s ring k h l =
      let i = s.lance.tx_ring_index in
      let sent = send dma network tmd0 tmd1 tmd2 s in
      let handed = dma.poke word (s.lance.tx_ring_addr + i * 8 + 2) (handed_back tmd1) sent.mem in
      let gone = send-status tmd0 tmd1 tmd2 j s ring k l in
      let held = ring.status_holds i (handed_back tmd1) sent.mem gone.1 h in
      (
        ring.poke_length i j 0 handed held h l
            ∙ ring.poke_status i j (handed_back tmd1) sent.mem gone.1 h l (handed_back-fits tmd1)
            ∙ rw (gone.0) refl,
        ring.length_holds i 0 handed held h,
      )

  abbrev pub owned_count : Machine Mem Net → ℕ
  owned_count s = count (λ j. owned (status dma s.lance s.mem j)) s.lance.tx_ring_len

  -- After the three reads of a round.
  abbrev pub looked : Machine Mem Net → Machine Mem Net
  looked s =
      let desc = s.lance.tx_ring_addr + s.lance.tx_ring_index * 8 in
      let tmd0 = dma.peek word desc s.mem in
      let tmd1 = dma.peek word (desc + 2) tmd0.after in
      record s { mem = (dma.peek word (desc + 4) tmd1.after).after }

  abbrev pub transmitted : Machine Mem Net → Machine Mem Net
  transmitted s =
      let desc = s.lance.tx_ring_addr + s.lance.tx_ring_index * 8 in
      let tmd0 = dma.peek word desc s.mem in
      let tmd1 = dma.peek word (desc + 2) tmd0.after in
      let tmd2 = dma.peek word (desc + 4) tmd1.after in
      transmit dma network tmd0.value tmd1.value tmd2.value (looked s)

  pub looked-status :
      (j : ℕ) (s : Machine Mem Net)
      → (ring : IsRing dma s.lance.tx_ring_addr s.lance.tx_ring_len) → ring.Holds s.mem
      → j < s.lance.tx_ring_len
      → (status dma s.lance (looked s).mem j ≡ status dma s.lance s.mem j)
        × ring.Holds (looked s).mem
  looked-status j s ring k l =
      let desc = s.lance.tx_ring_addr + s.lance.tx_ring_index * 8 in
      let tmd0 = dma.peek word desc s.mem in
      let tmd1 = dma.peek word (desc + 2) tmd0.after in
      let k0 = ring.peek_holds word desc s.mem k in
      let k1 = ring.peek_holds word (desc + 2) tmd0.after k0 in
      (
        ring.peek_keeps word (desc + 4) j tmd1.after k1 l
            ∙ ring.peek_keeps word (desc + 2) j tmd0.after k0 l
            ∙ ring.peek_keeps word desc j s.mem k l,
        ring.peek_holds word (desc + 4) tmd1.after k1,
      )

  pub transmitted-status :
      (j : ℕ) (s : Machine Mem Net)
      → (ring : IsRing dma s.lance.tx_ring_addr s.lance.tx_ring_len) → ring.Holds s.mem
      → s.lance.tx_ring_index < s.lance.tx_ring_len
      → j < s.lance.tx_ring_len
      → (status dma s.lance (transmitted s).mem j ≡ (
          if s.lance.tx_ring_index == j
          then handed_back (status dma s.lance s.mem s.lance.tx_ring_index)
          else status dma s.lance s.mem j))
        × ring.Holds (transmitted s).mem
  transmitted-status j s ring k h l =
      let i = s.lance.tx_ring_index in
      let desc = s.lance.tx_ring_addr + i * 8 in
      let tmd0 = dma.peek word desc s.mem in
      let tmd1 = dma.peek word (desc + 2) tmd0.after in
      let tmd2 = dma.peek word (desc + 4) tmd1.after in
      let seen = looked-status j s ring k l in
      let sent = transmit-status tmd0.value tmd1.value tmd2.value j (looked s) ring seen.1 h l in
      (sent.0 ∙ rw (seen.0, ring.peek_keeps word desc i s.mem k h) refl, sent.1)

  pub round-hands_back :
      (s : Machine Mem Net)
      → (ring : IsRing dma s.lance.tx_ring_addr s.lance.tx_ring_len) → ring.Holds s.mem
      → s.lance.tx_ring_index < s.lance.tx_ring_len
      → status dma s.lance (transmitted s).mem s.lance.tx_ring_index
        ≡ handed_back (status dma s.lance s.mem s.lance.tx_ring_index)
  round-hands_back s ring k h =
      (transmitted-status s.lance.tx_ring_index s ring k h h).0 ∙ ground arith

  -- The descriptor at the index is not owned after a round.
  pub round-frees :
      (s : Machine Mem Net)
      → (ring : IsRing dma s.lance.tx_ring_addr s.lance.tx_ring_len) → ring.Holds s.mem
      → s.lance.tx_ring_index < s.lance.tx_ring_len
      → owned (status dma s.lance (transmitted s).mem s.lance.tx_ring_index) ≡ false
  round-frees s ring k h =
      let i = s.lance.tx_ring_index in
      ap owned (round-hands_back s ring k h) ∙ not_owned-handed_back (status dma s.lance s.mem i)

  pub round-keeps :
      (j : ℕ) (s : Machine Mem Net)
      → (ring : IsRing dma s.lance.tx_ring_addr s.lance.tx_ring_len) → ring.Holds s.mem
      → s.lance.tx_ring_index < s.lance.tx_ring_len
      → j < s.lance.tx_ring_len
      → (s.lance.tx_ring_index == j) ≡ false
      → status dma s.lance (transmitted s).mem j ≡ status dma s.lance s.mem j
  round-keeps j s ring k h l e = rw ((transmitted-status j s ring k h l).0, e) refl
