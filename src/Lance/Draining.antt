-- ===== src/Lance/Draining.antt =====
-- The loop of `ProcessTxRing` drains the ring.
use em68030_win_ui3cpp.Common.{
  ℕ, zero, suc, ◌+◌, ◌-◌, ◌*◌, ◌%◌, ◌<◌, ◌≡◌, ◌⊎◌, refl, sym, ap, ◌∙◌, arith, inl, inr, Bool, true,
  false, not, ◌||◌, some, bit_or, ltb, ◌==◌, if◌then◌else◌, Bool-cases,
}
use native.Mathlib.Nat.{mod-eq_of_lt, mod-add-mod, mod-lt}
use em68030_win_ui3cpp.Common.Size.{word}
use em68030_win_ui3cpp.Lance.State.{Dma, Network, Machine, csr0, with_csr0, update_interrupt}
use em68030_win_ui3cpp.Lance.Rings.{transmit, tx_loop, finish_tx, process_tx_ring}
use em68030_win_ui3cpp.Lance.Ring.{
  owned, handed_back, not_owned-handed_back, IsRing, status, count_le, count-fewer,
}
use em68030_win_ui3cpp.Lance.Transmit.{
  owned_count, looked, transmitted, looked-status, transmitted-status, round-hands_back,
  round-frees, round-keeps,
}

module _ {Mem Net : Type 0} (dma : Dma Mem) (network : Network Net) where
  -- Of the descriptors from the index on, `n` are handed back; the next one is not the device's, and no
  -- status changes otherwise.
  pub record IsDrained (n : ℕ) (s r : Machine Mem Net) : Type 0 where
    pub only_index :
        r.lance
        ≡ record (s.lance) { tx_ring_index = (s.lance.tx_ring_index + n) % s.lance.tx_ring_len }
    pub next_is_free : owned (status dma s.lance r.mem r.lance.tx_ring_index) ≡ false
    pub in_order :
        (k : ℕ)
        → k < n
        → owned (status dma s.lance r.mem ((s.lance.tx_ring_index + k) % s.lance.tx_ring_len))
          ≡ false
    pub or_kept :
        (j : ℕ)
        → j < s.lance.tx_ring_len
        → (status dma s.lance r.mem j ≡ status dma s.lance s.mem j)
          ⊎ ((owned (status dma s.lance s.mem j) ≡ true)
              × (status dma s.lance r.mem j ≡ handed_back (status dma s.lance s.mem j)))

  looked-IsDrained :
      (s : Machine Mem Net)
      → (ring : IsRing dma s.lance.tx_ring_addr s.lance.tx_ring_len) → ring.Holds s.mem
      → s.lance.tx_ring_index < s.lance.tx_ring_len
      → owned (status dma s.lance s.mem s.lance.tx_ring_index) ≡ false
      → IsDrained 0 s (looked dma network s)
  looked-IsDrained s ring m h free = record {
    only_index =
        ap (λ (k : ℕ). record (s.lance) { tx_ring_index = k })
          (sym (mod-eq_of_lt {n = s.lance.tx_ring_index + 0} (omega arith) ∙ omega arith));
    next_is_free = rw ((looked-status dma network s.lance.tx_ring_index s ring m h).0) free;
    in_order = λ k l. absurd (omega arith);
    or_kept = λ j l. inl (looked-status dma network j s ring m l).0;
  }

  IsDrained-suc :
      (n : ℕ) (s r : Machine Mem Net)
      → (ring : IsRing dma s.lance.tx_ring_addr s.lance.tx_ring_len) → ring.Holds s.mem
      → s.lance.tx_ring_index < s.lance.tx_ring_len
      → owned (status dma s.lance s.mem s.lance.tx_ring_index) ≡ true
      → IsDrained n (transmitted dma network s) r
      → IsDrained (suc n) s r
  unfolding transmit
  IsDrained-suc n s r ring m h own d =
      let i = s.lance.tx_ring_index in
      let len = s.lance.tx_ring_len in
      let further : (k : ℕ) → ((i + 1) % len + k) % len ≡ (i + suc k) % len =
        λ k. mod-add-mod (i + 1) len k ∙ ap (λ (t : ℕ). t % len) (omega arith) in
      let back : status dma s.lance r.mem i ≡ handed_back (status dma s.lance s.mem i) =
        elim (d.or_kept i h) [
          | inl same ↦ same ∙ round-hands_back dma network s ring m h
          | inr (was, _) ↦ absurd (cc (was, round-frees dma network s ring m h))
        ] in
      let freed = ap owned back ∙ not_owned-handed_back (status dma s.lance s.mem i) in
      record {
        only_index =
            d.only_index ∙ ap (λ (k : ℕ). record (s.lance) { tx_ring_index = k }) (further n);
        next_is_free = d.next_is_free;
        in_order = λ k l. elim (Bool-cases (k == 0)) [
          | inl e ↦
              let at : (i + k) % len ≡ i =
                ap (λ (t : ℕ). t % len) (ground arith) ∙ mod-eq_of_lt h in
              rw at freed
          | inr e ↦
              let at : (i + k) % len ≡ ((i + 1) % len + (k - 1)) % len =
                sym (further (k - 1) ∙ ap (λ (t : ℕ). t % len) (ground arith)) in
              rw at (d.in_order (k - 1) (ground arith))
        ];
        or_kept = λ j l. elim (Bool-cases (i == j)) [
          | inl e ↦ let at : i ≡ j = ground arith in rw (sym at) (inr (own, back))
          | inr e ↦ rw (← round-keeps dma network j s ring m h l e) (d.or_kept j l)
        ];
      }

  -- The next round's ring and index, and one owned descriptor fewer.
  next_round :
      (s : Machine Mem Net)
      → (ring : IsRing dma s.lance.tx_ring_addr s.lance.tx_ring_len) → ring.Holds s.mem
      → s.lance.tx_ring_index < s.lance.tx_ring_len
      → owned (status dma s.lance s.mem s.lance.tx_ring_index) ≡ true
      → ring.Holds (transmitted dma network s).mem
        × ((transmitted dma network s).lance.tx_ring_index
            < (transmitted dma network s).lance.tx_ring_len)
        × (suc (owned_count dma network (transmitted dma network s)) ≡ owned_count dma network s)
  unfolding transmit
  next_round s ring m h own = (
    (transmitted-status dma network s.lance.tx_ring_index s ring m h h).1,
    mod-lt (s.lance.tx_ring_index + 1) ring.not_empty,
    count-fewer (λ j. owned (status dma s.lance s.mem j))
        (λ j. owned (status dma s.lance (transmitted dma network s).mem j)) s.lance.tx_ring_index
        s.lance.tx_ring_len h own (round-frees dma network s ring m h)
        (λ j l e. ap owned (round-keeps dma network j s ring m h l e)),
  )

  tx_step :
      (fuel : ℕ) (processed : Bool) (s : Machine Mem Net)
      → (let desc = s.lance.tx_ring_addr + s.lance.tx_ring_index * 8 in
          (dma.peek word (desc + 2) (dma.peek word desc s.mem).after).value
          ≡ (dma.peek word (desc + 2) s.mem).value)
      → owned (status dma s.lance s.mem s.lance.tx_ring_index) ≡ true
      → tx_loop dma network (suc fuel) processed s
        ≡ tx_loop dma network fuel true (transmitted dma network s)
  unfolding tx_loop
  tx_step fuel processed s same own = let test = ap owned same ∙ own in rw test refl

  tx_end :
      (fuel : ℕ) (processed : Bool) (s : Machine Mem Net)
      → (let desc = s.lance.tx_ring_addr + s.lance.tx_ring_index * 8 in
          (dma.peek word (desc + 2) (dma.peek word desc s.mem).after).value
          ≡ (dma.peek word (desc + 2) s.mem).value)
      → owned (status dma s.lance s.mem s.lance.tx_ring_index) ≡ false
      → tx_loop dma network (suc fuel) processed s ≡ some (processed, looked dma network s)
  unfolding tx_loop
  tx_end fuel processed s same free = let test = ap owned same ∙ free in rw test refl

  -- The loop ends once the fuel exceeds the number of descriptors that the device owns.
  tx_loop-drains :
      (fuel : ℕ) (processed : Bool) (s : Machine Mem Net)
      → (ring : IsRing dma s.lance.tx_ring_addr s.lance.tx_ring_len) → ring.Holds s.mem
      → s.lance.tx_ring_index < s.lance.tx_ring_len
      → owned_count dma network s < fuel
      → (n : ℕ) × (r : Machine Mem Net) × (tx_loop dma network fuel processed s
          ≡ some (processed || ltb 0 n, r))
        × IsDrained n s r
  unfolding tx_loop transmit
  tx_loop-drains zero processed s ring m h f = absurd (omega arith)
  tx_loop-drains (suc fuel) processed s ring m h f =
      let i = s.lance.tx_ring_index in
      let desc = s.lance.tx_ring_addr + i * 8 in
      let same = ring.peek_keeps word desc i s.mem m h in
      elim (Bool-cases (owned (status dma s.lance s.mem i))) [
        | inl own ↦
            let (held, h2, fewer) = next_round s ring m h own in
            let (n, r, e, d) =
              tx_loop-drains fuel true (transmitted dma network s) ring held h2 (omega arith) in
            (
              suc n,
              r,
              tx_step fuel processed s same own ∙ e ∙ ap (λ (b : Bool). some (b, r)) (ground arith),
              IsDrained-suc n s r ring m h own d,
            )
        | inr free ↦ (
          0,
          looked dma network s,
          tx_end fuel processed s same free
              ∙ ap (λ (b : Bool). some (b, looked dma network s)) (ground arith),
          looked-IsDrained s ring m h free,
        )
      ]

  -- Where the transmit ring lies in memory that keeps what is poked, and the device is attached and
  -- running with its index in the ring, `ProcessTxRing` ends after at most one round more than the ring has
  -- descriptors. From the index on, it hands descriptors back in order up to the first one that the
  -- device does not own; it leaves every other status word and every flag but OWN, clears the pending
  -- demand, and sets TINT and reports the interrupt where it handed one back.
  pub process_tx_ring-Drains :
      (s : Machine Mem Net)
      → s.lance.attached ≡ true
      → s.lance.running ≡ true
      → (ring : IsRing dma s.lance.tx_ring_addr s.lance.tx_ring_len) → ring.Holds s.mem
      → s.lance.tx_ring_index < s.lance.tx_ring_len
      → (n : ℕ) × (r : Machine Mem Net) × (process_tx_ring dma network (suc s.lance.tx_ring_len) s
          ≡ some (record r {
            lance =
                (let idle = record (r.lance) { tx_pending = false } in
                  if ltb 0 n
                  then update_interrupt (with_csr0 (bit_or (csr0 s.lance) 0x0200) idle)
                  else idle);
          }))
        × IsDrained n s r
  unfolding process_tx_ring finish_tx
  process_tx_ring-Drains s at run ring m h =
      let enough = count_le (λ j. owned (status dma s.lance s.mem j)) s.lance.tx_ring_len in
      let (n, r, e, d) = tx_loop-drains (suc s.lance.tx_ring_len) false s ring m h (omega arith) in
      let same : csr0 r.lance ≡ csr0 s.lance = ap csr0 d.only_index in
      let awake : (not s.lance.attached || not s.lance.running) ≡ false = rw (at, run) refl in
      (n, r, rw awake (ap (finish_tx dma network) e ∙ rw same refl), d)
