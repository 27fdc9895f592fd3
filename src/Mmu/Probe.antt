-- ===== src/Mmu/Probe.antt =====
-- `PTest` and `PTestTableWalk`: the walk that only looks.
use em68030_win_ui3cpp.Common.{
  ℕ, ◌+◌, ◌-◌, ◌*◌, ◌/◌, ◌%◌, ◌^◌, ◌≤◌, ◌≡◌, refl, ap, sym, ◌∙◌, arith, Bool, true, false, not,
  ◌&&◌, ◌||◌, List, [], ◌∷◌, Option, none, some, bit_and, bit_or, ltb, leb, ◌==◌, if◌then◌else◌,
  has,
}
use em68030_win_ui3cpp.Mmu.State.{Mmu}
use em68030_win_ui3cpp.Mmu.Walk.{
  Bus, Reading, Memory, Machine, Access, Level, with_mmusr, page_status, fetch,
}
use em68030_win_ui3cpp.Mmu.Translate.{passes}
use em68030_win_ui3cpp.Mmu.Agreement.{sum}

module _ {Mem : Type 0} (memory : Memory Mem) where
  -- `none` is a shift below zero, as in the table walk.
  unfoldable pub probe : Access → ℕ → List ℕ → Level → Machine Mem → Option (Machine Mem)
  probe a max_level [] l s =
      some (with_mmusr (page_status l.levels_searched l.write_protected false) s)
  probe a max_level (bits ∷ rest) l s =
      let shift = l.shift - bits in
      let index = bit_and (a.logical / 2 ^ shift) (2 ^ bits - 1) in
      let desc_addr = (l.table_addr + index * l.entry_size) % 2 ^ 32 in
      let pointed : Machine Mem = record s {
        mmu = record (s.mmu) { last_descriptor_address = desc_addr };
      } in
      let d = (fetch memory l desc_addr pointed).1 in
      let lo = d.value in
      let below : Level = record l {
        shift = shift;
        levels_searched = l.levels_searched + 1;
        write_protected = l.write_protected || has lo 0x04;
        table_addr = bit_and lo 0xfffffff0;
        entry_size = (if bit_and lo 3 == 2 then 4 else 8);
      } in
      let skipped = probe a max_level rest l s in
      let deeper = probe a max_level rest below d.after in
      if bits == 0
      then skipped
      else if leb max_level l.levels_searched
      then some (with_mmusr (page_status l.levels_searched l.write_protected false) s)
      else if ltb l.shift bits
      then none
      else if bit_and lo 3 == 0
      then some (with_mmusr (bit_or (bit_and below.levels_searched 7) 0x0400) d.after)
      else if bit_and lo 3 == 1
      then some (
          with_mmusr (page_status below.levels_searched below.write_protected (has lo 0x10))
            d.after)
      else deeper

  unfoldable pub p_test_table_walk : Access → ℕ → Machine Mem → Option (Machine Mem)
  p_test_table_walk a max_level s =
      let root = (if has a.fc 4 && s.mmu.sre then s.mmu.srp else s.mmu.crp) in
      let root_dt = bit_and (root / 2 ^ 32) 3 in
      let start : Level = record {
        shift = 32 - s.mmu.initial_shift;
        table_addr = bit_and root 0xfffffff0;
        entry_size = (if root_dt == 3 then 8 else 4);
        write_protected = false;
        cache_inhibit = false;
        levels_searched = 0;
      } in
      if root_dt == 0
      then some (with_mmusr 0x0400 s)
      else probe a max_level (s.mmu.tia ∷ s.mmu.tib ∷ s.mmu.tic ∷ s.mmu.tid ∷ []) start s

  unfoldable pub p_test : Access → ℕ → Machine Mem → Option (Machine Mem)
  p_test a max_level s =
      let cleared : Machine Mem = record s {
        mmu = record (s.mmu) { mmusr = 0; last_descriptor_address = 0 };
      } in
      if not s.mmu.enabled
      then some cleared
      else if max_level == 0
      then some (with_mmusr (if passes a s.mmu then 0x0040 else 0x0400) cleared)
      else p_test_table_walk a max_level cleared

  unfoldable p_test_data : ℕ → Bool → Bool → Machine Mem → Option (Machine Mem)
  p_test_data logical supervisor write s =
      p_test (record { logical = logical; write = write; fc = (if supervisor then 5 else 1) }) 7 s

  -- The second bus is the first after reads of longs, and nothing else.
  pub data OnlyReads : Bus Mem → Bus Mem → Type 0 where
    no_read : (b : Bus Mem) → OnlyReads b b
    one_more :
        (addr : ℕ) (b c : Bus Mem) → OnlyReads (memory.read_long addr b).after c → OnlyReads b c

  OnlyReads-trans : (b c d : Bus Mem) → OnlyReads b c → OnlyReads c d → OnlyReads b d
  OnlyReads-trans b c d (no_read _) q = q
  OnlyReads-trans b c d (one_more addr _ _ p) q =
      one_more addr b d (OnlyReads-trans (memory.read_long addr b).after c d p q)

  -- The machine is there; its memory was read and not written, and its MMU differs in MMUSR and the
  -- last descriptor address.
  abbrev pub OnlyLooked : Machine Mem → Option (Machine Mem) → Type 0
  OnlyLooked s o =
      (q : Machine Mem) × (o ≡ some q)
      × OnlyReads s.bus q.bus
      × (q.mmu ≡ record (s.mmu) {
        mmusr = q.mmu.mmusr;
        last_descriptor_address = q.mmu.last_descriptor_address;
      })

  if-OnlyLooked :
      (s : Machine Mem) (x : Bool) (o1 o2 : Option (Machine Mem))
      → OnlyLooked s o1
      → OnlyLooked s o2
      → OnlyLooked s (if x then o1 else o2)
  if-OnlyLooked s true o1 o2 h1 h2 = h1
  if-OnlyLooked s false o1 o2 h1 h2 = h2

  else-OnlyLooked :
      (s : Machine Mem) (x : Bool) (o1 o2 : Option (Machine Mem))
      → x ≡ false
      → OnlyLooked s o2
      → OnlyLooked s (if x then o1 else o2)
  else-OnlyLooked s true o1 o2 e h = cc
  else-OnlyLooked s false o1 o2 e h = h

  -- A walk that starts from a machine that differs in those two fields only.
  from-OnlyLooked :
      (s t : Machine Mem) (o : Option (Machine Mem))
      → OnlyReads s.bus t.bus
      → t.mmu ≡ record (s.mmu) {
        mmusr = t.mmu.mmusr;
        last_descriptor_address = t.mmu.last_descriptor_address;
      }
      → OnlyLooked t o
      → OnlyLooked s o
  from-OnlyLooked s t o b m (q, e, qb, qm) = (
    q,
    e,
    OnlyReads-trans s.bus t.bus q.bus b qb,
    qm
        ∙ ap
            (λ (x : Mmu). record x {
              mmusr = q.mmu.mmusr;
              last_descriptor_address = q.mmu.last_descriptor_address;
            })
            m,
  )

  -- A descriptor is read.
  abbrev Fetched : Machine Mem → ℕ × Reading (Machine Mem) → Type 0
  Fetched s r = (r.1.after.mmu ≡ s.mmu) × OnlyReads s.bus r.1.after.bus

  if-Fetched :
      (x : Bool) (p q : ℕ × Reading (Machine Mem)) (s : Machine Mem)
      → Fetched s p
      → Fetched s q
      → Fetched s (if x then p else q)
  if-Fetched true p q s hp hq = hp
  if-Fetched false p q s hp hq = hq

  fetch-Fetched : (l : Level) (addr : ℕ) (s : Machine Mem) → Fetched s (fetch memory l addr s)
  unfolding fetch
  fetch-Fetched l addr s =
      let again = (addr + 4) % 2 ^ 32 in
      let first = memory.read_long addr s.bus in
      let second = memory.read_long again first.after in
      if-Fetched (l.entry_size == 8)
        (again, record { value = second.value; after = record s { bus = second.after } })
        (addr, record { value = first.value; after = record s { bus = first.after } }) s
        (
          refl,
          one_more addr s.bus second.after
              (one_more again first.after second.after (no_read second.after)),
        )
        (refl, one_more addr s.bus first.after (no_read first.after))

  probe-OnlyLooked :
      (a : Access) (max_level : ℕ) (bits : List ℕ) (l : Level) (s : Machine Mem)
      → sum bits ≤ l.shift
      → OnlyLooked s (probe a max_level bits l s)
  unfolding probe
  probe-OnlyLooked a max_level [] l s h = (_, refl, no_read _, refl)
  probe-OnlyLooked a max_level (x ∷ rest) l s h =
      let shift = l.shift - x in
      let index = bit_and (a.logical / 2 ^ shift) (2 ^ x - 1) in
      let desc_addr = (l.table_addr + index * l.entry_size) % 2 ^ 32 in
      let pointed : Machine Mem = record s {
        mmu = record (s.mmu) { last_descriptor_address = desc_addr };
      } in
      let d = (fetch memory l desc_addr pointed).1 in
      let lo = d.value in
      let below : Level = record l {
        shift = shift;
        levels_searched = l.levels_searched + 1;
        write_protected = l.write_protected || has lo 0x04;
        table_addr = bit_and lo 0xfffffff0;
        entry_size = (if bit_and lo 3 == 2 then 4 else 8);
      } in
      let seen = fetch-Fetched l desc_addr pointed in
      let same : d.after.mmu ≡ record (s.mmu) {
        mmusr = d.after.mmu.mmusr;
        last_descriptor_address = d.after.mmu.last_descriptor_address;
      } =
        seen.0
        ∙ ap
            (λ (x : Mmu). record (s.mmu) {
              mmusr = x.mmusr;
              last_descriptor_address = x.last_descriptor_address;
            })
            (sym seen.0) in
      let looked : (o : Option (Machine Mem)) → OnlyLooked d.after o → OnlyLooked s o =
        λ o k. from-OnlyLooked s d.after o seen.1 same k in
      if-OnlyLooked s (x == 0) _ _ (probe-OnlyLooked a max_level rest l s (omega arith)) (
        if-OnlyLooked s (leb max_level l.levels_searched) _ _ (_, refl, no_read _, refl)
          (else-OnlyLooked s (ltb l.shift x) _ _ (ground arith) (
            if-OnlyLooked s (bit_and lo 3 == 0) _ _ (looked _ (_, refl, no_read _, refl)) (
              if-OnlyLooked s (bit_and lo 3 == 1) _ _ (looked _ (_, refl, no_read _, refl))
                (looked _ (probe-OnlyLooked a max_level rest below d.after (omega arith)))))))

  -- `PTest` returns where TC's index bits and initial shift add up to at most 32: it reads
  -- descriptors and writes nothing to memory, and of the MMU it changes nothing but MMUSR and the last
  -- descriptor address, no cache entry among them. For every memory, whatever its reads do.
  pub p_test-OnlyLooked :
      (a : Access) (max_level : ℕ) (s : Machine Mem)
      → s.mmu.initial_shift + s.mmu.tia + s.mmu.tib + s.mmu.tic + s.mmu.tid ≤ 32
      → OnlyLooked s (p_test a max_level s)
  unfolding p_test p_test_table_walk
  p_test-OnlyLooked a max_level s h =
      let cleared : Machine Mem = record s {
        mmu = record (s.mmu) { mmusr = 0; last_descriptor_address = 0 };
      } in
      let root = (if has a.fc 4 && s.mmu.sre then s.mmu.srp else s.mmu.crp) in
      let root_dt = bit_and (root / 2 ^ 32) 3 in
      let start : Level = record {
        shift = 32 - s.mmu.initial_shift;
        table_addr = bit_and root 0xfffffff0;
        entry_size = (if root_dt == 3 then 8 else 4);
        write_protected = false;
        cache_inhibit = false;
        levels_searched = 0;
      } in
      if-OnlyLooked s (not s.mmu.enabled) _ _ (_, refl, no_read _, refl)
        (if-OnlyLooked s (max_level == 0) _ _ (_, refl, no_read _, refl)
          (if-OnlyLooked s (root_dt == 0) _ _ (_, refl, no_read _, refl)
            (from-OnlyLooked s cleared _ (no_read s.bus) refl (
              probe-OnlyLooked a max_level (s.mmu.tia ∷ s.mmu.tib ∷ s.mmu.tic ∷ s.mmu.tid ∷ [])
                start cleared (omega arith)))))
