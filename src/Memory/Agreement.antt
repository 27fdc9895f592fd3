-- ===== src/Memory/Agreement.antt =====
-- The accesses agree with what they mean, in a memory whose caches are right.
use em68030_win_ui3cpp.Common.{
  ℕ, zero, suc, ◌+◌, ◌-◌, ◌^◌, ◌<◌, ◌≡◌, refl, sym, ap, ◌∙◌, arith, inl, inr, true, List, [], ◌∷◌,
  Option, none, some, Bool-cases,
}
use em68030_win_ui3cpp.Common.Size.{Size, byte, word, long}
use em68030_win_ui3cpp.Common.Bytes.{last, read_be, write_be}
use em68030_win_ui3cpp.Mmu.Walk.{Bus}
use em68030_win_ui3cpp.Memory.Store.{
  Region, Store, region_at, contains, scan, find_region, remember, try_last,
}
use em68030_win_ui3cpp.Memory.Access.{
  fits, with_mem, in_fast_ram, put_bytes, raise_physical_bus_error, read_region, write_region,
}
use em68030_win_ui3cpp.Memory.Invariant.{IsFast, IsConsistent, fast_holds}
use em68030_win_ui3cpp.Memory.Regions.{none_in_empty}
use em68030_win_ui3cpp.Memory.Plain.{with_last, first_region}

-- A region that holds the address is found, or one before it.
scan_finds :
    (a i k : ℕ) (rs : List Region)
    → contains a (region_at rs i) ≡ true
    → (j : ℕ) × (scan a k rs ≡ some (k + j)) × (contains a (region_at rs j) ≡ true)
unfolding scan
scan_finds a i k [] h = absurd (cc (none_in_empty a))
scan_finds a zero k (r ∷ rs) h = (0, rw h (ap some (omega arith)), h)
scan_finds a (suc i) k (r ∷ rs) h = elim (Bool-cases (contains a r)) [
  | inl e ↦ (0, rw e (ap some (omega arith)), e)
  | inr e ↦
      let (j, found, holds) = scan_finds a i (suc k) rs h in
      (suc j, rw e (found ∙ ap some (omega arith)), holds)
]

abbrev pub last_of : Option ℕ → Option ℕ → Option ℕ
last_of none l = l
last_of (some i) l = some i

module _ {World : Type 0} where
  -- In a consistent memory the region that holds the address is the one that the scan finds.
  pub scan_exact :
      (s : Store World) (a i : ℕ)
      → IsConsistent s
      → contains a (region_at s.regions i) ≡ true
      → scan a 0 s.regions ≡ some i
  scan_exact s a i c h =
      let (j, found, holds) = scan_finds a i 0 s.regions h in
      found ∙ ap some (omega (arith, c.apart j i a holds h))

  remember-scan :
      (s : Store World) (o : Option ℕ)
      → remember o s ≡ (o, record s { last_region = last_of o s.last_region })
  unfolding remember
  remember-scan s none = refl
  remember-scan s (some i) = refl

  -- The region that was found last is the one that the scan finds.
  pub try_last-scan :
      (s : Store World) (a : ℕ) (l : Option ℕ)
      → IsConsistent s
      → s.last_region ≡ l
      → try_last l a s
        ≡ (scan a 0 s.regions, record s { last_region = last_of (scan a 0 s.regions) l })
  unfolding try_last
  try_last-scan s a none c e = remember-scan s (scan a 0 s.regions) ∙ rw e refl
  try_last-scan s a (some i) c e = elim (Bool-cases (contains a (region_at s.regions i))) [
    | inl h ↦ rw h (rw (scan_exact s a i c h) (rw (sym e) refl))
    | inr h ↦ rw h (remember-scan s (scan a 0 s.regions) ∙ rw e refl)
  ]

  -- What is read or written does not depend on the region found last.
  read_region-last :
      (z : Size) (a : ℕ) (o k : Option ℕ) (b : Bus (Store World))
      → read_region z a (o, record (b.mem) { last_region = k }) b ≡ record {
        value = (read_region z a (o, b.mem) b).value;
        after = with_last k (read_region z a (o, b.mem) b).after;
      }
  unfolding read_region raise_physical_bus_error
  read_region-last z a none k b = refl
  read_region-last z a (some i) k b = ground arith

  write_region-last :
      (z : Size) (a v : ℕ) (o k : Option ℕ) (b : Bus (Store World))
      → write_region z a v (o, record (b.mem) { last_region = k }) b
        ≡ with_last k (write_region z a v (o, b.mem) b)
  unfolding write_region raise_physical_bus_error
  write_region-last z a v none k b = refl
  write_region-last z a v (some i) k b = ground arith

  in_fast_ram-IsFast :
      (z : Size) (a : ℕ) (s : Store World)
      → IsConsistent s
      → a + last z < 2 ^ 32
      → in_fast_ram z a s ≡ true
      → IsFast s.fast_ram_size (region_at s.regions s.fast_ram)
  in_fast_ram-IsFast z a s c h f = c.fast (ground (arith, c.limit))

  -- An access of the fast array stays in its region.
  pub fast-fits :
      (z : Size) (a : ℕ) (s : Store World)
      → IsConsistent s
      → a + last z < 2 ^ 32
      → in_fast_ram z a s ≡ true
      → (a < s.fast_ram_limit) × (fits z a (region_at s.regions s.fast_ram).size ≡ true)
  unfolding fits
  fast-fits byte a s c h f = (ground arith, refl)
  fast-fits word a s c h f =
      (ground arith, ground (arith, c.limit, (in_fast_ram-IsFast word a s c h f).whole))
  fast-fits long a s c h f =
      (ground arith, ground (arith, c.limit, (in_fast_ram-IsFast long a s c h f).whole))

  -- The access of the region that is found is the access of the first one that holds the address.
  pub read_region-find_region :
      (z : Size) (a : ℕ) (b : Bus (Store World))
      → IsConsistent b.mem
      → (k : Option ℕ) × (read_region z a (find_region a b.mem) b ≡ record {
        value = (read_region z a (first_region a b.mem) b).value;
        after = with_last k (read_region z a (first_region a b.mem) b).after;
      })
  unfolding find_region
  read_region-find_region z a b c =
      let k = last_of (scan a 0 b.mem.regions) b.mem.last_region in
      (
        k,
        rw (try_last-scan b.mem a b.mem.last_region c refl)
            (read_region-last z a (scan a 0 b.mem.regions) k b),
      )

  pub write_region-find_region :
      (z : Size) (a v : ℕ) (b : Bus (Store World))
      → IsConsistent b.mem
      → (k : Option ℕ) × (write_region z a v (find_region a b.mem) b
          ≡ with_last k (write_region z a v (first_region a b.mem) b))
  unfolding find_region
  write_region-find_region z a v b c =
      let k = last_of (scan a 0 b.mem.regions) b.mem.last_region in
      (
        k,
        rw (try_last-scan b.mem a b.mem.last_region c refl)
            (write_region-last z a v (scan a 0 b.mem.regions) k b),
      )

  -- The fast array's region is the first one that holds an address of the fast array.
  fast-scan :
      (z : Size) (a : ℕ) (s : Store World)
      → IsConsistent s
      → a + last z < 2 ^ 32
      → in_fast_ram z a s ≡ true
      → scan a 0 s.regions ≡ some s.fast_ram
  fast-scan z a s c h f = scan_exact s a s.fast_ram c (fast_holds s a c (fast-fits z a s c h f).0)

  pub fast-read_region :
      (z : Size) (a : ℕ) (b : Bus (Store World))
      → IsConsistent b.mem
      → a + last z < 2 ^ 32
      → in_fast_ram z a b.mem ≡ true
      → read_region z a (first_region a b.mem) b
        ≡ record { value = read_be z (region_at b.mem.regions b.mem.fast_ram).bytes a; after = b }
  unfolding read_region
  fast-read_region z a b c h f =
      let from_zero : a - 0 ≡ a = omega arith in
      rw
        (
          fast-scan z a b.mem c h f,
          (in_fast_ram-IsFast z a b.mem c h f).at_zero,
          from_zero,
          (fast-fits z a b.mem c h f).1,
        )
        refl

  pub fast-write_region :
      (z : Size) (a v : ℕ) (b : Bus (Store World))
      → IsConsistent b.mem
      → a + last z < 2 ^ 32
      → in_fast_ram z a b.mem ≡ true
      → write_region z a v (first_region a b.mem) b
        ≡ with_mem
            (put_bytes b.mem.fast_ram
              (write_be z v (region_at b.mem.regions b.mem.fast_ram).bytes a)
              b.mem)
            b
  unfolding write_region
  fast-write_region z a v b c h f =
      let from_zero : a - 0 ≡ a = omega arith in
      rw
        (
          fast-scan z a b.mem c h f,
          (in_fast_ram-IsFast z a b.mem c h f).writable,
          (in_fast_ram-IsFast z a b.mem c h f).at_zero,
          from_zero,
          (fast-fits z a b.mem c h f).1,
        )
        refl
