-- ===== src/Memory/Errors.antt =====
-- The accesses that do not reach a byte: where nothing is, across a region's end, and of a ROM.
use em68030_win_ui3cpp.Common.{
  ℕ, suc, ◌+◌, ◌-◌, ◌^◌, ◌<◌, ◌≡◌, refl, inl, inr, true, false, List, [], ◌∷◌, Option, none, some,
  Bool-cases,
}
use em68030_win_ui3cpp.Common.Size.{Size}
use em68030_win_ui3cpp.Common.Bytes.{last}
use em68030_win_ui3cpp.Mmu.Walk.{Bus}
use em68030_win_ui3cpp.Memory.Store.{
  Region, Store, is_ram, region_at, contains, find_device, find_region, scan, try_last, remember,
}
use em68030_win_ui3cpp.Memory.Access.{
  Devices, fits, in_fast_ram, raise_physical_bus_error, read_region, write_region, device_or_read,
  device_or_write, read, write,
}
use em68030_win_ui3cpp.Memory.Plain.{with_last}
use em68030_win_ui3cpp.Memory.Invariant.{IsConsistent, fast_holds}
use em68030_win_ui3cpp.Memory.Agreement.{fast-fits}
use em68030_win_ui3cpp.Memory.Laws.{write-at, read-at}

abbrev IsUnmapped : {World : Type 0} → ℕ → Store World → Type 0
IsUnmapped a s = (find_device a s ≡ none) × ((i : ℕ) → contains a (region_at s.regions i) ≡ false)

scan-none :
    (a k : ℕ) (rs : List Region)
    → ((i : ℕ) → contains a (region_at rs i) ≡ false)
    → scan a k rs ≡ none
unfolding scan
scan-none a k [] h = refl
scan-none a k (r ∷ rs) h = rw (h 0) (scan-none a (suc k) rs (λ i. h (suc i)))

module _ {World : Type 0} where
  try_last-none :
      (a : ℕ) (l : Option ℕ) (s : Store World)
      → ((i : ℕ) → contains a (region_at s.regions i) ≡ false)
      → try_last l a s ≡ (none, s)
  unfolding try_last remember
  try_last-none a none s h = rw (scan-none a 0 s.regions h) refl
  try_last-none a (some i) s h = rw (h i, scan-none a 0 s.regions h) refl

  not_in_fast_ram :
      (z : Size) (a : ℕ) (s : Store World)
      → IsConsistent s
      → a + last z < 2 ^ 32
      → contains a (region_at s.regions s.fast_ram) ≡ false
      → in_fast_ram z a s ≡ false
  not_in_fast_ram z a s c h out = elim (Bool-cases (in_fast_ram z a s)) [
    | inl f ↦ absurd (cc (fast_holds s a c (fast-fits z a s c h f).0))
    | inr f ↦ f
  ]

module _ {World : Type 0} (devices : Devices World) where
  -- In a consistent memory, at an address below the end of the address space that is no device's and
  -- in no region, a read gives 0 and raises a bus error of the address, and a write raises one and
  -- changes nothing else.
  pub access-unmapped :
      (z : Size) (a v : ℕ) (b : Bus (Store World))
      → IsConsistent b.mem
      → a + last z < 2 ^ 32
      → IsUnmapped a b.mem
      → (read devices z a b ≡ record { value = 0; after = raise_physical_bus_error a false b })
        × (write devices z a v b ≡ raise_physical_bus_error a true b)
  unfolding read write device_or_read device_or_write find_region read_region write_region
  access-unmapped z a v b c h u =
      let slow = not_in_fast_ram z a b.mem c h (u.1 b.mem.fast_ram) in
      let nothing = try_last-none a b.mem.last_region b.mem u.1 in
      (rw (slow, u.0, nothing) refl, rw (slow, u.0, nothing) refl)

  -- In a consistent memory, at an address in a region, with no device, from which the access does not
  -- fit in the region, a read gives 0 and raises a bus error of the address, but a write changes nothing
  -- except for the region that was found last, and raises none.
  pub access-straddles :
      (z : Size) (a v i : ℕ) (b : Bus (Store World))
      → IsConsistent b.mem
      → a + last z < 2 ^ 32
      → find_device a b.mem ≡ none
      → contains a (region_at b.mem.regions i) ≡ true
      → fits z (a - (region_at b.mem.regions i).base_address) (region_at b.mem.regions i).size
        ≡ false
      → (k : Option ℕ) × (l : Option ℕ) × (read devices z a b
          ≡ record { value = 0; after = with_last k (raise_physical_bus_error a false b) })
        × (write devices z a v b ≡ with_last l b)
  unfolding read_region write_region
  access-straddles z a v i b c h d holds out =
      let (k, er) = read-at devices z a i b c h d holds in
      let (l, ew) = write-at devices z a v i b c h d holds in
      (
        k,
        l,
        rw (er, out) refl,
        elim (Bool-cases (is_ram (region_at b.mem.regions i).region_type)) [
          | inl ram ↦ rw (ew, ram, out) refl
          | inr rom ↦ rw (ew, rom) refl
        ],
      )

  -- In a consistent memory, a write at an address in a ROM region, with no device and below the end of
  -- the address space, changes nothing except for the region that was found last, and raises no fault.
  pub write-rom :
      (z : Size) (a v i : ℕ) (b : Bus (Store World))
      → IsConsistent b.mem
      → a + last z < 2 ^ 32
      → find_device a b.mem ≡ none
      → contains a (region_at b.mem.regions i) ≡ true
      → is_ram (region_at b.mem.regions i).region_type ≡ false
      → (l : Option ℕ) × (write devices z a v b ≡ with_last l b)
  unfolding write_region
  write-rom z a v i b c h d holds rom =
      let (l, e) = write-at devices z a v i b c h d holds in (l, rw (e, rom) refl)
