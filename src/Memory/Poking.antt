-- ===== src/Memory/Poking.antt =====
-- `PeekByte` to `PokeLong` of a region of RAM that no device covers, in Em68030/Core/Memory.cpp.
use em68030_win_ui3cpp.Common.{
  ℕ, ◌+◌, ◌-◌, ◌<◌, ◌≤◌, ◌≡◌, refl, ap, ◌∙◌, arith, List, Option, none, some,
}
use em68030_win_ui3cpp.Common.Size.{Size, word}
use em68030_win_ui3cpp.Common.Bytes.{last, read_be, write_be}
use em68030_win_ui3cpp.Mmu.State.{clear_bus_error}
use em68030_win_ui3cpp.Mmu.Walk.{Bus}
use em68030_win_ui3cpp.Memory.Store.{Store, region_at, find_device, find_region, scan}
use em68030_win_ui3cpp.Memory.Access.{Devices}
use em68030_win_ui3cpp.Memory.Debug.{peek, poke, device_or_peek, peek_region, poke_region}
use em68030_win_ui3cpp.Memory.Agreement.{scan_exact, try_last-scan, last_of}
use em68030_win_ui3cpp.Memory.Laws.{fits-inside, offset_in}
use em68030_win_ui3cpp.Memory.Holding.{
  HoldsRegion, contains-HoldsRegion, with_last-HoldsRegion, inside-HoldsRegion, written-HoldsRegion,
}

module _ {World : Type 0} where
  abbrev pub in_bus : Store World → Bus (Store World)
  in_bus m = record { fault = clear_bus_error; mem = m }

  find_region_lem :
      (a : ℕ) (i base size : ℕ) (bytes : List ℕ) (m : Store World)
      → HoldsRegion i base size bytes (in_bus m)
      → (k : Option ℕ) × (find_region a m ≡ (scan a 0 m.regions, record m { last_region = k }))
  unfolding find_region
  find_region_lem a i base size bytes m h = (
    last_of (scan a 0 m.regions) m.last_region,
    try_last-scan m a m.last_region h.consistent refl,
  )

module _ {World : Type 0} (devices : Devices World) (i base size : ℕ) where
  abbrev pub Bytes : List ℕ → Store World → Type 0
  Bytes bytes m = HoldsRegion i base size bytes (in_bus m)

  -- What a device does when it is read leaves the region alone.
  abbrev pub Spares : Type 0
  Spares =
      (z : Size) (d a : ℕ) (bytes : List ℕ) (m : Store World)
      → Bytes bytes m
      → Bytes bytes (devices.device_read z d a m).after

  peek_region-Bytes :
      (z : Size) (a : ℕ) (o : Option ℕ) (bytes : List ℕ) (m : Store World)
      → Bytes bytes m
      → Bytes bytes (peek_region z a (o, m)).after
  unfolding peek_region
  peek_region-Bytes z a none bytes m h = h
  peek_region-Bytes z a (some j) bytes m h = h

  device_or_peek-Bytes :
      (z : Size) (a : ℕ) (o : Option ℕ) (bytes : List ℕ) (m : Store World)
      → Spares
      → Bytes bytes m
      → Bytes bytes (device_or_peek devices z a o m).after
  unfolding device_or_peek
  device_or_peek-Bytes z a (some d) bytes m spares h = spares z d a bytes m h
  device_or_peek-Bytes z a none bytes m spares h =
      let (k, e) = find_region_lem a i base size bytes m h in
      rw e (
        peek_region-Bytes z a (scan a 0 m.regions) bytes (record m { last_region = k })
          (with_last-HoldsRegion i base size k bytes (in_bus m) h))

  -- A peek anywhere keeps the bytes, and one inside the region gives them.
  pub peek-Bytes :
      (z : Size) (a : ℕ) (bytes : List ℕ) (m : Store World)
      → Spares
      → Bytes bytes m
      → Bytes bytes (peek devices z a m).after
  unfolding peek
  peek-Bytes z a bytes m spares h = device_or_peek-Bytes z a (find_device a m) bytes m spares h

  peek-value :
      (z : Size) (a : ℕ) (bytes : List ℕ) (m : Store World)
      → Bytes bytes m
      → base ≤ a
      → a + last z < base + size
      → (peek devices z a m).value ≡ read_be z bytes (a - base)
  unfolding peek device_or_peek peek_region
  peek-value z a bytes m h low high =
      let (k, e) = find_region_lem a i base size bytes m h in
      let holds = contains-HoldsRegion i base size a bytes (in_bus m) h low (omega (arith, high)) in
      let found = scan_exact m a i h.consistent holds in
      let inside =
        fits-inside z (offset_in a i m) (region_at m.regions i).size
          (inside-HoldsRegion i base size z a bytes (in_bus m) h low high) in
      rw (h.uncovered a low (omega (arith, high)), e, found, inside)
        (ap (λ (x : List ℕ). read_be z x (offset_in a i m)) h.content
          ∙ ap (λ (x : ℕ). read_be z bytes (a - x)) h.at_base)

  -- A poke inside the region changes the bytes.
  pub poke-Bytes :
      (z : Size) (a v : ℕ) (bytes : List ℕ) (m : Store World)
      → Bytes bytes m
      → base ≤ a
      → a + last z < base + size
      → Bytes (write_be z v bytes (a - base)) (poke z a v m)
  unfolding poke poke_region
  poke-Bytes z a v bytes m h low high =
      let (k, e) = find_region_lem a i base size bytes m h in
      let renewed = record m { last_region = k } in
      let kept = with_last-HoldsRegion i base size k bytes (in_bus m) h in
      let holds = contains-HoldsRegion i base size a bytes (in_bus m) h low (omega (arith, high)) in
      let found = scan_exact m a i h.consistent holds in
      let inside =
        fits-inside z (offset_in a i m) (region_at m.regions i).size
          (inside-HoldsRegion i base size z a bytes (in_bus m) h low high) in
      rw (e, found, inside)
        (written-HoldsRegion i base size z a v bytes (in_bus renewed) kept low high)

  pub peek_slot :
      (a : ℕ) (bytes : List ℕ) (m : Store World)
      → Bytes bytes m
      → base ≤ a
      → a + 1 < base + size
      → (peek devices word a m).value ≡ read_be word bytes (a - base)
  peek_slot a bytes m h low high = peek-value word a bytes m h low high
