-- ===== src/Memory/Refining.antt =====
-- An access with the two caches agrees with the plain one.
use em68030_win_ui3cpp.Common.{
  ℕ, ◌+◌, ◌^◌, ◌<◌, ◌≡◌, refl, inl, inr, Option, none, some, Bool-cases,
}
use em68030_win_ui3cpp.Common.Size.{Size}
use em68030_win_ui3cpp.Common.Bytes.{last}
use em68030_win_ui3cpp.Mmu.Walk.{Bus}
use em68030_win_ui3cpp.Memory.Store.{Store, find_device}
use em68030_win_ui3cpp.Memory.Access.{
  Devices, in_fast_ram, device_or_read, device_or_write, read, write,
}
use em68030_win_ui3cpp.Memory.Invariant.{IsConsistent, no_device}
use em68030_win_ui3cpp.Memory.Plain.{
  with_last, plain_read, plain_write, plain_device_or_read, plain_device_or_write,
}
use em68030_win_ui3cpp.Memory.Agreement.{
  read_region-find_region, write_region-find_region, fast-read_region, fast-write_region, fast-fits,
}

module _ {World : Type 0} (devices : Devices World) where
  device_or_read-plain :
      (z : Size) (a : ℕ) (o : Option ℕ) (b : Bus (Store World))
      → IsConsistent b.mem
      → (k : Option ℕ) × (device_or_read devices z a o b ≡ record {
        value = (plain_device_or_read devices z a o b).value;
        after = with_last k (plain_device_or_read devices z a o b).after;
      })
  unfolding device_or_read plain_device_or_read
  device_or_read-plain z a none b c = read_region-find_region z a b c
  device_or_read-plain z a (some d) b c =
      ((devices.device_read z d a b.mem).after.last_region, refl)

  device_or_write-plain :
      (z : Size) (a v : ℕ) (o : Option ℕ) (b : Bus (Store World))
      → IsConsistent b.mem
      → (k : Option ℕ) × (device_or_write devices z a v o b
          ≡ with_last k (plain_device_or_write devices z a v o b))
  unfolding device_or_write plain_device_or_write
  device_or_write-plain z a v none b c = write_region-find_region z a v b c
  device_or_write-plain z a v (some d) b c =
      ((devices.device_write z d a v b.mem).last_region, refl)

  -- In a consistent memory, a read that does not cross the end of the address space gives the value
  -- of the device at the address, or else of the region that holds it, and leaves what that read leaves
  -- but for the region that was found last.
  pub read-plain_read :
      (z : Size) (a : ℕ) (b : Bus (Store World))
      → IsConsistent b.mem
      → a + last z < 2 ^ 32
      → (k : Option ℕ) × (read devices z a b ≡ record {
        value = (plain_read devices z a b).value;
        after = with_last k (plain_read devices z a b).after;
      })
  unfolding read plain_read plain_device_or_read
  read-plain_read z a b c h = elim (Bool-cases (in_fast_ram z a b.mem)) [
    | inl f ↦ (
      b.mem.last_region,
      rw (f, no_device b.mem a c (fast-fits z a b.mem c h f).0, fast-read_region z a b c h f) refl,
    )
    | inr f ↦ let (k, e) = device_or_read-plain z a (find_device a b.mem) b c in (k, rw f e)
  ]

  -- In a consistent memory, a write that does not cross the end of the address space is the write of
  -- the device at the address, or else of the region that holds it, but for the region that was found
  -- last.
  pub write-plain_write :
      (z : Size) (a v : ℕ) (b : Bus (Store World))
      → IsConsistent b.mem
      → a + last z < 2 ^ 32
      → (k : Option ℕ) × (write devices z a v b ≡ with_last k (plain_write devices z a v b))
  unfolding write plain_write plain_device_or_write
  write-plain_write z a v b c h = elim (Bool-cases (in_fast_ram z a b.mem)) [
    | inl f ↦ (
      b.mem.last_region,
      rw (f, no_device b.mem a c (fast-fits z a b.mem c h f).0, fast-write_region z a v b c h f)
          refl,
    )
    | inr f ↦ let (k, e) = device_or_write-plain z a v (find_device a b.mem) b c in (k, rw f e)
  ]
