-- ===== src/Memory/Plain.antt =====
-- What an access means: the device at the address, or the first region that holds it. No fast array,
-- and no region that was found last.
use em68030_win_ui3cpp.Common.{ℕ, Option, none, some}
use em68030_win_ui3cpp.Common.Size.{Size}
use em68030_win_ui3cpp.Mmu.Walk.{Bus, Reading}
use em68030_win_ui3cpp.Memory.Store.{Store, scan, find_device}
use em68030_win_ui3cpp.Memory.Access.{Devices, with_mem, read_region, write_region}

module _ {World : Type 0} where
  abbrev pub with_last : Option ℕ → Bus (Store World) → Bus (Store World)
  with_last l b = with_mem (record (b.mem) { last_region = l }) b

  abbrev pub first_region : ℕ → Store World → Option ℕ × Store World
  first_region address s = (scan address 0 s.regions, s)

module _ {World : Type 0} (devices : Devices World) where
  unfoldable pub plain_device_or_read :
      Size → ℕ → Option ℕ → Bus (Store World) → Reading (Bus (Store World))
  plain_device_or_read z address (some d) b =
      let r = devices.device_read z d address b.mem in
      record { value = r.value; after = with_mem r.after b }
  plain_device_or_read z address none b = read_region z address (first_region address b.mem) b

  unfoldable pub plain_device_or_write :
      Size → ℕ → ℕ → Option ℕ → Bus (Store World) → Bus (Store World)
  plain_device_or_write z address v (some d) b =
      with_mem (devices.device_write z d address v b.mem) b
  plain_device_or_write z address v none b = write_region z address v (first_region address b.mem) b

  unfoldable pub plain_read : Size → ℕ → Bus (Store World) → Reading (Bus (Store World))
  plain_read z address b = plain_device_or_read z address (find_device address b.mem) b

  unfoldable pub plain_write : Size → ℕ → ℕ → Bus (Store World) → Bus (Store World)
  plain_write z address v b = plain_device_or_write z address v (find_device address b.mem) b
