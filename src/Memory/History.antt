-- ===== src/Memory/History.antt =====
-- The memories that the program reaches, by the steps that it takes.
use em68030_win_ui3cpp.Common.{ℕ, ◌+◌, ◌^◌, ◌<◌, ◌≡◌, true, false, Option, replicate}
use em68030_win_ui3cpp.Common.Size.{Size}
use em68030_win_ui3cpp.Common.Bytes.{last}
use em68030_win_ui3cpp.Mmu.Walk.{Bus}
use em68030_win_ui3cpp.Memory.Store.{
  RegionType, Store, region_at, contains, empty_memory, add_region, register_device,
  unregister_device,
}
use em68030_win_ui3cpp.Memory.Access.{Devices, read, write}
use em68030_win_ui3cpp.Memory.Debug.{poke}
use em68030_win_ui3cpp.Memory.Plain.{with_last, plain_read, plain_write}
use em68030_win_ui3cpp.Memory.Invariant.{
  IsConsistent, empty_memory-IsConsistent, add_region-IsConsistent, register_device-IsConsistent,
  unregister_device-IsConsistent,
}
use em68030_win_ui3cpp.Memory.Refining.{read-plain_read, write-plain_write}
use em68030_win_ui3cpp.Memory.Keeping.{
  IsKeeping, read-IsConsistent, write-IsConsistent, poke-IsConsistent,
}

-- The new region shares no address with the others.
abbrev IsFree : {World : Type 0} → ℕ → ℕ → RegionType → Store World → Type 0
IsFree base size kind s =
    (j a : ℕ)
    → contains a
        (record { base_address = base; size = size; region_type = kind; bytes = replicate size 0 })
      ≡ true
    → contains a (region_at s.regions j) ≡ false

-- Regions that do not overlap are added, devices come and go below the end of the address space, and
-- the CPU, the loader and the debugger act on the memory, in any order.
pub data Reached {World : Type 0} (devices : Devices World) : Store World → Type 0 where
  started : (w : World) → Reached devices (empty_memory w)
  added :
      (base size : ℕ) (kind : RegionType) (s : Store World)
      → Reached devices s
      → size < 2 ^ 31
      → IsFree base size kind s
      → Reached devices (add_region base size kind s)
  registered :
      (base size device : ℕ) (s : Store World)
      → Reached devices s
      → base + size + 3 < 2 ^ 32
      → Reached devices (register_device base size device s)
  unregistered :
      (base size : ℕ) (s : Store World)
      → Reached devices s
      → Reached devices (unregister_device base size s)
  was_read :
      (z : Size) (a : ℕ) (b : Bus (Store World))
      → Reached devices b.mem
      → Reached devices (read devices z a b).after.mem
  was_written :
      (z : Size) (a v : ℕ) (b : Bus (Store World))
      → Reached devices b.mem
      → Reached devices (write devices z a v b).mem
  was_poked :
      (z : Size) (a v : ℕ) (s : Store World) → Reached devices s → Reached devices (poke z a v s)

module _ {World : Type 0} (devices : Devices World) where
  -- Every memory that the program reaches is consistent, where the devices keep it so.
  pub Reached-IsConsistent :
      (s : Store World) → IsKeeping devices → Reached devices s → IsConsistent s
  Reached-IsConsistent _ k (started w) = empty_memory-IsConsistent w
  Reached-IsConsistent _ k (added base size kind s r h free) =
      add_region-IsConsistent base size kind s (Reached-IsConsistent s k r) h free
  Reached-IsConsistent _ k (registered base size device s r h) =
      register_device-IsConsistent base size device s (Reached-IsConsistent s k r) h
  Reached-IsConsistent _ k (unregistered base size s r) =
      unregister_device-IsConsistent base size s (Reached-IsConsistent s k r)
  Reached-IsConsistent _ k (was_read z a b r) =
      read-IsConsistent devices z a b k (Reached-IsConsistent b.mem k r)
  Reached-IsConsistent _ k (was_written z a v b r) =
      write-IsConsistent devices z a v b k (Reached-IsConsistent b.mem k r)
  Reached-IsConsistent _ k (was_poked z a v s r) =
      poke-IsConsistent z a v s (Reached-IsConsistent s k r)

  -- In every memory that the program reaches, where the devices keep it consistent, an access that
  -- does not cross the end of the address space does what the access without the fast array and
  -- without the region that was found last does: a read gives the same value, and either leaves the same
  -- state but for the region that was found last.
  pub access-refines :
      (z : Size) (a v : ℕ) (b : Bus (Store World))
      → IsKeeping devices
      → Reached devices b.mem
      → a + last z < 2 ^ 32
      → ((k : Option ℕ) × (read devices z a b ≡ record {
        value = (plain_read devices z a b).value;
        after = with_last k (plain_read devices z a b).after;
      }))
        × ((k : Option ℕ) × (write devices z a v b ≡ with_last k (plain_write devices z a v b)))
  access-refines z a v b k r h =
      let c = Reached-IsConsistent b.mem k r in
      (read-plain_read devices z a b c h, write-plain_write devices z a v b c h)
