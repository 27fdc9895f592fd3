-- ===== src/Memory/Debug.antt =====
-- `PeekByte` to `PokeLong` and the bulk operations: the accesses of the debugger, the loader and DMA.
use em68030_win_ui3cpp.Common.{
  ℕ, zero, suc, ◌+◌, ◌-◌, ◌%◌, ◌^◌, List, [], ◌∷◌, Option, none, some, if◌then◌else◌,
}
use em68030_win_ui3cpp.Common.Size.{Size, byte, modulus}
use em68030_win_ui3cpp.Common.Bytes.{read_be, write_be}
use em68030_win_ui3cpp.Mmu.Walk.{Reading}
use em68030_win_ui3cpp.Memory.Store.{Store, region_at, find_device, find_region}
use em68030_win_ui3cpp.Memory.Access.{Devices, fits, put_bytes}

module _ {World : Type 0} where
  unfoldable pub peek_region : Size → ℕ → Option ℕ × Store World → Reading (Store World)
  peek_region z address (none, s) = record { value = modulus z - 1; after = s }
  peek_region z address (some i, s) =
      let r = region_at s.regions i in
      let offset = address - r.base_address in
      record {
        value = (if fits z offset r.size then read_be z r.bytes offset else modulus z - 1);
        after = s;
      }

  unfoldable pub poke_region : Size → ℕ → ℕ → Option ℕ × Store World → Store World
  poke_region z address v (none, s) = s
  poke_region z address v (some i, s) =
      let r = region_at s.regions i in
      let offset = address - r.base_address in
      if fits z offset r.size then put_bytes i (write_be z v r.bytes offset) s else s

  unfoldable pub poke : Size → ℕ → ℕ → Store World → Store World
  poke z address v s = poke_region z address v (find_region address s)

  unfoldable pub load_data : ℕ → List ℕ → Store World → Store World
  load_data address [] s = s
  load_data address (v ∷ vs) s = load_data ((address + 1) % 2 ^ 32) vs (poke byte address v s)

module _ {World : Type 0} (devices : Devices World) where
  unfoldable pub device_or_peek : Size → ℕ → Option ℕ → Store World → Reading (Store World)
  device_or_peek z address (some d) s = devices.device_read z d address s
  device_or_peek z address none s = peek_region z address (find_region address s)

  unfoldable pub peek : Size → ℕ → Store World → Reading (Store World)
  peek z address s = device_or_peek z address (find_device address s) s

  unfoldable pub get_range : ℕ → ℕ → Store World → List ℕ × Store World
  get_range address zero s = ([], s)
  get_range address (suc n) s =
      let first = peek byte address s in
      let rest = get_range ((address + 1) % 2 ^ 32) n first.after in (first.value ∷ rest.0, rest.1)
