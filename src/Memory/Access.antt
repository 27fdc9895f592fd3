-- ===== src/Memory/Access.antt =====
-- `ReadByte` to `WriteLong`: the accesses of the CPU. The three sizes are one function. The attached
-- CPU's bus error stands beside the memory, as `m_cpu` is set by the CPU's constructor.
-- Reading outside the fast array, which the wrapped test `address + 3 < limit` allows at the top of
-- the address space, is undefined in C++; here it reads 0 and writes nothing.
use em68030_win_ui3cpp.Common.{
  ℕ, ◌+◌, ◌-◌, ◌%◌, ◌^◌, Bool, true, false, List, Option, none, some, ltb, if◌then◌else◌, set,
}
use em68030_win_ui3cpp.Common.Size.{Size, byte, word, long}
use em68030_win_ui3cpp.Common.Bytes.{last, read_be, write_be}
use em68030_win_ui3cpp.Mmu.State.{set_bus_error}
use em68030_win_ui3cpp.Mmu.Walk.{Bus, Reading}
use em68030_win_ui3cpp.Memory.Store.{Store, is_ram, region_at, find_device, find_region}

-- `IMemoryMappedDevice`, for each device. A device may act on the memory: the controllers peek and
-- poke it, which raises no fault.
pub record Devices (World : Type 0) : Type 0 where
  pub device_read : Size → ℕ → ℕ → Store World → Reading (Store World)
  pub device_write : Size → ℕ → ℕ → ℕ → Store World → Store World

-- The access does not leave the region; a byte is not tested.
unfoldable pub fits : Size → ℕ → ℕ → Bool
fits byte offset size = true
fits word offset size = ltb ((offset + 1) % 2 ^ 32) size
fits long offset size = ltb ((offset + 3) % 2 ^ 32) size

module _ {World : Type 0} where
  abbrev pub with_mem : Store World → Bus (Store World) → Bus (Store World)
  with_mem s b = record b { mem = s }

  unfoldable pub raise_physical_bus_error : ℕ → Bool → Bus (Store World) → Bus (Store World)
  raise_physical_bus_error address is_write b = record {
    fault = set_bus_error address is_write 0 0 b.fault;
    mem = record (b.mem) {
      last_fault_address = address;
      last_fault_is_write = is_write;
      last_fault_raised = true;
    };
  }

  abbrev pub in_fast_ram : Size → ℕ → Store World → Bool
  in_fast_ram z address s = ltb ((address + last z) % 2 ^ 32) s.fast_ram_limit

  -- The bytes of a region are replaced.
  abbrev pub put_bytes : ℕ → List ℕ → Store World → Store World
  put_bytes i bytes s = record s {
    regions = set s.regions i (record (region_at s.regions i) { bytes = bytes });
  }

  unfoldable pub read_region :
      Size → ℕ → Option ℕ × Store World → Bus (Store World) → Reading (Bus (Store World))
  read_region z address (none, s) b = record {
    value = 0;
    after = raise_physical_bus_error address false (with_mem s b);
  }
  read_region z address (some i, s) b =
      let r = region_at s.regions i in
      let offset = address - r.base_address in
      if fits z offset r.size
      then record { value = read_be z r.bytes offset; after = with_mem s b }
      else record { value = 0; after = raise_physical_bus_error address false (with_mem s b) }

  unfoldable pub write_region :
      Size → ℕ → ℕ → Option ℕ × Store World → Bus (Store World) → Bus (Store World)
  write_region z address v (none, s) b = raise_physical_bus_error address true (with_mem s b)
  write_region z address v (some i, s) b =
      let r = region_at s.regions i in
      let offset = address - r.base_address in
      if is_ram r.region_type
      then (if fits z offset r.size
          then with_mem (put_bytes i (write_be z v r.bytes offset) s) b
          else with_mem s b)
      else with_mem s b

module _ {World : Type 0} (devices : Devices World) where
  unfoldable pub device_or_read :
      Size → ℕ → Option ℕ → Bus (Store World) → Reading (Bus (Store World))
  device_or_read z address (some d) b =
      let r = devices.device_read z d address b.mem in
      record { value = r.value; after = with_mem r.after b }
  device_or_read z address none b = read_region z address (find_region address b.mem) b

  unfoldable pub device_or_write : Size → ℕ → ℕ → Option ℕ → Bus (Store World) → Bus (Store World)
  device_or_write z address v (some d) b = with_mem (devices.device_write z d address v b.mem) b
  device_or_write z address v none b = write_region z address v (find_region address b.mem) b

  unfoldable pub read : Size → ℕ → Bus (Store World) → Reading (Bus (Store World))
  read z address b =
      if in_fast_ram z address b.mem
      then record {
        value = read_be z (region_at b.mem.regions b.mem.fast_ram).bytes address;
        after = b;
      }
      else device_or_read z address (find_device address b.mem) b

  unfoldable pub write : Size → ℕ → ℕ → Bus (Store World) → Bus (Store World)
  write z address v b =
      if in_fast_ram z address b.mem
      then with_mem
          (put_bytes b.mem.fast_ram
            (write_be z v (region_at b.mem.regions b.mem.fast_ram).bytes address) b.mem)
          b
      else device_or_write z address v (find_device address b.mem) b
