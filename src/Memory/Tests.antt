-- ===== src/Memory/Tests.antt =====
-- The memory bus at concrete inputs.
use em68030_win_ui3cpp.Common.{
  ℕ, zero, suc, ◌+◌, ◌-◌, ◌<◌, ◌≡◌, refl, arith, true, false, List, [], ◌∷◌, Option, none, some,
}
use em68030_win_ui3cpp.Common.Size.{word, long}
use em68030_win_ui3cpp.Mmu.State.{BusError}
use em68030_win_ui3cpp.Mmu.Walk.{Bus}
use em68030_win_ui3cpp.Memory.Store.{
  RegionType, Store, region_at, contains, empty_memory, add_region, register_device, find_device,
  is_ram, map_longs,
}
use em68030_win_ui3cpp.Memory.Access.{Devices, fits, raise_physical_bus_error, read, write}
use em68030_win_ui3cpp.Memory.Plain.{with_last, plain_read, plain_write}
use em68030_win_ui3cpp.Memory.Invariant.{IsConsistent}
use em68030_win_ui3cpp.Memory.Keeping.{IsKeeping}
use em68030_win_ui3cpp.Memory.History.{
  Reached, started, added, registered, Reached-IsConsistent, access-refines,
}
use em68030_win_ui3cpp.Memory.Laws.{read-write}
use em68030_win_ui3cpp.Memory.Errors.{access-unmapped, access-straddles}

-- Every device is one register, which is the world.
abbrev latch : Devices ℕ
latch = record {
  device_read = λ z d a s. record { value = s.world; after = s };
  device_write = λ z d a v s. record s { world = v };
}

latch-IsKeeping : IsKeeping latch
latch-IsKeeping = record {
  kept_by_read = λ z d a s c. c;
  kept_by_write = λ z d a v s c. record {
    apart = c.apart;
    sized = c.sized;
    fast = c.fast;
    limit = c.limit;
    mapped_above = c.mapped_above;
  };
}

-- 16 bytes of RAM at 0, 8 bytes of ROM at 32, and a device at 64.
abbrev with_ram : Store ℕ
with_ram = add_region 0 16 RegionType.ram (empty_memory 5)

abbrev with_rom : Store ℕ
with_rom = add_region 32 8 RegionType.rom with_ram

abbrev board : Store ℕ
board = register_device 64 8 7 with_rom

abbrev ram_bytes : List ℕ
ram_bytes = 0 ∷ 0 ∷ 0 ∷ 0 ∷ 0 ∷ 0 ∷ 0 ∷ 0 ∷ 0 ∷ 0 ∷ 0 ∷ 0 ∷ 0 ∷ 0 ∷ 0 ∷ 0 ∷ []

ram_is_free :
    (j a : ℕ)
    → contains a
        (record { base_address = 0; size = 16; region_type = RegionType.ram; bytes = ram_bytes })
      ≡ true
    → contains a (region_at (empty_memory {World = ℕ} 5).regions j) ≡ false
unfolding contains empty_memory
ram_is_free j a h = ground arith

rom_is_free :
    (j a : ℕ)
    → contains a (record {
      base_address = 32;
      size = 8;
      region_type = RegionType.rom;
      bytes = 0 ∷ 0 ∷ 0 ∷ 0 ∷ 0 ∷ 0 ∷ 0 ∷ 0 ∷ [];
    })
      ≡ true
    → contains a (region_at with_ram.regions j) ≡ false
unfolding contains empty_memory add_region
rom_is_free zero a h = ground arith
rom_is_free (suc j) a h = ground arith

board-Reached : Reached latch board
board-Reached =
    registered 64 8 7 with_rom
      (added 32 8 RegionType.rom with_ram
        (added 0 16 RegionType.ram (empty_memory 5) (started 5) (omega arith) ram_is_free)
        (omega arith) rom_is_free)
      (omega arith)

Reached-IsConsistent_example : IsConsistent board
Reached-IsConsistent_example = Reached-IsConsistent latch board latch-IsKeeping board-Reached

abbrev no_fault : BusError
no_fault = record {
  pending = false;
  fault_address = 0;
  is_write = false;
  function_code = 0;
  ssw = 0;
}

abbrev bus : Bus (Store ℕ)
bus = record { fault = no_fault; mem = board }

holds_ram : contains 4 (region_at board.regions 0) ≡ true
unfolding contains empty_memory add_region register_device
holds_ram = refl

holds_rom : contains 38 (region_at board.regions 1) ≡ true
unfolding contains empty_memory add_region register_device
holds_rom = refl

find_device_example : (find_device 4 board ≡ none) × (find_device 66 board ≡ some 7)
unfolding find_device map_longs empty_memory add_region register_device
find_device_example = (refl, refl)

no_device_rom : find_device 38 board ≡ none
unfolding find_device map_longs empty_memory add_region register_device
no_device_rom = refl

unmapped_at_100 :
    (find_device 100 board ≡ none) × ((i : ℕ) → contains 100 (region_at board.regions i) ≡ false)
unfolding find_device contains map_longs empty_memory add_region register_device
unmapped_at_100 = (refl, λ i. outside i)
  where
    outside : (i : ℕ) → contains 100 (region_at board.regions i) ≡ false
    outside zero = refl
    outside (suc zero) = refl
    outside (suc (suc i)) = refl

access-refines_example :
    ((k : Option ℕ) × (read latch long 36 bus ≡ record {
      value = (plain_read latch long 36 bus).value;
      after = with_last k (plain_read latch long 36 bus).after;
    }))
    × ((k : Option ℕ) × (write latch long 36 9 bus ≡ with_last k (plain_write latch long 36 9 bus)))
access-refines_example =
    access-refines latch long 36 9 bus latch-IsKeeping board-Reached (omega arith)

ram_at_4 :
    (is_ram (region_at board.regions 0).region_type ≡ true)
    × (4 - (region_at board.regions 0).base_address + 3 < (region_at board.regions 0).size)
unfolding empty_memory add_region register_device
ram_at_4 = (refl, omega arith)

read-write_example :
    ((read latch long 4 (write latch long 4 0x12345678 bus)).value ≡ 0x12345678)
    × ((read latch long 4 (write latch long 4 0x12345678 bus)).after.fault ≡ no_fault)
read-write_example =
    read-write latch long 4 0x12345678 0 bus Reached-IsConsistent_example (omega arith)
      (find_device_example.0) holds_ram (ram_at_4.0) (ram_at_4.1) (omega arith)

access-unmapped_example :
    (read latch word 100 bus ≡ record { value = 0; after = raise_physical_bus_error 100 false bus })
    × (write latch word 100 1 bus ≡ raise_physical_bus_error 100 true bus)
access-unmapped_example =
    access-unmapped latch word 100 1 bus Reached-IsConsistent_example (omega arith) unmapped_at_100

straddles_at_38 :
    fits long (38 - (region_at board.regions 1).base_address) (region_at board.regions 1).size
    ≡ false
unfolding fits empty_memory add_region register_device
straddles_at_38 = refl

access-straddles_example :
    (k : Option ℕ) × (l : Option ℕ) × (read latch long 38 bus
      ≡ record { value = 0; after = with_last k (raise_physical_bus_error 38 false bus) })
    × (write latch long 38 1 bus ≡ with_last l bus)
access-straddles_example =
    access-straddles latch long 38 1 1 bus Reached-IsConsistent_example (omega arith) no_device_rom
      holds_rom straddles_at_38

is_rom_at_38 : is_ram (region_at board.regions 1).region_type ≡ false
unfolding empty_memory add_region register_device
is_rom_at_38 = refl
