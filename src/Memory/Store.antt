-- ===== src/Memory/Store.antt =====
-- `MemoryRegion`, the members of `Memory`, and how a region or a device is found. A device is a
-- number that stands for its pointer, and what the devices do is a parameter of the accesses.
-- `m_fastRam` and `m_lastRegion` point into `m_regions`; here they are positions in it, which is what
-- the second one means as long as `AddRegion` does not move the regions after an access. A device's
-- size is at most 0xfffffffc: from there on the loop over its addresses does not end.
use em68030_win_ui3cpp.Common.{
  ℕ, zero, suc, ◌+◌, ◌/◌, ◌%◌, ◌^◌, Bool, true, false, ◌&&◌, List, [], ◌∷◌, ◌++◌, Option, none,
  some, bit_and, ltb, leb, ◌==◌, if◌then◌else◌, length, get_or, replicate,
}

pub data RegionType : Type 0 where
  ram rom : RegionType

abbrev pub is_ram : RegionType → Bool
is_ram RegionType.ram = true
is_ram RegionType.rom = false

pub record Region : Type 0 where
  pub base_address : ℕ
  pub size : ℕ
  pub region_type : RegionType
  pub bytes : List ℕ

abbrev pub no_region : Region
no_region = record { base_address = 0; size = 0; region_type = RegionType.ram; bytes = [] }

-- The end wraps at 2 ^ 32.
unfoldable pub contains : ℕ → Region → Bool
contains address r = leb r.base_address address && ltb address ((r.base_address + r.size) % 2 ^ 32)

pub record Store (World : Type 0) : Type 0 where
  pub last_fault_address : ℕ
  pub last_fault_is_write : Bool
  pub last_fault_raised : Bool
  pub regions : List Region
  pub device_map : ℕ → Option ℕ
  -- A position in `regions`, read only below `fast_ram_limit`.
  pub fast_ram : ℕ
  pub fast_ram_size : ℕ
  pub device_min_addr : ℕ
  pub fast_ram_limit : ℕ
  pub last_region : Option ℕ
  -- The devices' states, and what they act on beside the memory.
  pub world : World

abbrev pub region_at : List Region → ℕ → Region
region_at regions i = get_or regions i no_region

-- The addresses base, base + 4, ... of that many rounds of the loop.
unfoldable pub map_longs : ℕ → ℕ → Option ℕ → (ℕ → Option ℕ) → ℕ → Option ℕ
map_longs zero base device m = m
map_longs (suc n) base device m =
    map_longs n ((base + 4) % 2 ^ 32) device (λ a. if a == base then device else m a)

unfoldable pub greatest_end : ℕ → List Region → ℕ
greatest_end m [] = m
greatest_end m (r ∷ rs) =
    let end = (r.base_address + r.size) % 2 ^ 32 in greatest_end (if ltb m end then end else m) rs

-- The first region from a position on that holds the address.
unfoldable pub scan : ℕ → ℕ → List Region → Option ℕ
scan address i [] = none
scan address i (r ∷ rs) =
    let rest = scan address (suc i) rs in if contains address r then some i else rest

module _ {World : Type 0} where
  unfoldable pub empty_memory : World → Store World
  empty_memory w = record {
    last_fault_address = 0;
    last_fault_is_write = false;
    last_fault_raised = false;
    regions = [];
    device_map = λ a. none;
    fast_ram = 0;
    fast_ram_size = 0;
    device_min_addr = 0xffffffff;
    fast_ram_limit = 0;
    last_region = none;
    world = w;
  }

  unfoldable pub update_fast_ram_limit : Store World → Store World
  update_fast_ram_limit s = record s {
    fast_ram_limit =
        (if ltb s.fast_ram_size s.device_min_addr then s.fast_ram_size else s.device_min_addr);
  }

  unfoldable pub add_region : ℕ → ℕ → RegionType → Store World → Store World
  unfolding update_fast_ram_limit
  add_region base size kind s =
      let new : Region = record {
        base_address = base;
        size = size;
        region_type = kind;
        bytes = replicate size 0;
      } in
      let added = record s { regions = s.regions ++ new ∷ [] } in
      if base == 0 && is_ram kind
      then update_fast_ram_limit
          (record added { fast_ram = length s.regions; fast_ram_size = size })
      else added

  unfoldable pub register_device : ℕ → ℕ → ℕ → Store World → Store World
  unfolding update_fast_ram_limit
  register_device base size device s =
      let mapped = record s {
        device_map = map_longs ((size + 3) / 4) base (some device) s.device_map;
      } in
      if ltb base s.device_min_addr
      then update_fast_ram_limit (record mapped { device_min_addr = base })
      else mapped

  unfoldable pub unregister_device : ℕ → ℕ → Store World → Store World
  unregister_device base size s = record s {
    device_map = map_longs ((size + 3) / 4) base none s.device_map;
  }

  -- `GetSize`, before the cast to `int`.
  unfoldable pub get_size : Store World → ℕ
  get_size s = greatest_end 0 s.regions

  unfoldable pub find_device : ℕ → Store World → Option ℕ
  find_device address s = s.device_map (bit_and address 0xfffffffc)

  unfoldable pub remember : Option ℕ → Store World → Option ℕ × Store World
  remember none s = (none, s)
  remember (some i) s = (some i, record s { last_region = some i })

  -- The region that was found last is tried first.
  unfoldable pub try_last : Option ℕ → ℕ → Store World → Option ℕ × Store World
  try_last none address s = remember (scan address 0 s.regions) s
  try_last (some i) address s =
      if contains address (region_at s.regions i)
      then (some i, s)
      else remember (scan address 0 s.regions) s

  unfoldable pub find_region : ℕ → Store World → Option ℕ × Store World
  find_region address s = try_last s.last_region address s
