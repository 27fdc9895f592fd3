-- ===== src/Memory/Invariant.antt =====
-- What the accesses rely on, and that setting the memory up keeps it.
use em68030_win_ui3cpp.Common.{
  ℕ, ◌+◌, ◌/◌, ◌^◌, ◌<◌, ◌≡◌, ◌≢◌, refl, ap, ◌∙◌, arith, inl, inr, true, false, ◌&&◌, none, some,
  ltb, ◌==◌, if◌then◌else◌, length, replicate, Bool-cases, bit_and,
}
use em68030_win_ui3cpp.Common.Bits.{bit_and-le}
use em68030_win_ui3cpp.Memory.Store.{
  Region, RegionType, Store, is_ram, region_at, contains, map_longs, empty_memory,
  update_fast_ram_limit, add_region, register_device, unregister_device, find_device,
}
use em68030_win_ui3cpp.Memory.Regions.{
  none_in_empty, region_at-length, region_at-appended, region_at-kept, append_apart, append_sized,
  length-replicate, map_longs-below, map_longs-none,
}

-- The fast array's region.
pub record IsFast (size : ℕ) (r : Region) : Type 0 where
  pub at_zero : r.base_address ≡ 0
  pub writable : is_ram r.region_type ≡ true
  pub whole : r.size ≡ size
  pub bounded : size < 2 ^ 32

-- No address lies in two regions, a region's array has its size, the fast array is the one of a RAM
-- region at 0, and its limit is below every device.
pub record IsConsistent {World : Type 0} (s : Store World) : Type 0 where
  pub apart :
      (i j a : ℕ)
      → contains a (region_at s.regions i) ≡ true
      → contains a (region_at s.regions j) ≡ true
      → i ≡ j
  pub sized : (i : ℕ) → length (region_at s.regions i).bytes ≡ (region_at s.regions i).size
  pub fast : 0 < s.fast_ram_size → IsFast s.fast_ram_size (region_at s.regions s.fast_ram)
  pub limit :
      s.fast_ram_limit
      ≡ (if ltb s.fast_ram_size s.device_min_addr then s.fast_ram_size else s.device_min_addr)
  pub mapped_above : (a : ℕ) → a < s.device_min_addr → s.device_map a ≡ none

module _ {World : Type 0} where
  pub empty_memory-IsConsistent : (w : World) → IsConsistent (empty_memory w)
  unfolding empty_memory
  empty_memory-IsConsistent w = record {
    apart = λ i j a h k. absurd (cc (none_in_empty a));
    sized = λ i. refl;
    fast = λ h. absurd (omega arith);
    limit = refl;
    mapped_above = λ a h. refl;
  }

  -- A device's address is below no limit of the fast array.
  pub no_device :
      (s : Store World) (a : ℕ) → IsConsistent s → a < s.fast_ram_limit → find_device a s ≡ none
  unfolding find_device
  no_device s a c h =
      c.mapped_above (bit_and a 0xfffffffc) (ground (arith, c.limit, bit_and-le a 0xfffffffc))

  -- The fast array's region holds every address below the limit.
  pub fast_holds :
      (s : Store World) (a : ℕ)
      → IsConsistent s
      → a < s.fast_ram_limit
      → contains a (region_at s.regions s.fast_ram) ≡ true
  unfolding contains
  fast_holds s a c h =
      let positive : 0 < s.fast_ram_size = ground (arith, c.limit) in
      let f = c.fast positive in ground (arith, c.limit, f.at_zero, f.whole, f.bounded)

  fast_in : (s : Store World) → IsConsistent s → 0 < s.fast_ram_size → s.fast_ram ≢ length s.regions
  fast_in s c p e =
      let empty : (region_at s.regions s.fast_ram).size ≡ 0 =
        rw e (ap (λ (r : Region). r.size) (region_at-length s.regions)) in
      omega (arith, (c.fast p).whole)

  -- A region that overlaps no other one is added, of a size that is an `int`.
  pub add_region-IsConsistent :
      (base size : ℕ) (kind : RegionType) (s : Store World)
      → IsConsistent s
      → size < 2 ^ 31
      → ((j a : ℕ)
          → contains a (record {
            base_address = base;
            size = size;
            region_type = kind;
            bytes = replicate size 0;
          })
            ≡ true
          → contains a (region_at s.regions j) ≡ false)
      → IsConsistent (add_region base size kind s)
  unfolding add_region update_fast_ram_limit
  add_region-IsConsistent base size kind s c h free =
      let new : Region = record {
        base_address = base;
        size = size;
        region_type = kind;
        bytes = replicate size 0;
      } in
      let apart = append_apart s.regions new c.apart free in
      let sized = append_sized s.regions new c.sized (length-replicate size) in
      elim (Bool-cases (base == 0 && is_ram kind)) [
        | inl e ↦ rw e (record {
          apart = apart;
          sized = sized;
          fast = λ p. rw (region_at-appended s.regions new) (record {
            at_zero = ground arith;
            writable = ground arith;
            whole = refl;
            bounded = omega arith;
          });
          limit = refl;
          mapped_above = c.mapped_above;
        })
        | inr e ↦ rw e (record {
          apart = apart;
          sized = sized;
          fast = λ p. rw (region_at-kept s.regions new s.fast_ram (fast_in s c p)) (c.fast p);
          limit = c.limit;
          mapped_above = c.mapped_above;
        })
      ]

  pub register_device-IsConsistent :
      (base size device : ℕ) (s : Store World)
      → IsConsistent s
      → base + size + 3 < 2 ^ 32
      → IsConsistent (register_device base size device s)
  unfolding register_device update_fast_ram_limit
  register_device-IsConsistent base size device s c h =
      let above : (a : ℕ)
          → a < base
          → a < s.device_min_addr
          → map_longs ((size + 3) / 4) base (some device) s.device_map a ≡ none =
        λ a l k.
          map_longs-below ((size + 3) / 4) base a (some device) s.device_map (omega arith) l
          ∙ c.mapped_above a k in
      elim (Bool-cases (ltb base s.device_min_addr)) [
        | inl e ↦ rw e (record {
          apart = c.apart;
          sized = c.sized;
          fast = c.fast;
          limit = refl;
          mapped_above = λ a l. above a l (ground arith);
        })
        | inr e ↦ rw e (record {
          apart = c.apart;
          sized = c.sized;
          fast = c.fast;
          limit = c.limit;
          mapped_above = λ a l. above a (ground arith) l;
        })
      ]

  pub unregister_device-IsConsistent :
      (base size : ℕ) (s : Store World)
      → IsConsistent s
      → IsConsistent (unregister_device base size s)
  unfolding unregister_device
  unregister_device-IsConsistent base size s c = record {
    apart = c.apart;
    sized = c.sized;
    fast = c.fast;
    limit = c.limit;
    mapped_above = λ a h. map_longs-none ((size + 3) / 4) base a s.device_map (c.mapped_above a h);
  }
