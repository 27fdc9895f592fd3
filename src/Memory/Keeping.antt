-- ===== src/Memory/Keeping.antt =====
-- The accesses keep what they rely on.
use em68030_win_ui3cpp.Common.{
  ℕ, zero, suc, ◌-◌, ◌≡◌, refl, arith, inl, inr, Bool, true, false, ◌&&◌, List, [], ◌∷◌, Option,
  none, some, ltb, ◌==◌, if◌then◌else◌, set, length, Bool-cases,
}
use em68030_win_ui3cpp.Common.Size.{Size}
use em68030_win_ui3cpp.Common.Bytes.{write_be, length-write_be}
use em68030_win_ui3cpp.Mmu.Walk.{Bus}
use em68030_win_ui3cpp.Memory.Store.{
  Region, Store, is_ram, region_at, contains, find_device, find_region, scan,
}
use em68030_win_ui3cpp.Memory.Access.{
  Devices, fits, with_mem, in_fast_ram, put_bytes, raise_physical_bus_error, read_region,
  write_region, device_or_read, device_or_write, read, write,
}
use em68030_win_ui3cpp.Memory.Debug.{poke_region, poke}
use em68030_win_ui3cpp.Memory.Agreement.{last_of, try_last-scan}
use em68030_win_ui3cpp.Memory.Invariant.{IsConsistent}

abbrev bytes_after : List Region → ℕ → List ℕ → ℕ → List ℕ
bytes_after rs i bs j = if i == j && ltb i (length rs) then bs else (region_at rs j).bytes

-- Only the bytes of a region are replaced.
pub region_at-set :
    (rs : List Region) (i : ℕ) (bs : List ℕ) (j : ℕ)
    → region_at (set rs i (record (region_at rs i) { bytes = bs })) j
      ≡ record (region_at rs j) { bytes = bytes_after rs i bs j }
region_at-set [] i bs j = ground arith
region_at-set (x ∷ rs) zero bs zero = ground arith
region_at-set (x ∷ rs) zero bs (suc j) = ground arith
region_at-set (x ∷ rs) (suc i) bs zero = ground arith
region_at-set (x ∷ rs) (suc i) bs (suc j) = ground (arith, region_at-set rs i bs j)

pub contains-set :
    (rs : List Region) (i : ℕ) (bs : List ℕ) (j a : ℕ)
    → contains a (region_at (set rs i (record (region_at rs i) { bytes = bs })) j)
      ≡ contains a (region_at rs j)
unfolding contains
contains-set rs i bs j a = rw (region_at-set rs i bs j) refl

module _ {World : Type 0} where
  -- What a fault and the region found last are does not matter.
  pub renewed-IsConsistent :
      (s : Store World) (address : ℕ) (is_write raised : Bool) (l : Option ℕ)
      → IsConsistent s
      → IsConsistent (record s {
        last_fault_address = address;
        last_fault_is_write = is_write;
        last_fault_raised = raised;
        last_region = l;
      })
  renewed-IsConsistent s address is_write raised l c = record {
    apart = c.apart;
    sized = c.sized;
    fast = c.fast;
    limit = c.limit;
    mapped_above = c.mapped_above;
  }

  pub put_bytes-IsConsistent :
      (i : ℕ) (bs : List ℕ) (s : Store World)
      → IsConsistent s
      → length bs ≡ length (region_at s.regions i).bytes
      → IsConsistent (put_bytes i bs s)
  put_bytes-IsConsistent i bs s c h =
      let at = region_at-set s.regions i bs in
      let holds = contains-set s.regions i bs in
      record {
        apart = λ j k a hj hk. c.apart j k a (rw (holds j a) at hj) (rw (holds k a) at hk);
        sized = λ j. rw (at j) (ground (arith, c.sized j, h));
        fast = λ p. rw (at s.fast_ram) (record {
          at_zero = (c.fast p).at_zero;
          writable = (c.fast p).writable;
          whole = (c.fast p).whole;
          bounded = (c.fast p).bounded;
        });
        limit = c.limit;
        mapped_above = c.mapped_above;
      }

  pub write_be-IsConsistent :
      (z : Size) (i v offset : ℕ) (s : Store World)
      → IsConsistent s
      → IsConsistent (put_bytes i (write_be z v (region_at s.regions i).bytes offset) s)
  write_be-IsConsistent z i v offset s c =
      let bs = (region_at s.regions i).bytes in
      put_bytes-IsConsistent i (write_be z v bs offset) s c (length-write_be z v bs offset)

  raised-IsConsistent :
      (address : ℕ) (is_write : Bool) (s : Store World) (b : Bus (Store World))
      → IsConsistent s
      → IsConsistent (raise_physical_bus_error address is_write (with_mem s b)).mem
  unfolding raise_physical_bus_error
  raised-IsConsistent address is_write s b c =
      renewed-IsConsistent s address is_write true s.last_region c

  -- The region is found in a memory that is as consistent.
  find_region-IsConsistent :
      (a : ℕ) (s : Store World) → IsConsistent s → IsConsistent (find_region a s).1
  unfolding find_region
  find_region-IsConsistent a s c = rw (try_last-scan s a s.last_region c refl) (
      renewed-IsConsistent s s.last_fault_address s.last_fault_is_write s.last_fault_raised
        (last_of (scan a 0 s.regions) s.last_region) c)

  read_region-IsConsistent :
      (z : Size) (a : ℕ) (o : Option ℕ) (s : Store World) (b : Bus (Store World))
      → IsConsistent s
      → IsConsistent (read_region z a (o, s) b).after.mem
  unfolding read_region
  read_region-IsConsistent z a none s b c = raised-IsConsistent a false s b c
  read_region-IsConsistent z a (some i) s b c =
      elim (Bool-cases
        (fits z (a - (region_at s.regions i).base_address) (region_at s.regions i).size)) [
          | inl e ↦ rw e c
          | inr e ↦ rw e (raised-IsConsistent a false s b c)
        ]

  pub write_region-IsConsistent :
      (z : Size) (a v : ℕ) (o : Option ℕ) (s : Store World) (b : Bus (Store World))
      → IsConsistent s
      → IsConsistent (write_region z a v (o, s) b).mem
  unfolding write_region
  write_region-IsConsistent z a v none s b c = raised-IsConsistent a true s b c
  write_region-IsConsistent z a v (some i) s b c =
      let r = region_at s.regions i in
      let offset = a - r.base_address in
      elim (Bool-cases (is_ram r.region_type)) [
        | inl w ↦ elim (Bool-cases (fits z offset r.size)) [
          | inl e ↦ rw (w, e) (write_be-IsConsistent z i v offset s c)
          | inr e ↦ rw (w, e) c
        ]
        | inr w ↦ rw w c
      ]

  poke_region-IsConsistent :
      (z : Size) (a v : ℕ) (o : Option ℕ) (s : Store World)
      → IsConsistent s
      → IsConsistent (poke_region z a v (o, s))
  unfolding poke_region
  poke_region-IsConsistent z a v none s c = c
  poke_region-IsConsistent z a v (some i) s c =
      let r = region_at s.regions i in
      let offset = a - r.base_address in
      elim (Bool-cases (fits z offset r.size)) [
        | inl e ↦ rw e (write_be-IsConsistent z i v offset s c)
        | inr e ↦ rw e c
      ]

  pub poke-IsConsistent :
      (z : Size) (a v : ℕ) (s : Store World) → IsConsistent s → IsConsistent (poke z a v s)
  unfolding poke
  poke-IsConsistent z a v s c =
      poke_region-IsConsistent z a v (find_region a s).0 (find_region a s).1
        (find_region-IsConsistent a s c)

-- What a device does to the memory keeps what the accesses rely on.
pub record IsKeeping {World : Type 0} (devices : Devices World) : Type 0 where
  pub kept_by_read :
      (z : Size) (d a : ℕ) (s : Store World)
      → IsConsistent s
      → IsConsistent (devices.device_read z d a s).after
  pub kept_by_write :
      (z : Size) (d a v : ℕ) (s : Store World)
      → IsConsistent s
      → IsConsistent (devices.device_write z d a v s)

module _ {World : Type 0} (devices : Devices World) where
  device_or_read-IsConsistent :
      (z : Size) (a : ℕ) (o : Option ℕ) (b : Bus (Store World))
      → IsKeeping devices
      → IsConsistent b.mem
      → IsConsistent (device_or_read devices z a o b).after.mem
  unfolding device_or_read
  device_or_read-IsConsistent z a none b k c =
      read_region-IsConsistent z a (find_region a b.mem).0 (find_region a b.mem).1 b
        (find_region-IsConsistent a b.mem c)
  device_or_read-IsConsistent z a (some d) b k c = k.kept_by_read z d a b.mem c

  device_or_write-IsConsistent :
      (z : Size) (a v : ℕ) (o : Option ℕ) (b : Bus (Store World))
      → IsKeeping devices
      → IsConsistent b.mem
      → IsConsistent (device_or_write devices z a v o b).mem
  unfolding device_or_write
  device_or_write-IsConsistent z a v none b k c =
      write_region-IsConsistent z a v (find_region a b.mem).0 (find_region a b.mem).1 b
        (find_region-IsConsistent a b.mem c)
  device_or_write-IsConsistent z a v (some d) b k c = k.kept_by_write z d a v b.mem c

  pub read-IsConsistent :
      (z : Size) (a : ℕ) (b : Bus (Store World))
      → IsKeeping devices
      → IsConsistent b.mem
      → IsConsistent (read devices z a b).after.mem
  unfolding read
  read-IsConsistent z a b k c = elim (Bool-cases (in_fast_ram z a b.mem)) [
    | inl f ↦ rw f c
    | inr f ↦ rw f (device_or_read-IsConsistent z a (find_device a b.mem) b k c)
  ]

  pub write-IsConsistent :
      (z : Size) (a v : ℕ) (b : Bus (Store World))
      → IsKeeping devices
      → IsConsistent b.mem
      → IsConsistent (write devices z a v b).mem
  unfolding write
  write-IsConsistent z a v b k c = elim (Bool-cases (in_fast_ram z a b.mem)) [
    | inl f ↦ rw f (write_be-IsConsistent z b.mem.fast_ram v a b.mem c)
    | inr f ↦ rw f (device_or_write-IsConsistent z a v (find_device a b.mem) b k c)
  ]
