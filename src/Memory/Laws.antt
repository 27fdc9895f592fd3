-- ===== src/Memory/Laws.antt =====
-- What an access does: to RAM, to ROM, across the end of a region, and where nothing is.
use em68030_win_ui3cpp.Common.{
  ℕ, zero, suc, ◌+◌, ◌-◌, ◌^◌, ◌<◌, ◌≡◌, refl, ap, ◌∙◌, arith, true, ◌&&◌, List, [], ◌∷◌, Option,
  none, some, ltb, ◌==◌, if◌then◌else◌, length,
}
use em68030_win_ui3cpp.Common.Size.{Size, byte, word, long, modulus}
use em68030_win_ui3cpp.Common.Bytes.{last, write_be, read_be-write_be}
use em68030_win_ui3cpp.Mmu.Walk.{Bus, Reading}
use em68030_win_ui3cpp.Memory.Store.{Region, Store, is_ram, region_at, contains, find_device}
use em68030_win_ui3cpp.Memory.Access.{
  Devices, fits, with_mem, put_bytes, read_region, write_region, read, write,
}
use em68030_win_ui3cpp.Memory.Plain.{
  with_last, plain_read, plain_write, plain_device_or_read, plain_device_or_write,
}
use em68030_win_ui3cpp.Memory.Invariant.{IsConsistent}
use em68030_win_ui3cpp.Memory.Regions.{none_in_empty}
use em68030_win_ui3cpp.Memory.Agreement.{scan_exact}
use em68030_win_ui3cpp.Memory.Refining.{read-plain_read, write-plain_write}
use em68030_win_ui3cpp.Memory.Keeping.{
  region_at-set, contains-set, write_be-IsConsistent, renewed-IsConsistent,
}

pub fits-inside : (z : Size) (offset size : ℕ) → offset + last z < size → fits z offset size ≡ true
unfolding fits
fits-inside byte offset size h = refl
fits-inside word offset size h = ground arith
fits-inside long offset size h = ground arith

pub contains-in : (rs : List Region) (i a : ℕ) → contains a (region_at rs i) ≡ true → i < length rs
contains-in [] i a h = absurd (cc (none_in_empty a))
contains-in (r ∷ rs) zero a h = omega arith
contains-in (r ∷ rs) (suc i) a h = omega (arith, contains-in rs i a h)

module _ {World : Type 0} where
  abbrev pub offset_in : ℕ → ℕ → Store World → ℕ
  offset_in a i s = a - (region_at s.regions i).base_address

  abbrev pub written : Size → ℕ → ℕ → ℕ → Store World → Store World
  written z a v i s = put_bytes i (write_be z v (region_at s.regions i).bytes (offset_in a i s)) s

  pub write_region-inside :
      (z : Size) (a v i : ℕ) (b : Bus (Store World))
      → is_ram (region_at b.mem.regions i).region_type ≡ true
      → offset_in a i b.mem + last z < (region_at b.mem.regions i).size
      → write_region z a v (some i, b.mem) b ≡ with_mem (written z a v i b.mem) b
  unfolding write_region
  write_region-inside z a v i b ram inside =
      rw (ram, fits-inside z (offset_in a i b.mem) (region_at b.mem.regions i).size inside) refl

  read_region-written :
      (z : Size) (a v i : ℕ) (l : Option ℕ) (b : Bus (Store World))
      → IsConsistent b.mem
      → contains a (region_at b.mem.regions i) ≡ true
      → offset_in a i b.mem + last z < (region_at b.mem.regions i).size
      → v < modulus z
      → read_region z a
          (some i, (with_last l (with_mem (written z a v i b.mem) b)).mem)
          (with_last l (with_mem (written z a v i b.mem) b))
        ≡ record { value = v; after = with_last l (with_mem (written z a v i b.mem) b) }
  unfolding read_region
  read_region-written z a v i l b c holds inside hv =
      let r = region_at b.mem.regions i in
      let bs = write_be z v r.bytes (offset_in a i b.mem) in
      let in_regions = contains-in b.mem.regions i a holds in
      let same : (if i == i && ltb i (length b.mem.regions) then bs else r.bytes) ≡ bs =
        ground arith in
      rw
        (
          region_at-set b.mem.regions i bs i,
          fits-inside z (offset_in a i b.mem) r.size inside,
          same,
          read_be-write_be z v r.bytes (offset_in a i b.mem) hv (omega (arith, c.sized i)),
        )
        refl

module _ {World : Type 0} (devices : Devices World) where
  -- The write that stands for the one of a region that no device covers.
  plain_write-at :
      (z : Size) (a v i : ℕ) (b : Bus (Store World))
      → IsConsistent b.mem
      → find_device a b.mem ≡ none
      → contains a (region_at b.mem.regions i) ≡ true
      → plain_write devices z a v b ≡ write_region z a v (some i, b.mem) b
  unfolding plain_write plain_device_or_write
  plain_write-at z a v i b c d h = rw (d, scan_exact b.mem a i c h) refl

  plain_read-at :
      (z : Size) (a i : ℕ) (b : Bus (Store World))
      → IsConsistent b.mem
      → find_device a b.mem ≡ none
      → contains a (region_at b.mem.regions i) ≡ true
      → plain_read devices z a b ≡ read_region z a (some i, b.mem) b
  unfolding plain_read plain_device_or_read
  plain_read-at z a i b c d h = rw (d, scan_exact b.mem a i c h) refl

  -- In a consistent memory, a write of a region that no device covers, at an address that does not
  -- cross the end of the address space, is the write of its bytes.
  pub write-at :
      (z : Size) (a v i : ℕ) (b : Bus (Store World))
      → IsConsistent b.mem
      → a + last z < 2 ^ 32
      → find_device a b.mem ≡ none
      → contains a (region_at b.mem.regions i) ≡ true
      → (k : Option ℕ) × (write devices z a v b
          ≡ with_last k (write_region z a v (some i, b.mem) b))
  write-at z a v i b c h d holds =
      let (k, e) = write-plain_write devices z a v b c h in
      (k, e ∙ ap (with_last k) (plain_write-at z a v i b c d holds))

  pub read-at :
      (z : Size) (a i : ℕ) (b : Bus (Store World))
      → IsConsistent b.mem
      → a + last z < 2 ^ 32
      → find_device a b.mem ≡ none
      → contains a (region_at b.mem.regions i) ≡ true
      → (k : Option ℕ) × (read devices z a b ≡ record {
        value = (read_region z a (some i, b.mem) b).value;
        after = with_last k (read_region z a (some i, b.mem) b).after;
      })
  read-at z a i b c h d holds =
      let (k, e) = read-plain_read devices z a b c h in
      (
        k,
        e
            ∙ ap
                (λ (r : Reading (Bus (Store World))). record {
                  value = r.value;
                  after = with_last k r.after;
                })
                (plain_read-at z a i b c d holds),
      )

  -- In a consistent memory, what is written to a RAM region that no device covers, inside the region
  -- and below the end of the address space, is read back by an access of the same size, and neither
  -- access raises a fault.
  pub read-write :
      (z : Size) (a v i : ℕ) (b : Bus (Store World))
      → IsConsistent b.mem
      → a + last z < 2 ^ 32
      → find_device a b.mem ≡ none
      → contains a (region_at b.mem.regions i) ≡ true
      → is_ram (region_at b.mem.regions i).region_type ≡ true
      → a - (region_at b.mem.regions i).base_address + last z < (region_at b.mem.regions i).size
      → v < modulus z
      → ((read devices z a (write devices z a v b)).value ≡ v)
        × ((read devices z a (write devices z a v b)).after.fault ≡ b.fault)
  unfolding find_device
  read-write z a v i b c h d holds ram inside hv =
      let bs = write_be z v (region_at b.mem.regions i).bytes (offset_in a i b.mem) in
      let (k, e) = write-at z a v i b c h d holds in
      let b2 : Bus (Store World) = with_last k (with_mem (written z a v i b.mem) b) in
      let stored : write devices z a v b ≡ b2 =
        e ∙ ap (with_last k) (write_region-inside z a v i b ram inside) in
      let c2 =
        renewed-IsConsistent (written z a v i b.mem) b.mem.last_fault_address
          b.mem.last_fault_is_write b.mem.last_fault_raised k
          (write_be-IsConsistent z i v (offset_in a i b.mem) b.mem c) in
      let (k2, e2) = read-at z a i b2 c2 h d (contains-set b.mem.regions i bs i a ∙ holds) in
      let back = read_region-written z a v i k b c holds inside hv in
      rw (stored, e2, back) (refl, refl)
