-- ===== src/Memory/Holding.antt =====
-- A region of RAM of Em68030/Core/Memory.cpp that no device covers: what its accesses read and write.
use em68030_win_ui3cpp.Common.{
  ℕ, ◌+◌, ◌-◌, ◌^◌, ◌<◌, ◌≤◌, ◌≡◌, refl, ap, sym, ◌∙◌, arith, true, ◌&&◌, List, length, Option,
  none, some, ltb, ◌==◌, if◌then◌else◌,
}
use em68030_win_ui3cpp.Common.Size.{Size}
use em68030_win_ui3cpp.Common.Bytes.{last, read_be, write_be}
use em68030_win_ui3cpp.Mmu.Walk.{Bus}
use em68030_win_ui3cpp.Memory.Store.{Region, Store, is_ram, region_at, contains, find_device}
use em68030_win_ui3cpp.Memory.Access.{Devices, with_mem, read_region, read, write}
use em68030_win_ui3cpp.Memory.Plain.{with_last}
use em68030_win_ui3cpp.Memory.Invariant.{IsConsistent}
use em68030_win_ui3cpp.Memory.Keeping.{region_at-set, write_be-IsConsistent, renewed-IsConsistent}
use em68030_win_ui3cpp.Memory.Laws.{
  contains-in, fits-inside, write_region-inside, written, offset_in, write-at, read-at,
}

-- Region `i` of a consistent memory is RAM from `base` on, without a device in it, and holds these
-- bytes.
pub record HoldsRegion {World : Type 0} (i base size : ℕ) (bytes : List ℕ) (b : Bus (Store World))
    : Type 0 where
  pub consistent : IsConsistent b.mem
  pub content : (region_at b.mem.regions i).bytes ≡ bytes
  pub at_base : (region_at b.mem.regions i).base_address ≡ base
  pub of_size : (region_at b.mem.regions i).size ≡ size
  pub writable : is_ram (region_at b.mem.regions i).region_type ≡ true
  pub in_space : base + size < 2 ^ 32
  pub uncovered : (a : ℕ) → base ≤ a → a < base + size → find_device a b.mem ≡ none

module _ {World : Type 0} (i base size : ℕ) where
  pub contains-HoldsRegion :
      (a : ℕ) (bytes : List ℕ) (b : Bus (Store World))
      → HoldsRegion i base size bytes b
      → base ≤ a
      → a < base + size
      → contains a (region_at b.mem.regions i) ≡ true
  unfolding contains
  contains-HoldsRegion a bytes b h low high = ground (arith, h.at_base, h.of_size, h.in_space)

  pub with_last-HoldsRegion :
      (k : Option ℕ) (bytes : List ℕ) (b : Bus (Store World))
      → HoldsRegion i base size bytes b
      → HoldsRegion i base size bytes (with_last k b)
  unfolding find_device
  with_last-HoldsRegion k bytes b h = record {
    consistent =
        renewed-IsConsistent b.mem b.mem.last_fault_address b.mem.last_fault_is_write
          b.mem.last_fault_raised k h.consistent;
    content = h.content;
    at_base = h.at_base;
    of_size = h.of_size;
    writable = h.writable;
    in_space = h.in_space;
    uncovered = h.uncovered;
  }

  -- An access of the region does not leave it.
  pub inside-HoldsRegion :
      (z : Size) (a : ℕ) (bytes : List ℕ) (b : Bus (Store World))
      → HoldsRegion i base size bytes b
      → base ≤ a
      → a + last z < base + size
      → offset_in a i b.mem + last z < (region_at b.mem.regions i).size
  inside-HoldsRegion z a bytes b h low high = omega (arith, h.at_base, h.of_size)

  read_region-HoldsRegion :
      (z : Size) (a : ℕ) (bytes : List ℕ) (b : Bus (Store World))
      → HoldsRegion i base size bytes b
      → base ≤ a
      → a + last z < base + size
      → read_region z a (some i, b.mem) b ≡ record {
        value = read_be z (region_at b.mem.regions i).bytes (offset_in a i b.mem);
        after = b;
      }
  unfolding read_region
  read_region-HoldsRegion z a bytes b h low high =
      rw
        (fits-inside z (offset_in a i b.mem) (region_at b.mem.regions i).size
          (inside-HoldsRegion z a bytes b h low high))
        refl

  pub written-HoldsRegion :
      (z : Size) (a v : ℕ) (bytes : List ℕ) (b : Bus (Store World))
      → HoldsRegion i base size bytes b
      → base ≤ a
      → a + last z < base + size
      → HoldsRegion i base size (write_be z v bytes (a - base)) (with_mem (written z a v i b.mem) b)
  unfolding find_device
  written-HoldsRegion z a v bytes b h low high =
      let r = region_at b.mem.regions i in
      let bs = write_be z v r.bytes (offset_in a i b.mem) in
      let holds = contains-HoldsRegion a bytes b h low (omega (arith, high)) in
      let in_regions = contains-in b.mem.regions i a holds in
      let same : (if i == i && ltb i (length b.mem.regions) then bs else r.bytes) ≡ bs =
        ground arith in
      let at = region_at-set b.mem.regions i bs i in
      let moved : bs ≡ write_be z v bytes (a - base) =
        ap (λ (x : List ℕ). write_be z v x (offset_in a i b.mem)) h.content
        ∙ ap (λ (x : ℕ). write_be z v bytes (a - x)) h.at_base in
      record {
        consistent = write_be-IsConsistent z i v (offset_in a i b.mem) b.mem h.consistent;
        content = ap (λ (x : Region). x.bytes) at ∙ same ∙ moved;
        at_base = ap (λ (x : Region). x.base_address) at ∙ h.at_base;
        of_size = ap (λ (x : Region). x.size) at ∙ h.of_size;
        writable = ap (λ (x : Region). is_ram x.region_type) at ∙ h.writable;
        in_space = h.in_space;
        uncovered = h.uncovered;
      }

module _ {World : Type 0} (devices : Devices World) (i base size : ℕ) where
  pub read-HoldsRegion :
      (z : Size) (a : ℕ) (bytes : List ℕ) (b : Bus (Store World))
      → HoldsRegion i base size bytes b
      → base ≤ a
      → a + last z < base + size
      → ((read devices z a b).value ≡ read_be z bytes (a - base))
        × HoldsRegion i base size bytes (read devices z a b).after
        × ((read devices z a b).after.fault ≡ b.fault)
  read-HoldsRegion z a bytes b h low high =
      let holds = contains-HoldsRegion i base size a bytes b h low (omega (arith, high)) in
      let space : a + last z < 2 ^ 32 = omega (arith, h.in_space) in
      let (k, e) =
        read-at devices z a i b h.consistent space (h.uncovered a low (omega (arith, high)))
          holds in
      let seen = read_region-HoldsRegion i base size z a bytes b h low high in
      rw (e, seen)
        (
          ap (λ (x : List ℕ). read_be z x (offset_in a i b.mem)) h.content
              ∙ ap (λ (x : ℕ). read_be z bytes (a - x)) h.at_base,
          with_last-HoldsRegion i base size k bytes b h,
          refl,
        )

  pub write-HoldsRegion :
      (z : Size) (a v : ℕ) (bytes : List ℕ) (b : Bus (Store World))
      → HoldsRegion i base size bytes b
      → base ≤ a
      → a + last z < base + size
      → HoldsRegion i base size (write_be z v bytes (a - base)) (write devices z a v b)
        × ((write devices z a v b).fault ≡ b.fault)
  write-HoldsRegion z a v bytes b h low high =
      let holds = contains-HoldsRegion i base size a bytes b h low (omega (arith, high)) in
      let space : a + last z < 2 ^ 32 = omega (arith, h.in_space) in
      let (k, e) =
        write-at devices z a v i b h.consistent space (h.uncovered a low (omega (arith, high)))
          holds in
      let stored =
        write_region-inside z a v i b h.writable
          (inside-HoldsRegion i base size z a bytes b h low high) in
      rw (e, stored)
        (
          with_last-HoldsRegion i base size k (write_be z v bytes (a - base))
              (with_mem (written z a v i b.mem) b)
              (written-HoldsRegion i base size z a v bytes b h low high),
          refl,
        )

  pub length-HoldsRegion :
      (bytes : List ℕ) (b : Bus (Store World))
      → HoldsRegion i base size bytes b
      → length bytes ≡ size
  length-HoldsRegion bytes b h =
      ap (λ (x : List ℕ). length x) (sym h.content) ∙ h.consistent.sized i ∙ h.of_size
