-- ===== src/Mmu/Caching.antt =====
-- Translations through an entry of the cache, and what PLOAD leaves alone.
use em68030_win_ui3cpp.Common.{
  ℕ, ◌+◌, ◌*◌, ◌^◌, ◌≤◌, ◌≡◌, refl, sym, ap, ◌∙◌, arith, Bool, true, false, not, ◌&&◌, ◌||◌, Option,
  some, bit_and, bit_or, ltb, ◌==◌, if◌then◌else◌, has, length, set, get_or-set, ==_iff,
}
use em68030_win_ui3cpp.Mmu.State.{
  Mmu, AtcEntry, clear_bits, clear_bus_error, make_atc_key, make_atc_index, cache_in_atc, no_entry,
}
use em68030_win_ui3cpp.Mmu.Walk.{Memory, Machine, Access, table_walk, raise}
use em68030_win_ui3cpp.Mmu.Translate.{translate, p_load, restore_mmusr, passes, entry_at, clear_tag}
use em68030_win_ui3cpp.Mmu.Agreement.{make_atc_index-lt, table_walk-Returns, restore-Returns}

-- The flags that `CacheInAtc` stores.
abbrev flags_of : Bool → Bool → Bool → ℕ
flags_of wp ci modified =
    let f0 = (if wp then 0x01 else 0) in
    let f1 = (if modified then bit_or f0 0x02 else f0) in if ci then bit_or f1 0x04 else f1

flags-has :
    (wp ci modified : Bool)
    → (has (flags_of wp ci modified) 0x01 ≡ wp) × (has (flags_of wp ci modified) 0x02 ≡ modified)
flags-has true true true = (refl, refl)
flags-has true true false = (refl, refl)
flags-has true false true = (refl, refl)
flags-has true false false = (refl, refl)
flags-has false true true = (refl, refl)
flags-has false true false = (refl, refl)
flags-has false false true = (refl, refl)
flags-has false false false = (refl, refl)

by_flags :
    {R : Type 0} (w wp modified : Bool) (fault hit : R) (rewalk : Option R)
    → (w && not (wp || modified)) ≡ false
    → (if w && wp then some fault else if w && not modified then rewalk else some hit)
      ≡ some (if w && wp then fault else hit)
by_flags true true modified fault hit rewalk h = refl
by_flags true false true fault hit rewalk h = refl
by_flags true false false fault hit rewalk h = cc
by_flags false wp modified fault hit rewalk h = refl

-- The branches of a translation that finds an entry with the given flags.
from_entry :
    {R : Type 0} (b1 b2 flag_wp flag_modified w wp modified : Bool) (fault hit hit' : R)
    (o1 rewalk o5 : Option R)
    → b1 ≡ false
    → b2 ≡ true
    → flag_wp ≡ wp
    → flag_modified ≡ modified
    → hit ≡ hit'
    → (w && not (wp || modified)) ≡ false
    → (if b1
        then o1
        else if b2
        then (if w && flag_wp
            then some fault
            else if w && not flag_modified
            then rewalk
            else some hit)
        else o5)
      ≡ some (if w && wp then fault else hit')
from_entry b1 b2 flag_wp flag_modified w wp modified fault hit hit' o1 rewalk o5 e1 e2 e3 e4 e5 h =
    rw (e1, e2, e3, e4, e5) (by_flags w wp modified fault hit' rewalk h)

stored_entry :
    (m : Mmu) (logical fc page : ℕ) (wp ci modified : Bool) (desc : ℕ)
    → length m.atc ≡ 4096
    → entry_at (make_atc_key logical fc m) (cache_in_atc logical fc page wp ci modified desc m)
      ≡ record {
        tag = make_atc_key logical fc m;
        physical_page = page;
        flags = flags_of wp ci modified;
        entry_fc = fc;
      }
unfolding cache_in_atc
stored_entry m logical fc page wp ci modified desc n =
    let idx = make_atc_index (make_atc_key logical fc m) in
    let new : AtcEntry = record {
      tag = make_atc_key logical fc m;
      physical_page = page;
      flags = flags_of wp ci modified;
      entry_fc = fc;
    } in
    let same : (idx == idx) ≡ true = ground arith in
    let inside : ltb idx (length m.atc) ≡ true =
      ground (arith, make_atc_index-lt (make_atc_key logical fc m)) in
    get_or-set m.atc idx idx new no_entry ∙ rw (same, inside) refl

module _ {Mem : Type 0} (memory : Memory Mem) where
  -- After `CacheInAtc`, with the MMU on, an access of any address on that page with that function code
  -- that the transparent registers do not pass is translated from the entry: a write to a
  -- write-protected page is a fault, and any other access gives the page and the offset and changes
  -- nothing. For a read, or a write where the entry is write-protected or modified.
  pub cache_in_atc-translate :
      (a : Access) (logical page : ℕ) (wp ci modified : Bool) (desc : ℕ) (s : Machine Mem)
      → length s.mmu.atc ≡ 4096
      → clear_bits a.logical s.mmu.page_mask ≡ clear_bits logical s.mmu.page_mask
      → s.mmu.enabled ≡ true
      → passes a s.mmu ≡ false
      → (a.write && not (wp || modified)) ≡ false
      → let t = record s { mmu = cache_in_atc logical a.fc page wp ci modified desc s.mmu } in
        translate memory a t
        ≡ some (
            if a.write && wp
            then record { value = 0; after = raise a t }
            else record { value = bit_or page (bit_and a.logical s.mmu.page_mask); after = t })
  unfolding translate cache_in_atc make_atc_key
  cache_in_atc-translate a logical page wp ci modified desc s n same on skip clean =
      let c = cache_in_atc logical a.fc page wp ci modified desc s.mmu in
      let t : Machine Mem = record s { mmu = c } in
      let key = make_atc_key a.logical a.fc c in
      let k : key ≡ make_atc_key logical a.fc s.mmu =
        ap (λ (x : ℕ). bit_or (bit_and a.fc 7 * 2 ^ 32) x) same in
      let e =
        ap (λ (x : ℕ). entry_at x c) k
        ∙ stored_entry s.mmu logical a.fc page wp ci modified desc n in
      let off : (not s.mmu.enabled || passes a s.mmu) ≡ false = rw (on, skip) refl in
      let found : ((entry_at key c).tag == key) ≡ true =
        (==_iff _ _).1 (ap (λ (x : AtcEntry). x.tag) e ∙ sym k) in
      let f = flags-has wp ci modified in
      let protected : has (entry_at key c).flags 0x01 ≡ wp =
        ap (λ (x : AtcEntry). has x.flags 0x01) e ∙ f.0 in
      let dirty : has (entry_at key c).flags 0x02 ≡ modified =
        ap (λ (x : AtcEntry). has x.flags 0x02) e ∙ f.1 in
      let moved : bit_or (entry_at key c).physical_page (bit_and a.logical s.mmu.page_mask)
          ≡ bit_or page (bit_and a.logical s.mmu.page_mask) =
        ap (λ (x : AtcEntry). bit_or x.physical_page (bit_and a.logical s.mmu.page_mask)) e in
      let there = entry_at key c in
      let offset = bit_and a.logical s.mmu.page_mask in
      let invalidated : Machine Mem = record t {
        mmu = record c { atc = set c.atc (make_atc_index key) (clear_tag there) };
      } in
      from_entry (not s.mmu.enabled || passes a s.mmu) (there.tag == key) (has there.flags 0x01)
        (has there.flags 0x02) a.write wp modified (record { value = 0; after = raise a t })
        (record { value = bit_or there.physical_page offset; after = t })
        (record { value = bit_or page offset; after = t })
        (some (record { value = a.logical; after = t }))
        (restore_mmusr s.mmu.mmusr (table_walk memory a invalidated))
        (restore_mmusr s.mmu.mmusr (table_walk memory a t)) off found protected dirty
        (ap (λ (x : ℕ). record { value = x; after = t }) moved) clean

  -- `PLoad` returns under the same condition on TC, and leaves MMUSR and the CPU's bus error as they
  -- were, whatever fault the walk meets.
  pub p_load_lem :
      (a : Access) (s : Machine Mem)
      → s.mmu.initial_shift + s.mmu.tia + s.mmu.tib + s.mmu.tic + s.mmu.tid ≤ 32
      → (q : Machine Mem) × (p_load memory a s ≡ some q)
        × (q.mmu.mmusr ≡ s.mmu.mmusr)
        × (q.bus.fault ≡ s.bus.fault)
  unfolding p_load
  p_load_lem a s h =
      let cleared : Machine Mem = record s { bus = record (s.bus) { fault = clear_bus_error } } in
      let r = restore-Returns s.mmu.mmusr _ (table_walk-Returns memory a cleared h) in
      rw (r.1) (_, refl, r.2, refl)
