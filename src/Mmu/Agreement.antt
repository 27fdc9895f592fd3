-- ===== src/Mmu/Agreement.antt =====
-- The cached and the fast translation, and what translation and PLOAD leave alone.
use em68030_win_ui3cpp.Common.{
  ℕ, ◌+◌, ◌-◌, ◌*◌, ◌/◌, ◌%◌, ◌^◌, ◌≤◌, ◌<◌, ◌≡◌, refl, arith, Bool, true, false, not, ◌&&◌, ◌||◌,
  List, [], ◌∷◌, Option, none, some, bit_and, bit_or, ltb, ◌==◌, if◌then◌else◌, has, set,
}
use em68030_win_ui3cpp.Common.Bits.{bit_and_mask}
use em68030_win_ui3cpp.Mmu.State.{Mmu, make_atc_key, make_atc_index}
use em68030_win_ui3cpp.Mmu.Walk.{
  Reading, Memory, Machine, Access, Level, walk, table_walk, fetch, mark_used, raise,
}
use em68030_win_ui3cpp.Mmu.Translate.{
  translate, translate_read_fast, restore_mmusr, passes, entry_at, clear_tag,
}

pub make_atc_index-lt : (key : ℕ) → make_atc_index key < 4096
unfolding make_atc_index
make_atc_index-lt key = rw (bit_and_mask 12 _) (omega arith)

-- A read of an address.
abbrev pub load : ℕ → ℕ → Access
load logical fc = record { logical = logical; write = false; fc = fc }

abbrev pub hits : ℕ → ℕ → Mmu → Bool
hits logical fc m = (entry_at (make_atc_key logical fc m) m).tag == make_atc_key logical fc m

-- The branches of a read, by the enable bit, the transparent registers and the cache.
load_cases :
    {Mem : Type 0} (on skip found wp : Bool) (logical cached miss : ℕ) (s : Machine Mem)
    (x y z : Option (Reading (Machine Mem)))
    → skip ≡ false
    → (not on || found) ≡ true
    → (if not on || skip
        then some (record { value = logical; after = s })
        else if found
        then (if false && wp
            then x
            else if false && not wp
            then y
            else some (record { value = cached; after = s }))
        else z)
      ≡ some (record {
        value = (if not on then logical else if found then cached else miss);
        after = s;
      })
load_cases false skip found wp logical cached miss s x y z e h = refl
load_cases true false true wp logical cached miss s x y z e h = refl
load_cases true false false wp logical cached miss s x y z e h = cc
load_cases true true found wp logical cached miss s x y z e h = cc

-- An optional result that is there, with a property.
abbrev pub Returns : {S : Type 0} → (Reading S → Type 0) → Option (Reading S) → Type 0
Returns P o = (r : _) × (o ≡ some r) × P r

if-Returns :
    {S : Type 0} (P : Reading S → Type 0) (x : Bool) (o1 o2 : Option (Reading S))
    → Returns P o1
    → Returns P o2
    → Returns P (if x then o1 else o2)
if-Returns P true o1 o2 h1 h2 = h1
if-Returns P false o1 o2 h1 h2 = h2

-- A branch that is not taken need not return.
else-Returns :
    {S : Type 0} (P : Reading S → Type 0) (x : Bool) (o1 o2 : Option (Reading S))
    → x ≡ false
    → Returns P o2
    → Returns P (if x then o1 else o2)
else-Returns P true o1 o2 e h = cc
else-Returns P false o1 o2 e h = h

abbrev pub Any : {S : Type 0} → Reading S → Type 0
Any r = Unit {0}

abbrev pub sum : List ℕ → ℕ
sum [] = 0
sum (x ∷ xs) = x + sum xs

-- The result leaves MMUSR at the given value.
abbrev pub Keeps : {Mem : Type 0} → ℕ → Reading (Machine Mem) → Type 0
Keeps status r = r.after.mmu.mmusr ≡ status

pub restore-Returns :
    {Mem : Type 0} (status : ℕ) (o : Option (Reading (Machine Mem)))
    → Returns Any o
    → Returns (Keeps status) (restore_mmusr status o)
restore-Returns status none (r, e, _) = cc
restore-Returns status (some x) h = (_, refl, refl)

module _ {Mem : Type 0} (memory : Memory Mem) where
  -- Where the entry is there or the MMU is off, without a transparent register.
  pub translate-translate_read_fast :
      (logical fc : ℕ) (s : Machine Mem)
      → passes (load logical fc) s.mmu ≡ false
      → (not s.mmu.enabled || hits logical fc s.mmu) ≡ true
      → translate memory (load logical fc) s
        ≡ some (record { value = translate_read_fast logical fc s.mmu; after = s })
  unfolding translate translate_read_fast make_atc_key make_atc_index
  translate-translate_read_fast logical fc s skip hit =
      let key = make_atc_key logical fc s.mmu in
      let e = entry_at key s.mmu in
      load_cases s.mmu.enabled (passes (load logical fc) s.mmu) (hits logical fc s.mmu)
        (has e.flags 0x01) logical (bit_or e.physical_page (bit_and logical s.mmu.page_mask))
        0xffffffff s none none (restore_mmusr s.mmu.mmusr (table_walk memory (load logical fc) s))
        skip hit

  walk-Returns :
      (a : Access) (bits : List ℕ) (l : Level) (s : Machine Mem)
      → sum bits ≤ l.shift
      → Returns Any (walk memory a bits l s)
  unfolding walk
  walk-Returns a [] l s h = (_, refl, tt)
  walk-Returns a (x ∷ rest) l s h =
      let shift = l.shift - x in
      let index = bit_and (a.logical / 2 ^ shift) (2 ^ x - 1) in
      let desc_addr = (l.table_addr + index * l.entry_size) % 2 ^ 32 in
      let pointed : Machine Mem = record s {
        mmu = record (s.mmu) { last_descriptor_address = desc_addr };
      } in
      let d = fetch memory l desc_addr pointed in
      let lo = d.1.value in
      let below : Level = record l {
        shift = shift;
        levels_searched = l.levels_searched + 1;
        write_protected = l.write_protected || has lo 0x04;
        table_addr = bit_and lo 0xfffffff0;
        entry_size = (if bit_and lo 3 == 2 then 4 else 8);
      } in
      if-Returns Any (x == 0) _ _ (walk-Returns a rest l s (omega arith)) (
        else-Returns Any (ltb l.shift x) _ _ (ground arith) (
          if-Returns Any (bit_and lo 3 == 0) _ _ (_, refl, tt)
            (if-Returns Any (bit_and lo 3 == 1) _ _ (_, refl, tt)
              (walk-Returns a rest below (mark_used memory d.0 lo d.1.after) (omega arith)))))

  pub table_walk-Returns :
      (a : Access) (s : Machine Mem)
      → s.mmu.initial_shift + s.mmu.tia + s.mmu.tib + s.mmu.tic + s.mmu.tid ≤ 32
      → Returns Any (table_walk memory a s)
  unfolding table_walk
  table_walk-Returns a s h =
      let root = (if has a.fc 4 && s.mmu.sre then s.mmu.srp else s.mmu.crp) in
      let root_dt = bit_and (root / 2 ^ 32) 3 in
      let start : Level = record {
        shift = 32 - s.mmu.initial_shift;
        table_addr = bit_and root 0xfffffff0;
        entry_size = (if root_dt == 3 then 8 else 4);
        write_protected = false;
        cache_inhibit = false;
        levels_searched = 0;
      } in
      if-Returns Any (root_dt == 0) _ _ (_, refl, tt)
        (walk-Returns a (s.mmu.tia ∷ s.mmu.tib ∷ s.mmu.tic ∷ s.mmu.tid ∷ []) start s (omega arith))

  -- `Translate` returns, whatever the tables hold, where TC's index bits and initial shift add up to at
  -- most 32, and leaves MMUSR as it was, on every path.
  pub translate-Returns :
      (a : Access) (s : Machine Mem)
      → s.mmu.initial_shift + s.mmu.tia + s.mmu.tib + s.mmu.tic + s.mmu.tid ≤ 32
      → Returns (Keeps s.mmu.mmusr) (translate memory a s)
  unfolding translate raise
  translate-Returns a s h =
      let entry = entry_at (make_atc_key a.logical a.fc s.mmu) s.mmu in
      let key = make_atc_key a.logical a.fc s.mmu in
      let invalidated : Machine Mem = record s {
        mmu = record (s.mmu) { atc = set s.mmu.atc (make_atc_index key) (clear_tag entry) };
      } in
      let keeps = Keeps s.mmu.mmusr in
      if-Returns keeps (not s.mmu.enabled || passes a s.mmu) _ _ (_, refl, refl)
        (if-Returns keeps (entry.tag == key) _ _
          (if-Returns keeps (a.write && has entry.flags 0x01) _ _ (_, refl, refl)
            (if-Returns keeps (a.write && not (has entry.flags 0x02)) _ _
              (restore-Returns s.mmu.mmusr _ (table_walk-Returns a invalidated h)) (_, refl, refl)))
          (restore-Returns s.mmu.mmusr _ (table_walk-Returns a s h)))
