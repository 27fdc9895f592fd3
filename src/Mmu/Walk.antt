-- ===== src/Mmu/Walk.antt =====
-- The table walk of `Mmu::TableWalk`.
use em68030_win_ui3cpp.Common.{
  ℕ, ◌+◌, ◌-◌, ◌*◌, ◌/◌, ◌%◌, ◌^◌, Bool, true, false, not, ◌&&◌, ◌||◌, List, [], ◌∷◌, Option, none,
  some, bit_and, bit_or, ltb, ◌==◌, if◌then◌else◌, has,
}
use em68030_win_ui3cpp.Mmu.State.{BusError, set_bus_error, Mmu, clear_bits, build_ssw, cache_in_atc}

-- What the MMU acts on.
pub record Bus (Mem : Type 0) : Type 0 where
  pub fault : BusError
  pub mem : Mem

-- A value, and the state after it.
pub record Reading (S : Type 0) : Type 0 where
  pub value : ℕ
  pub after : S

-- `Memory::ReadLong` and `Memory::WriteLong`.
pub record Memory (Mem : Type 0) : Type 0 where
  pub read_long : ℕ → Bus Mem → Reading (Bus Mem)
  pub write_long : ℕ → ℕ → Bus Mem → Bus Mem

pub record Machine (Mem : Type 0) : Type 0 where
  pub mmu : Mmu
  pub bus : Bus Mem

-- The local variables of the walk between two levels.
pub record Level : Type 0 where
  pub shift : ℕ
  pub table_addr : ℕ
  pub entry_size : ℕ
  pub write_protected : Bool
  pub cache_inhibit : Bool
  pub levels_searched : ℕ

-- The access that is translated.
pub record Access : Type 0 where
  pub logical : ℕ
  pub write : Bool
  pub fc : ℕ

module _ {Mem : Type 0} where
  -- A fault is noted in the MMU and reported to the CPU.
  unfoldable pub raise : Access → Machine Mem → Machine Mem
  raise a s =
      let ssw = build_ssw a.fc (not a.write) in
      record {
        mmu = record (s.mmu) {
          last_fault_address = a.logical;
          last_fault_is_write = a.write;
          last_fault_function_code = a.fc;
          last_fault_ssw = ssw;
        };
        bus = record (s.bus) { fault = set_bus_error a.logical a.write a.fc ssw s.bus.fault };
      }

  abbrev pub with_mmusr : ℕ → Machine Mem → Machine Mem
  with_mmusr v s = record s { mmu = record (s.mmu) { mmusr = v } }

  -- A fault with the status that the walk found; the result is 0.
  abbrev pub faulted : ℕ → Access → Machine Mem → Reading (Machine Mem)
  faulted status a s = record { value = 0; after = raise a (with_mmusr status s) }

-- MMUSR for a walk that ends: the number of levels, W and M.
abbrev pub page_status : ℕ → Bool → Bool → ℕ
page_status levels write_protected modified =
    bit_or (bit_or (bit_and levels 7) (if write_protected then 0x0800 else 0))
      (if modified then 0x0200 else 0)

module _ {Mem : Type 0} (memory : Memory Mem) where
  abbrev write_bus : ℕ → ℕ → Machine Mem → Machine Mem
  write_bus addr v s = record s { bus = memory.write_long addr v s.bus }

  abbrev read_bus : ℕ → Machine Mem → Reading (Machine Mem)
  read_bus addr s =
      let r = memory.read_long addr s.bus in
      record { value = r.value; after = record s { bus = r.after } }

  -- The Used bit of a descriptor, set where it was clear.
  unfoldable pub mark_used : ℕ → ℕ → Machine Mem → Machine Mem
  mark_used lo_addr lo s = if has lo 0x08 then s else write_bus lo_addr (bit_or lo 0x08) s

  -- The Modified bit, set by a read and a write of the descriptor.
  unfoldable pub mark_modified : ℕ → Machine Mem → Machine Mem
  mark_modified lo_addr s =
      let r = read_bus lo_addr s in write_bus lo_addr (bit_or r.value 0x10) r.after

  -- A page descriptor; `lo_addr` is the address of its low long.
  unfoldable pub walk_page : Access → Level → ℕ → ℕ → Machine Mem → Reading (Machine Mem)
  walk_page a l lo_addr lo s =
      let page_bits = 2 ^ 32 - 2 ^ l.shift in
      let phys_page = bit_and (bit_and lo page_bits) 0xffffff00 in
      let write_protected = l.write_protected || has lo 0x04 in
      let cache_inhibit = l.cache_inhibit || has lo 0x40 in
      let used = mark_used lo_addr lo s in
      let modified = has lo 0x10 in
      if a.write && write_protected
      then faulted (page_status l.levels_searched true modified) a used
      else let marked = (if a.write && not modified then mark_modified lo_addr used else used) in
        let now_modified = modified || a.write in
        let phys_addr = bit_or phys_page (bit_and a.logical (0xffffffff - page_bits)) in
        let noted =
          with_mmusr (page_status l.levels_searched write_protected now_modified) marked in
        record {
          value = phys_addr;
          after = record noted {
            mmu =
                cache_in_atc a.logical a.fc (clear_bits phys_addr noted.mmu.page_mask)
                  write_protected cache_inhibit now_modified lo_addr noted.mmu;
          };
        }

  -- The low long of a descriptor and where it stands; a long descriptor's high long is read first.
  unfoldable pub fetch : Level → ℕ → Machine Mem → ℕ × Reading (Machine Mem)
  fetch l desc_addr s =
      if l.entry_size == 8
      then (
        (desc_addr + 4) % 2 ^ 32,
        read_bus ((desc_addr + 4) % 2 ^ 32) (read_bus desc_addr s).after,
      )
      else (desc_addr, read_bus desc_addr s)

  -- The levels of the tree, by their index bits. `none` is a shift below zero, which C++ leaves
  -- undefined: the bits of TC add up to more than 32.
  unfoldable pub walk : Access → List ℕ → Level → Machine Mem → Option (Reading (Machine Mem))
  walk a [] l s = some (faulted (bit_or (bit_and l.levels_searched 7) 0x0400) a s)
  walk a (bits ∷ rest) l s =
      let shift = l.shift - bits in
      let index = bit_and (a.logical / 2 ^ shift) (2 ^ bits - 1) in
      let desc_addr = (l.table_addr + index * l.entry_size) % 2 ^ 32 in
      let pointed = record s { mmu = record (s.mmu) { last_descriptor_address = desc_addr } } in
      let d = fetch l desc_addr pointed in
      let lo = d.1.value in
      let here = record l { shift = shift; levels_searched = l.levels_searched + 1 } in
      let below = record here {
        write_protected = l.write_protected || has lo 0x04;
        table_addr = bit_and lo 0xfffffff0;
        entry_size = (if bit_and lo 3 == 2 then 4 else 8);
      } in
      let skipped = walk a rest l s in
      let deeper = walk a rest below (mark_used d.0 lo d.1.after) in
      if bits == 0
      then skipped
      else if ltb l.shift bits
      then none
      else if bit_and lo 3 == 0
      then some (faulted (bit_or (bit_and here.levels_searched 7) 0x0400) a d.1.after)
      else if bit_and lo 3 == 1
      then some (walk_page a here d.0 lo d.1.after)
      else deeper

  -- `TableWalk`; the root pointer is chosen by the function code.
  unfoldable pub table_walk : Access → Machine Mem → Option (Reading (Machine Mem))
  table_walk a s =
      let root = (if has a.fc 4 && s.mmu.sre then s.mmu.srp else s.mmu.crp) in
      let root_dt = bit_and (root / 2 ^ 32) 3 in
      let start : Level = record {
        shift = 32 - s.mmu.initial_shift;
        table_addr = bit_and root 0xfffffff0;
        entry_size = (if root_dt == 3 then 8 else 4);
        write_protected = false;
        cache_inhibit = false;
        levels_searched = 0;
      } in
      if root_dt == 0
      then some (faulted 0x0400 a s)
      else walk a (s.mmu.tia ∷ s.mmu.tib ∷ s.mmu.tic ∷ s.mmu.tid ∷ []) start s
