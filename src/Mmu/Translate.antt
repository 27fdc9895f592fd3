-- ===== src/Mmu/Translate.antt =====
-- `Translate`, `TranslateReadFast`, `PLoad` and the flushes.
use em68030_win_ui3cpp.Common.{
  ℕ, ◌+◌, ◌*◌, ◌/◌, ◌%◌, ◌^◌, bit_xor, Bool, not, ◌&&◌, ◌||◌, List, [], ◌∷◌, Option, none, some,
  bit_and, bit_or, ◌==◌, if◌then◌else◌, has, get_or, set, replicate,
}
use em68030_win_ui3cpp.Mmu.State.{
  BusError, clear_bus_error, Mmu, AtcEntry, no_entry, clear_bits, make_atc_key, make_atc_index,
  is_transparent,
}
use em68030_win_ui3cpp.Mmu.Walk.{Reading, Memory, Machine, Access, raise, with_mmusr, table_walk}

-- A result with the status register as it was before.
abbrev pub restore_mmusr :
    {Mem : Type 0} → ℕ → Option (Reading (Machine Mem)) → Option (Reading (Machine Mem))
restore_mmusr saved none = none
restore_mmusr saved (some r) = some (record r { after = with_mmusr saved r.after })

abbrev pub entry_at : ℕ → Mmu → AtcEntry
entry_at key m = get_or m.atc (make_atc_index key) no_entry

abbrev pub passes : Access → Mmu → Bool
passes a m =
    m.tt_enabled
    && (is_transparent a.logical a.fc m.tt0 a.write || is_transparent a.logical a.fc m.tt1 a.write)

-- The inline path, which makes the key and the index of the entry by itself.
unfoldable pub translate_read_fast : ℕ → ℕ → Mmu → ℕ
translate_read_fast logical fc m =
    let page_addr = clear_bits logical m.page_mask in
    let atc_key = bit_or (bit_and fc 7 * 2 ^ 32) page_addr in
    let addr32 = bit_and atc_key 0xffffffff in
    let fc32 = atc_key / 2 ^ 32 in
    let hash =
      bit_xor (bit_xor (bit_xor (addr32 / 2 ^ 12) (addr32 / 2 ^ 18)) (addr32 / 2 ^ 24))
        (fc32 * 0x9e3779b9 % 2 ^ 32) in
    let e = get_or m.atc (bit_and hash 0xfff) no_entry in
    if not m.enabled
    then logical
    else if e.tag == atc_key
    then bit_or e.physical_page (bit_and logical m.page_mask)
    else 0xffffffff

abbrev pub clear_tag : AtcEntry → AtcEntry
clear_tag e = record e { tag = 0 }

module _ {Mem : Type 0} (memory : Memory Mem) where
  unfoldable pub translate : Access → Machine Mem → Option (Reading (Machine Mem))
  translate a s =
      let key = make_atc_key a.logical a.fc s.mmu in
      let entry = entry_at key s.mmu in
      let invalidated = record s {
        mmu = record (s.mmu) { atc = set s.mmu.atc (make_atc_index key) (clear_tag entry) };
      } in
      if not s.mmu.enabled || passes a s.mmu
      then some (record { value = a.logical; after = s })
      else if entry.tag == key
      then (if a.write && has entry.flags 0x01
          then some (record { value = 0; after = raise a s })
          else if a.write && not (has entry.flags 0x02)
          then restore_mmusr s.mmu.mmusr (table_walk memory a invalidated)
          else some (record {
            value = bit_or entry.physical_page (bit_and a.logical s.mmu.page_mask);
            after = s;
          }))
      else restore_mmusr s.mmu.mmusr (table_walk memory a s)

  -- The function code of a data access.
  abbrev data_access : ℕ → Bool → Bool → Access
  data_access logical supervisor write = record {
    logical = logical;
    write = write;
    fc = (if supervisor then 5 else 1);
  }

  -- The overload without a function code.
  unfoldable translate_data : ℕ → Bool → Bool → Machine Mem → Option (Reading (Machine Mem))
  translate_data logical supervisor write s = translate (data_access logical supervisor write) s

  abbrev pub restore_fault : BusError → Option (Reading (Machine Mem)) → Option (Machine Mem)
  restore_fault saved none = none
  restore_fault saved (some r) =
      some (record (r.after) { bus = record (r.after.bus) { fault = saved } })

  unfoldable pub p_load : Access → Machine Mem → Option (Machine Mem)
  p_load a s = restore_fault s.bus.fault (
      restore_mmusr s.mmu.mmusr
        (table_walk memory a (record s { bus = record (s.bus) { fault = clear_bus_error } })))

  unfoldable p_load_data : ℕ → Bool → Bool → Machine Mem → Option (Machine Mem)
  p_load_data logical supervisor write s = p_load (data_access logical supervisor write) s

-- Every entry that the test selects is made invalid.
unfoldable pub flush_where : (AtcEntry → Bool) → List AtcEntry → List AtcEntry
flush_where p [] = []
flush_where p (e ∷ es) = (if not (e.tag == 0) && p e then clear_tag e else e) ∷ flush_where p es

abbrev flushed : List AtcEntry → Mmu → Mmu
flushed atc m = record m { atc = atc; flushes = m.flushes + 1 }

unfoldable pub flush_all : Mmu → Mmu
flush_all m = flushed (replicate 4096 no_entry) m

abbrev pub on_page : ℕ → AtcEntry → Bool
on_page page e = bit_and e.tag 0xffffffff == page

abbrev pub of_fc : ℕ → ℕ → AtcEntry → Bool
of_fc fc mask e = bit_and e.entry_fc mask == bit_and fc mask

unfoldable pub flush : ℕ → Mmu → Mmu
flush logical m = flushed (flush_where (on_page (clear_bits logical m.page_mask)) m.atc) m

unfoldable pub flush_by_fc : ℕ → ℕ → Mmu → Mmu
flush_by_fc fc mask m = flushed (flush_where (of_fc fc mask) m.atc) m

unfoldable pub flush_by_fc_and_address : ℕ → ℕ → ℕ → Mmu → Mmu
flush_by_fc_and_address fc mask logical m =
    flushed (flush_where (λ e. of_fc fc mask e && on_page (clear_bits logical m.page_mask) e) m.atc)
      m
