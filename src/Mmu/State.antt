-- ===== src/Mmu/State.antt =====
-- The registers of `Mmu`, its address translation cache (ATC), and the CPU's bus-error fields.
-- The memory behind the MMU is any type `Mem`: Em68030/Core/Memory.cpp may report a bus error of its
-- own, so a memory access acts on the memory and the fault together. `m_cpu` is set, as the CPU's
-- constructor sets it. `m_pageSizeCached` is not kept, since only its mask is used.
use em68030_win_ui3cpp.Common.{
  ℕ, ◌-◌, ◌*◌, ◌/◌, ◌%◌, ◌^◌, Bool, true, false, not, ◌&&◌, ◌||◌, List, bit_and, bit_or, bit_xor,
  ◌==◌, if◌then◌else◌, has, set, replicate,
}

pub record BusError : Type 0 where
  pub pending : Bool
  pub fault_address : ℕ
  pub is_write : Bool
  pub function_code : ℕ
  pub ssw : ℕ

-- The first fault is kept.
unfoldable pub set_bus_error : ℕ → Bool → ℕ → ℕ → BusError → BusError
set_bus_error address write fc ssw e = if e.pending then e else record {
  pending = true;
  fault_address = address;
  is_write = write;
  function_code = fc;
  ssw = ssw;
}

unfoldable pub clear_bus_error : BusError
clear_bus_error = record {
  pending = false;
  fault_address = 0;
  is_write = false;
  function_code = 0;
  ssw = 0;
}

pub record AtcEntry : Type 0 where
  pub tag : ℕ
  pub physical_page : ℕ
  pub flags : ℕ
  pub entry_fc : ℕ

abbrev pub no_entry : AtcEntry
no_entry = record { tag = 0; physical_page = 0; flags = 0; entry_fc = 0 }

pub record Mmu : Type 0 where
  pub last_fault_address : ℕ
  pub last_fault_is_write : Bool
  pub last_fault_function_code : ℕ
  pub last_fault_ssw : ℕ
  pub crp : ℕ
  pub srp : ℕ
  pub mmusr : ℕ
  pub tc : ℕ
  pub tt0 : ℕ
  pub tt1 : ℕ
  pub last_descriptor_address : ℕ
  pub page_mask : ℕ
  pub enabled : Bool
  pub sre : Bool
  pub initial_shift : ℕ
  pub tia : ℕ
  pub tib : ℕ
  pub tic : ℕ
  pub tid : ℕ
  pub tt_enabled : Bool
  -- 4096 entries each.
  pub atc : List AtcEntry
  pub atc_desc_addr : List ℕ
  -- How often `OnFlush` was called.
  pub flushes : ℕ

-- `x & ~mask` of 32-bit numbers.
abbrev pub clear_bits : ℕ → ℕ → ℕ
clear_bits x mask = bit_and x (0xffffffff - mask)

unfoldable pub set_tc : ℕ → Mmu → Mmu
set_tc value m = record m {
  tc = value;
  enabled = has value 0x80000000;
  sre = has value 0x02000000;
  page_mask = 2 ^ bit_and (value / 2 ^ 20) 0xf - 1;
  initial_shift = bit_and (value / 2 ^ 16) 0xf;
  tia = bit_and (value / 2 ^ 12) 0xf;
  tib = bit_and (value / 2 ^ 8) 0xf;
  tic = bit_and (value / 2 ^ 4) 0xf;
  tid = bit_and value 0xf;
}

unfoldable pub set_tt0 : ℕ → Mmu → Mmu
set_tt0 value m = record m { tt0 = value; tt_enabled = has value 0x8000 || has m.tt1 0x8000 }

unfoldable pub set_tt1 : ℕ → Mmu → Mmu
set_tt1 value m = record m { tt1 = value; tt_enabled = has m.tt0 0x8000 || has value 0x8000 }

unfoldable pub reset : Mmu → Mmu
unfolding set_tc set_tt0 set_tt1
reset m =
    let cleared = set_tt1 0 (set_tt0 0 (set_tc 0 (record m { crp = 0; srp = 0 }))) in
    record cleared {
      mmusr = 0;
      last_descriptor_address = 0;
      atc = replicate 4096 no_entry;
      atc_desc_addr = replicate 4096 0;
    }

unfoldable pub make_atc_key : ℕ → ℕ → Mmu → ℕ
make_atc_key logical fc m = bit_or (bit_and fc 7 * 2 ^ 32) (clear_bits logical m.page_mask)

unfoldable pub make_atc_index : ℕ → ℕ
make_atc_index key =
    let addr = bit_and key 0xffffffff in
    let fc = key / 2 ^ 32 in
    bit_and
      (bit_xor (bit_xor (bit_xor (addr / 2 ^ 12) (addr / 2 ^ 18)) (addr / 2 ^ 24))
        (fc * 0x9e3779b9 % 2 ^ 32))
      0xfff

unfoldable pub build_ssw : ℕ → Bool → ℕ
build_ssw fc is_read =
    let ssw = bit_or (bit_and fc 7) 0x0100 in if is_read then bit_or ssw 0x0040 else ssw

-- The enable bit, the address, the function code and the direction match a transparent translation
-- register.
unfoldable pub is_transparent : ℕ → ℕ → ℕ → Bool → Bool
is_transparent address fc tt is_write =
    let keep = 0xff - tt / 2 ^ 16 % 2 ^ 8 in
    let fc_keep = 7 - bit_and tt 7 in
    has tt 0x8000
    && (bit_and (address / 2 ^ 24 % 2 ^ 8) keep == bit_and (tt / 2 ^ 24 % 2 ^ 8) keep)
    && (bit_and (bit_and fc fc_keep) 7 == bit_and (bit_and (tt / 2 ^ 4) 7) fc_keep)
    && (has tt 0x0100 || (if is_write then not (has tt 0x0200) else has tt 0x0200))

unfoldable pub cache_in_atc : ℕ → ℕ → ℕ → Bool → Bool → Bool → ℕ → Mmu → Mmu
cache_in_atc logical fc phys_page write_protected cache_inhibit modified desc_addr m =
    let key = make_atc_key logical fc m in
    let idx = make_atc_index key in
    let f0 = (if write_protected then 0x01 else 0) in
    let f1 = (if modified then bit_or f0 0x02 else f0) in
    let f2 = (if cache_inhibit then bit_or f1 0x04 else f1) in
    record m {
      atc =
          set m.atc idx
            (record { tag = key; physical_page = phys_page; flags = f2; entry_fc = fc });
      atc_desc_addr = set m.atc_desc_addr idx desc_addr;
    }
