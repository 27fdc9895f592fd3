-- ===== src/Mmu/Tests.antt =====
-- Runs of the MMU at concrete inputs.
use em68030_win_ui3cpp.Common.{
  ℕ, ◌≡◌, refl, arith, true, false, Option, none, some, ◌==◌, if◌then◌else◌, replicate,
}
use em68030_win_ui3cpp.Mmu.State.{Mmu, BusError, AtcEntry, no_entry, clear_bits, cache_in_atc}
use em68030_win_ui3cpp.Mmu.Walk.{Bus, Reading, Memory, Machine, Access, raise}
use em68030_win_ui3cpp.Mmu.Translate.{translate}
use em68030_win_ui3cpp.Mmu.Agreement.{load, Returns, Keeps, translate-Returns}
use em68030_win_ui3cpp.Mmu.Caching.{cache_in_atc-translate}
use em68030_win_ui3cpp.Mmu.Probe.{p_test, OnlyLooked, p_test-OnlyLooked}

-- A memory of longs, each at its own address.
abbrev Longs : Type 0
Longs = ℕ → ℕ

abbrev longs : Memory Longs
longs = record {
  read_long = λ addr b. record { value = b.mem addr; after = b };
  write_long = λ addr v b. record b { mem = λ x. if x == addr then v else b.mem x };
}

-- One table at 0x1000 whose entry 1 points at a table at 0x2000, whose entry 2 is a page at 0x7000.
abbrev tables : Longs
tables addr = if addr == 0x1004 then 0x200a else if addr == 0x2008 then 0x7009 else 0

abbrev no_fault : BusError
no_fault = record {
  pending = false;
  fault_address = 0;
  is_write = false;
  function_code = 0;
  ssw = 0;
}

abbrev machine : Machine Longs
machine = record {
  mmu = record {
    last_fault_address = 0;
    last_fault_is_write = false;
    last_fault_function_code = 0;
    last_fault_ssw = 0;
    crp = 0x2_0000_1000;
    srp = 0;
    mmusr = 0x55;
    tc = 0x80c0aa00;
    tt0 = 0;
    tt1 = 0;
    last_descriptor_address = 0;
    page_mask = 0xfff;
    enabled = true;
    sre = false;
    initial_shift = 0;
    tia = 10;
    tib = 10;
    tic = 0;
    tid = 0;
    tt_enabled = false;
    atc = replicate 4096 no_entry;
    atc_desc_addr = replicate 4096 0;
    flushes = 0;
  };
  bus = record { fault = no_fault; mem = tables };
}

abbrev value_of : {S : Type 0} → Option (Reading S) → ℕ
value_of none = 0
value_of (some r) = r.value

translate_run : value_of (translate longs (load 0x00402abc 5) machine) ≡ 0x7abc
unfolding translate em68030_win_ui3cpp.Mmu.Walk.table_walk em68030_win_ui3cpp.Mmu.Walk.walk
    em68030_win_ui3cpp.Mmu.Walk.walk_page em68030_win_ui3cpp.Mmu.Walk.fetch
    em68030_win_ui3cpp.Mmu.Walk.mark_used em68030_win_ui3cpp.Mmu.State.make_atc_key
    em68030_win_ui3cpp.Mmu.State.make_atc_index
translate_run = refl

translate-Returns_example :
    Returns (Keeps machine.mmu.mmusr) (translate longs (load 0x00402abc 5) machine)
translate-Returns_example = translate-Returns longs (load 0x00402abc 5) machine (omega arith)

abbrev store : Access
store = record { logical = 0x00402abc; write = true; fc = 5 }

cache_in_atc-translate_example :
    let t = record machine {
      mmu = cache_in_atc 0x00402000 5 0x7000 true false false 0x2008 machine.mmu;
    } in
    translate longs store t ≡ some (record { value = 0; after = raise store t })
cache_in_atc-translate_example =
    cache_in_atc-translate longs store 0x00402000 0x7000 true false false 0x2008 machine refl refl
      refl refl refl

p_test-OnlyLooked_example : OnlyLooked longs machine (p_test longs store 7 machine)
p_test-OnlyLooked_example = p_test-OnlyLooked longs store 7 machine (omega arith)
