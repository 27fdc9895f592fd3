-- ===== src/Cpu/Samples.antt =====
-- A memory bus with 64 bytes of RAM and a CPU on it, which the tests run.
use em68030_win_ui3cpp.Common.{ℕ, refl, arith, true, false, List, [], ◌∷◌, none, some}
use em68030_win_ui3cpp.Mmu.State.{Mmu, clear_bus_error}
use em68030_win_ui3cpp.Memory.Store.{
  Store, RegionType, region_at, empty_memory, add_region, find_device,
}
use em68030_win_ui3cpp.Memory.Access.{Devices}
use em68030_win_ui3cpp.Memory.Invariant.{empty_memory-IsConsistent, add_region-IsConsistent}
use em68030_win_ui3cpp.Memory.Regions.{none_in_empty}
use em68030_win_ui3cpp.Cpu.State.{Mc68030, PageCache, set_supervisor_mode}
use em68030_win_ui3cpp.Cpu.Access.{Board}
use em68030_win_ui3cpp.Cpu.Exceptions.{enter_stack}
use em68030_win_ui3cpp.Cpu.Stacks.{entered}
use em68030_win_ui3cpp.Cpu.Ram.{Ram}
use em68030_win_ui3cpp.Cpu.Frames.{OnStack}
use em68030_win_ui3cpp.Cpu.OnBus.{bus_board, bus_ram}
use em68030_win_ui3cpp.Memory.Holding.{HoldsRegion}
use em68030_win_ui3cpp.Memory.Poking.{Bytes}

abbrev pub no_devices : Devices ℕ
no_devices = record {
  device_read = λ z d a s. record { value = 0; after = s };
  device_write = λ z d a v s. s;
}

abbrev pub store : Store ℕ
store = add_region 0 64 RegionType.ram (empty_memory 0)

abbrev pub zeros : List ℕ
zeros = (region_at store.regions 0).bytes

-- A translation that C++ leaves undefined gives 0.
abbrev pub board : Board (Store ℕ)
board = bus_board no_devices (λ a m. record { value = 0; after = m })

abbrev pub mmu_off : Mmu
mmu_off = record {
  last_fault_address = 0;
  last_fault_is_write = false;
  last_fault_function_code = 0;
  last_fault_ssw = 0;
  crp = 0;
  srp = 0;
  mmusr = 0;
  tc = 0;
  tt0 = 0;
  tt1 = 0;
  last_descriptor_address = 0;
  page_mask = 0;
  enabled = false;
  sre = false;
  initial_shift = 0;
  tia = 0;
  tib = 0;
  tic = 0;
  tid = 0;
  tt_enabled = false;
  atc = [];
  atc_desc_addr = [];
  flushes = 0;
}

abbrev no_page : PageCache
no_page = record { va = 0; pa = 0; mask = 0; valid = false }

abbrev pub eight : ℕ → List ℕ
eight x = x ∷ 0 ∷ 0 ∷ 0 ∷ 0 ∷ 0 ∷ 0 ∷ 0 ∷ []

-- A user's program at 0x1000, with the supervisor's stack at 64 and a request of level 5.
abbrev pub user_state : Mc68030 (Store ℕ)
user_state = record {
  d = eight 54;
  a = 0 ∷ 0 ∷ 0 ∷ 0 ∷ 0 ∷ 0 ∷ 0 ∷ [];
  a7 = 0x2000;
  pc = 0x1000;
  sr = 0x0013;
  ssp = 64;
  usp = 0;
  control = record { vbr = 0; cacr = 0; caar = 0; sfc = 0; dfc = 0 };
  halted = false;
  stopped = false;
  stop_reason = "";
  cycle_count = 0;
  instruction_count = 0;
  function_code_override = none;
  trap_handled = false;
  snapshot = record {
    last_pc = 0x1000;
    a = 0 ∷ 0 ∷ 0 ∷ 0 ∷ 0 ∷ 0 ∷ 0 ∷ [];
    a7 = 0x2000;
    d = eight 54;
    sr = 0x0013;
    needed = false;
  };
  processing_bus_error = false;
  pages = record { fetch = no_page; read = no_page };
  irq = record { pending_ipl = 5; pending_vector = some 64; interrupt_suppress = 0 };
  tick_divider = 0;
  shadow_stack = [];
  shadow_stack_enabled = true;
  rmw_address = 0;
  machine = record { mmu = mmu_off; bus = record { fault = clear_bus_error; mem = store } };
}

pub store-HoldsRegion : HoldsRegion 0 0 64 zeros user_state.machine.bus
unfolding empty_memory add_region find_device
store-HoldsRegion = record {
  consistent =
      add_region-IsConsistent 0 64 RegionType.ram (empty_memory 0) (empty_memory-IsConsistent 0)
        (omega arith) (λ j a h. none_in_empty a);
  content = refl;
  at_base = refl;
  of_size = refl;
  writable = refl;
  in_space = omega arith;
  uncovered = λ a low high. refl;
}

-- The same without a bus error.
pub store-Bytes : Bytes no_devices 0 0 64 zeros store
unfolding clear_bus_error
store-Bytes = store-HoldsRegion

abbrev pub stack_ram : Ram board 0 64
stack_ram = bus_ram no_devices 0 0 64 (λ a m. record { value = 0; after = m })

pub user_state-OnStack : OnStack stack_ram 64 [] (entered user_state)
unfolding enter_stack set_supervisor_mode clear_bus_error
user_state-OnStack = record {
  bytes = zeros;
  ready = record { holds = store-HoldsRegion; settled = refl; off = refl; no_page = refl };
  at_top = refl;
  laid = tt;
  within = omega arith;
  in_space = omega arith;
}
