-- ===== src/Cpu/OnBus.antt =====
-- The memory of Em68030/Core/Memory.cpp as the board's memory, and a region of RAM in it as the RAM of
-- the CPU's stack.
use em68030_win_ui3cpp.Common.{ℕ}
use em68030_win_ui3cpp.Mmu.Walk.{Reading, Machine, Access}
use em68030_win_ui3cpp.Memory.Store.{Store}
use em68030_win_ui3cpp.Memory.Access.{Devices, read, write}
use em68030_win_ui3cpp.Cpu.Access.{Board}
use em68030_win_ui3cpp.Cpu.Ram.{Ram}
use em68030_win_ui3cpp.Memory.Holding.{
  HoldsRegion, read-HoldsRegion, write-HoldsRegion, length-HoldsRegion,
}

-- The bus, with any behaviour of a translation that C++ leaves undefined.
abbrev pub bus_board :
    {World : Type 0}
    → Devices World
    → (Access → Machine (Store World) → Reading (Machine (Store World)))
    → Board (Store World)
bus_board devices undefined = record {
  read = λ z a b. read devices z a b;
  write = λ z a v b. write devices z a v b;
  undefined = undefined;
}

module _ {World : Type 0} (devices : Devices World) (i base size : ℕ) where
  -- The region, as the stack's RAM.
  abbrev pub bus_ram :
      (undefined : Access → Machine (Store World) → Reading (Machine (Store World)))
      → Ram (bus_board devices undefined) base size
  bus_ram undefined = record {
    Holds = HoldsRegion i base size;
    length-Holds = length-HoldsRegion devices i base size;
    read-Holds = read-HoldsRegion devices i base size;
    write-Holds = write-HoldsRegion devices i base size;
  }
