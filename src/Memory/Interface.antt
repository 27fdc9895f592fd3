-- ===== src/Memory/Interface.antt =====
-- The accesses of the memory that devices and the loader make, as an interface, and the bus behind it.
use em68030_win_ui3cpp.Common.{ℕ}
use em68030_win_ui3cpp.Common.Size.{Size}
use em68030_win_ui3cpp.Mmu.Walk.{Reading}
use em68030_win_ui3cpp.Memory.Store.{Store}
use em68030_win_ui3cpp.Memory.Access.{Devices}
use em68030_win_ui3cpp.Memory.Debug.{peek, poke}

-- `Memory::PeekByte` to `PokeLong`.
pub record Dma (Mem : Type 0) : Type 0 where
  pub peek : Size → ℕ → Mem → Reading Mem
  pub poke : Size → ℕ → ℕ → Mem → Mem

abbrev pub bus_dma : {World : Type 0} → Devices World → Dma (Store World)
bus_dma devices = record { peek = λ z a s. peek devices z a s; poke = λ z a v s. poke z a v s }
