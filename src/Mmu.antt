-- ===== src/Mmu.antt =====
-- The memory management unit: Em68030/Core/Mmu.h and Mmu.cpp, and the bus-error state of the CPU.
pub mod State
pub mod Walk
pub mod Translate
pub mod Flushing
pub mod Agreement
pub mod Caching
pub mod Probe
mod Tests
