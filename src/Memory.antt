-- ===== src/Memory.antt =====
-- The physical memory bus: Em68030/Core/Memory.h and Memory.cpp.
pub mod Store
pub mod Access
pub mod Debug
pub mod Interface
pub mod Plain
pub mod Regions
pub mod Invariant
pub mod Agreement
pub mod Refining
pub mod Keeping
pub mod History
pub mod Laws
pub mod Errors
pub mod Holding
pub mod Poking
mod Tests
