-- ===== src/Cpu.antt =====
-- The CPU: Em68030/Core/MC68030.h and MC68030.cpp.
pub mod State
pub mod Access
pub mod Fetch
pub mod Exceptions
pub mod Execute
pub mod Addressing
pub mod Operands
pub mod Modifying
pub mod Parts
pub mod Keeping
pub mod Translating
pub mod Status
pub mod Stacks
pub mod Entering
pub mod Faults
pub mod Interrupts
pub mod Running
pub mod Conditions
pub mod Ram
pub mod Frames
pub mod Returning
pub mod Framing
pub mod Faulting
pub mod OnBus
pub mod Samples
mod Tests
