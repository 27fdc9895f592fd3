-- ===== src/Pcc.antt =====
-- The MVME147's Peripheral Channel Controller: Em68030/IO/PccDevice.h and PccDevice.cpp.
pub mod Timer
pub mod Irq
pub mod State
pub mod Registers
pub mod Counting
pub mod Priority
pub mod Clock
pub mod History
pub mod Wiring
pub mod Dma
pub mod Acknowledge
mod Tests
