-- ===== src/Alu.antt =====
-- The arithmetic and logic unit: Em68030/Core/Alu.h and Alu.cpp.
pub mod Size
pub mod AddSub
pub mod Shifts
pub mod Rotates
pub mod Bcd
pub mod MulDiv
pub mod Flags
pub mod Carry
pub mod Rotating
pub mod Shifting
pub mod Decimal
pub mod Compare
pub mod LongMath
mod Tests
