-- ===== src/Uart.antt =====
-- The 16550A serial port: Em68030/IO/Uart16550Device.h and Uart16550Device.cpp.
pub mod Device
pub mod Laws
pub mod Latch
mod Tests
