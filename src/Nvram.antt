-- ===== src/Nvram.antt =====
-- The MK48T02 NVRAM and clock: Em68030/IO/Mk48t02Device.h and Mk48t02Device.cpp.
pub mod Device
pub mod Laws
pub mod Clock
mod Tests
