-- ===== src/Lance.antt =====
-- The AM7990 LANCE Ethernet controller: Em68030/IO/LanceDevice.h and LanceDevice.cpp.
pub mod State
pub mod Rings
pub mod Device
pub mod Ring
pub mod Transmit
pub mod OnBus
pub mod Draining
pub mod Status
pub mod Reporting
pub mod History
pub mod Receiving
mod Tests
