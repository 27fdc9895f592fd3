-- ===== src/Scc.antt =====
-- The Z8530 serial controller: Em68030/IO/Z8530Device.h and Z8530Device.cpp.
pub mod Device
pub mod Bus
pub mod Output
pub mod History
pub mod Console
mod Tests
