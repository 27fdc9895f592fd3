-- ===== src/VirtualNetwork.antt =====
-- The network that the emulator plays to its guest: Em68030/IO/VirtualNetworkHandler.h and
-- VirtualNetworkHandler.cpp.
pub mod Checksum
pub mod Handler
pub mod Replies
pub mod Summing
pub mod Serving
mod Tests
