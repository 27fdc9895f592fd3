-- ===== src/Loader.antt =====
-- Program files: Em68030/IO/FileLoader.h and FileLoader.cpp, as far as `LoadElf`.
pub mod Elf
pub mod Loading
pub mod Placing
mod Tests
