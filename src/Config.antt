-- ===== src/Config.antt =====
-- config.h and config.cpp: the configuration, and the texts that are made from it.
pub mod Types
pub mod Address
pub mod Filename
pub mod Load
pub mod Repository
pub mod Convert
mod Tests
