-- ===== src/Examples.antt =====
-- Runs of the model on concrete bytes, and the theorems about tagha/tagha.c at concrete inputs.
pub mod Fixtures
pub mod Bytes
pub mod Runs
pub mod Accesses
pub mod Tables
pub mod Hosts
pub mod Images
pub mod Buffers
pub mod Toolchain
pub mod Scripts
pub mod Assembly
