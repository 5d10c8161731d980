-- ===== src/Isa.antt =====
-- The instruction handlers of `_tagha_module_exec` (tagha/tagha.c), a module for each group of the
-- instruction set in tagha/tagha.h.
pub mod Stack
pub mod Move
pub mod Access
pub mod Arith
pub mod Compare
pub mod Float
pub mod Jump
pub mod Vector
pub mod VectorTest
pub mod VectorFloat
