-- ===== src/Toolchain.antt =====
-- The toolchain of Tagha: tagha_toolchain/instr_gen.h, tagha_toolchain/module_gen.h and the
-- disassembler.
pub mod Opcode
pub mod Buffer
pub mod InstrGen
pub mod ModuleGen
pub mod Disasm
pub mod Asm
