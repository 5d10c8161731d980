-- ===== src/Toolchain/Asm.antt =====
-- The second pass of the assembler (tagha_toolchain/assembler/assembler.c) over an instruction: its
-- operands, the checks on them, and the bytes that are generated.
pub mod Lexer
pub mod Operands
pub mod Directives
pub mod Emit
pub mod Jumps
pub mod Script
