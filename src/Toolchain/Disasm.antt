-- ===== src/Toolchain/Disasm.antt =====
-- `tagha_disasm_module` of tagha_toolchain/disassembler/disassembler.c on a script that stands in
-- memory. The pieces of the listing are data: `harbol_string_add_format` belongs to Harbol.
pub mod Switch
pub mod Names
pub mod Body
pub mod Output
pub mod Ends
pub mod Cases
pub mod Listing
pub mod Encoded
pub mod RoundTrip
