-- ===== src/Toolchain/Disasm/Cases.antt =====
-- The case labels of the disassembler (tagha_toolchain/disassembler/disassembler.c) against those of
-- `tagha_instr_gen` (tagha_toolchain/instr_gen.h).
use tagha.Base.{◌≡◌, ◌≢◌, refl}
use tagha.Toolchain.Opcode.{InstrSet}
use tagha.Toolchain.InstrGen.{
  Format, u8, u8_u8, u16, u8_u16, u8_u8_i16, i32, u8_i64, no_operands, format,
}
use tagha.Toolchain.Disasm.Switch.{
  Case, case_of, plain_case, u8_case, reg_case, regs_case, call_case, u16_case, lra_case,
  named_case, load_case, store_case, jump_case, movi_case, default_case,
}

-- The operands that a case of the disassembler expects.
unfoldable pub case_format : Case → Format
case_format plain_case = no_operands
case_format u8_case = u8
case_format reg_case = u8
case_format regs_case = u8_u8
case_format call_case = u16
case_format u16_case = u16
case_format lra_case = u8_u16
case_format named_case = u8_u16
case_format load_case = u8_u8_i16
case_format store_case = u8_u8_i16
case_format jump_case = i32
case_format movi_case = u8_i64
case_format default_case = no_operands

-- The generator and the disassembler agree on the operands of every instruction.
pub format-case_of : (op : InstrSet) → format op ≡ case_format (case_of op)
unfolding format case_format case_of
format-case_of InstrSet.halt = refl
format-case_of op = refl

pub case_of-real : (op : InstrSet) → op ≢ InstrSet.max_ops → case_of op ≢ default_case
unfolding case_of
case_of-real InstrSet.max_ops h e = h refl
case_of-real op h e = cc
