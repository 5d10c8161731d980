-- ===== src/Toolchain/Disasm/Listing.antt =====
-- The listing of a function from the operands of its instructions, as the disassembler
-- (tagha_toolchain/disassembler/disassembler.c) should give it for what `tagha_instr_gen`
-- (tagha_toolchain/instr_gen.h) wrote.
use tagha.Base.{
  ℕ, zero, suc, ltb, if◌then◌else◌, ◌-◌, ◌+◌, ◌%◌, ◌^◌, Option, none, some, List, [], ◌∷◌, length,
}
use tagha.Words.Signed.{signed}
use tagha.Toolchain.Opcode.{InstrSet}
use tagha.Toolchain.InstrGen.{
  Args, Format, format, u8, u8_u8, u16, u8_u16, u8_u8_i16, i32, u8_i64, no_operands,
}
use tagha.Toolchain.InstrGen.Bytes.{encode}
use tagha.Toolchain.Disasm.Switch.{
  Line, plain_line, u8_line, reg_line, regs_line, call_line, u16_line, lra_line, named_line,
  load_line, store_line, jump_line, movi_line, Names, Case, plain_case, u8_case, reg_case,
  regs_case, call_case, u16_case, lra_case, named_case, load_case, store_case, jump_case, movi_case,
  default_case,
}
use tagha.Toolchain.Disasm.Body.{Disasm, listed, null_name, add_line}

-- How an instruction should be shown, by the operands that the generator writes for it. Those with one
-- byte have a register, but for the counts of cells and the element length; of those with a
-- register and 16 bits, `lra` has a number and the others a name; of those with two registers and
-- an offset, the stores show the first register with the offset.
unfoldable pub shape : Format → InstrSet → Case
shape no_operands op = plain_case
shape u8 InstrSet.alloc = u8_case
shape u8 InstrSet.redux = u8_case
shape u8 InstrSet.enter = u8_case
shape u8 InstrSet.leave = u8_case
shape u8 InstrSet.remit = u8_case
shape u8 InstrSet.setelen = u8_case
shape u8 op = reg_case
shape u8_u8 op = regs_case
shape u16 InstrSet.call = call_case
shape u16 op = u16_case
shape u8_u16 InstrSet.lra = lra_case
shape u8_u16 op = named_case
shape u8_u8_i16 InstrSet.st1 = store_case
shape u8_u8_i16 InstrSet.st2 = store_case
shape u8_u8_i16 InstrSet.st4 = store_case
shape u8_u8_i16 InstrSet.st8 = store_case
shape u8_u8_i16 op = load_case
shape i32 op = jump_case
shape u8_i64 op = movi_case

-- The name of the function whose number is one less; below 0 the number wraps around in `w` bits.
unfoldable pub func_before : Names → ℕ → ℕ → Option (List ℕ)
func_before names w zero = names.func_name (2 ^ w - 1)
func_before names w (suc k) = names.func_name k

-- The name for the index of an `ldvar` or `ldfn`: that of the variable with the index, and that of
-- the function before the index.
unfoldable pub name_at : Names → InstrSet → ℕ → Option (List ℕ)
unfolding func_before
name_at names InstrSet.ldvar k = names.var_name k
name_at names op k = func_before names 32 k

-- The target of a jump at offset `off`: `label` bytes from the next instruction, 5 bytes further, as
-- a signed number of 32 bits that is shown as one of 64 bits without a sign.
unfoldable pub jump_target : ℕ → ℕ → ℕ
jump_target off label =
    let target = (off + 5 + label) % 2 ^ 32 in
    if ltb target (2 ^ 31) then target else target + (2 ^ 64 - 2 ^ 32)

unfoldable pub named : Option (List ℕ) → (List ℕ → Line) → Option Line
named none line = none
named (some name) line = some (line name)

-- The line of an instruction whose opcode stands at offset `off`: the operands, cut to their widths.
-- There is none if a name is missing.
unfoldable pub line_of : Case → Names → InstrSet → Args → ℕ → Option Line
unfolding named func_before name_at jump_target
line_of plain_case names op args off = some (plain_line op off)
line_of u8_case names op args off = some (u8_line op (args.oper1 % 256) off (off + 1))
line_of reg_case names op args off = some (reg_line op (args.oper1 % 256) off (off + 1))
line_of regs_case names op args off =
    some (regs_line op (args.oper1 % 256) (args.oper2 % 256) off (off + 2))
line_of call_case names op args off =
    named (func_before names 64 (args.oper1 % 2 ^ 16)) (λ name. call_line op name off (off + 2))
line_of u16_case names op args off = some (u16_line op (args.oper1 % 2 ^ 16) off (off + 2))
line_of lra_case names op args off =
    some (lra_line op (args.oper1 % 256) (args.oper2 % 2 ^ 16) off (off + 3))
line_of named_case names op args off =
    named (name_at names op (args.oper2 % 2 ^ 16))
      (λ name. named_line op (args.oper1 % 256) name off (off + 3))
line_of load_case names op args off =
    let raw = args.oper3 % 2 ^ 16 in
    some (
      load_line op (args.oper1 % 256) (args.oper2 % 256) (ltb raw (2 ^ 15)) (signed 2 raw) off
        (off + 4))
line_of store_case names op args off =
    let raw = args.oper3 % 2 ^ 16 in
    some (
      store_line op (args.oper1 % 256) (ltb raw (2 ^ 15)) (signed 2 raw) (args.oper2 % 256) off
        (off + 4))
line_of jump_case names op args off =
    let label = args.oper1 % 2 ^ 32 in
    some (jump_line op (signed 4 label) (jump_target off label) off (off + 4))
line_of movi_case names op args off =
    some (movi_line op (args.oper1 % 256) (args.oper2 % 2 ^ 64) off (off + 9))
line_of default_case names op args off = none

-- The listing of a function from offset `off` on.
unfoldable pub listing : Names → List (InstrSet × Args) → ℕ → Disasm (List Line)
unfolding line_of add_line encode shape format
listing names [] off = listed []
listing names ((op, args) ∷ prog) off = elim (line_of (shape (format op) op) names op args off) [
  | none ↦ null_name
  | some l ↦ add_line (some l) (listing names prog (off + length (encode op args)))
]
