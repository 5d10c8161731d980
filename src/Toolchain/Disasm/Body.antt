-- ===== src/Toolchain/Disasm/Body.antt =====
-- The loop of `tagha_disasm_module` (tagha_toolchain/disassembler/disassembler.c) over the bytecode of
-- a function. A round spends one unit of fuel.
use tagha.Base.{
  ℕ, zero, suc, ◌+◌, Option, none, some, List, [], ◌∷◌, not, ◌||◌, ◌==◌, ltb, if◌then◌else◌,
}
use tagha.Mem.{Mem, load}
use tagha.Toolchain.Opcode.{op_at}
use tagha.Toolchain.Disasm.Switch.{Line, Names, case_of, disasm_case}

-- How a listing ends: with its lines, at a NULL name that is dereferenced, or out of fuel.
pub data Disasm (A : Type 0) : Type 0 where
  listed : A → Disasm A
  null_name : Disasm A
  out_of_fuel : Disasm A

-- A line before the lines of the rest.
unfoldable pub add_line : Option Line → Disasm (List Line) → Disasm (List Line)
add_line none rest = rest
add_line (some l) (listed ls) = listed (l ∷ ls)
add_line (some l) null_name = null_name
add_line (some l) out_of_fuel = out_of_fuel

-- One round, with the rest of the loop as `again`; an unknown opcode goes to the default case.
unfoldable pub disasm_round : (ℕ → Disasm (List Line)) → Names → Mem → ℕ → ℕ → Disasm (List Line)
unfolding add_line disasm_case op_at case_of
disasm_round again names m offs pc = elim (op_at (load 1 m pc)) [
  | none ↦ again (pc + 1)
  | some op ↦ elim (disasm_case (case_of op) names m offs op (pc + 1)) [
    | none ↦ null_name
    | some (line, pc') ↦ add_line line (again pc')
  ]
]

-- `while( *pc.uint8 != 0 && pc.uint8<iter.uint8 )`
unfoldable pub disasm_body : ℕ → Names → Mem → ℕ → ℕ → ℕ → Disasm (List Line)
unfolding disasm_round
disasm_body zero names m offs iter pc = out_of_fuel
disasm_body (suc f) names m offs iter pc =
    let round = disasm_round (disasm_body f names m offs iter) names m offs pc in
    if (load 1 m pc == 0) || not (ltb pc iter) then listed [] else round
