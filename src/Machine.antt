-- ===== src/Machine.antt =====
-- The local state of `_tagha_module_exec` (tagha/tagha.c), the operands that its handlers read, and
-- how a handler ends.
use tagha.Base.{ℕ, ◌+◌, ◌*◌, ◌/◌, ◌%◌, Option}
use tagha.Words.{add64}
use tagha.Mem.{Mem, load, store}
use tagha.State.{SymTable, Module, val_size}

-- The locals of `_tagha_module_exec`, the structure that `vm` points to, and the memory.
pub record Machine : Type 0 where
  pub vm : Module
  pub mem : Mem
  pub ip : ℕ
  pub vreg_osp : ℕ
  pub table_funcs : Option SymTable
  pub table_vars : Option SymTable
  pub lower_seg : ℕ
  pub mem_bnds_diff : ℕ

-- `next` is DISPATCH(), `halt` is a return from the function. `undefined`: the C program has no
-- defined behaviour here (a null dereference, a division by zero, an opcode beyond the table, a
-- shift by the width, an overlapping memcpy). `timeout`: a nested run is out of fuel.
pub data Outcome : Type 0 where
  next : Machine → Outcome
  halt : Machine → Outcome
  undefined : Outcome
  timeout : Outcome

-- How a whole run ends, with what the caller sees of it.
pub data Run : Type 0 where
  returned : Module → Mem → Run
  stuck : Run
  out_of_fuel : Run

abbrev pub Handler : Type 0
Handler = Machine → Outcome

-- The immediate of `n` bytes at the instruction pointer, and the pointer past it.
unfoldable pub imm : ℕ → Machine → ℕ
imm n s = load n s.mem s.ip

unfoldable pub skip : ℕ → Machine → Machine
skip n s = record s { ip = add64 s.ip n }

-- `rsp[r]` with `rsp` the operand stack pointer, read and written whole.
abbrev pub reg_addr : ℕ → Machine → ℕ
reg_addr r s = s.vreg_osp + val_size * r

unfoldable pub reg : ℕ → Machine → ℕ
reg r s = load 8 s.mem (reg_addr r s)

unfoldable pub set_reg : ℕ → ℕ → Machine → Machine
set_reg r v s = record s { mem = store 8 s.mem (reg_addr r s) v }

-- The two register numbers of a 16-bit operand.
abbrev pub dst_of : ℕ → ℕ
dst_of instr = instr % 256

abbrev pub src_of : ℕ → ℕ
src_of instr = instr / 256

-- exec_halt
unfoldable pub exec_halt : Handler
exec_halt s = halt (record s { vm = record (s.vm) { osp = s.vreg_osp } })

-- `vm->err = code; goto exec_halt;`
unfoldable pub throw : ℕ → Handler
unfolding exec_halt
throw code s = exec_halt (record s { vm = record (s.vm) { err = code } })
