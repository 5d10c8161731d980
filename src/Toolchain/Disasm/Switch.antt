-- ===== src/Toolchain/Disasm/Switch.antt =====
-- The switch of `tagha_disasm_module` (tagha_toolchain/disassembler/disassembler.c): its case labels,
-- and what each case reads and lists. A line stands for a call of `harbol_string_add_format`.
use tagha.Base.{ℕ, ◌+◌, ◌-◌, ◌%◌, ◌^◌, Option, none, some, List, Bool, true, false}
use tagha.Words.{sext}
use tagha.Words.Signed.{ℤ, pos, negsuc, signed}
use tagha.Mem.{Mem, load}
use tagha.Toolchain.Opcode.{InstrSet}

-- A line of the listing of a function: the instruction, its operands, and the offsets of its first
-- and of its last byte, counted from the start of the function.
pub data Line : Type 0 where
  plain_line : InstrSet → ℕ → Line
  u8_line : InstrSet → ℕ → ℕ → ℕ → Line
  reg_line : InstrSet → ℕ → ℕ → ℕ → Line
  regs_line : InstrSet → ℕ → ℕ → ℕ → ℕ → Line
  call_line : InstrSet → List ℕ → ℕ → ℕ → Line
  u16_line : InstrSet → ℕ → ℕ → ℕ → Line
  lra_line : InstrSet → ℕ → ℕ → ℕ → ℕ → Line
  named_line : InstrSet → ℕ → List ℕ → ℕ → ℕ → Line
  load_line : InstrSet → ℕ → ℕ → Bool → ℤ → ℕ → ℕ → Line
  store_line : InstrSet → ℕ → Bool → ℤ → ℕ → ℕ → ℕ → Line
  jump_line : InstrSet → ℤ → ℕ → ℕ → ℕ → Line
  movi_line : InstrSet → ℕ → ℕ → ℕ → ℕ → Line

-- The cases of the switch.
pub data Case : Type 0 where
  plain_case : Case
  u8_case : Case
  reg_case : Case
  regs_case : Case
  call_case : Case
  u16_case : Case
  lra_case : Case
  named_case : Case
  load_case : Case
  store_case : Case
  jump_case : Case
  movi_case : Case
  default_case : Case

-- The case labels of the switch.
unfoldable pub case_of : InstrSet → Case
case_of InstrSet.halt = plain_case
case_of InstrSet.nop = plain_case
case_of InstrSet.alloc = u8_case
case_of InstrSet.redux = u8_case
case_of InstrSet.movi = movi_case
case_of InstrSet.mov = regs_case
case_of InstrSet.lra = lra_case
case_of InstrSet.lea = load_case
case_of InstrSet.ldvar = named_case
case_of InstrSet.ldfn = named_case
case_of InstrSet.ld1 = load_case
case_of InstrSet.ld2 = load_case
case_of InstrSet.ld4 = load_case
case_of InstrSet.ld8 = load_case
case_of InstrSet.ldu1 = load_case
case_of InstrSet.ldu2 = load_case
case_of InstrSet.ldu4 = load_case
case_of InstrSet.st1 = store_case
case_of InstrSet.st2 = store_case
case_of InstrSet.st4 = store_case
case_of InstrSet.st8 = store_case
case_of InstrSet.add = regs_case
case_of InstrSet.sub = regs_case
case_of InstrSet.mul = regs_case
case_of InstrSet.idiv = regs_case
case_of InstrSet.mod_ = regs_case
case_of InstrSet.neg = reg_case
case_of InstrSet.fadd = regs_case
case_of InstrSet.fsub = regs_case
case_of InstrSet.fmul = regs_case
case_of InstrSet.fdiv = regs_case
case_of InstrSet.fneg = reg_case
case_of InstrSet.and_ = regs_case
case_of InstrSet.or_ = regs_case
case_of InstrSet.xor_ = regs_case
case_of InstrSet.sll = regs_case
case_of InstrSet.srl = regs_case
case_of InstrSet.sra = regs_case
case_of InstrSet.not_ = reg_case
case_of InstrSet.ilt = regs_case
case_of InstrSet.ile = regs_case
case_of InstrSet.ult = regs_case
case_of InstrSet.ule = regs_case
case_of InstrSet.cmp = regs_case
case_of InstrSet.flt = regs_case
case_of InstrSet.fle = regs_case
case_of InstrSet.setc = reg_case
case_of InstrSet.f32tof64 = reg_case
case_of InstrSet.f64tof32 = reg_case
case_of InstrSet.itof64 = reg_case
case_of InstrSet.itof32 = reg_case
case_of InstrSet.f64toi = reg_case
case_of InstrSet.f32toi = reg_case
case_of InstrSet.jmp = jump_case
case_of InstrSet.jz = jump_case
case_of InstrSet.jnz = jump_case
case_of InstrSet.pushlr = plain_case
case_of InstrSet.poplr = plain_case
case_of InstrSet.call = call_case
case_of InstrSet.callr = reg_case
case_of InstrSet.ret = plain_case
case_of InstrSet.setvlen = u16_case
case_of InstrSet.setelen = u8_case
case_of InstrSet.vmov = regs_case
case_of InstrSet.vadd = regs_case
case_of InstrSet.vsub = regs_case
case_of InstrSet.vmul = regs_case
case_of InstrSet.vdiv = regs_case
case_of InstrSet.vmod = regs_case
case_of InstrSet.vneg = reg_case
case_of InstrSet.vfadd = regs_case
case_of InstrSet.vfsub = regs_case
case_of InstrSet.vfmul = regs_case
case_of InstrSet.vfdiv = regs_case
case_of InstrSet.vfneg = reg_case
case_of InstrSet.vand = regs_case
case_of InstrSet.vor = regs_case
case_of InstrSet.vxor = regs_case
case_of InstrSet.vsll = regs_case
case_of InstrSet.vsrl = regs_case
case_of InstrSet.vsra = regs_case
case_of InstrSet.vnot = reg_case
case_of InstrSet.vcmp = regs_case
case_of InstrSet.vilt = regs_case
case_of InstrSet.vile = regs_case
case_of InstrSet.vult = regs_case
case_of InstrSet.vule = regs_case
case_of InstrSet.vflt = regs_case
case_of InstrSet.vfle = regs_case
case_of InstrSet.restore = plain_case
case_of InstrSet.leave = u8_case
case_of InstrSet.remit = u8_case
case_of InstrSet.enter = u8_case
case_of InstrSet.max_ops = default_case

-- `harbol_vector_get` on the names of the functions and on those of the variables: a name, or NULL.
pub record Names : Type 0 where
  pub func_name : ℕ → Option (List ℕ)
  pub var_name : ℕ → Option (List ℕ)

-- `!neg`, where the sign is printed
abbrev pub shows_plus : ℤ → Bool
shows_plus (pos n) = true
shows_plus (negsuc n) = false

-- `( uintptr_t )(( int32_t )addr2 + label + 1)`
unfoldable pub label_addr : ℕ → ℕ → ℕ
unfolding sext
label_addr addr2 label = sext 4 ((addr2 + label + 1) % 2 ^ 32)

-- `index - 1` as an unsigned number of `w` bits
unfoldable pub before : ℕ → ℕ → ℕ
before w index = (index + 2 ^ w - 1) % 2 ^ w

-- `(opcode==ldvar) ? &var_names : &func_names`, with the index beside it
unfoldable pub label_name : Names → InstrSet → ℕ → Option (List ℕ)
unfolding before
label_name names InstrSet.ldvar label = names.var_name label
label_name names op label = names.func_name (before 32 label)

-- A line, and the place of the next opcode. NULL for a name is dereferenced: there is no line.
unfoldable pub with_name : Option (List ℕ) → (List ℕ → Line) → ℕ → Option (Option Line × ℕ)
with_name none line pc = none
with_name (some name) line pc = some (some (line name), pc)

-- What a case does, with `pc` behind the opcode and `offs` one behind the start of the function.
unfoldable pub disasm_case : Case → Names → Mem → ℕ → InstrSet → ℕ → Option (Option Line × ℕ)
unfolding label_addr before label_name with_name
disasm_case plain_case names m offs op pc = some (some (plain_line op (pc - offs)), pc)
disasm_case u8_case names m offs op pc =
    some (some (u8_line op (load 1 m pc) (pc - offs) (pc + 1 - offs)), pc + 1)
disasm_case reg_case names m offs op pc =
    some (some (reg_line op (load 1 m pc) (pc - offs) (pc + 1 - offs)), pc + 1)
disasm_case regs_case names m offs op pc =
    some (some (regs_line op (load 1 m pc) (load 1 m (pc + 1)) (pc - offs) (pc + 2 - offs)), pc + 2)
disasm_case call_case names m offs op pc =
    with_name (names.func_name (before 64 (load 2 m pc)))
      (λ name. call_line op name (pc - offs) (pc + 2 - offs)) (pc + 2)
disasm_case u16_case names m offs op pc =
    some (some (u16_line op (load 2 m pc) (pc - offs) (pc + 2 - offs)), pc + 2)
disasm_case lra_case names m offs op pc =
    some (some (lra_line op (load 1 m pc) (load 2 m (pc + 1)) (pc - offs) (pc + 3 - offs)), pc + 3)
disasm_case named_case names m offs op pc =
    with_name (label_name names op (load 2 m (pc + 1)))
      (λ name. named_line op (load 1 m pc) name (pc - offs) (pc + 3 - offs)) (pc + 3)
disasm_case load_case names m offs op pc =
    let offset = signed 2 (load 2 m (pc + 2)) in
    let line =
      load_line op (load 1 m pc) (load 1 m (pc + 1)) (shows_plus offset) offset (pc - offs)
        (pc + 4 - offs) in
    some (some line, pc + 4)
disasm_case store_case names m offs op pc =
    let offset = signed 2 (load 2 m (pc + 2)) in
    let line =
      store_line op (load 1 m pc) (shows_plus offset) offset (load 1 m (pc + 1)) (pc - offs)
        (pc + 4 - offs) in
    some (some line, pc + 4)
disasm_case jump_case names m offs op pc =
    let label = load 4 m pc in
    let line =
      jump_line op (signed 4 label) (label_addr (pc + 4 - offs) label) (pc - offs)
        (pc + 4 - offs) in
    some (some line, pc + 4)
disasm_case movi_case names m offs op pc =
    some (some (movi_line op (load 1 m pc) (load 8 m (pc + 1)) (pc - offs) (pc + 9 - offs)), pc + 9)
disasm_case default_case names m offs op pc = some (none, pc)
