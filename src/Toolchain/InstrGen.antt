-- ===== src/Toolchain/InstrGen.antt =====
-- `tagha_instr_gen` of tagha_toolchain/instr_gen.h: an instruction with its operands, as bytes that
-- are put behind those of a buffer. The buffers are Harbol's, and a parameter.
pub mod Bytes
pub mod Execute
use tagha.Base.{ℕ, ◌+◌, ◌%◌, ◌^◌, Option, none, some, if◌then◌else◌, leb}
use tagha.Toolchain.Opcode.{InstrSet, opcode}
use tagha.Toolchain.Buffer.{BufApi}

-- The cases of the switch, by their operands.
pub data Format : Type 0 where
  u8 : Format
  u8_u8 : Format
  u16 : Format
  u8_u16 : Format
  u8_u8_i16 : Format
  i32 : Format
  u8_i64 : Format
  no_operands : Format

-- The case labels of the switch.
unfoldable pub format : InstrSet → Format
format InstrSet.halt = no_operands
format InstrSet.nop = no_operands
format InstrSet.alloc = u8
format InstrSet.redux = u8
format InstrSet.movi = u8_i64
format InstrSet.mov = u8_u8
format InstrSet.lra = u8_u16
format InstrSet.lea = u8_u8_i16
format InstrSet.ldvar = u8_u16
format InstrSet.ldfn = u8_u16
format InstrSet.ld1 = u8_u8_i16
format InstrSet.ld2 = u8_u8_i16
format InstrSet.ld4 = u8_u8_i16
format InstrSet.ld8 = u8_u8_i16
format InstrSet.ldu1 = u8_u8_i16
format InstrSet.ldu2 = u8_u8_i16
format InstrSet.ldu4 = u8_u8_i16
format InstrSet.st1 = u8_u8_i16
format InstrSet.st2 = u8_u8_i16
format InstrSet.st4 = u8_u8_i16
format InstrSet.st8 = u8_u8_i16
format InstrSet.add = u8_u8
format InstrSet.sub = u8_u8
format InstrSet.mul = u8_u8
format InstrSet.idiv = u8_u8
format InstrSet.mod_ = u8_u8
format InstrSet.neg = u8
format InstrSet.fadd = u8_u8
format InstrSet.fsub = u8_u8
format InstrSet.fmul = u8_u8
format InstrSet.fdiv = u8_u8
format InstrSet.fneg = u8
format InstrSet.and_ = u8_u8
format InstrSet.or_ = u8_u8
format InstrSet.xor_ = u8_u8
format InstrSet.sll = u8_u8
format InstrSet.srl = u8_u8
format InstrSet.sra = u8_u8
format InstrSet.not_ = u8
format InstrSet.ilt = u8_u8
format InstrSet.ile = u8_u8
format InstrSet.ult = u8_u8
format InstrSet.ule = u8_u8
format InstrSet.cmp = u8_u8
format InstrSet.flt = u8_u8
format InstrSet.fle = u8_u8
format InstrSet.setc = u8
format InstrSet.f32tof64 = u8
format InstrSet.f64tof32 = u8
format InstrSet.itof64 = u8
format InstrSet.itof32 = u8
format InstrSet.f64toi = u8
format InstrSet.f32toi = u8
format InstrSet.jmp = i32
format InstrSet.jz = i32
format InstrSet.jnz = i32
format InstrSet.pushlr = no_operands
format InstrSet.poplr = no_operands
format InstrSet.call = u16
format InstrSet.callr = u8
format InstrSet.ret = no_operands
format InstrSet.setvlen = u16
format InstrSet.setelen = u8
format InstrSet.vmov = u8_u8
format InstrSet.vadd = u8_u8
format InstrSet.vsub = u8_u8
format InstrSet.vmul = u8_u8
format InstrSet.vdiv = u8_u8
format InstrSet.vmod = u8_u8
format InstrSet.vneg = u8
format InstrSet.vfadd = u8_u8
format InstrSet.vfsub = u8_u8
format InstrSet.vfmul = u8_u8
format InstrSet.vfdiv = u8_u8
format InstrSet.vfneg = u8
format InstrSet.vand = u8_u8
format InstrSet.vor = u8_u8
format InstrSet.vxor = u8_u8
format InstrSet.vsll = u8_u8
format InstrSet.vsrl = u8_u8
format InstrSet.vsra = u8_u8
format InstrSet.vnot = u8
format InstrSet.vcmp = u8_u8
format InstrSet.vilt = u8_u8
format InstrSet.vile = u8_u8
format InstrSet.vult = u8_u8
format InstrSet.vule = u8_u8
format InstrSet.vflt = u8_u8
format InstrSet.vfle = u8_u8
format InstrSet.restore = no_operands
format InstrSet.leave = u8
format InstrSet.remit = u8
format InstrSet.enter = u8
format InstrSet.max_ops = no_operands

-- The arguments after the opcode, as the two's complement bits of what `va_arg` reads.
pub record Args : Type 0 where
  pub oper1 : ℕ
  pub oper2 : ℕ
  pub oper3 : ℕ

module _ {B : Type 0} (api : BufApi B) where
  -- `if( tbc != NULL ) { ... }`
  unfoldable pub with_buffer : Option B → (B → B) → Option B
  with_buffer none insert = none
  with_buffer (some tbc) insert = some (insert tbc)

  -- The body of a case: the count of bytes after it, and the buffer.
  unfoldable pub gen_operands : Format → Args → ℕ → Option B → ℕ × Option B
  unfolding with_buffer
  gen_operands u8 args bytes tbc = (bytes + 1, with_buffer tbc (λ b. api.insert_byte b args.oper1))
  gen_operands u8_u8 args bytes tbc =
      (bytes + 2, with_buffer tbc (λ b. api.insert_byte (api.insert_byte b args.oper1) args.oper2))
  gen_operands u16 args bytes tbc =
      (bytes + 2, with_buffer tbc (λ b. api.insert_int16 b (args.oper1 % 2 ^ 16)))
  gen_operands u8_u16 args bytes tbc =
      (bytes + 3, with_buffer tbc (λ b. api.insert_int16 (api.insert_byte b args.oper1) args.oper2))
  gen_operands u8_u8_i16 args bytes tbc = (
    bytes + 4,
    with_buffer tbc λ b.
        api.insert_int16 (api.insert_byte (api.insert_byte b args.oper1) args.oper2)
          (args.oper3 % 2 ^ 16),
  )
  gen_operands i32 args bytes tbc =
      (bytes + 4, with_buffer tbc (λ b. api.insert_int32 b (args.oper1 % 2 ^ 32)))
  gen_operands u8_i64 args bytes tbc =
      (bytes + 9, with_buffer tbc (λ b. api.insert_int64 (api.insert_byte b args.oper1) args.oper2))
  gen_operands no_operands args bytes tbc = (bytes, tbc)

  -- tagha_instr_gen: its result, and the buffer or NULL after it
  unfoldable pub instr_gen : Option B → InstrSet → Args → ℕ × Option B
  unfolding gen_operands with_buffer format opcode
  instr_gen tbc op args =
      if leb (opcode InstrSet.max_ops) (opcode op)
      then (0, tbc)
      else gen_operands (format op) args 1 (with_buffer tbc (λ b. api.insert_byte b (opcode op)))
