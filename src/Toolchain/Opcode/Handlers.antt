-- ===== src/Toolchain/Opcode/Handlers.antt =====
-- The label of each instruction: in `_tagha_module_exec` (tagha/tagha.c) the member `op` of the
-- enumeration of tagha/tagha.h belongs to the label `exec_##op`.
use tagha.Base.{◌≡◌, ◌≢◌, refl, some, get_elem?}
use tagha.Dispatch.{dispatch}
use tagha.Toolchain.Opcode.{InstrSet, opcode}
use tagha.Machine.{Handler, exec_halt}
use tagha.Isa.Jump.{Env, Nested, exec_jmp, exec_jz, exec_jnz, exec_call, exec_callr}
use tagha.Isa.Stack.{
  exec_nop, exec_alloc, exec_redux, exec_pushlr, exec_poplr, exec_ret, exec_restore, exec_leave,
  exec_remit, exec_enter,
}
use tagha.Isa.Move.{
  exec_movi, exec_mov, exec_lra, exec_lea, exec_ldvar, exec_ldfn, exec_setc, exec_setvlen,
  exec_setelen,
}
use tagha.Isa.Access.{
  exec_ld1, exec_ld2, exec_ld4, exec_ld8, exec_ldu1, exec_ldu2, exec_ldu4, exec_st1, exec_st2,
  exec_st4, exec_st8,
}
use tagha.Isa.Arith.{
  exec_add, exec_sub, exec_mul, exec_idiv, exec_mod, exec_neg, exec__and, exec__or, exec__xor,
  exec_sll, exec_srl, exec_sra, exec__not,
}
use tagha.Isa.Float.{
  exec_fadd, exec_fsub, exec_fmul, exec_fdiv, exec_fneg, exec_flt, exec_fle, exec_f32tof64,
  exec_f64tof32, exec_itof64, exec_itof32, exec_f64toi, exec_f32toi,
}
use tagha.Isa.Compare.{exec_ilt, exec_ile, exec_ult, exec_ule, exec_cmp}
use tagha.Isa.Vector.{
  exec_vmov, exec_vadd, exec_vsub, exec_vmul, exec_vdiv, exec_vmod, exec_vneg, exec_vand, exec_vor,
  exec_vxor, exec_vsll, exec_vsrl, exec_vsra, exec_vnot,
}
use tagha.Isa.VectorFloat.{
  exec_vfadd, exec_vfsub, exec_vfmul, exec_vfdiv, exec_vfneg, exec_vflt, exec_vfle,
}
use tagha.Isa.VectorTest.{exec_vcmp, exec_vilt, exec_vile, exec_vult, exec_vule}

-- The handler that bears the name of the instruction. MaxOps has none; `exec_halt` stands in.
unfoldable pub handler_of : Env → Nested → InstrSet → Handler
unfolding exec_halt exec_nop exec_alloc exec_redux exec_movi exec_mov exec_lra exec_lea exec_ldvar
    exec_ldfn exec_ld1 exec_ld2 exec_ld4 exec_ld8 exec_ldu1 exec_ldu2 exec_ldu4 exec_st1 exec_st2
    exec_st4 exec_st8 exec_add exec_sub exec_mul exec_idiv exec_mod exec_neg exec_fadd exec_fsub
    exec_fmul exec_fdiv exec_fneg exec__and exec__or exec__xor exec_sll exec_srl exec_sra exec__not
    exec_ilt exec_ile exec_ult exec_ule exec_cmp exec_flt exec_fle exec_setc exec_f32tof64
    exec_f64tof32 exec_itof64 exec_itof32 exec_f64toi exec_f32toi exec_jmp exec_jz exec_jnz
    exec_pushlr exec_poplr exec_call exec_callr exec_ret exec_setvlen exec_setelen exec_vmov
    exec_vadd exec_vsub exec_vmul exec_vdiv exec_vmod exec_vneg exec_vfadd exec_vfsub exec_vfmul
    exec_vfdiv exec_vfneg exec_vand exec_vor exec_vxor exec_vsll exec_vsrl exec_vsra exec_vnot
    exec_vcmp exec_vilt exec_vile exec_vult exec_vule exec_vflt exec_vfle exec_restore exec_leave
    exec_remit exec_enter
handler_of env nested InstrSet.halt = exec_halt
handler_of env nested InstrSet.nop = exec_nop
handler_of env nested InstrSet.alloc = exec_alloc
handler_of env nested InstrSet.redux = exec_redux
handler_of env nested InstrSet.movi = exec_movi
handler_of env nested InstrSet.mov = exec_mov
handler_of env nested InstrSet.lra = exec_lra
handler_of env nested InstrSet.lea = exec_lea
handler_of env nested InstrSet.ldvar = exec_ldvar
handler_of env nested InstrSet.ldfn = exec_ldfn
handler_of env nested InstrSet.ld1 = exec_ld1
handler_of env nested InstrSet.ld2 = exec_ld2
handler_of env nested InstrSet.ld4 = exec_ld4
handler_of env nested InstrSet.ld8 = exec_ld8
handler_of env nested InstrSet.ldu1 = exec_ldu1
handler_of env nested InstrSet.ldu2 = exec_ldu2
handler_of env nested InstrSet.ldu4 = exec_ldu4
handler_of env nested InstrSet.st1 = exec_st1
handler_of env nested InstrSet.st2 = exec_st2
handler_of env nested InstrSet.st4 = exec_st4
handler_of env nested InstrSet.st8 = exec_st8
handler_of env nested InstrSet.add = exec_add
handler_of env nested InstrSet.sub = exec_sub
handler_of env nested InstrSet.mul = exec_mul
handler_of env nested InstrSet.idiv = exec_idiv
handler_of env nested InstrSet.mod_ = exec_mod
handler_of env nested InstrSet.neg = exec_neg
handler_of env nested InstrSet.fadd = exec_fadd env.floats
handler_of env nested InstrSet.fsub = exec_fsub env.floats
handler_of env nested InstrSet.fmul = exec_fmul env.floats
handler_of env nested InstrSet.fdiv = exec_fdiv env.floats
handler_of env nested InstrSet.fneg = exec_fneg env.floats
handler_of env nested InstrSet.and_ = exec__and
handler_of env nested InstrSet.or_ = exec__or
handler_of env nested InstrSet.xor_ = exec__xor
handler_of env nested InstrSet.sll = exec_sll
handler_of env nested InstrSet.srl = exec_srl
handler_of env nested InstrSet.sra = exec_sra
handler_of env nested InstrSet.not_ = exec__not
handler_of env nested InstrSet.ilt = exec_ilt
handler_of env nested InstrSet.ile = exec_ile
handler_of env nested InstrSet.ult = exec_ult
handler_of env nested InstrSet.ule = exec_ule
handler_of env nested InstrSet.cmp = exec_cmp
handler_of env nested InstrSet.flt = exec_flt env.floats
handler_of env nested InstrSet.fle = exec_fle env.floats
handler_of env nested InstrSet.setc = exec_setc
handler_of env nested InstrSet.f32tof64 = exec_f32tof64 env.floats
handler_of env nested InstrSet.f64tof32 = exec_f64tof32 env.floats
handler_of env nested InstrSet.itof64 = exec_itof64 env.floats
handler_of env nested InstrSet.itof32 = exec_itof32 env.floats
handler_of env nested InstrSet.f64toi = exec_f64toi env.floats
handler_of env nested InstrSet.f32toi = exec_f32toi env.floats
handler_of env nested InstrSet.jmp = exec_jmp
handler_of env nested InstrSet.jz = exec_jz
handler_of env nested InstrSet.jnz = exec_jnz
handler_of env nested InstrSet.pushlr = exec_pushlr
handler_of env nested InstrSet.poplr = exec_poplr
handler_of env nested InstrSet.call = exec_call env nested
handler_of env nested InstrSet.callr = exec_callr env nested
handler_of env nested InstrSet.ret = exec_ret
handler_of env nested InstrSet.setvlen = exec_setvlen
handler_of env nested InstrSet.setelen = exec_setelen
handler_of env nested InstrSet.vmov = exec_vmov
handler_of env nested InstrSet.vadd = exec_vadd
handler_of env nested InstrSet.vsub = exec_vsub
handler_of env nested InstrSet.vmul = exec_vmul
handler_of env nested InstrSet.vdiv = exec_vdiv
handler_of env nested InstrSet.vmod = exec_vmod
handler_of env nested InstrSet.vneg = exec_vneg
handler_of env nested InstrSet.vfadd = exec_vfadd env.floats
handler_of env nested InstrSet.vfsub = exec_vfsub env.floats
handler_of env nested InstrSet.vfmul = exec_vfmul env.floats
handler_of env nested InstrSet.vfdiv = exec_vfdiv env.floats
handler_of env nested InstrSet.vfneg = exec_vfneg env.floats
handler_of env nested InstrSet.vand = exec_vand
handler_of env nested InstrSet.vor = exec_vor
handler_of env nested InstrSet.vxor = exec_vxor
handler_of env nested InstrSet.vsll = exec_vsll
handler_of env nested InstrSet.vsrl = exec_vsrl
handler_of env nested InstrSet.vsra = exec_vsra
handler_of env nested InstrSet.vnot = exec_vnot
handler_of env nested InstrSet.vcmp = exec_vcmp
handler_of env nested InstrSet.vilt = exec_vilt
handler_of env nested InstrSet.vile = exec_vile
handler_of env nested InstrSet.vult = exec_vult
handler_of env nested InstrSet.vule = exec_vule
handler_of env nested InstrSet.vflt = exec_vflt env.floats
handler_of env nested InstrSet.vfle = exec_vfle env.floats
handler_of env nested InstrSet.restore = exec_restore
handler_of env nested InstrSet.leave = exec_leave
handler_of env nested InstrSet.remit = exec_remit
handler_of env nested InstrSet.enter = exec_enter
handler_of env nested InstrSet.max_ops = exec_halt

-- The dispatch table has at the number of an instruction the handler of its name.
pub dispatch-opcode :
    (env : Env) (nested : Nested) (op : InstrSet)
    → op ≢ InstrSet.max_ops
    → get_elem? (dispatch env nested) (opcode op) ≡ some (handler_of env nested op)
unfolding dispatch handler_of opcode
dispatch-opcode env nested InstrSet.max_ops h = absurd (h refl)
dispatch-opcode env nested op h = refl
