-- ===== src/Dispatch.antt =====
-- The dispatch table of `_tagha_module_exec` (tagha/tagha.c) in the order of TAGHA_INSTR_SET
-- (tagha/tagha.h), so that a handler stands at its opcode; a list for each group of the set.
use tagha.Base.{List, [], ◌∷◌, concat}
use tagha.State.{has_flag, item_at}
use tagha.Machine.{Handler, exec_halt}
use tagha.Isa.Jump.{
  Env, Nested, enter_lib, after_lib, call_native, call_extern, call_item, callr_item, exec_jmp,
  exec_jz, exec_jnz, exec_call, exec_callr,
}
use tagha.Isa.Stack.{
  exec_nop, exec_alloc, exec_redux, exec_pushlr, exec_poplr, exec_ret, exec_restore, exec_leave,
  exec_remit, exec_enter,
}
use tagha.Isa.Move.{
  exec_movi, exec_mov, exec_lra, exec_lea, exec_ldvar, exec_ldfn, exec_setc, exec_setvlen,
  exec_setelen,
}
use tagha.Isa.Access.{
  exec_ld1, exec_ld2, exec_ld4, exec_ld8, exec_ldu1, exec_ldu2, exec_ldu4, exec_st1, exec_st2,
  exec_st4, exec_st8,
}
use tagha.Isa.Arith.{
  exec_add, exec_sub, exec_mul, exec_idiv, exec_mod, exec_neg, exec__and, exec__or, exec__xor,
  exec_sll, exec_srl, exec_sra, exec__not,
}
use tagha.Isa.Float.{
  exec_fadd, exec_fsub, exec_fmul, exec_fdiv, exec_fneg, exec_flt, exec_fle, exec_f32tof64,
  exec_f64tof32, exec_itof64, exec_itof32, exec_f64toi, exec_f32toi,
}
use tagha.Isa.Compare.{exec_ilt, exec_ile, exec_ult, exec_ule, exec_cmp}
use tagha.Isa.Vector.{
  exec_vmov, exec_vadd, exec_vsub, exec_vmul, exec_vdiv, exec_vmod, exec_vneg, exec_vand, exec_vor,
  exec_vxor, exec_vsll, exec_vsrl, exec_vsra, exec_vnot,
}
use tagha.Isa.VectorFloat.{
  exec_vfadd, exec_vfsub, exec_vfmul, exec_vfdiv, exec_vfneg, exec_vflt, exec_vfle,
}
use tagha.Isa.VectorTest.{exec_vcmp, exec_vilt, exec_vile, exec_vult, exec_vule}

-- data movement
unfoldable pub data_ops : List Handler
unfolding exec_halt exec_nop exec_alloc exec_redux exec_movi exec_mov
data_ops = exec_halt ∷ exec_nop ∷ exec_alloc ∷ exec_redux ∷ exec_movi ∷ exec_mov ∷ []

-- memory
unfoldable pub memory_ops : List Handler
unfolding exec_lra exec_lea exec_ldvar exec_ldfn exec_ld1 exec_ld2 exec_ld4 exec_ld8 exec_ldu1
    exec_ldu2 exec_ldu4 exec_st1 exec_st2 exec_st4 exec_st8
memory_ops =
    exec_lra ∷ exec_lea ∷ exec_ldvar ∷ exec_ldfn ∷ exec_ld1 ∷ exec_ld2 ∷ exec_ld4 ∷ exec_ld8
    ∷ exec_ldu1 ∷ exec_ldu2 ∷ exec_ldu4 ∷ exec_st1 ∷ exec_st2 ∷ exec_st4 ∷ exec_st8 ∷ []

-- arithmetic
unfoldable pub arith_ops : Env → List Handler
unfolding exec_add exec_sub exec_mul exec_idiv exec_mod exec_neg exec_fadd exec_fsub exec_fmul
    exec_fdiv exec_fneg
arith_ops env =
    exec_add
    ∷ exec_sub
    ∷ exec_mul
    ∷ exec_idiv
    ∷ exec_mod
    ∷ exec_neg
    ∷ exec_fadd env.floats
    ∷ exec_fsub env.floats
    ∷ exec_fmul env.floats
    ∷ exec_fdiv env.floats
    ∷ exec_fneg env.floats
    ∷ []

-- bit-wise
unfoldable pub bit_ops : List Handler
unfolding exec__and exec__or exec__xor exec_sll exec_srl exec_sra exec__not
bit_ops = exec__and ∷ exec__or ∷ exec__xor ∷ exec_sll ∷ exec_srl ∷ exec_sra ∷ exec__not ∷ []

-- comparison
unfoldable pub test_ops : Env → List Handler
unfolding exec_ilt exec_ile exec_ult exec_ule exec_cmp exec_flt exec_fle exec_setc
test_ops env =
    exec_ilt
    ∷ exec_ile
    ∷ exec_ult
    ∷ exec_ule
    ∷ exec_cmp
    ∷ exec_flt env.floats
    ∷ exec_fle env.floats
    ∷ exec_setc
    ∷ []

-- float<=>int conversion
unfoldable pub convert_ops : Env → List Handler
unfolding exec_f32tof64 exec_f64tof32 exec_itof64 exec_itof32 exec_f64toi exec_f32toi
convert_ops env =
    exec_f32tof64 env.floats
    ∷ exec_f64tof32 env.floats
    ∷ exec_itof64 env.floats
    ∷ exec_itof32 env.floats
    ∷ exec_f64toi env.floats
    ∷ exec_f32toi env.floats
    ∷ []

-- control flow
unfoldable pub jump_ops : List Handler
unfolding exec_jmp exec_jz exec_jnz
jump_ops = exec_jmp ∷ exec_jz ∷ exec_jnz ∷ []

-- function
unfoldable pub function_ops : Env → Nested → List Handler
unfolding exec_pushlr exec_poplr exec_call exec_callr exec_ret has_flag item_at enter_lib after_lib
    call_native call_extern call_item callr_item
function_ops env nested =
    exec_pushlr ∷ exec_poplr ∷ exec_call env nested ∷ exec_callr env nested ∷ exec_ret ∷ []

-- vector extension: set-up and moves
unfoldable pub vector_ops : List Handler
unfolding exec_setvlen exec_setelen exec_vmov
vector_ops = exec_setvlen ∷ exec_setelen ∷ exec_vmov ∷ []

-- vector extension: integers
unfoldable pub vector_arith_ops : List Handler
unfolding exec_vadd exec_vsub exec_vmul exec_vdiv exec_vmod exec_vneg
vector_arith_ops = exec_vadd ∷ exec_vsub ∷ exec_vmul ∷ exec_vdiv ∷ exec_vmod ∷ exec_vneg ∷ []

-- vector extension: floats
unfoldable pub vector_float_ops : Env → List Handler
unfolding exec_vfadd exec_vfsub exec_vfmul exec_vfdiv exec_vfneg
vector_float_ops env =
    exec_vfadd env.floats
    ∷ exec_vfsub env.floats
    ∷ exec_vfmul env.floats
    ∷ exec_vfdiv env.floats
    ∷ exec_vfneg env.floats
    ∷ []

-- vector extension: bits
unfoldable pub vector_bit_ops : List Handler
unfolding exec_vand exec_vor exec_vxor exec_vsll exec_vsrl exec_vsra exec_vnot
vector_bit_ops =
    exec_vand ∷ exec_vor ∷ exec_vxor ∷ exec_vsll ∷ exec_vsrl ∷ exec_vsra ∷ exec_vnot ∷ []

-- vector extension: comparisons
unfoldable pub vector_test_ops : Env → List Handler
unfolding exec_vcmp exec_vilt exec_vile exec_vult exec_vule exec_vflt exec_vfle
vector_test_ops env =
    exec_vcmp
    ∷ exec_vilt
    ∷ exec_vile
    ∷ exec_vult
    ∷ exec_vule
    ∷ exec_vflt env.floats
    ∷ exec_vfle env.floats
    ∷ []

-- super-instructions
unfoldable pub super_ops : List Handler
unfolding exec_restore exec_leave exec_remit exec_enter
super_ops = exec_restore ∷ exec_leave ∷ exec_remit ∷ exec_enter ∷ []

-- The whole set, group by group.
unfoldable pub op_groups : Env → Nested → List (List Handler)
unfolding data_ops memory_ops arith_ops bit_ops test_ops convert_ops jump_ops function_ops
    vector_ops vector_arith_ops vector_float_ops vector_bit_ops vector_test_ops super_ops
op_groups env nested =
    data_ops
    ∷ memory_ops
    ∷ arith_ops env
    ∷ bit_ops
    ∷ test_ops env
    ∷ convert_ops env
    ∷ jump_ops
    ∷ function_ops env nested
    ∷ vector_ops
    ∷ vector_arith_ops
    ∷ vector_float_ops env
    ∷ vector_bit_ops
    ∷ vector_test_ops env
    ∷ super_ops
    ∷ []

unfoldable pub dispatch : Env → Nested → List Handler
unfolding op_groups
dispatch env nested = concat (op_groups env nested)
