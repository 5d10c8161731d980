-- ===== src/Exec/FootprintTable.antt =====
-- One instruction of tagha/tagha.c leaves every cell that is out of its reach as it was, group by
-- group of the dispatch table.
use tagha.Base.{ℕ, arith, refl, All, ◌&◌}
use tagha.Words.{
  sext, lane_add, lane_sub, lane_mul, lane_div, lane_mod, lane_neg, lane_not, lane_and, lane_or,
  lane_xor, lane_sll, lane_srl, lane_sra,
}
use tagha.Mem.Laws.{load-lt}
use tagha.Machine.{Machine, imm, skip}
use tagha.Isa.Stack.{exec_enter, exec_alloc, exec_restore, exec_leave}
use tagha.Isa.Jump.{Env, exec_jz, exec_jnz}
use tagha.Dispatch.{
  data_ops, memory_ops, arith_ops, bit_ops, test_ops, convert_ops, jump_ops, vector_ops,
  vector_arith_ops, vector_float_ops, vector_bit_ops, vector_test_ops, super_ops,
}
use tagha.Exec.Footprint
use tagha.Exec.Footprint.{IsAway, SameCell, Spares}
use tagha.Exec.FootprintVector

module _ (x : ℕ) where
  pub IsAway-skip : (n : ℕ) (s : Machine) → IsAway x s → IsAway x (skip n s)
  unfolding skip
  IsAway-skip n s away = record {
    fits = away.fits;
    segment = away.segment;
    registers = away.registers;
    call_slot = away.call_slot;
    vec_len = away.vec_len;
    elem_len = away.elem_len;
  }

  exec_jz-Spares : Spares x exec_jz
  unfolding exec_jz
  exec_jz-Spares s away = ground arith

  exec_jnz-Spares : Spares x exec_jnz
  unfolding exec_jnz
  exec_jnz-Spares s away = ground arith

  enter-cell : Spares x exec_enter
  unfolding exec_enter exec_alloc
  enter-cell s away = ground (arith, Footprint.push_lr-cell x s away)

  restore-cell : Spares x exec_restore
  unfolding exec_restore
  restore-cell s away = ground arith

  leave-cell : Spares x exec_leave
  unfolding exec_leave
  leave-cell s away = ground arith

  pub data_ops-Spares : All (Spares x) data_ops
  unfolding data_ops
  data_ops-Spares =
      (λ s away. refl)
      & (λ s away. refl)
      & Footprint.exec_alloc-Spares x
      & (λ s away. refl)
      & Footprint.exec_movi-Spares x
      & Footprint.exec_mov-Spares x
      & tt

  pub memory_ops-Spares : All (Spares x) memory_ops
  unfolding memory_ops
  memory_ops-Spares =
      Footprint.exec_lra-Spares x
      & Footprint.exec_lea-Spares x
      & Footprint.exec_ldvar-Spares x
      & Footprint.exec_ldfn-Spares x
      & Footprint.exec_load-Spares x 1 (sext 1)
      & Footprint.exec_load-Spares x 2 (sext 2)
      & Footprint.exec_load-Spares x 4 (sext 4)
      & Footprint.exec_load-Spares x 8 (λ v. v)
      & Footprint.exec_load-Spares x 1 (λ v. v)
      & Footprint.exec_load-Spares x 2 (λ v. v)
      & Footprint.exec_load-Spares x 4 (λ v. v)
      & Footprint.exec_store-Spares x 0 (omega arith)
      & Footprint.exec_store-Spares x 1 (omega arith)
      & Footprint.exec_store-Spares x 3 (omega arith)
      & Footprint.exec_store-Spares x 7 (omega arith)
      & tt

  pub arith_ops-Spares : (env : Env) → All (Spares x) (arith_ops env)
  unfolding arith_ops
  arith_ops-Spares env =
      Footprint.exec_binary-Spares x (lane_add 8)
      & Footprint.exec_binary-Spares x (lane_sub 8)
      & Footprint.exec_binary-Spares x (lane_mul 8)
      & Footprint.exec_partial-Spares x (lane_div 8)
      & Footprint.exec_partial-Spares x (lane_mod 8)
      & Footprint.exec_unary-Spares x (lane_neg 8)
      & Footprint.exec_binary-Spares x env.floats.float64.fadd
      & Footprint.exec_binary-Spares x env.floats.float64.fsub
      & Footprint.exec_binary-Spares x env.floats.float64.fmul
      & Footprint.exec_binary-Spares x env.floats.float64.fdiv
      & Footprint.exec_unary-Spares x env.floats.float64.fneg
      & tt

  pub bit_ops-Spares : All (Spares x) bit_ops
  unfolding bit_ops
  bit_ops-Spares =
      Footprint.exec_binary-Spares x (lane_and 8)
      & Footprint.exec_binary-Spares x (lane_or 8)
      & Footprint.exec_binary-Spares x (lane_xor 8)
      & Footprint.exec_partial-Spares x (lane_sll 8)
      & Footprint.exec_partial-Spares x (lane_srl 8)
      & Footprint.exec_partial-Spares x (lane_sra 8)
      & Footprint.exec_unary-Spares x (lane_not 8)
      & tt

  pub test_ops-Spares : (env : Env) → All (Spares x) (test_ops env)
  unfolding test_ops
  test_ops-Spares env =
      (λ s away. refl)
      & (λ s away. refl)
      & (λ s away. refl)
      & (λ s away. refl)
      & (λ s away. refl)
      & (λ s away. refl)
      & (λ s away. refl)
      & Footprint.exec_setc-Spares x
      & tt

  pub convert_ops-Spares : (env : Env) → All (Spares x) (convert_ops env)
  unfolding convert_ops
  convert_ops-Spares env =
      (λ s away.
        Footprint.store_reg-cell x 8 (imm 1 s) _ s away (omega arith) (load-lt 1 s.mem s.ip))
      & (λ s away.
          Footprint.set_float32-cell x (imm 1 s) _ (skip 1 s) (IsAway-skip 1 s away)
            (load-lt 1 s.mem s.ip))
      & Footprint.exec_unary-Spares x env.floats.int_to_f64
      & (λ s away.
          Footprint.set_float32-cell x (imm 1 s) _ (skip 1 s) (IsAway-skip 1 s away)
            (load-lt 1 s.mem s.ip))
      & Footprint.exec_unary-Spares x env.floats.f64_to_int
      & (λ s away.
          Footprint.store_reg-cell x 8 (imm 1 s) _ s away (omega arith) (load-lt 1 s.mem s.ip))
      & tt

  pub jump_ops-Spares : All (Spares x) jump_ops
  unfolding jump_ops
  jump_ops-Spares = (λ s away. refl) & exec_jz-Spares & exec_jnz-Spares & tt

  pub vector_ops-Spares : All (Spares x) vector_ops
  unfolding vector_ops
  vector_ops-Spares = (λ s away. refl) & (λ s away. refl) & FootprintVector.exec_vmov-Spares x & tt

  pub vector_arith_ops-Spares : All (Spares x) vector_arith_ops
  unfolding vector_arith_ops
  vector_arith_ops-Spares =
      FootprintVector.exec_vec-Spares x lane_add
      & FootprintVector.exec_vec-Spares x lane_sub
      & FootprintVector.exec_vec-Spares x lane_mul
      & FootprintVector.exec_vec?-Spares x lane_div
      & FootprintVector.exec_vec?-Spares x lane_mod
      & FootprintVector.exec_vec_unary-Spares x lane_neg
      & tt

  pub vector_float_ops-Spares : (env : Env) → All (Spares x) (vector_float_ops env)
  unfolding vector_float_ops
  vector_float_ops-Spares env =
      FootprintVector.exec_vec_float-Spares x env.floats (λ t. t.fadd)
      & FootprintVector.exec_vec_float-Spares x env.floats (λ t. t.fsub)
      & FootprintVector.exec_vec_float-Spares x env.floats (λ t. t.fmul)
      & FootprintVector.exec_vec_float-Spares x env.floats (λ t. t.fdiv)
      & FootprintVector.exec_vfneg-Spares x env.floats
      & tt

  pub vector_bit_ops-Spares : All (Spares x) vector_bit_ops
  unfolding vector_bit_ops
  vector_bit_ops-Spares =
      FootprintVector.exec_vec-Spares x lane_and
      & FootprintVector.exec_vec-Spares x lane_or
      & FootprintVector.exec_vec-Spares x lane_xor
      & FootprintVector.exec_vec?-Spares x lane_sll
      & FootprintVector.exec_vec?-Spares x lane_srl
      & FootprintVector.exec_vec?-Spares x lane_sra
      & FootprintVector.exec_vec_unary-Spares x lane_not
      & tt

  pub vector_test_ops-Spares : (env : Env) → All (Spares x) (vector_test_ops env)
  unfolding vector_test_ops
  vector_test_ops-Spares env =
      (λ s away. refl)
      & (λ s away. refl)
      & (λ s away. refl)
      & (λ s away. refl)
      & (λ s away. refl)
      & (λ s away. refl)
      & (λ s away. refl)
      & tt

  pub super_ops-Spares : All (Spares x) super_ops
  unfolding super_ops
  super_ops-Spares = restore-cell & leave-cell & Footprint.exec_remit-Spares x & enter-cell & tt
