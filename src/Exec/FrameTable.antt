-- ===== src/Exec/FrameTable.antt =====
-- Every handler of the dispatch table but the calls (tagha/tagha.c) keeps the operand stack pointer
-- inside the operand stack, group by group.
use tagha.Base.{ℕ, ◌+◌, ◌^◌, ◌≤◌, ◌<◌, All, ◌&◌}
use tagha.Words.{sext, lane_div, lane_mod, lane_sll, lane_srl, lane_sra}
use tagha.Machine.{Handler}
use tagha.Isa.Stack.{push_lr, pop_lr}
use tagha.Isa.Jump.{Env}
use tagha.Dispatch.{
  data_ops, memory_ops, arith_ops, bit_ops, test_ops, convert_ops, jump_ops, vector_ops,
  vector_arith_ops, vector_float_ops, vector_bit_ops, vector_test_ops, super_ops,
}
use tagha.Exec.Framed
use tagha.Exec.Framed.{IsFramed}

module _ (base size : ℕ) (above : 2040 ≤ base) (below : base + size + 2040 < 2 ^ 64) where
  abbrev Keeps : Handler → Type 0
  Keeps = Framed.Keeps base size above below

  pub data_ops-Keeps : All Keeps data_ops
  unfolding data_ops
  data_ops-Keeps =
      (λ s h. h)
      & (λ s h. h)
      & Framed.exec_alloc-Keeps base size above below
      & Framed.exec_redux-Keeps base size above below
      & (λ s h. h)
      & (λ s h. h)
      & tt

  pub memory_ops-Keeps : All Keeps memory_ops
  unfolding memory_ops
  memory_ops-Keeps =
      (λ s h. h)
      & (λ s h. h)
      & Framed.exec_ldvar-Keeps base size above below
      & Framed.exec_ldfn-Keeps base size above below
      & Framed.exec_load-Keeps base size above below 1 (sext 1)
      & Framed.exec_load-Keeps base size above below 2 (sext 2)
      & Framed.exec_load-Keeps base size above below 4 (sext 4)
      & Framed.exec_load-Keeps base size above below 8 (λ v. v)
      & Framed.exec_load-Keeps base size above below 1 (λ v. v)
      & Framed.exec_load-Keeps base size above below 2 (λ v. v)
      & Framed.exec_load-Keeps base size above below 4 (λ v. v)
      & Framed.exec_store-Keeps base size above below 1
      & Framed.exec_store-Keeps base size above below 2
      & Framed.exec_store-Keeps base size above below 4
      & Framed.exec_store-Keeps base size above below 8
      & tt

  pub arith_ops-Keeps : (env : Env) → All Keeps (arith_ops env)
  unfolding arith_ops
  arith_ops-Keeps env =
      (λ s h. h)
      & (λ s h. h)
      & (λ s h. h)
      & Framed.exec_partial-Keeps base size above below (lane_div 8)
      & Framed.exec_partial-Keeps base size above below (lane_mod 8)
      & (λ s h. h)
      & (λ s h. h)
      & (λ s h. h)
      & (λ s h. h)
      & (λ s h. h)
      & (λ s h. h)
      & tt

  pub bit_ops-Keeps : All Keeps bit_ops
  unfolding bit_ops
  bit_ops-Keeps =
      (λ s h. h)
      & (λ s h. h)
      & (λ s h. h)
      & Framed.exec_partial-Keeps base size above below (lane_sll 8)
      & Framed.exec_partial-Keeps base size above below (lane_srl 8)
      & Framed.exec_partial-Keeps base size above below (lane_sra 8)
      & (λ s h. h)
      & tt

  pub test_ops-Keeps : (env : Env) → All Keeps (test_ops env)
  unfolding test_ops
  test_ops-Keeps env =
      (λ s h. h)
      & (λ s h. h)
      & (λ s h. h)
      & (λ s h. h)
      & (λ s h. h)
      & (λ s h. h)
      & (λ s h. h)
      & (λ s h. h)
      & tt

  pub convert_ops-Keeps : (env : Env) → All Keeps (convert_ops env)
  unfolding convert_ops
  convert_ops-Keeps env =
      (λ s h. h) & (λ s h. h) & (λ s h. h) & (λ s h. h) & (λ s h. h) & (λ s h. h) & tt

  pub jump_ops-Keeps : All Keeps jump_ops
  unfolding jump_ops
  jump_ops-Keeps =
      (λ s h. h)
      & Framed.exec_jz-Keeps base size above below
      & Framed.exec_jnz-Keeps base size above below
      & tt

  pub vector_ops-Keeps : All Keeps vector_ops
  unfolding vector_ops
  vector_ops-Keeps = (λ s h. h) & (λ s h. h) & Framed.exec_vmov-Keeps base size above below & tt

  pub vector_arith_ops-Keeps : All Keeps vector_arith_ops
  unfolding vector_arith_ops
  vector_arith_ops-Keeps =
      (λ s h. h)
      & (λ s h. h)
      & (λ s h. h)
      & Framed.exec_vec?-Keeps base size above below lane_div
      & Framed.exec_vec?-Keeps base size above below lane_mod
      & (λ s h. h)
      & tt

  pub vector_float_ops-Keeps : (env : Env) → All Keeps (vector_float_ops env)
  unfolding vector_float_ops
  vector_float_ops-Keeps env = (λ s h. h) & (λ s h. h) & (λ s h. h) & (λ s h. h) & (λ s h. h) & tt

  pub vector_bit_ops-Keeps : All Keeps vector_bit_ops
  unfolding vector_bit_ops
  vector_bit_ops-Keeps =
      (λ s h. h)
      & (λ s h. h)
      & (λ s h. h)
      & Framed.exec_vec?-Keeps base size above below lane_sll
      & Framed.exec_vec?-Keeps base size above below lane_srl
      & Framed.exec_vec?-Keeps base size above below lane_sra
      & (λ s h. h)
      & tt

  pub vector_test_ops-Keeps : (env : Env) → All Keeps (vector_test_ops env)
  unfolding vector_test_ops
  vector_test_ops-Keeps env =
      (λ s h. h) & (λ s h. h) & (λ s h. h) & (λ s h. h) & (λ s h. h) & (λ s h. h) & (λ s h. h) & tt

  pub super_ops-Keeps : All Keeps super_ops
  unfolding super_ops
  super_ops-Keeps =
      (λ s h. Framed.exec_ret-Keeps base size above below (pop_lr s) h)
      & (λ s h. Framed.exec_remit-Keeps base size above below (pop_lr s) h)
      & Framed.exec_remit-Keeps base size above below
      & (λ s h. Framed.exec_alloc-Keeps base size above below (push_lr s) h)
      & tt
