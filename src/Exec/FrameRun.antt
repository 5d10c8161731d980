-- ===== src/Exec/FrameRun.antt =====
-- Every instruction of tagha/tagha.c keeps the operand stack pointer inside the operand stack, and
-- so does a whole run, nested runs included.
use tagha.Base.{
  inl, inr, ℕ, zero, suc, ◌+◌, ◌^◌, ◌≤◌, ◌<◌, ◌≡◌, arith, All, All-get_elem?, All-concat, ◌&◌,
  Option-cases, get_elem?,
}
use tagha.Mem.{Mem}
use tagha.Words.{add64}
use tagha.State.{item_at, Module, Item}
use tagha.Machine.{
  Machine, Outcome, next, halt, undefined, timeout, imm, skip, reg, Run, returned, stuck,
  out_of_fuel,
}
use tagha.Isa.Jump.{
  Env, Nested, call_native, call_extern, after_lib, enter_lib, call_item, callr_item, exec_call,
  exec_callr,
}
use tagha.Dispatch.{dispatch, op_groups, function_ops}
use tagha.Exec.FrameTable
use tagha.Exec.{resume, step, boot, exec_loop, module_exec}
use tagha.Exec.Framed.{Ends, InStack, IsFramed, IsLeft, RunFramed, Keeps, exec_ret-Keeps}

-- C functions leave the module's stack where it is.
abbrev pub NativeKeeps : Env → Type 0
NativeKeeps env =
    (f p : ℕ) (vm : Module) (m : Mem)
    → ((env.native f vm m p).vm.opstack ≡ vm.opstack)
      × ((env.native f vm m p).vm.opstack_size ≡ vm.opstack_size)

-- A nested run that begins with the pointer in the stack ends so.
abbrev pub NestedKeeps : ℕ → ℕ → Nested → Type 0
NestedKeeps base size nested =
    (ip : ℕ) (vm : Module) (m : Mem)
    → InStack base size vm vm.osp
    → RunFramed base size (nested ip vm m)

module _ (base size : ℕ) (above : 2040 ≤ base) (below : base + size + 2040 < 2 ^ 64) (env : Env)
    (nested : Nested) (natives : NativeKeeps env) (nests : NestedKeeps base size nested) where
  call_native-Keeps : (item : ℕ) → Keeps base size above below (call_native env item)
  unfolding call_native
  call_native-Keeps item s h = ground (arith, natives item (add64 s.vreg_osp 8) s.vm s.mem)

  after_lib-Keeps :
      (r : Run) (s : Machine)
      → RunFramed base size r
      → Ends (IsFramed base size) (IsLeft base size) (after_lib r s)
  unfolding after_lib
  after_lib-Keeps (returned vm mem) s h = h
  after_lib-Keeps stuck s h = tt
  after_lib-Keeps out_of_fuel s h = tt

  call_extern-Keeps :
      (item owner : ℕ) → Keeps base size above below (call_extern env nested item owner)
  unfolding call_extern enter_lib
  call_extern-Keeps item owner s h = elim (Option-cases (env.libs owner)) [
    | inl e ↦ rw (e, call_extern) tt
    | inr ((fs, vs), e) ↦
        let s' = enter_lib fs vs s in
        rw (e, call_extern)
          (after_lib-Keeps (nested item s'.vm s'.mem) s' (nests item s'.vm s'.mem h))
  ]

  call_item-Keeps : (func : Item) → Keeps base size above below (call_item env nested func)
  unfolding call_item
  call_item-Keeps func s h =
      ground (arith, call_native-Keeps func.item s h, call_extern-Keeps func.item func.owner s h)

  callr_item-Keeps : (func : Item) → Keeps base size above below (callr_item env nested func)
  unfolding callr_item
  callr_item-Keeps func s h =
      ground (arith, call_native-Keeps func.item s h, call_extern-Keeps func.item func.owner s h)

  exec_call-Keeps : Keeps base size above below (exec_call env nested)
  unfolding exec_call
  exec_call-Keeps s h = elim (Option-cases s.table_funcs) [
    | inl e ↦ rw (e, exec_call) tt
    | inr (t, e) ↦ rw (e, exec_call) (call_item-Keeps _ (skip 2 s) h)
  ]

  exec_callr-Keeps : Keeps base size above below (exec_callr env nested)
  unfolding exec_callr
  exec_callr-Keeps s h =
      ground (arith, callr_item-Keeps (item_at s.mem (reg (imm 1 s) (skip 1 s))) (skip 1 s) h)

  function_ops-Keeps : All (Keeps base size above below) (function_ops env nested)
  unfolding function_ops
  function_ops-Keeps =
      (λ s h. h)
      & (λ s h. h)
      & exec_call-Keeps
      & exec_callr-Keeps
      & exec_ret-Keeps base size above below
      & tt

  dispatch-Keeps : All (Keeps base size above below) (dispatch env nested)
  unfolding dispatch
  dispatch-Keeps = All-concat (Keeps base size above below) (op_groups env nested) (
      FrameTable.data_ops-Keeps base size above below
      & FrameTable.memory_ops-Keeps base size above below
      & FrameTable.arith_ops-Keeps base size above below env
      & FrameTable.bit_ops-Keeps base size above below
      & FrameTable.test_ops-Keeps base size above below env
      & FrameTable.convert_ops-Keeps base size above below env
      & FrameTable.jump_ops-Keeps base size above below
      & function_ops-Keeps
      & FrameTable.vector_ops-Keeps base size above below
      & FrameTable.vector_arith_ops-Keeps base size above below
      & FrameTable.vector_float_ops-Keeps base size above below env
      & FrameTable.vector_bit_ops-Keeps base size above below
      & FrameTable.vector_test_ops-Keeps base size above below env
      & FrameTable.super_ops-Keeps base size above below
      & tt)

  -- One instruction keeps the stack pointer in the stack.
  pub step-Keeps : Keeps base size above below (step env nested)
  unfolding step
  step-Keeps s h = elim (Option-cases (get_elem? (dispatch env nested) (imm 1 s))) [
    | inl e ↦ rw (e, step) tt
    | inr (handler, e) ↦
        rw (e, step)
          (All-get_elem? (Keeps base size above below) (dispatch env nested) (imm 1 s)
            dispatch-Keeps e (skip 1 s) h)
  ]

module _ (base size : ℕ) (above : 2040 ≤ base) (below : base + size + 2040 < 2 ^ 64) (env : Env)
    (natives : NativeKeeps env) where
  resume-Framed :
      (again : Machine → Run) (o : Outcome)
      → ((s : Machine) → IsFramed base size s → RunFramed base size (again s))
      → Ends (IsFramed base size) (IsLeft base size) o
      → RunFramed base size (resume again o)
  resume-Framed again (next s) ih h = ih s h
  resume-Framed again (halt s) ih h = h
  resume-Framed again undefined ih h = tt
  resume-Framed again timeout ih h = tt

  exec_loop-Framed :
      (fuel : ℕ) (s : Machine) → IsFramed base size s → RunFramed base size (exec_loop env fuel s)
  unfolding exec_loop
  exec_loop-Framed zero s h = tt
  exec_loop-Framed (suc f) s h =
      let nested : Nested = λ ip vm mem. exec_loop env f (boot ip vm mem) in
      resume-Framed (exec_loop env f) (step env nested s) (exec_loop-Framed f) (
        step-Keeps base size above below env nested natives
          (λ ip vm m h'. exec_loop-Framed f (boot ip vm m) h') s h)

-- Whatever bytecode a module runs, and whatever it calls, where the run returns the operand stack
-- pointer lies in the operand stack, and the stack has not moved. The stack is at least 2040 bytes
-- from both ends of the address space, its pointer starts inside, and C functions do not move it.
pub module_exec-InStack :
    (base size : ℕ) (env : Env) (fuel ip : ℕ) (vm : Module) (m : Mem)
    → 2040 ≤ base
    → base + size + 2040 < 2 ^ 64
    → NativeKeeps env
    → InStack base size vm vm.osp
    → RunFramed base size (module_exec env fuel ip vm m)
unfolding module_exec
module_exec-InStack base size env fuel ip vm m above below natives h =
    exec_loop-Framed base size above below env natives fuel (boot ip vm m) h
