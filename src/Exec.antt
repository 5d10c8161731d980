-- ===== src/Exec.antt =====
-- The loop of `_tagha_module_exec` (tagha/tagha.c): fetch an opcode, run its handler, go on.
pub mod MoreFuel
pub mod Framed
pub mod FrameTable
pub mod FrameRun
pub mod Footprint
pub mod FootprintVector
pub mod FootprintTable
pub mod FootprintRun
use tagha.Base.{ℕ, zero, suc, none, some, get_elem?}
use tagha.Words.{sub64}
use tagha.Mem.{Mem}
use tagha.State.{Module}
use tagha.Machine.{
  Machine, Outcome, next, halt, undefined, timeout, Run, returned, stuck, out_of_fuel, Handler, imm,
  skip,
}
use tagha.Isa.Jump.{Env, Nested}
use tagha.Dispatch.{dispatch}

-- `goto *dispatch[*ip.uint8++]`
unfoldable pub step : Env → Nested → Handler
unfolding imm skip dispatch
step env nested s = elim (get_elem? (dispatch env nested) (imm 1 s)) [
  | none ↦ undefined
  | some handler ↦ handler (skip 1 s)
]

-- The locals that `_tagha_module_exec` sets up.
unfoldable pub boot : ℕ → Module → Mem → Machine
unfolding sub64
boot ip vm mem = record {
  vm = vm;
  mem = mem;
  ip = ip;
  vreg_osp = vm.osp;
  table_funcs = vm.funcs;
  table_vars = vm.vars;
  lower_seg = vm.low_seg;
  mem_bnds_diff = sub64 vm.high_seg vm.low_seg;
}

-- What follows an instruction.
abbrev pub resume : (Machine → Run) → Outcome → Run
resume again (next s) = again s
resume again (halt s) = returned s.vm s.mem
resume again undefined = stuck
resume again timeout = out_of_fuel

-- The loop, in which each instruction spends one unit of fuel, and a nested call runs on what is
-- left.
unfoldable pub exec_loop : Env → ℕ → Machine → Run
unfolding step boot
exec_loop env zero s = out_of_fuel
exec_loop env (suc f) s =
    resume (exec_loop env f) (step env (λ ip vm mem. exec_loop env f (boot ip vm mem)) s)

-- _tagha_module_exec
unfoldable pub module_exec : Env → ℕ → ℕ → Module → Mem → Run
unfolding exec_loop boot
module_exec env fuel ip vm mem = exec_loop env fuel (boot ip vm mem)
