-- ===== src/Isa/Stack.antt =====
-- The frame instructions of tagha/tagha.c: link register, call stack, live registers, return.
pub mod Frames
use tagha.Base.{ℕ, ◌*◌, ltb, ◌==◌, if◌then◌else◌}
use tagha.Words.{add64, sub64}
use tagha.Mem.{load, store}
use tagha.State.{nil, val_size, err_op_stack_of}
use tagha.Machine.{Machine, next, Handler, imm, skip, exec_halt, throw}

unfoldable pub exec_nop : Handler
exec_nop s = next s

-- _tagha_push_lr
unfoldable pub push_lr : Machine → Machine
push_lr s = record s {
  vm = record (s.vm) { csp = add64 s.vm.csp 8 };
  mem = store 8 s.mem s.vm.csp s.vm.lr;
}

-- _tagha_pop_lr
unfoldable pub pop_lr : Machine → Machine
pop_lr s =
    let csp' = sub64 s.vm.csp 8 in
    record s { vm = record (s.vm) { csp = csp'; lr = load 8 s.mem csp' } }

unfoldable pub exec_pushlr : Handler
unfolding push_lr
exec_pushlr s = next (push_lr s)

unfoldable pub exec_poplr : Handler
unfolding pop_lr
exec_poplr s = next (pop_lr s)

unfoldable pub exec_ret : Handler
unfolding exec_halt
exec_ret s = let s' = record s { ip = s.vm.lr } in if s'.ip == nil then exec_halt s' else next s'

unfoldable pub exec_restore : Handler
unfolding pop_lr exec_ret
exec_restore s = exec_ret (pop_lr s)

-- Make room for `cells` registers.
unfoldable pub exec_alloc : Handler
unfolding imm skip throw
exec_alloc s =
    let cells = imm 1 s in
    let s' = skip 1 s in
    let alloc_size = val_size * cells in
    if ltb (sub64 s'.vreg_osp alloc_size) s'.vm.opstack
    then throw err_op_stack_of s'
    else next (record s' { vreg_osp = sub64 s'.vreg_osp alloc_size })

unfoldable pub exec_enter : Handler
unfolding push_lr exec_alloc
exec_enter s = exec_alloc (push_lr s)

-- The operand stack pointer after `cells` registers are dropped, at most the stack's end.
unfoldable pub redux_osp : ℕ → Machine → ℕ
redux_osp cells s =
    let top = add64 s.vm.opstack s.vm.opstack_size in
    let dealloc_size = val_size * cells in
    if ltb top (add64 s.vreg_osp dealloc_size) then top else add64 s.vreg_osp dealloc_size

unfoldable pub exec_redux : Handler
unfolding imm skip redux_osp
exec_redux s =
    let cells = imm 1 s in let s' = skip 1 s in next (record s' { vreg_osp = redux_osp cells s' })

unfoldable pub exec_remit : Handler
unfolding imm skip redux_osp exec_ret
exec_remit s =
    let cells = imm 1 s in
    let s' = skip 1 s in exec_ret (record s' { vreg_osp = redux_osp cells s' })

unfoldable pub exec_leave : Handler
unfolding pop_lr exec_remit
exec_leave s = exec_remit (pop_lr s)
