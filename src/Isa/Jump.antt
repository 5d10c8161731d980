-- ===== src/Isa/Jump.antt =====
-- The jumps and calls of tagha/tagha.c. Native C functions and the structures of other modules are
-- parameters; a call into another module runs the interpreter again, which is a parameter too.
use tagha.Base.{ℕ, ◌%◌, ◌^◌, ◌||◌, Option, none, some, ◌==◌, if◌then◌else◌, not}
use tagha.Words.{add64, sub64, sext}
use tagha.Mem.{Mem}
use tagha.State.{
  SymTable, Module, Item, item_at, nil, has_flag, flag_native, flag_extern, err_none,
  err_bad_native, err_bad_extern, err_bad_func,
}
use tagha.Machine.{
  Machine, Outcome, next, undefined, timeout, Run, returned, stuck, out_of_fuel, Handler, imm, skip,
  reg, set_reg, throw, exec_halt,
}
use tagha.Isa.Stack.{push_lr, pop_lr}
use tagha.Isa.Move.{entry_addr}
use tagha.Isa.Float.{Floats}

-- What a C function gives back: its value, the module structure and the memory.
pub record NativeResult : Type 0 where
  pub ret : ℕ
  pub vm : Module
  pub mem : Mem

-- What a handler calls and does not implement: `native f vm mem params` is the call of the C
-- function at `f`, and `libs p` holds the tables of the module structure at `p`.
pub record Env : Type 0 where
  pub floats : Floats
  pub native : ℕ → Module → Mem → ℕ → NativeResult
  pub libs : ℕ → Option (Option SymTable × Option SymTable)

-- `_tagha_module_exec(ip, vm)` as a handler calls it
abbrev pub Nested : Type 0
Nested = ℕ → Module → Mem → Run

unfoldable pub exec_jmp : Handler
unfolding imm skip
exec_jmp s =
    let offset = sext 4 (imm 4 s) in
    let s' = skip 4 s in next (record s' { ip = add64 s'.ip offset })

unfoldable pub exec_jz : Handler
unfolding imm skip
exec_jz s =
    let offset = sext 4 (imm 4 s) in
    let s' = skip 4 s in
    if s'.vm.cond == 0 then next (record s' { ip = add64 s'.ip offset }) else next s'

unfoldable pub exec_jnz : Handler
unfolding imm skip
exec_jnz s =
    let offset = sext 4 (imm 4 s) in
    let s' = skip 4 s in
    if s'.vm.cond == 0 then next s' else next (record s' { ip = add64 s'.ip offset })

-- `*rsp = (*cfunc)(vm, rsp + 1)`, and a stop if the function set an error
unfoldable pub call_native : Env → ℕ → Handler
unfolding set_reg exec_halt
call_native env item s =
    let r = env.native item s.vm s.mem (add64 s.vreg_osp 8) in
    let s' = set_reg 0 r.ret (record s { vm = r.vm; mem = r.mem }) in
    if s'.vm.err == err_none then next s' else exec_halt s'

-- The caller's tables are put aside while the function runs under those of its owner.
unfoldable pub enter_lib : Option SymTable → Option SymTable → Machine → Machine
unfolding push_lr
enter_lib fs vs s =
    let s' = push_lr (record s { vm = record (s.vm) { funcs = fs; vars = vs } }) in
    record s' { vm = record (s'.vm) { lr = nil; osp = s'.vreg_osp } }

unfoldable pub leave_lib : Module → Mem → Machine → Machine
unfolding pop_lr
leave_lib vm mem s =
    let s' = pop_lr (record s { vm = vm; mem = mem; vreg_osp = vm.osp }) in
    record s' { vm = record (s'.vm) { funcs = s.table_funcs; vars = s.table_vars } }

-- The caller goes on after a nested run.
unfoldable pub after_lib : Run → Machine → Outcome
unfolding leave_lib
after_lib (returned vm mem) s = next (leave_lib vm mem s)
after_lib stuck s = undefined
after_lib out_of_fuel s = timeout

unfoldable pub call_extern : Env → Nested → ℕ → ℕ → Handler
call_extern env nested item owner s = elim (env.libs owner) [
  | none ↦ undefined
  | some (fs, vs) ↦ let s' = enter_lib fs vs s in after_lib (nested item s'.vm s'.mem) s'
]

-- `vm->lr = ip; ip = item;`
unfoldable pub call_bytecode : ℕ → Handler
call_bytecode item s = next (record s { vm = record (s.vm) { lr = s.ip }; ip = item })

-- The part of `exec_call` after the item is read.
unfoldable pub call_item : Env → Nested → Item → Handler
unfolding throw call_bytecode
call_item env nested func s =
    if func.item == nil || func.owner == nil
    then throw (func.flags % 2 ^ 32) s
    else if has_flag func.flags flag_native
    then call_native env func.item s
    else if has_flag func.flags flag_extern
    then call_extern env nested func.item func.owner s
    else call_bytecode func.item s

unfoldable pub exec_call : Env → Nested → Handler
unfolding imm skip entry_addr
exec_call env nested s =
    let index = imm 2 s in
    let s' = skip 2 s in
    elim (s'.table_funcs) [
      | none ↦ undefined
      | some t ↦ call_item env nested (item_at s'.mem (entry_addr t (sub64 index 1))) s'
    ]

-- The part of `exec_callr` after the item is read.
unfoldable pub callr_item : Env → Nested → Item → Handler
unfolding throw call_bytecode
callr_item env nested func s =
    if has_flag func.flags flag_native
    then (if func.item == nil then throw err_bad_native s else call_native env func.item s)
    else if not (func.owner == s.vm.self)
    then (if func.owner == nil
        then throw err_bad_extern s
        else call_extern env nested func.item func.owner s)
    else call_bytecode func.item s

unfoldable pub exec_callr : Env → Nested → Handler
unfolding imm skip reg throw
exec_callr env nested s =
    let regid = imm 1 s in
    let s' = skip 1 s in
    let func = reg regid s' in
    if func == nil then throw err_bad_func s' else callr_item env nested (item_at s'.mem func) s'
