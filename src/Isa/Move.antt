-- ===== src/Isa/Move.antt =====
-- The data movement instructions of tagha/tagha.c, and the loads of table entries.
use tagha.Base.{ℕ, ◌*◌, ◌/◌, ◌%◌, none, some}
use tagha.Words.{add64, sext, offset16}
use tagha.State.{SymTable, val_size, item_at, item_size}
use tagha.Machine.{next, undefined, Handler, imm, skip, reg, set_reg, dst_of, src_of}

unfoldable pub exec_movi : Handler
unfolding imm skip set_reg
exec_movi s =
    let regid = imm 1 s in let s' = skip 1 s in next (set_reg regid (imm 8 s') (skip 8 s'))

unfoldable pub exec_mov : Handler
unfolding imm skip reg set_reg
exec_mov s =
    let instr = imm 2 s in
    let s' = skip 2 s in next (set_reg (dst_of instr) (reg (src_of instr) s') s')

-- The address of a register.
unfoldable pub exec_lra : Handler
unfolding imm skip set_reg
exec_lra s =
    let regid = imm 1 s in
    let offset = imm 2 (skip 1 s) in
    let s' = skip 2 (skip 1 s) in next (set_reg regid (add64 s'.vreg_osp (val_size * offset)) s')

unfoldable pub exec_lea : Handler
unfolding imm skip reg set_reg
exec_lea s =
    let instr = imm 4 s in
    let s' = skip 4 s in
    next (set_reg (instr % 256) (add64 (reg (instr / 256 % 256) s') (offset16 instr)) s')

-- `&syms->table[index]`, with the index a `size_t`
unfoldable pub entry_addr : SymTable → ℕ → ℕ
entry_addr t index = add64 t.table (item_size * index)

unfoldable pub exec_ldvar : Handler
unfolding imm skip set_reg item_at entry_addr
exec_ldvar s =
    let regid = imm 1 s in
    let index = imm 2 (skip 1 s) in
    let s' = skip 2 (skip 1 s) in
    elim (s.table_vars) [
      | none ↦ undefined
      | some t ↦ next (set_reg regid ((item_at s'.mem (entry_addr t index)).item) s')
    ]

unfoldable pub exec_ldfn : Handler
unfolding imm skip set_reg entry_addr
exec_ldfn s =
    let regid = imm 1 s in
    let index = imm 2 (skip 1 s) in
    let s' = skip 2 (skip 1 s) in
    elim (s.table_funcs) [
      | none ↦ undefined
      | some t ↦ next (set_reg regid (entry_addr t index) s')
    ]

unfoldable pub exec_setc : Handler
unfolding imm skip set_reg
exec_setc s =
    let regid = imm 1 s in let s' = skip 1 s in next (set_reg regid (sext 4 s'.vm.cond) s')

unfoldable pub exec_setvlen : Handler
unfolding imm skip
exec_setvlen s =
    let width = imm 2 s in
    let s' = skip 2 s in next (record s' { vm = record (s'.vm) { vec_len = width } })

unfoldable pub exec_setelen : Handler
unfolding imm skip
exec_setelen s =
    let width = imm 1 s in
    let s' = skip 1 s in next (record s' { vm = record (s'.vm) { elem_len = width } })
