-- ===== src/Isa/Access.antt =====
-- The loads and stores of tagha/tagha.c through a pointer in a register, with the test of the
-- address against the memory segment.
pub mod Extend
pub mod Segment
pub mod Underflow
use tagha.Base.{ℕ, ◌-◌, ◌/◌, ◌%◌, ◌^◌, Bool, ltb, if◌then◌else◌}
use tagha.Words.{add64, sub64, sext, offset16}
use tagha.Mem.{load, store}
use tagha.State.{err_bad_ptr}
use tagha.Machine.{Machine, next, Handler, imm, skip, reg, set_reg, throw}

-- `(mem+k - lower_seg) > mem_bnds_diff`
unfoldable pub out_of_bounds : ℕ → ℕ → Machine → Bool
out_of_bounds k mem s = ltb s.mem_bnds_diff (sub64 (add64 mem k) s.lower_seg)

-- The address `rsp[r] + offset` that a 32-bit operand names.
unfoldable pub operand_addr : ℕ → ℕ → Machine → ℕ
unfolding reg
operand_addr r instr s = add64 (reg r s) (offset16 instr)

-- A load of `n` bytes whose value `convert` widens.
unfoldable pub exec_load : ℕ → (ℕ → ℕ) → Handler
unfolding imm skip set_reg throw operand_addr out_of_bounds
exec_load n convert s =
    let instr = imm 4 s in
    let dst = instr % 256 in
    let src = instr / 256 % 256 in
    let s' = skip 4 s in
    let mem = operand_addr src instr s' in
    if out_of_bounds (n - 1) mem s'
    then throw err_bad_ptr s'
    else next (set_reg dst (convert (load n s'.mem mem)) s')

-- A store of the low `n` bytes of a register.
unfoldable pub exec_store : ℕ → Handler
unfolding imm skip reg throw operand_addr out_of_bounds
exec_store n s =
    let instr = imm 4 s in
    let dst = instr % 256 in
    let src = instr / 256 % 256 in
    let s' = skip 4 s in
    let mem = operand_addr dst instr s' in
    if out_of_bounds (n - 1) mem s'
    then throw err_bad_ptr s'
    else next (record s' { mem = store n s'.mem mem (reg src s' % 256 ^ n) })

unfoldable pub exec_ld1 : Handler
unfolding exec_load
exec_ld1 = exec_load 1 (sext 1)

unfoldable pub exec_ld2 : Handler
unfolding exec_load
exec_ld2 = exec_load 2 (sext 2)

unfoldable pub exec_ld4 : Handler
unfolding exec_load
exec_ld4 = exec_load 4 (sext 4)

unfoldable pub exec_ld8 : Handler
unfolding exec_load
exec_ld8 = exec_load 8 (λ v. v)

unfoldable pub exec_ldu1 : Handler
unfolding exec_load
exec_ldu1 = exec_load 1 (λ v. v)

unfoldable pub exec_ldu2 : Handler
unfolding exec_load
exec_ldu2 = exec_load 2 (λ v. v)

unfoldable pub exec_ldu4 : Handler
unfolding exec_load
exec_ldu4 = exec_load 4 (λ v. v)

unfoldable pub exec_st1 : Handler
unfolding exec_store
exec_st1 = exec_store 1

unfoldable pub exec_st2 : Handler
unfolding exec_store
exec_st2 = exec_store 2

unfoldable pub exec_st4 : Handler
unfolding exec_store
exec_st4 = exec_store 4

unfoldable pub exec_st8 : Handler
unfolding exec_store
exec_st8 = exec_store 8
