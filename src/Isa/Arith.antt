-- ===== src/Isa/Arith.antt =====
-- The integer arithmetic and bit-wise instructions of tagha/tagha.c, on whole registers.
use tagha.Base.{ℕ, Option, none, some}
use tagha.Words.{
  lane_add, lane_sub, lane_mul, lane_div, lane_mod, lane_neg, lane_not, lane_and, lane_or, lane_xor,
  lane_sll, lane_srl, lane_sra,
}
use tagha.Machine.{next, undefined, Handler, imm, skip, reg, set_reg, dst_of, src_of}

-- `rsp[dst] = f(rsp[dst], rsp[src])`
unfoldable pub exec_binary : (ℕ → ℕ → ℕ) → Handler
unfolding imm skip reg set_reg
exec_binary f s =
    let instr = imm 2 s in
    let s' = skip 2 s in
    next (set_reg (dst_of instr) (f (reg (dst_of instr) s') (reg (src_of instr) s')) s')

-- The same for an operation that is not defined on every operand.
unfoldable pub exec_partial : (ℕ → ℕ → Option ℕ) → Handler
unfolding imm skip reg set_reg
exec_partial f s =
    let instr = imm 2 s in
    let s' = skip 2 s in
    elim (f (reg (dst_of instr) s') (reg (src_of instr) s')) [
      | none ↦ undefined
      | some v ↦ next (set_reg (dst_of instr) v s')
    ]

unfoldable pub exec_unary : (ℕ → ℕ) → Handler
unfolding imm skip reg set_reg
exec_unary f s =
    let regid = imm 1 s in let s' = skip 1 s in next (set_reg regid (f (reg regid s')) s')

unfoldable pub exec_add : Handler
unfolding exec_binary
exec_add = exec_binary (lane_add 8)

unfoldable pub exec_sub : Handler
unfolding exec_binary
exec_sub = exec_binary (lane_sub 8)

unfoldable pub exec_mul : Handler
unfolding exec_binary
exec_mul = exec_binary (lane_mul 8)

unfoldable pub exec_idiv : Handler
unfolding exec_partial
exec_idiv = exec_partial (lane_div 8)

unfoldable pub exec_mod : Handler
unfolding exec_partial
exec_mod = exec_partial (lane_mod 8)

unfoldable pub exec_neg : Handler
unfolding exec_unary
exec_neg = exec_unary (lane_neg 8)

unfoldable pub exec__and : Handler
unfolding exec_binary
exec__and = exec_binary (lane_and 8)

unfoldable pub exec__or : Handler
unfolding exec_binary
exec__or = exec_binary (lane_or 8)

unfoldable pub exec__xor : Handler
unfolding exec_binary
exec__xor = exec_binary (lane_xor 8)

unfoldable pub exec_sll : Handler
unfolding exec_partial
exec_sll = exec_partial (lane_sll 8)

unfoldable pub exec_srl : Handler
unfolding exec_partial
exec_srl = exec_partial (lane_srl 8)

unfoldable pub exec_sra : Handler
unfolding exec_partial
exec_sra = exec_partial (lane_sra 8)

unfoldable pub exec__not : Handler
unfolding exec_unary
exec__not = exec_unary (lane_not 8)
