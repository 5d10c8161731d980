-- ===== src/Isa/Compare.antt =====
-- The comparison instructions of tagha/tagha.c. The result is `vm->cond`, 1 or 0.
pub mod Signed
use tagha.Base.{ℕ, Bool, ◌==◌, if◌then◌else◌}
use tagha.Words.{lane_ilt, lane_ile, lane_ult, lane_ule}
use tagha.Machine.{Machine, next, Handler, imm, skip, reg, dst_of, src_of}

unfoldable pub set_cond : Bool → Machine → Machine
set_cond b s = record s { vm = record (s.vm) { cond = if b then 1 else 0 } }

unfoldable pub exec_test : (ℕ → ℕ → Bool) → Handler
unfolding imm skip reg set_cond
exec_test f s =
    let instr = imm 2 s in
    let s' = skip 2 s in next (set_cond (f (reg (dst_of instr) s') (reg (src_of instr) s')) s')

unfoldable pub exec_cmp : Handler
unfolding exec_test
exec_cmp = exec_test (λ a b. a == b)

unfoldable pub exec_ilt : Handler
unfolding exec_test
exec_ilt = exec_test (lane_ilt 8)

unfoldable pub exec_ile : Handler
unfolding exec_test
exec_ile = exec_test (lane_ile 8)

unfoldable pub exec_ult : Handler
unfolding exec_test
exec_ult = exec_test (lane_ult 8)

unfoldable pub exec_ule : Handler
unfolding exec_test
exec_ule = exec_test (lane_ule 8)
