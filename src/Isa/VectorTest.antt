-- ===== src/Isa/VectorTest.antt =====
-- The vector comparisons of tagha/tagha.c: the lanes that pass are counted, and `vm->cond` says
-- whether all of them did.
pub mod AllLanes
use tagha.Base.{ℕ, zero, suc, ◌+◌, ◌*◌, Bool, ◌==◌, if◌then◌else◌}
use tagha.Words.{lane_ilt, lane_ile, lane_ult, lane_ule}
use tagha.Mem.{Mem, load, same_bytes}
use tagha.Machine.{next, Handler, imm, skip, reg_addr, dst_of, src_of}
use tagha.Isa.Compare.{set_cond}
use tagha.Isa.Vector.{elem_width, lane_addr}

-- `for( ...; i<vec_len; i++ ) c += test(r1[i], r2[i])`, with `n` rounds left
unfoldable pub count_loop : (ℕ → ℕ → Bool) → ℕ → ℕ → ℕ → ℕ → ℕ → Mem → ℕ → ℕ
count_loop f w d s zero i m c = c
count_loop f w d s (suc n) i m c =
    count_loop f w d s n (i + 1) m
      (c + (if f (load w m (lane_addr w d i)) (load w m (lane_addr w s i)) then 1 else 0))

unfoldable pub exec_vec_test : (ℕ → ℕ → ℕ → Bool) → Handler
unfolding imm skip elem_width count_loop set_cond
exec_vec_test f s =
    let instr = imm 2 s in
    let s' = skip 2 s in
    let w = elem_width (s'.vm.elem_len) in
    let c =
      count_loop (f w) w (reg_addr (dst_of instr) s') (reg_addr (src_of instr) s') s'.vm.vec_len 0
        s'.mem 0 in
    next (set_cond (c == s'.vm.vec_len) s')

unfoldable pub exec_vcmp : Handler
unfolding imm skip same_bytes set_cond
exec_vcmp s =
    let instr = imm 2 s in
    let s' = skip 2 s in
    let n = s'.vm.vec_len * s'.vm.elem_len in
    next
      (set_cond (same_bytes n s'.mem (reg_addr (dst_of instr) s') (reg_addr (src_of instr) s')) s')

unfoldable pub exec_vilt : Handler
unfolding exec_vec_test
exec_vilt = exec_vec_test lane_ilt

unfoldable pub exec_vile : Handler
unfolding exec_vec_test
exec_vile = exec_vec_test lane_ile

unfoldable pub exec_vult : Handler
unfolding exec_vec_test
exec_vult = exec_vec_test lane_ult

unfoldable pub exec_vule : Handler
unfolding exec_vec_test
exec_vule = exec_vec_test lane_ule
