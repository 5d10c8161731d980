-- ===== src/Isa/Vector.antt =====
-- The integer vector instructions of tagha/tagha.c: `vec_len` lanes of `elem_len` bytes that begin at
-- a register, combined in place from the first to the last.
pub mod Lanes
use tagha.Base.{ℕ, zero, suc, ◌+◌, ◌*◌, ◌&&◌, Option, none, some, ltb, ◌==◌, if◌then◌else◌}
use tagha.Words.{
  lane_add, lane_sub, lane_mul, lane_div, lane_mod, lane_neg, lane_not, lane_and, lane_or, lane_xor,
  lane_sll, lane_srl, lane_sra,
}
use tagha.Mem.{Mem, load, store, copy}
use tagha.Machine.{next, undefined, Handler, imm, skip, reg_addr, dst_of, src_of}

-- The width that the handlers take for `elem_len`: 1, 2 and 4 bytes, and 8 for anything else.
unfoldable pub elem_width : ℕ → ℕ
elem_width e = if e == 1 then 1 else if e == 2 then 2 else if e == 4 then 4 else 8

-- The address of lane `i`, `&r[i]` for lanes of `w` bytes.
abbrev pub lane_addr : ℕ → ℕ → ℕ → ℕ
lane_addr w a i = a + w * i

-- `for( ...; i<vec_len; i++ ) r1[i] = f(r1[i], r2[i])`, with `n` rounds left
unfoldable pub vec_loop : (ℕ → ℕ → ℕ) → ℕ → ℕ → ℕ → ℕ → ℕ → Mem → Mem
vec_loop f w d s zero i m = m
vec_loop f w d s (suc n) i m =
    vec_loop f w d s n (i + 1)
      (store w m (lane_addr w d i) (f (load w m (lane_addr w d i)) (load w m (lane_addr w s i))))

-- The same for an operation that is not defined on every operand.
unfoldable pub vec_loop? : (ℕ → ℕ → Option ℕ) → ℕ → ℕ → ℕ → ℕ → ℕ → Mem → Option Mem
vec_loop? f w d s zero i m = some m
vec_loop? f w d s (suc n) i m = elim (f (load w m (lane_addr w d i)) (load w m (lane_addr w s i))) [
  | none ↦ none
  | some v ↦ vec_loop? f w d s n (i + 1) (store w m (lane_addr w d i) v)
]

unfoldable pub exec_vec : (ℕ → ℕ → ℕ → ℕ) → Handler
unfolding imm skip elem_width vec_loop
exec_vec f s =
    let instr = imm 2 s in
    let s' = skip 2 s in
    let w = elem_width (s'.vm.elem_len) in
    next (record s' {
      mem =
          vec_loop (f w) w (reg_addr (dst_of instr) s') (reg_addr (src_of instr) s') s'.vm.vec_len 0
            s'.mem;
    })

unfoldable pub exec_vec? : (ℕ → ℕ → ℕ → Option ℕ) → Handler
unfolding imm skip elem_width vec_loop?
exec_vec? f s =
    let instr = imm 2 s in
    let s' = skip 2 s in
    let w = elem_width (s'.vm.elem_len) in
    elim (vec_loop? (f w) w (reg_addr (dst_of instr) s') (reg_addr (src_of instr) s') s'.vm.vec_len
      0 s'.mem) [ none ↦ undefined | some m ↦ next (record s' { mem = m }) ]

-- `r[i] = f(r[i])`: the loop with the operand register as both.
unfoldable pub exec_vec_unary : (ℕ → ℕ → ℕ) → Handler
unfolding imm skip elem_width vec_loop
exec_vec_unary f s =
    let regid = imm 1 s in
    let s' = skip 1 s in
    let w = elem_width (s'.vm.elem_len) in
    next (record s' {
      mem =
          vec_loop (λ a _. f w a) w (reg_addr regid s') (reg_addr regid s') s'.vm.vec_len 0 s'.mem;
    })

-- memcpy of `vec_len * elem_len` bytes, which C does not define on ranges that overlap
unfoldable pub exec_vmov : Handler
unfolding imm skip copy
exec_vmov s =
    let instr = imm 2 s in
    let s' = skip 2 s in
    let d = reg_addr (dst_of instr) s' in
    let a = reg_addr (src_of instr) s' in
    let n = s'.vm.vec_len * s'.vm.elem_len in
    if ltb d (a + n) && ltb a (d + n)
    then undefined
    else next (record s' { mem = copy n s'.mem s'.mem d a })

unfoldable pub exec_vadd : Handler
unfolding exec_vec
exec_vadd = exec_vec lane_add

unfoldable pub exec_vsub : Handler
unfolding exec_vec
exec_vsub = exec_vec lane_sub

unfoldable pub exec_vmul : Handler
unfolding exec_vec
exec_vmul = exec_vec lane_mul

unfoldable pub exec_vdiv : Handler
unfolding exec_vec?
exec_vdiv = exec_vec? lane_div

unfoldable pub exec_vmod : Handler
unfolding exec_vec?
exec_vmod = exec_vec? lane_mod

unfoldable pub exec_vneg : Handler
unfolding exec_vec_unary
exec_vneg = exec_vec_unary lane_neg

unfoldable pub exec_vand : Handler
unfolding exec_vec
exec_vand = exec_vec lane_and

unfoldable pub exec_vor : Handler
unfolding exec_vec
exec_vor = exec_vec lane_or

unfoldable pub exec_vxor : Handler
unfolding exec_vec
exec_vxor = exec_vec lane_xor

unfoldable pub exec_vsll : Handler
unfolding exec_vec?
exec_vsll = exec_vec? lane_sll

unfoldable pub exec_vsrl : Handler
unfolding exec_vec?
exec_vsrl = exec_vec? lane_srl

unfoldable pub exec_vsra : Handler
unfolding exec_vec?
exec_vsra = exec_vec? lane_sra

unfoldable pub exec_vnot : Handler
unfolding exec_vec_unary
exec_vnot = exec_vec_unary lane_not
