-- ===== src/Isa/VectorFloat.antt =====
-- The floating point vector instructions of tagha/tagha.c: lanes of 4 bytes are `float32_t`, and all
-- others are `float64_t` of 8 bytes.
use tagha.Base.{ℕ, Bool, ◌==◌, if◌then◌else◌}
use tagha.Machine.{next, Handler, imm, skip, reg_addr, dst_of, src_of}
use tagha.Isa.Compare.{set_cond}
use tagha.Isa.Float.{FloatType, Floats}
use tagha.Isa.Vector.{vec_loop}
use tagha.Isa.VectorTest.{count_loop}

module _ (fl : Floats) where
  abbrev pub float_width : ℕ → ℕ
  float_width e = if e == 4 then 4 else 8

  abbrev pub float_type : ℕ → FloatType
  float_type e = if e == 4 then fl.float32 else fl.float64

  unfoldable pub exec_vec_float : (FloatType → ℕ → ℕ → ℕ) → Handler
  unfolding imm skip vec_loop
  exec_vec_float f s =
      let instr = imm 2 s in
      let s' = skip 2 s in
      let e = s'.vm.elem_len in
      next (record s' {
        mem =
            vec_loop (f (float_type e)) (float_width e) (reg_addr (dst_of instr) s')
              (reg_addr (src_of instr) s') s'.vm.vec_len 0 s'.mem;
      })

  unfoldable pub exec_vec_float_test : (FloatType → ℕ → ℕ → Bool) → Handler
  unfolding imm skip count_loop set_cond
  exec_vec_float_test f s =
      let instr = imm 2 s in
      let s' = skip 2 s in
      let e = s'.vm.elem_len in
      let c =
        count_loop (f (float_type e)) (float_width e) (reg_addr (dst_of instr) s')
          (reg_addr (src_of instr) s') s'.vm.vec_len 0 s'.mem 0 in
      next (set_cond (c == s'.vm.vec_len) s')

  unfoldable pub exec_vfneg : Handler
  unfolding imm skip vec_loop
  exec_vfneg s =
      let regid = imm 1 s in
      let s' = skip 1 s in
      let e = s'.vm.elem_len in
      next (record s' {
        mem =
            vec_loop (λ a _. (float_type e).fneg a) (float_width e) (reg_addr regid s')
              (reg_addr regid s') s'.vm.vec_len 0 s'.mem;
      })

  unfoldable pub exec_vfadd : Handler
  unfolding exec_vec_float
  exec_vfadd = exec_vec_float (λ t. t.fadd)

  unfoldable pub exec_vfsub : Handler
  unfolding exec_vec_float
  exec_vfsub = exec_vec_float (λ t. t.fsub)

  unfoldable pub exec_vfmul : Handler
  unfolding exec_vec_float
  exec_vfmul = exec_vec_float (λ t. t.fmul)

  unfoldable pub exec_vfdiv : Handler
  unfolding exec_vec_float
  exec_vfdiv = exec_vec_float (λ t. t.fdiv)

  unfoldable pub exec_vflt : Handler
  unfolding exec_vec_float_test
  exec_vflt = exec_vec_float_test (λ t. t.flt)

  unfoldable pub exec_vfle : Handler
  unfolding exec_vec_float_test
  exec_vfle = exec_vec_float_test (λ t. t.fle)
