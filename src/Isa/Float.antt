-- ===== src/Isa/Float.antt =====
-- The floating point instructions of tagha/tagha.c, with both float types enabled as in
-- tagha/tagha.h. The arithmetic of the C compiler is a parameter, on bit patterns.
use tagha.Base.{ℕ, Bool}
use tagha.Mem.{load, store}
use tagha.Machine.{Machine, next, Handler, imm, skip, reg, set_reg, reg_addr}
use tagha.Isa.Arith.{exec_binary, exec_unary}
use tagha.Isa.Compare.{exec_test}

-- One float type: what C computes on the patterns of its values.
pub record FloatType : Type 0 where
  pub fadd : ℕ → ℕ → ℕ
  pub fsub : ℕ → ℕ → ℕ
  pub fmul : ℕ → ℕ → ℕ
  pub fdiv : ℕ → ℕ → ℕ
  pub fneg : ℕ → ℕ
  pub flt : ℕ → ℕ → Bool
  pub fle : ℕ → ℕ → Bool

-- float32_t, float64_t and the conversions, those of 64-bit integers included
pub record Floats : Type 0 where
  pub float32 : FloatType
  pub float64 : FloatType
  pub f32_to_f64 : ℕ → ℕ
  pub f64_to_f32 : ℕ → ℕ
  pub int_to_f64 : ℕ → ℕ
  pub int_to_f32 : ℕ → ℕ
  pub f64_to_int : ℕ → ℕ
  pub f32_to_int : ℕ → ℕ

-- The register is cleared, then the 4 bytes of the float are written.
unfoldable pub set_float32 : ℕ → ℕ → Machine → Machine
unfolding set_reg
set_float32 regid f s =
    let s' = set_reg regid 0 s in record s' { mem = store 4 s'.mem (reg_addr regid s') f }

module _ (fl : Floats) where
  unfoldable pub exec_fadd : Handler
  unfolding exec_binary
  exec_fadd = exec_binary (fl.float64.fadd)

  unfoldable pub exec_fsub : Handler
  unfolding exec_binary
  exec_fsub = exec_binary (fl.float64.fsub)

  unfoldable pub exec_fmul : Handler
  unfolding exec_binary
  exec_fmul = exec_binary (fl.float64.fmul)

  unfoldable pub exec_fdiv : Handler
  unfolding exec_binary
  exec_fdiv = exec_binary (fl.float64.fdiv)

  unfoldable pub exec_fneg : Handler
  unfolding exec_unary
  exec_fneg = exec_unary (fl.float64.fneg)

  unfoldable pub exec_flt : Handler
  unfolding exec_test
  exec_flt = exec_test (fl.float64.flt)

  unfoldable pub exec_fle : Handler
  unfolding exec_test
  exec_fle = exec_test (fl.float64.fle)

  unfoldable pub exec_f32tof64 : Handler
  unfolding imm skip set_reg
  exec_f32tof64 s =
      let regid = imm 1 s in
      let s' = skip 1 s in
      next (set_reg regid (fl.f32_to_f64 (load 4 s'.mem (reg_addr regid s'))) s')

  unfoldable pub exec_f64tof32 : Handler
  unfolding imm skip reg set_float32
  exec_f64tof32 s =
      let regid = imm 1 s in
      let s' = skip 1 s in next (set_float32 regid (fl.f64_to_f32 (reg regid s')) s')

  unfoldable pub exec_itof64 : Handler
  unfolding exec_unary
  exec_itof64 = exec_unary (fl.int_to_f64)

  unfoldable pub exec_itof32 : Handler
  unfolding imm skip reg set_float32
  exec_itof32 s =
      let regid = imm 1 s in
      let s' = skip 1 s in next (set_float32 regid (fl.int_to_f32 (reg regid s')) s')

  unfoldable pub exec_f64toi : Handler
  unfolding exec_unary
  exec_f64toi = exec_unary (fl.f64_to_int)

  unfoldable pub exec_f32toi : Handler
  unfolding imm skip set_reg
  exec_f32toi s =
      let regid = imm 1 s in
      let s' = skip 1 s in
      next (set_reg regid (fl.f32_to_int (load 4 s'.mem (reg_addr regid s'))) s')
