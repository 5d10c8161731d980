-- ===== src/Exec/FootprintVector.antt =====
-- The cells that the vector instructions of tagha/tagha.c can change.
use tagha.Base.{
  ℕ, zero, suc, ◌+◌, ◌*◌, ◌/◌, ◌%◌, ◌^◌, ◌≤◌, ◌<◌, ◌≡◌, ◌∙◌, ◌&&◌, arith, refl, Option, none, some,
  inl, inr, Bool-cases, Option-cases, ltb, ◌==◌, if◌then◌else◌,
}
use tagha.Mem.{Mem, load, store, copy, poke}
use tagha.Mem.Laws.{poke-ne, Outside, Outside-tail, store-Outside, load-lt}
use tagha.Machine.{Machine, imm, reg_addr}
use tagha.Isa.Vector.{
  vec_loop, vec_loop?, exec_vec, exec_vec?, exec_vec_unary, exec_vmov, elem_width, lane_addr,
}
use tagha.Isa.Float.{FloatType, Floats}
use tagha.Isa.VectorFloat.{float_type, exec_vec_float, exec_vfneg}
use tagha.Exec.Footprint.{IsAway, Spares, Outside-of_reach}

module _ (x : ℕ) where
  -- Lanes `i` to `i + n - 1` of `w` bytes from `d` on.
  abbrev LanesAway : ℕ → ℕ → ℕ → Type 0
  LanesAway w d n = (i : ℕ) → i < n → Outside w (lane_addr w d i) x

  vec_loop-cell :
      (f : ℕ → ℕ → ℕ) (w d s n i k : ℕ) (m : Mem)
      → i + n ≡ k
      → LanesAway w d k
      → vec_loop f w d s n i m x ≡ m x
  unfolding vec_loop
  vec_loop-cell f w d s zero i k m e away = refl
  vec_loop-cell f w d s (suc n) i k m e away =
      vec_loop-cell f w d s n (i + 1) k _ (omega arith) away
      ∙ store-Outside w m (lane_addr w d i) _ x (away i (omega arith))

  vec_loop?-cell :
      (f : ℕ → ℕ → Option ℕ) (w d s n i k : ℕ) (m : Mem) {m' : Mem}
      → i + n ≡ k
      → LanesAway w d k
      → vec_loop? f w d s n i m ≡ some m'
      → m' x ≡ m x
  unfolding vec_loop?
  vec_loop?-cell f w d s zero i k m e away h = ground arith
  vec_loop?-cell f w d s (suc n) i k m {m'} e away h =
      elim (Option-cases (f (load w m (lane_addr w d i)) (load w m (lane_addr w s i)))) [
        | inl q ↦
            let bad : ◌≡◌ {A = Option Mem} none (some m') = rw (q, vec_loop?) at h in absurd cc
        | inr (v, q) ↦
            vec_loop?-cell f w d s n (i + 1) k (store w m (lane_addr w d i) v) (omega arith) away
              (rw (q, vec_loop?) at h)
            ∙ store-Outside w m (lane_addr w d i) v x (away i (omega arith))
      ]

  copy-cell : (n : ℕ) (old m : Mem) (d a : ℕ) → Outside n d x → copy n old m d a x ≡ m x
  unfolding copy
  copy-cell zero old m d a away = refl
  copy-cell (suc n) old m d a away =
      copy-cell n old (poke m d (old (a % 2 ^ 64) % 256)) (d + 1) (a + 1) (Outside-tail n d x away)
      ∙ poke-ne m d (old (a % 2 ^ 64) % 256) x (λ e. away 0 (omega arith) (omega arith))

  mul-le_eight : (w i : ℕ) → w ≤ 8 → w * i ≤ 8 * i
  mul-le_eight w i h = grind arith

  -- Every lane of a vector that begins at a register is within reach.
  lanes-away :
      (w r : ℕ) (s : Machine)
      → IsAway x s
      → w ≤ 8
      → r < 256
      → LanesAway w (reg_addr r s) s.vm.vec_len
  lanes-away w r s away small low i p j q e =
      away.registers (8 * r + (w * i + j)) (omega (arith, mul-le_eight w i small, away.vec_len))
        (omega arith)

  elem_width-le : (e : ℕ) → elem_width e ≤ 8
  unfolding elem_width
  elem_width-le e = ground arith

  pub exec_vec-Spares : (f : ℕ → ℕ → ℕ → ℕ) → Spares x (exec_vec f)
  unfolding exec_vec
  exec_vec-Spares f s away =
      let w = elem_width (s.vm.elem_len) in
      vec_loop-cell (f w) w _ _ s.vm.vec_len 0 s.vm.vec_len s.mem (omega arith)
        (lanes-away w (imm 2 s % 256) s away (elem_width-le s.vm.elem_len) (omega arith))

  pub exec_vec_unary-Spares : (f : ℕ → ℕ → ℕ) → Spares x (exec_vec_unary f)
  unfolding exec_vec_unary
  exec_vec_unary-Spares f s away =
      let w = elem_width (s.vm.elem_len) in
      vec_loop-cell (λ a _. f w a) w (reg_addr (imm 1 s) s) (reg_addr (imm 1 s) s) s.vm.vec_len 0
        s.vm.vec_len s.mem (omega arith)
        (lanes-away w (imm 1 s) s away (elem_width-le s.vm.elem_len) (load-lt 1 s.mem s.ip))

  pub exec_vec?-Spares : (f : ℕ → ℕ → ℕ → Option ℕ) → Spares x (exec_vec? f)
  unfolding exec_vec?
  exec_vec?-Spares f s away =
      let w = elem_width (s.vm.elem_len) in
      let d = reg_addr (imm 2 s % 256) s in
      let a = reg_addr (imm 2 s / 256) s in
      elim (Option-cases (vec_loop? (f w) w d a s.vm.vec_len 0 s.mem)) [
        | inl e ↦ rw (e, exec_vec?) tt
        | inr (m, e) ↦
            rw (e, exec_vec?)
              (vec_loop?-cell (f w) w d a s.vm.vec_len 0 s.vm.vec_len s.mem (omega arith)
                (lanes-away w (imm 2 s % 256) s away (elem_width-le s.vm.elem_len) (omega arith)) e)
      ]

  float_width-le : (e : ℕ) → (if e == 4 then 4 else 8) ≤ 8
  float_width-le e = ground arith

  pub exec_vec_float-Spares :
      (fl : Floats) (f : FloatType → ℕ → ℕ → ℕ) → Spares x (exec_vec_float fl f)
  unfolding exec_vec_float
  exec_vec_float-Spares fl f s away =
      let w : ℕ = if s.vm.elem_len == 4 then 4 else 8 in
      vec_loop-cell (f (float_type fl s.vm.elem_len)) w (reg_addr (imm 2 s % 256) s)
        (reg_addr (imm 2 s / 256) s) s.vm.vec_len 0 s.vm.vec_len s.mem (omega arith)
        (lanes-away w (imm 2 s % 256) s away (float_width-le s.vm.elem_len) (omega arith))

  pub exec_vfneg-Spares : (fl : Floats) → Spares x (exec_vfneg fl)
  unfolding exec_vfneg
  exec_vfneg-Spares fl s away =
      let w : ℕ = if s.vm.elem_len == 4 then 4 else 8 in
      vec_loop-cell (λ a _. (float_type fl s.vm.elem_len).fneg a) w (reg_addr (imm 1 s) s)
        (reg_addr (imm 1 s) s) s.vm.vec_len 0 s.vm.vec_len s.mem (omega arith)
        (lanes-away w (imm 1 s) s away (float_width-le s.vm.elem_len) (load-lt 1 s.mem s.ip))

  bytes-le_reach : (v e : ℕ) → v < 2 ^ 16 → e < 2 ^ 8 → v * e ≤ 2 ^ 24
  bytes-le_reach v e hv he = grind arith

  pub exec_vmov-Spares : Spares x exec_vmov
  unfolding exec_vmov
  exec_vmov-Spares s away =
      let d = reg_addr (imm 2 s % 256) s in
      let a = reg_addr (imm 2 s / 256) s in
      let n = s.vm.vec_len * s.vm.elem_len in
      elim (Bool-cases (ltb d (a + n) && ltb a (d + n))) [
        | inl e ↦ rw (e, exec_vmov) tt
        | inr e ↦
            rw (e, exec_vmov)
              (copy-cell n s.mem s.mem d a (
                Outside-of_reach x n (8 * (imm 2 s % 256)) s away (
                  omega
                    (arith, bytes-le_reach s.vm.vec_len s.vm.elem_len away.vec_len away.elem_len))))
      ]
