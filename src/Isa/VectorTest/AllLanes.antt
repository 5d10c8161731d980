-- ===== src/Isa/VectorTest/AllLanes.antt =====
-- What the vector comparisons of tagha/tagha.c decide about their lanes.
use tagha.Base.{
  ℕ, zero, suc, ◌+◌, ◌≤◌, ◌<◌, ◌≡◌, ◌↔◌, ◌∙◌, ap, refl, subst, arith, Bool, true, Bool-cases, inl,
  inr, ◌==◌, ==→eq, eq→==,
}
use tagha.Mem.{Mem, load}
use tagha.Machine.{Machine, next, imm, skip, reg_addr, dst_of, src_of}
use tagha.Isa.Vector.{elem_width, lane_addr}
use tagha.Isa.Vector.Lanes.{IsWidth, elem_width-IsWidth, dst_lanes, src_lanes, le-split}
use tagha.Isa.Compare.{set_cond}
use tagha.Isa.Compare.Signed.{flag_iff}
use tagha.Isa.VectorTest.{count_loop, exec_vec_test}

-- The test holds on the two lanes `j`.
abbrev pub LanePasses : (ℕ → ℕ → Bool) → ℕ → ℕ → ℕ → Mem → ℕ → Type 0
LanePasses f w d s m j = f (load w m (lane_addr w d j)) (load w m (lane_addr w s j)) ≡ true

module _ (f : ℕ → ℕ → Bool) (w d s : ℕ) (m : Mem) where
  count_loop-le : (n i c : ℕ) → count_loop f w d s n i m c ≤ c + n
  unfolding count_loop
  count_loop-le zero i c = omega arith
  count_loop-le (suc n) i c =
      elim (Bool-cases (f (load w m (lane_addr w d i)) (load w m (lane_addr w s i)))) [
        | inl e ↦ rw e (let le = count_loop-le n (i + 1) (c + 1) in omega arith)
        | inr e ↦ rw e (let le = count_loop-le n (i + 1) (c + 0) in omega arith)
      ]

  count_loop-all :
      (n i c : ℕ)
      → count_loop f w d s n i m c ≡ c + n
      → (j : ℕ) → i ≤ j
      → j < i + n
      → LanePasses f w d s m j
  unfolding count_loop
  count_loop-all zero i c e j lo hi = absurd (omega arith)
  count_loop-all (suc n) i c e j lo hi =
      elim (Bool-cases (f (load w m (lane_addr w d i)) (load w m (lane_addr w s i)))) [
        | inl t ↦
            let e' : count_loop f w d s n (i + 1) m (c + 1) ≡ c + suc n = rw t at e in
            elim (le-split i j lo) [
              | inl same ↦ subst (LanePasses f w d s m) same t
              | inr below ↦
                  count_loop-all n (i + 1) (c + 1) (omega arith) j (omega arith) (omega arith)
            ]
        | inr t ↦
            let e' : count_loop f w d s n (i + 1) m (c + 0) ≡ c + suc n = rw t at e in
            let le = count_loop-le n (i + 1) (c + 0) in absurd (omega arith)
      ]

  count_loop-full :
      (n i c : ℕ)
      → ((j : ℕ) → i ≤ j → j < i + n → LanePasses f w d s m j)
      → count_loop f w d s n i m c ≡ c + n
  unfolding count_loop
  count_loop-full zero i c all = omega arith
  count_loop-full (suc n) i c all = rw (all i (omega arith) (omega arith)) (
      let rest = count_loop-full n (i + 1) (c + 1) (λ j p q. all j (omega arith) (omega arith)) in
      omega arith)

-- The test holds on the lanes of `w` bytes of the instruction at the pointer.
abbrev pub LanesPass : (ℕ → ℕ → ℕ → Bool) → ℕ → Machine → Type 0
LanesPass f w s =
    (j : ℕ) → j < s.vm.vec_len → LanePasses (f w) w (dst_lanes s) (src_lanes s) s.mem j

-- A comparison of integer vectors lane by lane (vilt, vile, vult and vule, each with its test) goes
-- on to the next instruction with `cond` 1 exactly when the test holds on every one of the
-- `vec_len` lanes of `elem_len` bytes, where `elem_len` is 1, 2, 4 or 8.
pub exec_vec_test-all_lanes :
    (f : ℕ → ℕ → ℕ → Bool) (w : ℕ) (s : Machine)
    → IsWidth w
    → s.vm.elem_len ≡ w
    → (t : Machine) × (exec_vec_test f s ≡ next t) × ((t.vm.cond ≡ 1) ↔ LanesPass f w s)
unfolding exec_vec_test set_cond
exec_vec_test-all_lanes f w s width len =
    let same : elem_width s.vm.elem_len ≡ w = ap elem_width len ∙ elem_width-IsWidth w width in
    let d = reg_addr (dst_of (imm 2 s)) s in
    let a = reg_addr (src_of (imm 2 s)) s in
    let n = s.vm.vec_len in
    let c = count_loop (f w) w d a n 0 s.mem 0 in
    (
      set_cond (c == n) (skip 2 s),
      rw same refl,
      (
        λ h j hj.
            let e = ==→eq c n ((flag_iff (c == n)).0 h) in
            count_loop-all (f w) w d a s.mem n 0 0 (omega arith) j (omega arith) (omega arith),
        λ all.
            let e = count_loop-full (f w) w d a s.mem n 0 0 (λ j p q. all j (omega arith)) in
            (flag_iff (c == n)).1 (eq→== c n (omega arith)),
      ),
    )
