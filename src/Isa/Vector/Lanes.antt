-- ===== src/Isa/Vector/Lanes.antt =====
-- The lanes of an integer vector instruction of tagha/tagha.c, each on its own.
use tagha.Base.{
  ℕ, zero, suc, ◌+◌, ◌*◌, ◌%◌, ◌^◌, ◌<◌, ◌≤◌, ◌≡◌, ◌⊎◌, ◌∙◌, refl, ap, ap₂, subst, arith, inl, inr,
}
use tagha.Mem.{Mem, load, store}
use tagha.Mem.Laws.{Outside, store-Outside, load-store-mod, load-store-Apart, load-agree, Apart}
use tagha.Machine.{Machine, next, imm, skip, reg_addr, dst_of, src_of}
use tagha.Isa.Vector.{elem_width, vec_loop, lane_addr, exec_vec}

lane_below : (w i j : ℕ) → i < j → w * i + w ≤ w * j
lane_below w i j h = grind arith

-- Lanes `i` to `i + n - 1` away from a cell: the loop leaves the cell.
vec_loop-away :
    (f : ℕ → ℕ → ℕ) (w d s n i x : ℕ) (m : Mem)
    → ((j : ℕ) → i ≤ j → j < i + n → Outside w (lane_addr w d j) x)
    → vec_loop f w d s n i m x ≡ m x
unfolding vec_loop
vec_loop-away f w d s zero i x m away = refl
vec_loop-away f w d s (suc n) i x m away =
    vec_loop-away f w d s n (i + 1) x _ (λ j p q. away j (omega arith) (omega arith))
    ∙ store-Outside w m (lane_addr w d i) _ x (away i (omega arith) (omega arith))

-- Destination and source are the same vector, or they share no byte; both lie in the address space.
abbrev pub LanesFit : ℕ → ℕ → ℕ → ℕ → Type 0
LanesFit w d s n =
    (d + w * n < 2 ^ 64) × (s + w * n < 2 ^ 64) × ((d ≡ s) ⊎ (d + w * n ≤ s) ⊎ (s + w * n ≤ d))

lane_inside : (w i k : ℕ) → i < k → w * i + w ≤ w * k
lane_inside w i k h = grind arith

pub le-split : (i j : ℕ) → i ≤ j → (i ≡ j) ⊎ (i < j)
le-split i j h = ground arith

-- Two ranges of `w` bytes below the end of the address space, one wholly before the other.
before-Apart : (w a b : ℕ) → a + w ≤ b → b + w ≤ 2 ^ 64 → Apart w a w b
before-Apart w a b h k p q hp hq e = omega arith

after-Apart : (w a b : ℕ) → b + w ≤ a → a + w ≤ 2 ^ 64 → Apart w a w b
after-Apart w a b h k p q hp hq e = omega arith

-- A later lane of either vector is apart from an earlier lane of the destination.
source-Apart :
    (w d s k i j : ℕ)
    → LanesFit w d s k
    → i < j
    → j < k
    → Apart w (lane_addr w s j) w (lane_addr w d i)
source-Apart w d s k i j (fd, fs, inl e) h hi =
    let a = lane_below w i j h in
    let b = lane_inside w j k hi in
    after-Apart w (lane_addr w s j) (lane_addr w d i) (omega arith) (omega arith)
source-Apart w d s k i j (fd, fs, inr (inl e)) h hi =
    let a = lane_below w i j h in
    let b = lane_inside w j k hi in
    after-Apart w (lane_addr w s j) (lane_addr w d i) (omega arith) (omega arith)
source-Apart w d s k i j (fd, fs, inr (inr e)) h hi =
    let a = lane_below w i j h in
    let b = lane_inside w j k hi in
    before-Apart w (lane_addr w s j) (lane_addr w d i) (omega arith) (omega arith)

module _ (f : ℕ → ℕ → ℕ) (w : ℕ) (small : w ≤ 8) where
  -- The lane that is written first keeps its result to the end.
  vec_loop-first_lane :
      (d s k n i : ℕ) (m : Mem)
      → LanesFit w d s k
      → i + suc n ≡ k
      → load w (vec_loop f w d s (suc n) i m) (lane_addr w d i)
        ≡ f (load w m (lane_addr w d i)) (load w m (lane_addr w s i)) % 256 ^ w
  unfolding vec_loop
  vec_loop-first_lane d s k n i m fit e =
      let v = f (load w m (lane_addr w d i)) (load w m (lane_addr w s i)) in
      let m1 = store w m (lane_addr w d i) v in
      load-agree w m1 (vec_loop f w d s n (i + 1) m1) (lane_addr w d i) (λ p hp.
        vec_loop-away f w d s n (i + 1) ((lane_addr w d i + p) % 2 ^ 64) m1 (λ q lo hi r hr.
          let a = lane_below w i q (omega arith) in
          let b = lane_inside w q k (omega arith) in
          let g = fit.0 in
          before-Apart w (lane_addr w d i) (lane_addr w d q) (omega arith) (omega arith) p r hp hr))
      ∙ load-store-mod w m (lane_addr w d i) v small

  vec_loop-lane_at :
      (d s k n i j : ℕ) (m : Mem)
      → LanesFit w d s k
      → i + n ≡ k
      → i ≤ j
      → j < k
      → load w (vec_loop f w d s n i m) (lane_addr w d j)
        ≡ f (load w m (lane_addr w d j)) (load w m (lane_addr w s j)) % 256 ^ w
  unfolding vec_loop
  vec_loop-lane_at d s k zero i j m fit e lo hi = absurd (omega arith)
  vec_loop-lane_at d s k (suc n) i j m fit e lo hi =
      let v = f (load w m (lane_addr w d i)) (load w m (lane_addr w s i)) in
      let m1 = store w m (lane_addr w d i) v in
      elim (le-split i j lo) [
        | inl same ↦
            subst
              (λ q.
                load w (vec_loop f w d s (suc n) i m) (lane_addr w d q)
                ≡ f (load w m (lane_addr w d q)) (load w m (lane_addr w s q)) % 256 ^ w)
              same (vec_loop-first_lane d s k n i m fit e)
        | inr below ↦
            vec_loop-lane_at d s k n (i + 1) j m1 fit (omega arith) (omega arith) hi
            ∙ ap₂ (λ a b. f a b % 256 ^ w)
                (load-store-Apart w m (lane_addr w d j) w (lane_addr w d i) v
                  (source-Apart w d d k i j (fit.0, fit.0, inl refl) below hi))
                (load-store-Apart w m (lane_addr w s j) w (lane_addr w d i) v
                  (source-Apart w d s k i j fit below hi))
      ]

-- The widths of integers in C.
abbrev pub IsWidth : ℕ → Type 0
IsWidth w = (w ≡ 1) ⊎ (w ≡ 2) ⊎ (w ≡ 4) ⊎ (w ≡ 8)

pub elem_width-IsWidth : (w : ℕ) → IsWidth w → elem_width w ≡ w
unfolding elem_width
elem_width-IsWidth w h = ground arith

-- The lanes of the operands at the pointer: where they begin in the register that is written, and
-- in the one that is read.
abbrev pub dst_lanes : Machine → ℕ
dst_lanes s = reg_addr (dst_of (imm 2 s)) s

abbrev pub src_lanes : Machine → ℕ
src_lanes s = reg_addr (src_of (imm 2 s)) s

-- An integer vector instruction whose operation is defined on all operands (vadd, vsub, vmul, vand,
-- vor and vxor, each with its operation) goes on to the next instruction with every one of the
-- `vec_len` lanes of the destination the operation on the two lanes as they were before, cut to
-- the width of a lane, where `elem_len` is 1, 2, 4 or 8, and both vectors lie in the address space
-- and are the same or share no byte.
pub exec_vec-lane :
    (f : ℕ → ℕ → ℕ → ℕ) (w j : ℕ) (s : Machine)
    → IsWidth w
    → s.vm.elem_len ≡ w
    → LanesFit w (dst_lanes s) (src_lanes s) s.vm.vec_len
    → j < s.vm.vec_len
    → (t : Machine) × (exec_vec f s ≡ next t)
      × (load w t.mem (lane_addr w (dst_lanes s) j)
          ≡ f w
              (load w s.mem (lane_addr w (dst_lanes s) j))
              (load w s.mem (lane_addr w (src_lanes s) j))
            % 256 ^ w)
unfolding exec_vec skip
exec_vec-lane f w j s width len fit h =
    let same : elem_width s.vm.elem_len ≡ w = ap elem_width len ∙ elem_width-IsWidth w width in
    let n = s.vm.vec_len in
    (
      record (skip 2 s) { mem = vec_loop (f w) w (dst_lanes s) (src_lanes s) n 0 s.mem },
      rw same refl,
      vec_loop-lane_at (f w) w (ground arith) (dst_lanes s) (src_lanes s) n n 0 j s.mem fit
          (omega arith) (omega arith) h,
    )
