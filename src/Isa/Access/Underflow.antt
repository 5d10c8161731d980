-- ===== src/Isa/Access/Underflow.antt =====
-- Accesses of several bytes that begin below the segment (tagha/tagha.c tests their last byte only).
use tagha.Base.{ℕ, suc, ◌+◌, ◌-◌, ◌/◌, ◌%◌, ◌^◌, ◌≤◌, ◌<◌, ◌≡◌, false, arith, refl, ◌∙◌}
use native.Mathlib.Nat.{pow-suc, mod-mod_of_dvd, dvd-mul_left}
use tagha.Words.{add64, sub64}
use tagha.Mem.{Mem, poke, store}
use tagha.Mem.Laws.{store-Outside}
use tagha.Machine.{Machine, next, imm, skip, reg}
use tagha.Isa.Access.{out_of_bounds, operand_addr, exec_store}
use tagha.Isa.Access.Segment.{SegmentFits}

store-first : (k : ℕ) (m : Mem) (a v : ℕ) → k < 8 → a < 2 ^ 64 → store (suc k) m a v a ≡ v % 256
unfolding store
store-first k m a v small fit =
    store-Outside k (poke m a (v % 256)) (a + 1) (v / 256) a (λ i p e. omega arith) ∙ ground arith

mod_256_of_mod : (k v : ℕ) → v % 256 ^ suc k % 256 ≡ v % 256
mod_256_of_mod k v = mod-mod_of_dvd 256 v (rw pow-suc (dvd-mul_left 256 (256 ^ k)))

-- The test does not protect the cells just below the segment: a store of `k + 1` bytes, with `k`
-- from 1 to 7, to an address that is `d` below the segment, with `d` from 1 to `k`, goes on and
-- puts the register's low byte there. The segment has more than `k - d` bytes and is at least 8
-- bytes away from both ends of the address space.
pub exec_store-below_segment :
    (k d : ℕ) (s : Machine)
    → SegmentFits s
    → k < 8
    → 0 < d
    → d ≤ k
    → k ≤ d + s.mem_bnds_diff
    → operand_addr (imm 4 s % 256) (imm 4 s) (skip 4 s) ≡ s.lower_seg - d
    → (s' : Machine) × (exec_store (suc k) s ≡ next s')
      × (s'.mem (s.lower_seg - d) ≡ reg (imm 4 s / 256 % 256) (skip 4 s) % 256)
unfolding exec_store out_of_bounds add64 sub64
exec_store-below_segment k d s fits small pos near long at =
    let instr = imm 4 s in
    let s' = skip 4 s in
    let a = operand_addr (instr % 256) instr s' in
    let v = reg (instr / 256 % 256) s' % 256 ^ suc k in
    let ok : out_of_bounds (suc k - 1) a s' ≡ false = ground (arith, at) in
    (
      record s' { mem = store (suc k) s.mem a v },
      rw (ok, exec_store) refl,
      rw (← at) (store-first k s.mem a v small (omega arith) ∙ mod_256_of_mod k _),
    )
