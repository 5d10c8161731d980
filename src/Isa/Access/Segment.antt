-- ===== src/Isa/Access/Segment.antt =====
-- What the address test of the load and store handlers (tagha/tagha.c) admits and what it protects.
use tagha.Base.{
  ℕ, ◌+◌, ◌-◌, ◌/◌, ◌%◌, ◌^◌, ◌≤◌, ◌<◌, ◌≡◌, ◌↔◌, ◌⊎◌, false, arith, Bool-cases, inl, inr, refl,
}
use tagha.Words.{add64, sub64}
use tagha.Mem.{Mem}
use tagha.Mem.Laws.{Outside, store-Outside}
use tagha.State.{err_bad_ptr}
use tagha.Machine.{Machine, Outcome, next, halt, undefined, timeout, imm, skip, reg, throw}
use tagha.Isa.Access.{out_of_bounds, operand_addr, exec_store}

-- The cell lies in the segment from `lower_seg` on, its last cell `mem_bnds_diff` further.
abbrev pub InSegment : Machine → ℕ → Type 0
InSegment s x = (s.lower_seg ≤ x) × (x ≤ s.lower_seg + s.mem_bnds_diff)

-- The segment keeps 8 bytes from both ends of the address space.
abbrev pub SegmentFits : Machine → Type 0
SegmentFits s = (8 ≤ s.lower_seg) × (s.lower_seg + s.mem_bnds_diff + 8 < 2 ^ 64)

-- The test looks at the last byte of an access, and admits exactly the accesses whose last byte
-- lies in the segment. The segment is at least 8 bytes away from both ends of the address space.
pub out_of_bounds_iff :
    (k mem : ℕ) (s : Machine)
    → SegmentFits s
    → (out_of_bounds k mem s ≡ false) ↔ InSegment s ((mem + k) % 2 ^ 64)
unfolding out_of_bounds add64 sub64
out_of_bounds_iff k mem s fits = (λ h. ground arith, λ h. ground arith)

-- An admitted access of `k + 1` bytes does not touch a cell that lies `k` or more below the
-- segment, or above it.
Outside-of_admitted :
    (k mem x : ℕ) (s : Machine)
    → SegmentFits s
    → k < 8
    → out_of_bounds k mem s ≡ false
    → (x + k < s.lower_seg) ⊎ (s.lower_seg + s.mem_bnds_diff < x)
    → Outside (k + 1) mem x
Outside-of_admitted k mem x s fits small ok away i p e =
    let inside = (out_of_bounds_iff k mem s fits).0 ok in omega arith

-- The memory that a handler's outcome leaves, if it has one.
abbrev pub LeavesCell : Mem → ℕ → Outcome → Type 0
LeavesCell m x (next s) = s.mem x ≡ m x
LeavesCell m x (halt s) = s.mem x ≡ m x
LeavesCell m x undefined = ⊥
LeavesCell m x timeout = ⊥

-- A store of `k + 1` bytes, up to 8, changes no cell above the segment and none that lies more than
-- `k` cells below it, whatever the pointer and the offset are. The segment is at least 8 bytes away
-- from both ends of the address space.
pub exec_store-LeavesCell :
    (k x : ℕ) (s : Machine)
    → SegmentFits s
    → k < 8
    → (x + k < s.lower_seg) ⊎ (s.lower_seg + s.mem_bnds_diff < x)
    → LeavesCell s.mem x (exec_store (k + 1) s)
unfolding exec_store
exec_store-LeavesCell k x s fits small away =
    let instr = imm 4 s in
    let s' = skip 4 s in
    let mem = operand_addr (instr % 256) instr s' in
    let e : k + 1 - 1 ≡ k = omega arith in
    elim (Bool-cases (out_of_bounds (k + 1 - 1) mem s')) [
      | inl bad ↦ rw (bad, exec_store) refl
      | inr ok ↦
          rw (ok, exec_store)
            (store-Outside (k + 1) s.mem mem (reg (instr / 256 % 256) s' % 256 ^ (k + 1)) x
              (Outside-of_admitted k mem x s' fits small (rw e at ok) away))
    ]

-- A store of `k + 1` bytes whose last byte is outside the segment halts the run with
-- TaghaErrBadPtr, and leaves memory. The segment is at least 8 bytes away from both ends of the
-- address space.
pub exec_store_refused :
    (k : ℕ) (s : Machine)
    → SegmentFits s
    → ¬ InSegment s ((operand_addr (imm 4 s % 256) (imm 4 s) (skip 4 s) + k) % 2 ^ 64)
    → exec_store (k + 1) s ≡ throw err_bad_ptr (skip 4 s)
unfolding exec_store
exec_store_refused k s fits out =
    let instr = imm 4 s in
    let s' = skip 4 s in
    let mem = operand_addr (instr % 256) instr s' in
    let e : k + 1 - 1 ≡ k = omega arith in
    elim (Bool-cases (out_of_bounds (k + 1 - 1) mem s')) [
      | inl bad ↦ rw (bad, exec_store) refl
      | inr ok ↦ absurd (out ((out_of_bounds_iff k mem s' fits).0 (rw e at ok)))
    ]
