-- ===== src/Isa/Compare/Signed.antt =====
-- What the signed comparisons of tagha/tagha.c decide, as an order of integers.
use tagha.Base.{ℕ, ◌^◌, ◌<◌, ◌≡◌, ◌↔◌, refl, arith, Bool, true, false, if◌then◌else◌}
use tagha.Words.{lane_ilt, lane_ile}
use tagha.Words.Signed.{ℤ, signed, ◌<ℤ◌, ◌≤ℤ◌, lane_ilt-signed, lane_ile-signed}
use tagha.Mem.Laws.{load-lt}
use tagha.Machine.{Machine, next, imm, skip, reg, reg_addr, dst_of, src_of}
use tagha.Isa.Compare.{set_cond, exec_test, exec_ilt, exec_ile}

-- The registers of the instruction at the pointer.
abbrev pub dst_int : Machine → ℤ
dst_int s = signed 8 (reg (dst_of (imm 2 s)) (skip 2 s))

abbrev pub src_int : Machine → ℤ
src_int s = signed 8 (reg (src_of (imm 2 s)) (skip 2 s))

reg-lt : (r : ℕ) (s : Machine) → reg r s < 2 ^ 64
unfolding reg
reg-lt r s = load-lt 8 s.mem (reg_addr r s)

abbrev pub flag : Bool → ℕ
flag b = if b then 1 else 0

pub flag_iff : (b : Bool) → (flag b ≡ 1) ↔ (b ≡ true)
flag_iff true = (λ _. refl, λ _. refl)
flag_iff false = (λ h. absurd (omega arith), λ h. cc)

exec_test-cond :
    (f : ℕ → ℕ → Bool) (s : Machine) {P : Type 0}
    → ((f (reg (dst_of (imm 2 s)) (skip 2 s)) (reg (src_of (imm 2 s)) (skip 2 s)) ≡ true) ↔ P)
    → (t : Machine) × (exec_test f s ≡ next t) × ((t.vm.cond ≡ 1) ↔ P)
unfolding exec_test set_cond
exec_test-cond f s h =
    let b = f (reg (dst_of (imm 2 s)) (skip 2 s)) (reg (src_of (imm 2 s)) (skip 2 s)) in
    (set_cond b (skip 2 s), refl, (λ e. h.0 ((flag_iff b).0 e), λ p. (flag_iff b).1 (h.1 p)))

-- ILT goes on to the next instruction with `cond` 1 exactly when the integer that the destination
-- register's 64 bits stand for in two's complement is less than the source register's.
pub exec_ilt-signed :
    (s : Machine)
    → (t : Machine) × (exec_ilt s ≡ next t) × ((t.vm.cond ≡ 1) ↔ (dst_int s <ℤ src_int s))
unfolding exec_ilt
exec_ilt-signed s = exec_test-cond (lane_ilt 8) s (
    lane_ilt-signed _ _ (reg-lt (dst_of (imm 2 s)) (skip 2 s))
      (reg-lt (src_of (imm 2 s)) (skip 2 s)))

-- ILE goes on to the next instruction with `cond` 1 exactly when the integer that the destination
-- register's 64 bits stand for in two's complement is at most the source register's.
pub exec_ile-signed :
    (s : Machine)
    → (t : Machine) × (exec_ile s ≡ next t) × ((t.vm.cond ≡ 1) ↔ (dst_int s ≤ℤ src_int s))
unfolding exec_ile
exec_ile-signed s = exec_test-cond (lane_ile 8) s (
    lane_ile-signed _ _ (reg-lt (dst_of (imm 2 s)) (skip 2 s))
      (reg-lt (src_of (imm 2 s)) (skip 2 s)))
