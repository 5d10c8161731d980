-- ===== src/Isa/Access/Extend.antt =====
-- The value that a sign-extending load of tagha/tagha.c leaves in its register.
use tagha.Base.{ℕ, ◌-◌, ◌/◌, ◌%◌, ◌^◌, ◌<◌, ◌≡◌, ◌∙◌, ap, arith, false, if◌then◌else◌}
use tagha.Words.{sext}
use tagha.Words.Signed.{signed, IsNarrow, sext-signed, sext-lt}
use tagha.Mem.{load}
use tagha.Mem.Laws.{load-lt, load-store}
use tagha.Machine.{Machine, next, imm, skip, reg, set_reg, reg_addr, throw}
use tagha.State.{err_bad_ptr}
use tagha.Isa.Access.{exec_load, operand_addr, out_of_bounds}

-- The address and the register of the 32-bit operand at the instruction pointer.
abbrev pub load_addr : Machine → ℕ
load_addr s = operand_addr (imm 4 s / 256 % 256) (imm 4 s) (skip 4 s)

abbrev pub load_dst : Machine → ℕ
load_dst s = imm 4 s % 256

reg-set_reg : (r v : ℕ) (s : Machine) → v < 2 ^ 64 → reg r (set_reg r v s) ≡ v
unfolding reg set_reg
reg-set_reg r v s h = load-store 8 s.mem (reg_addr r s) v (omega arith) (omega arith)

-- A signed load of 1, 2 or 4 bytes that the bounds test lets through goes on to the next
-- instruction, and the destination register, read as a 64-bit integer in two's complement, is the
-- integer that those bytes of memory stand for.
pub exec_load-signed :
    (n : ℕ) (s : Machine)
    → IsNarrow n
    → out_of_bounds (n - 1) (load_addr s) (skip 4 s) ≡ false
    → (t : Machine) × (exec_load n (sext n) s ≡ next t)
      × (signed 8 (reg (load_dst s) t) ≡ signed n (load n s.mem (load_addr s)))
unfolding exec_load
exec_load-signed n s narrow inside =
    let v = load n s.mem (load_addr s) in
    (
      set_reg (load_dst s) (sext n v) (skip 4 s),
      ap
          (λ b.
            if b
            then throw err_bad_ptr (skip 4 s)
            else next (set_reg (load_dst s) (sext n v) (skip 4 s)))
          inside,
      ap (signed 8) (
            reg-set_reg (load_dst s) (sext n v) (skip 4 s) (sext-lt n v narrow (load-lt n s.mem _)))
          ∙ sext-signed n v narrow (load-lt n s.mem (load_addr s)),
    )
