-- ===== src/Exec/Footprint.antt =====
-- The cells that one instruction of tagha/tagha.c can change, shape by shape.
use tagha.Base.{
  ℕ, ◌+◌, ◌-◌, ◌*◌, ◌/◌, ◌%◌, ◌^◌, ◌≤◌, ◌<◌, ◌≡◌, ◌⊎◌, ◌∙◌, arith, refl, Option, inl, inr,
  Bool-cases, Option-cases,
}
use tagha.Mem.{Mem, store}
use tagha.Mem.Laws.{Outside, store-Outside, load-lt}
use tagha.Machine.{
  Machine, Outcome, next, halt, undefined, timeout, Handler, imm, skip, reg, reg_addr,
}
use tagha.Isa.Stack.{push_lr, exec_alloc, exec_ret, exec_remit}
use tagha.Isa.Move.{exec_movi, exec_mov, exec_lra, exec_lea, exec_ldvar, exec_ldfn, exec_setc}
use tagha.Isa.Access.{exec_load, exec_store, out_of_bounds, operand_addr}
use tagha.Isa.Access.Segment.{SegmentFits, exec_store-LeavesCell, LeavesCell}
use tagha.Isa.Arith.{exec_binary, exec_partial, exec_unary}
use tagha.Isa.Float.{set_float32}
use tagha.Exec.Framed.{Ends}

-- The bytes that register operands and vector lanes can reach above the operand stack pointer:
-- 256 registers, and 2 ^ 16 lanes of less than 2 ^ 8 bytes.
abbrev pub reach : ℕ
reach = 2048 + 2 ^ 24

-- The cell `x` is out of reach of one instruction: it does not lie in the segment nor in the 7
-- cells below it, it is no byte of a register or lane, and it is not in the slot that the next push
-- on the call stack fills.
pub record IsAway (x : ℕ) (s : Machine) : Type 0 where
  pub fits : SegmentFits s
  pub segment : (x + 7 < s.lower_seg) ⊎ (s.lower_seg + s.mem_bnds_diff < x)
  pub registers : Outside reach s.vreg_osp x
  pub call_slot : Outside 8 s.vm.csp x
  pub vec_len : s.vm.vec_len < 2 ^ 16
  pub elem_len : s.vm.elem_len < 2 ^ 8

abbrev pub SameCell : Mem → ℕ → Machine → Type 0
SameCell m x s = s.mem x ≡ m x

-- The handler leaves the cell `x` alone where it is out of reach.
abbrev pub Spares : ℕ → Handler → Type 0
Spares x h = (s : Machine) → IsAway x s → Ends (SameCell s.mem x) (SameCell s.mem x) (h s)

module _ (x : ℕ) where
  pub Outside-of_reach :
      (n off : ℕ) (s : Machine) → IsAway x s → off + n ≤ reach → Outside n (s.vreg_osp + off) x
  Outside-of_reach n off s away fit i p e = away.registers (off + i) (omega arith) (omega arith)

  pub store_reg-cell :
      (n r v : ℕ) (s : Machine)
      → IsAway x s
      → n ≤ 8
      → r < 256
      → store n s.mem (reg_addr r s) v x ≡ s.mem x
  store_reg-cell n r v s away small low =
      store-Outside n s.mem (reg_addr r s) v x (Outside-of_reach n (8 * r) s away (omega arith))

  pub exec_movi-Spares : Spares x exec_movi
  unfolding exec_movi
  exec_movi-Spares s away = store_reg-cell 8 (imm 1 s) _ s away (omega arith) (load-lt 1 s.mem s.ip)

  pub exec_mov-Spares : Spares x exec_mov
  unfolding exec_mov
  exec_mov-Spares s away = store_reg-cell 8 (imm 2 s % 256) _ s away (omega arith) (omega arith)

  pub exec_lra-Spares : Spares x exec_lra
  unfolding exec_lra
  exec_lra-Spares s away = store_reg-cell 8 (imm 1 s) _ s away (omega arith) (load-lt 1 s.mem s.ip)

  pub exec_lea-Spares : Spares x exec_lea
  unfolding exec_lea
  exec_lea-Spares s away = store_reg-cell 8 (imm 4 s % 256) _ s away (omega arith) (omega arith)

  pub exec_setc-Spares : Spares x exec_setc
  unfolding exec_setc
  exec_setc-Spares s away = store_reg-cell 8 (imm 1 s) _ s away (omega arith) (load-lt 1 s.mem s.ip)

  pub exec_ldvar-Spares : Spares x exec_ldvar
  unfolding exec_ldvar
  exec_ldvar-Spares s away = elim (Option-cases s.table_vars) [
    | inl e ↦ rw (e, exec_ldvar) tt
    | inr (t, e) ↦
        rw (e, exec_ldvar)
          (store_reg-cell 8 (imm 1 s) _ s away (omega arith) (load-lt 1 s.mem s.ip))
  ]

  pub exec_ldfn-Spares : Spares x exec_ldfn
  unfolding exec_ldfn
  exec_ldfn-Spares s away = elim (Option-cases s.table_funcs) [
    | inl e ↦ rw (e, exec_ldfn) tt
    | inr (t, e) ↦
        rw (e, exec_ldfn) (store_reg-cell 8 (imm 1 s) _ s away (omega arith) (load-lt 1 s.mem s.ip))
  ]

  pub exec_load-Spares : (n : ℕ) (convert : ℕ → ℕ) → Spares x (exec_load n convert)
  unfolding exec_load
  exec_load-Spares n convert s away =
      let a = operand_addr (imm 4 s / 256 % 256) (imm 4 s) (skip 4 s) in
      elim (Bool-cases (out_of_bounds (n - 1) a (skip 4 s))) [
        | inl e ↦ rw (e, exec_load) refl
        | inr e ↦
            rw (e, exec_load)
              (store_reg-cell 8 (imm 4 s % 256) _ s away (omega arith) (omega arith))
      ]

  LeavesCell→Ends :
      (m : Mem) (o : Outcome) → LeavesCell m x o → Ends (SameCell m x) (SameCell m x) o
  LeavesCell→Ends m (next s) h = h
  LeavesCell→Ends m (halt s) h = h
  LeavesCell→Ends m undefined h = tt
  LeavesCell→Ends m timeout h = tt

  pub exec_store-Spares : (k : ℕ) → k < 8 → Spares x (exec_store (k + 1))
  exec_store-Spares k small s away =
      LeavesCell→Ends s.mem (exec_store (k + 1) s)
        (exec_store-LeavesCell k x s away.fits small (omega (arith, away.segment)))

  pub exec_binary-Spares : (f : ℕ → ℕ → ℕ) → Spares x (exec_binary f)
  unfolding exec_binary
  exec_binary-Spares f s away =
      store_reg-cell 8 (imm 2 s % 256) _ s away (omega arith) (omega arith)

  pub exec_partial-Spares : (f : ℕ → ℕ → Option ℕ) → Spares x (exec_partial f)
  unfolding exec_partial
  exec_partial-Spares f s away =
      let instr = imm 2 s in
      elim (Option-cases (f (reg (instr % 256) (skip 2 s)) (reg (instr / 256) (skip 2 s)))) [
        | inl e ↦ rw (e, exec_partial) tt
        | inr (v, e) ↦
            rw (e, exec_partial)
              (store_reg-cell 8 (imm 2 s % 256) v s away (omega arith) (omega arith))
      ]

  pub exec_unary-Spares : (f : ℕ → ℕ) → Spares x (exec_unary f)
  unfolding exec_unary
  exec_unary-Spares f s away =
      store_reg-cell 8 (imm 1 s) _ s away (omega arith) (load-lt 1 s.mem s.ip)

  pub set_float32-cell :
      (r f : ℕ) (s : Machine) → IsAway x s → r < 256 → (set_float32 r f s).mem x ≡ s.mem x
  unfolding set_float32
  set_float32-cell r f s away low =
      store-Outside 4 (store 8 s.mem (reg_addr r s) 0) (reg_addr r s) f x
        (Outside-of_reach 4 (8 * r) s away (omega arith))
      ∙ store_reg-cell 8 r 0 s away (omega arith) low

  pub exec_alloc-Spares : Spares x exec_alloc
  unfolding exec_alloc
  exec_alloc-Spares s away = ground arith

  pub exec_ret-Spares : Spares x exec_ret
  unfolding exec_ret
  exec_ret-Spares s away = ground arith

  pub exec_remit-Spares : Spares x exec_remit
  unfolding exec_remit
  exec_remit-Spares s away = ground arith

  pub push_lr-cell : (s : Machine) → IsAway x s → (push_lr s).mem x ≡ s.mem x
  unfolding push_lr
  push_lr-cell s away = store-Outside 8 s.mem s.vm.csp s.vm.lr x away.call_slot
