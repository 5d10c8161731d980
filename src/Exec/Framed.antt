-- ===== src/Exec/Framed.antt =====
-- The operand stack pointer of tagha/tagha.c stays inside the operand stack.
use tagha.Base.{ℕ, ◌+◌, ◌^◌, ◌≤◌, ◌<◌, ◌≡◌, arith, Option}
use tagha.Mem.Laws.{load-lt}
use tagha.Words.{add64, sub64}
use tagha.State.{Module}
use tagha.Machine.{
  Machine, Outcome, next, halt, undefined, timeout, Run, returned, stuck, out_of_fuel, Handler, imm,
  skip, exec_halt,
}
use tagha.Isa.Stack.{exec_alloc, redux_osp, exec_redux, exec_ret, exec_remit}
use tagha.Isa.Access.{exec_load, exec_store}
use tagha.Isa.Jump.{exec_jz, exec_jnz}
use tagha.Isa.Move.{exec_ldvar, exec_ldfn}
use tagha.Isa.Arith.{exec_partial}
use tagha.Isa.Vector.{exec_vmov, exec_vec?}

-- How a handler may end: in `P` where the next instruction follows, in `Q` where it returns.
abbrev pub Ends : (P Q : Machine → Type 0) → Outcome → Type 0
Ends P Q (next s) = P s
Ends P Q (halt s) = Q s
Ends P Q undefined = Unit
Ends P Q timeout = Unit

-- The operand stack of `vm` is `size` bytes from `base` on, and `osp` lies in it.
abbrev pub InStack : ℕ → ℕ → Module → ℕ → Type 0
InStack base size vm osp =
    (vm.opstack ≡ base) × (vm.opstack_size ≡ size) × (base ≤ osp) × (osp ≤ base + size)

abbrev pub IsFramed : ℕ → ℕ → Machine → Type 0
IsFramed base size s = InStack base size s.vm s.vreg_osp

-- The same where a run returns: `vm->osp` is the pointer that the caller goes on with.
abbrev pub IsLeft : ℕ → ℕ → Machine → Type 0
IsLeft base size s = InStack base size s.vm s.vm.osp

abbrev pub RunFramed : ℕ → ℕ → Run → Type 0
RunFramed base size (returned vm mem) = InStack base size vm vm.osp
RunFramed base size stuck = Unit
RunFramed base size out_of_fuel = Unit

module _ (base size : ℕ) (above : 2040 ≤ base) (below : base + size + 2040 < 2 ^ 64) where
  abbrev pub Keeps : Handler → Type 0
  Keeps h =
      (s : Machine) → IsFramed base size s → Ends (IsFramed base size) (IsLeft base size) (h s)

  pub exec_alloc-Keeps : Keeps exec_alloc
  unfolding exec_alloc sub64 exec_halt add64
  exec_alloc-Keeps s h = ground (arith, load-lt 1 s.mem s.ip)

  redux_osp-bounds :
      (s : Machine) (cells : ℕ)
      → cells < 256
      → IsFramed base size s
      → (base ≤ redux_osp cells s) × (redux_osp cells s ≤ base + size)
  unfolding redux_osp add64
  redux_osp-bounds s cells c h = ground arith

  pub exec_redux-Keeps : Keeps exec_redux
  unfolding exec_redux
  exec_redux-Keeps s h = ground (arith, load-lt 1 s.mem s.ip, redux_osp-bounds (skip 1 s) (imm 1 s))

  pub exec_ret-Keeps : Keeps exec_ret
  unfolding exec_ret
  exec_ret-Keeps s h = ground arith

  pub exec_remit-Keeps : Keeps exec_remit
  unfolding exec_remit
  exec_remit-Keeps s h =
      let (low, high) = redux_osp-bounds (skip 1 s) (imm 1 s) (load-lt 1 s.mem s.ip) h in
      exec_ret-Keeps (record (skip 1 s) { vreg_osp = redux_osp (imm 1 s) (skip 1 s) })
        (h.0, h.1, low, high)

  pub exec_load-Keeps : (n : ℕ) (convert : ℕ → ℕ) → Keeps (exec_load n convert)
  unfolding exec_load
  exec_load-Keeps n convert s h = ground arith

  pub exec_store-Keeps : (n : ℕ) → Keeps (exec_store n)
  unfolding exec_store
  exec_store-Keeps n s h = ground arith

  pub exec_partial-Keeps : (f : ℕ → ℕ → Option ℕ) → Keeps (exec_partial f)
  unfolding exec_partial
  exec_partial-Keeps f s h = ground arith

  pub exec_vec?-Keeps : (f : ℕ → ℕ → ℕ → Option ℕ) → Keeps (exec_vec? f)
  unfolding exec_vec?
  exec_vec?-Keeps f s h = ground arith

  pub exec_jz-Keeps : Keeps exec_jz
  unfolding exec_jz
  exec_jz-Keeps s h = ground arith

  pub exec_jnz-Keeps : Keeps exec_jnz
  unfolding exec_jnz
  exec_jnz-Keeps s h = ground arith

  pub exec_ldvar-Keeps : Keeps exec_ldvar
  unfolding exec_ldvar
  exec_ldvar-Keeps s h = ground arith

  pub exec_ldfn-Keeps : Keeps exec_ldfn
  unfolding exec_ldfn
  exec_ldfn-Keeps s h = ground arith

  pub exec_vmov-Keeps : Keeps exec_vmov
  unfolding exec_vmov
  exec_vmov-Keeps s h = ground arith
