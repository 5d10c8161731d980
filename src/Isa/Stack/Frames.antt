-- ===== src/Isa/Stack/Frames.antt =====
-- The call stack and the frames of tagha/tagha.c: what a push and a pop, a call and a return do
-- together.
use tagha.Base.{ℕ, ◌+◌, ◌-◌, ◌*◌, ◌%◌, ◌^◌, ◌≤◌, ◌<◌, ◌≡◌, arith, refl, ap, ◌∙◌}
use tagha.Words.{add64, sub64}
use tagha.Mem.{load}
use tagha.Mem.Laws.{load-store, load-lt, Outside, store-Outside}
use tagha.State.{Module}
use tagha.Machine.{Machine, next, imm}
use tagha.Isa.Stack.{
  push_lr, pop_lr, exec_alloc, exec_enter, redux_osp, exec_ret, exec_remit, exec_leave,
}

-- Popping what was pushed restores the link register and the call stack pointer, and a cell that is
-- not in the pushed slot is as before.
pub pop_lr-push_lr :
    (s : Machine) (x : ℕ)
    → s.vm.lr < 2 ^ 64
    → s.vm.csp < 2 ^ 64
    → Outside 8 s.vm.csp x
    → ((pop_lr (push_lr s)).vm ≡ s.vm) × ((pop_lr (push_lr s)).mem x ≡ s.mem x)
unfolding pop_lr push_lr add64 sub64
pop_lr-push_lr s x hl hc out =
    let e : ((s.vm.csp + 8) % 2 ^ 64 + 2 ^ 64 - 8) % 2 ^ 64 ≡ s.vm.csp = omega arith in
    (
      rw e (rw (load-store 8 s.mem s.vm.csp s.vm.lr (omega arith) (omega arith))),
      store-Outside 8 s.mem s.vm.csp s.vm.lr x out,
    )

-- The pointer of a frame lies in the operand stack, with room for one frame below it.
abbrev pub HasRoom : Machine → Type 0
HasRoom s =
    (s.vm.opstack + 2040 ≤ s.vreg_osp)
    × (s.vreg_osp ≤ s.vm.opstack + s.vm.opstack_size)
    × (s.vm.opstack + s.vm.opstack_size + 2040 < 2 ^ 64)

-- What `enter` leaves where it goes on.
exec_enter-next :
    (s t : Machine)
    → HasRoom s
    → exec_enter s ≡ next t
    → (t.vm ≡ record (s.vm) { csp = add64 s.vm.csp 8 })
      × (t.vreg_osp + 8 * imm 1 (push_lr s) ≡ s.vreg_osp)
unfolding exec_enter exec_alloc push_lr sub64 imm
exec_enter-next s t room e =
    let small = load-lt 1 (push_lr s).mem s.ip in (ground arith, ground arith)

-- What `leave` leaves where the saved link register is `ret`.
exec_leave-next :
    (u : Machine) (ret : ℕ)
    → load 8 u.mem (sub64 u.vm.csp 8) ≡ ret
    → 0 < ret
    → u.vreg_osp + 8 * imm 1 u ≤ u.vm.opstack + u.vm.opstack_size
    → u.vm.opstack + u.vm.opstack_size + 2040 < 2 ^ 64
    → exec_leave u
      ≡ next (record u {
        vm = record (u.vm) { csp = sub64 u.vm.csp 8; lr = ret };
        vreg_osp = u.vreg_osp + 8 * imm 1 u;
        ip = ret;
      })
unfolding exec_leave exec_remit redux_osp exec_ret add64 imm pop_lr
exec_leave-next u ret saved pos high fit = rw saved (ground arith)

-- A function that a `call` has entered with `enter n`, and that comes back to `leave n` with both
-- stack pointers, the place of the operand stack and the saved link register as `enter` left them,
-- whatever it did to the rest of the module structure and to memory, returns to the instruction
-- after the call with both stack pointers as the call found them, and `leave` changes no memory.
-- The pointers are those of the address space, the return address is not NULL, and the operand
-- stack pointer has 2040 bytes of the operand stack below it, which ends 2040 bytes below the end
-- of the address space.
pub enter-leave_return :
    (s t u : Machine) (ret cells : ℕ)
    → s.vm.lr ≡ ret
    → 0 < ret
    → ret < 2 ^ 64
    → s.vm.csp < 2 ^ 64
    → HasRoom s
    → imm 1 (push_lr s) ≡ cells
    → exec_enter s ≡ next t
    → u.vm.csp ≡ t.vm.csp
    → u.vm.opstack ≡ t.vm.opstack
    → u.vm.opstack_size ≡ t.vm.opstack_size
    → u.vreg_osp ≡ t.vreg_osp
    → load 8 u.mem s.vm.csp ≡ ret
    → imm 1 u ≡ cells
    → (v : Machine) × (exec_leave u ≡ next v)
      × (v.ip ≡ ret)
      × (v.vreg_osp ≡ s.vreg_osp)
      × (v.vm.csp ≡ s.vm.csp)
      × (v.mem ≡ u.mem)
unfolding sub64 add64
enter-leave_return s t u ret cells link pos fit low room here entered same_csp same_base same_size
      same_osp saved there =
    let (vm, osp) = exec_enter-next s t room entered in
    let csp : u.vm.csp ≡ (s.vm.csp + 8) % 2 ^ 64 = same_csp ∙ ap (λ (m : Module). m.csp) vm in
    let base : u.vm.opstack ≡ s.vm.opstack = same_base ∙ ap (λ (m : Module). m.opstack) vm in
    let size : u.vm.opstack_size ≡ s.vm.opstack_size =
      same_size ∙ ap (λ (m : Module). m.opstack_size) vm in
    let back : sub64 u.vm.csp 8 ≡ s.vm.csp = rw csp (omega arith) in
    let osp' : u.vreg_osp + 8 * imm 1 u ≡ s.vreg_osp = omega arith in
    (
      record u {
        vm = record (u.vm) { csp = sub64 u.vm.csp 8; lr = ret };
        vreg_osp = u.vreg_osp + 8 * imm 1 u;
        ip = ret;
      },
      exec_leave-next u ret (rw back saved) pos (omega arith) (omega arith),
      refl,
      osp',
      back,
      refl,
    )
