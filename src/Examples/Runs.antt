-- ===== src/Examples/Runs.antt =====
-- Programs run by the model of tagha/tagha.c, and the theorems on stacks and runs at inputs.
use tagha.Base.{◌==◌, if◌then◌else◌, ℕ, ◌≡◌, refl, arith, List, [], ◌∷◌, none, some}
use tagha.Mem.{Mem, load, store}
use tagha.Words.{add64, sub64}
use tagha.State.{item_at, store_item, flag_extern}
use tagha.Machine.{Machine, next, out_of_fuel, imm, skip, reg}
use tagha.Isa.Jump.{Env, Nested}
use tagha.Isa.Stack.{push_lr, pop_lr, exec_enter, exec_leave}
use tagha.Isa.Stack.Frames.{pop_lr-push_lr, enter-leave_return}
use tagha.Exec.{step, module_exec}
use tagha.Exec.Framed.{RunFramed}
use tagha.Exec.FrameRun.{module_exec-InStack}
use tagha.Examples.Fixtures.{with_bytes, blank, env, vm, err_of, after}

-- alloc 2; movi r0, 5; movi r1, 7; add r0, r1; halt
abbrev sum_code : List ℕ
sum_code =
    2 ∷ 2 ∷ 4 ∷ 0 ∷ 5 ∷ 0 ∷ 0 ∷ 0 ∷ 0 ∷ 0 ∷ 0 ∷ 0 ∷ 4 ∷ 1 ∷ 7 ∷ 0 ∷ 0 ∷ 0 ∷ 0 ∷ 0 ∷ 0 ∷ 0 ∷ 21 ∷ 0
    ∷ 1 ∷ 0 ∷ []

abbrev sum_mem : Mem
sum_mem = with_bytes 1000 sum_code blank

-- Four units of fuel do not reach the halt.
sum_needs_fuel : module_exec env 4 1000 vm sum_mem ≡ out_of_fuel
unfolding module_exec load add64 store
sum_needs_fuel = refl

-- alloc 9, on a stack of 8 cells
abbrev full_mem : Mem
full_mem = with_bytes 1000 (2 ∷ 9 ∷ 0 ∷ []) blank

full_throws : err_of (module_exec env 5 1000 vm full_mem) ≡ some 3
unfolding module_exec load add64
full_throws = refl

module_exec-InStack_example : RunFramed 4096 64 (module_exec env 5 1000 vm sum_mem)
module_exec-InStack_example =
    module_exec-InStack 4096 64 env 5 1000 vm sum_mem (omega arith) (omega arith)
      (λ f p v m. (refl, refl)) (refl, refl, omega arith, omega arith)

abbrev sum_start : Machine
sum_start = record {
  vm = vm;
  mem = sum_mem;
  ip = 1000;
  vreg_osp = 4160;
  table_funcs = none;
  table_vars = none;
  lower_seg = 4000;
  mem_bnds_diff = 161;
}

-- Another module at 900, without tables.
abbrev lib_env : Env
lib_env = record env { libs = λ p. if p == 900 then some (none, none) else none }

abbrev lib_run : Nested
lib_run ip v m = module_exec lib_env 8 ip v m

-- `callr r0`, where r0 points to an item at 6000: the function at 1500 of the module at 900, which is
-- `movi r1, 7` and `halt`.
abbrev calling : Machine
calling = record sum_start {
  mem = with_bytes 1000 (59 ∷ 0 ∷ []) (
      with_bytes 1500 (4 ∷ 1 ∷ 7 ∷ 0 ∷ []) (
        with_bytes 4096 (112 ∷ 23 ∷ [])
          (store_item blank 6000 (record { item = 1500; owner = 900; flags = flag_extern }))));
  vreg_osp = 4096;
}

-- The function has run: r1 holds 7, and the call stack is as before.
callee_runs :
    let t = after (step lib_env lib_run calling) calling in
    (t.ip ≡ 1002) × (load 8 t.mem 4104 ≡ 7) × (t.vm.csp ≡ 8192)
unfolding step module_exec load store add64 skip imm reg item_at store_item tagha.Isa.Jump.leave_lib
    tagha.Isa.Stack.pop_lr
callee_runs = (refl, refl, refl)

-- A call that returns to 77 has entered a function whose `enter` and `leave` take 2 cells. The
-- operand of `enter` stands at 1000, that of `leave` at 1500. In between other calls and comparisons
-- have changed the link register, the condition and more.
abbrev called_state : Machine
called_state = record sum_start {
  vm = record vm { lr = 77; opstack_size = 8192; osp = 12288 };
  mem = with_bytes 1000 (2 ∷ []) (with_bytes 1500 (2 ∷ []) blank);
  vreg_osp = 12288;
}

abbrev entered_state : Machine
entered_state = record called_state {
  vm = record vm { lr = 77; opstack_size = 8192; osp = 12288; csp = 8200 };
  mem = store 8 called_state.mem 8192 77;
  ip = 1001;
  vreg_osp = 12272;
}

abbrev leaving_state : Machine
leaving_state = record entered_state {
  vm = record (entered_state.vm) { lr = 1234; cond = 1; vec_len = 4; err = 2 };
  ip = 1500;
}

enter-leave_return_example :
    (v : Machine) × (exec_leave leaving_state ≡ next v)
    × (v.ip ≡ 77)
    × (v.vreg_osp ≡ 12288)
    × (v.vm.csp ≡ 8192)
    × (v.mem ≡ leaving_state.mem)
unfolding exec_enter push_lr imm load store add64 sub64
enter-leave_return_example =
    enter-leave_return called_state entered_state leaving_state 77 2 refl (omega arith)
      (omega arith) (omega arith) (omega arith, omega arith, omega arith) refl refl refl refl refl
      refl refl refl

pop_lr-push_lr_example :
    ((pop_lr (push_lr called_state)).vm ≡ called_state.vm)
    × ((pop_lr (push_lr called_state)).mem 1000 ≡ 2)
pop_lr-push_lr_example =
    pop_lr-push_lr called_state 1000 (omega arith) (omega arith) (λ i h e. omega arith)
