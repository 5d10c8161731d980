-- ===== src/Setup/Region.antt =====
-- What the memory region of a loaded module looks like (tagha/tagha.c), and that every run of the
-- module's code stays in its operand stack.
use tagha.Base.{ℕ, ◌+◌, ◌%◌, ◌^◌, ◌≤◌, ◌<◌, ◌≡◌, refl, arith, true, false, le→ltb-false}
use tagha.Words.{add64, sub64}
use tagha.Mem.{Mem}
use tagha.State.{Module}
use tagha.Isa.Jump.{Env}
use tagha.Isa.Access.{out_of_bounds}
use tagha.Exec.{boot, module_exec}
use tagha.Exec.Framed.{RunFramed}
use tagha.Exec.FrameRun.{NativeKeeps, module_exec-InStack}
use tagha.Loader.{Header, header_at, Loading, PoolApi}
use tagha.Setup.{done, setup_memory}

-- The sizes in the header add up, as 32-bit numbers.
abbrev pub SizesAgree : Header → Type 0
SizesAgree hdr =
    ((hdr.stacksize + hdr.heapsize) % 2 ^ 32 ≡ hdr.memsize)
    × ((hdr.callstacksize + hdr.opstacksize + hdr.heapsize) % 2 ^ 32 ≡ hdr.memsize)

-- The pointers of a module whose operand stack is the header's and is still empty.
pub record IsRegion (hdr : Header) (vm : Module) : Type 0 where
  pub opstack_size : vm.opstack_size ≡ hdr.opstacksize
  pub callstack_size : vm.callstack_size ≡ hdr.callstacksize
  pub osp : vm.osp ≡ add64 vm.opstack vm.opstack_size
  pub high_seg : vm.high_seg ≡ add64 vm.osp 1
  pub csp : vm.csp ≡ vm.callstack

module _ {P : Type 0} (api : PoolApi P) where
  -- Where `_setup_memory` succeeds, the header's sizes agree, the operand stack is empty with its
  -- pointer at the end, and the call stack is empty with its pointer at the start.
  pub setup_memory-IsRegion :
      (l l' : Loading P)
      → setup_memory api l ≡ done true l'
      → SizesAgree (header_at l.mem l.module_.script)
        × IsRegion (header_at l.mem l.module_.script) l'.module_
  unfolding setup_memory
  setup_memory-IsRegion l l' e = ground arith

  -- A module that `_setup_memory` has set up may run any code of its own or of other modules: where
  -- its operand stack is at least 2040 bytes away from both ends of the address space, and C
  -- functions do not move it, a run that returns leaves the operand stack pointer inside the
  -- operand stack.
  pub setup_memory-runs_InStack :
      (l l' : Loading P) (env : Env) (fuel ip : ℕ)
      → setup_memory api l ≡ done true l'
      → NativeKeeps env
      → 2040 ≤ l'.module_.opstack
      → l'.module_.opstack + l'.module_.opstack_size + 2040 < 2 ^ 64
      → RunFramed l'.module_.opstack l'.module_.opstack_size
          (module_exec env fuel ip l'.module_ l'.mem)
  unfolding add64
  setup_memory-runs_InStack l l' env fuel ip e natives low high =
      let region = (setup_memory-IsRegion l l' e).1 in
      module_exec-InStack l'.module_.opstack l'.module_.opstack_size env fuel ip l'.module_ l'.mem
        low high natives (refl, refl, omega (arith, region.osp), omega (arith, region.osp))

-- Where a module is set up so, its segment begins at or below its operand stack, and the stack ends at
-- least 3 bytes below the end of the address space, the segment does not end with the stack: the
-- two bytes behind the stack pass the test of a one-byte access.
pub IsRegion-past_end :
    (hdr : Header) (vm : Module) (m : Mem) (ip d : ℕ)
    → IsRegion hdr vm
    → d < 2
    → vm.low_seg ≤ vm.opstack
    → vm.opstack + vm.opstack_size + 2 < 2 ^ 64
    → out_of_bounds 0 (vm.opstack + vm.opstack_size + d) (boot ip vm m) ≡ false
unfolding out_of_bounds boot add64 sub64
IsRegion-past_end hdr vm m ip d region near low high =
    let top : vm.osp ≡ vm.opstack + vm.opstack_size = omega (arith, region.osp) in
    let seg : vm.high_seg ≡ vm.opstack + vm.opstack_size + 1 = omega (arith, region.high_seg) in
    le→ltb-false _ _ (omega arith)
