-- ===== src/Examples/Hosts.antt =====
-- Loading and calling a module of tagha/tagha.c, with a pool that hands out consecutive addresses.
use tagha.Base.{ℕ, ◌+◌, ◌-◌, ◌≡◌, refl, arith, List, [], ◌∷◌, none, true, false}
use tagha.Mem.{Mem, load}
use tagha.Words.{add64}
use tagha.State.{Module, SymTable, store_item, err_bad_native, item_at, has_flag}
use tagha.Symbols.{empty_table, add_symbol, key_get_item}
use tagha.Exec.{boot, module_exec}
use tagha.Exec.Framed.{RunFramed}
use tagha.Isa.Access.{out_of_bounds}
use tagha.Loader.{PoolApi, Loading, Header, header_at}
use tagha.Setup.{done, setup_memory}
use tagha.Setup.Region.{
  SizesAgree, IsRegion, setup_memory-IsRegion, setup_memory-runs_InStack, IsRegion-past_end,
}
use tagha.Api.{called, module_call}
use tagha.Examples.Fixtures.{with_bytes, blank, env, vm}

-- A pool is the next free address and the end of its buffer.
abbrev pool : PoolApi (ℕ × ℕ)
pool = record {
  make_from_buffer = λ buf size. ((buf, buf + size), true);
  mem_remaining = λ p m. p.1 - p.0;
  alloc = λ p m size. record { heap = (p.0 + size, p.1); mem = m; ptr = p.0 };
}

-- A header: 64 bytes of operand stack, 64 of call stack, no heap, and memory 4096 bytes further.
abbrev header_image : List ℕ
header_image =
    0 ∷ 0 ∷ 0 ∷ 0 ∷ 64 ∷ 0 ∷ 0 ∷ 0 ∷ 64 ∷ 0 ∷ 0 ∷ 0 ∷ 128 ∷ 0 ∷ 0 ∷ 0 ∷ 0 ∷ 0 ∷ 0 ∷ 0 ∷ 128 ∷ 0 ∷ 0
    ∷ 0 ∷ 0 ∷ 0 ∷ 0 ∷ 0 ∷ 0 ∷ 0 ∷ 0 ∷ 0 ∷ 0 ∷ 0 ∷ 0 ∷ 0 ∷ 0 ∷ 0 ∷ 0 ∷ 0 ∷ 0 ∷ 16 ∷ 0 ∷ 0 ∷ []

abbrev script_mem : Mem
script_mem = with_bytes 1000 header_image blank

abbrev loading : Loading (ℕ × ℕ)
loading = record { module_ = vm; heap = (0, 0); mem = script_mem }

abbrev region_vm : Module
region_vm = record vm {
  callstack_size = 64;
  opstack_size = 64;
  opstack = 5096;
  osp = 5160;
  high_seg = 5161;
  callstack = 5160;
  csp = 5160;
}

abbrev loaded : Loading (ℕ × ℕ)
loaded = record { module_ = region_vm; heap = (5224, 5224); mem = script_mem }

sets_up : setup_memory pool loading ≡ done true loaded
unfolding setup_memory load add64
sets_up = refl

setup_memory-IsRegion_example :
    SizesAgree (header_at script_mem 1000) × IsRegion (header_at script_mem 1000) region_vm
setup_memory-IsRegion_example = setup_memory-IsRegion pool loading loaded sets_up

setup_memory-runs_InStack_example : RunFramed 5096 64 (module_exec env 8 1000 region_vm script_mem)
setup_memory-runs_InStack_example =
    setup_memory-runs_InStack pool loading loaded env 8 1000 sets_up (λ f p v m. (refl, refl))
      (omega arith) (omega arith)

abbrev header64 : Header
header64 = record {
  opstacksize = 64;
  callstacksize = 64;
  stacksize = 128;
  heapsize = 0;
  memsize = 128;
  funcs_offset = 0;
  func_count = 0;
  vars_offset = 0;
  var_count = 0;
  mem_offset = 4096;
  flags = 0;
}

IsRegion-past_end_example : out_of_bounds 0 (5096 + 64 + 1) (boot 1000 region_vm blank) ≡ false
unfolding add64
IsRegion-past_end_example =
    IsRegion-past_end header64 region_vm blank 1000 1
      (record {
        opstack_size = refl;
        callstack_size = refl;
        osp = refl;
        high_seg = refl;
        csp = refl;
      })
      (omega arith) (omega arith) (omega arith)

abbrev no_funcs : SymTable
no_funcs = empty_table 5000 0

-- A table with the C function `f`, which is not linked.
abbrev one_func : SymTable
one_func = add_symbol (λ cs. 7) (102 ∷ []) 0 0 (empty_table 5000 1)

abbrev unlinked_mem : Mem
unlinked_mem = store_item blank 5000 (record { item = 77; owner = 512; flags = 1 })

-- Of the unlinked function: TaghaErrBadNative.
unlinked :
    module_call env 8 (λ cs. 7) one_func vm unlinked_mem (102 ∷ []) (5 ∷ []) 9000
    ≡ called false none (record vm { err = err_bad_native }) unlinked_mem
unfolding module_call key_get_item empty_table add_symbol store_item item_at has_flag
    tagha.Symbols.link_index tagha.Symbols.scan_chain tagha.Api.module_invoke load tagha.Mem.store
    tagha.Api.module_start
unlinked = refl

-- Of an unknown name: TaghaErrBadFunc.
unknown_name :
    module_call env 8 (λ cs. 7) no_funcs vm blank (102 ∷ []) (5 ∷ []) 9000
    ≡ called false none (record vm { err = 6 }) blank
unfolding module_call key_get_item empty_table
unknown_name = refl
