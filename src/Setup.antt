-- ===== src/Setup.antt =====
-- `_setup_memory`, `_setup_func_table`, `_setup_var_table`, `_read_module_data` and
-- `tagha_module_new_from_buffer` of tagha/tagha.c, over a memory pool that is a parameter.
pub mod Region
pub mod Tables
use tagha.Base.{
  ℕ, ◌+◌, ◌*◌, ◌%◌, ◌^◌, Bool, true, false, ◌&&◌, ◌||◌, not, Option, none, some, List, ◌==◌,
  if◌then◌else◌,
}
use tagha.Words.{add64}
use tagha.Mem.{Mem, load}
use tagha.State.{Module, nil, item_size}
use tagha.Symbols.{empty_table}
use tagha.Loader.{
  Header, header_at, Filling, Loading, PoolApi, PoolResult, setup_func, setup_var, fill_loop,
}

-- How a part of the set-up ends: with its `bool`, or with a write through a null pointer.
pub data Setup (P : Type 0) : Type 0 where
  done : Bool → Loading P → Setup P
  crash : Setup P

-- sizeof(struct TaghaSymTable)
abbrev pub sym_table_size : ℕ
sym_table_size = 304

-- The allocation of the five arrays of a table, in the order of the source.
pub record Arrays (P : Type 0) : Type 0 where
  pub heap : P
  pub mem : Mem
  pub table : ℕ
  pub usable : Bool

module _ {P : Type 0} (api : PoolApi P) where
  -- tagha_module_heap_alloc
  unfoldable pub heap_alloc : Loading P → ℕ → PoolResult P
  heap_alloc l size = api.alloc l.heap l.mem size

  unfoldable pub setup_memory : Loading P → Setup P
  unfolding heap_alloc header_at
  setup_memory l =
      let hdr = header_at l.mem l.module_.script in
      let (heap, res) = api.make_from_buffer (add64 l.module_.script hdr.mem_offset) hdr.memsize in
      let l1 = record l { heap = heap } in
      if not res
      then done false l1
      else if not ((hdr.stacksize + hdr.heapsize) % 2 ^ 32 == hdr.memsize)
          || not ((hdr.callstacksize + hdr.opstacksize + hdr.heapsize) % 2 ^ 32 == hdr.memsize)
      then done false l1
      else if not (api.mem_remaining heap l.mem == hdr.memsize)
      then done false l1
      else (let ops = heap_alloc l1 hdr.opstacksize in
          let top = add64 ops.ptr hdr.opstacksize in
          let l2 = record l1 { heap = ops.heap; mem = ops.mem } in
          let calls = heap_alloc l2 (header_at l2.mem l.module_.script).callstacksize in
          done true (record l2 {
            module_ = record (l.module_) {
              callstack_size = hdr.callstacksize;
              opstack_size = hdr.opstacksize;
              opstack = ops.ptr;
              osp = top;
              high_seg = add64 top 1;
              callstack = calls.ptr;
              csp = calls.ptr;
            };
            heap = calls.heap;
            mem = calls.mem;
          }))

  unfoldable pub alloc_arrays : Loading P → ℕ → Arrays P
  alloc_arrays l len =
      let table = api.alloc l.heap l.mem (item_size * len) in
      let bytes = api.alloc table.heap table.mem (8 * len) in
      let keys = api.alloc bytes.heap bytes.mem (8 * len) in
      let hashes = api.alloc keys.heap keys.mem (8 * len) in
      let chain = api.alloc hashes.heap hashes.mem (8 * len) in
      record {
        heap = chain.heap;
        mem = chain.mem;
        table = table.ptr;
        usable =
            len == 0
            || not (
                table.ptr == nil
                || bytes.ptr == nil
                || keys.ptr == nil
                || hashes.ptr == nil
                || chain.ptr == nil);
      }

  module _ (string_hash : List ℕ → ℕ) where
    unfoldable pub setup_func_table : Loading P → Setup P
    unfolding heap_alloc header_at alloc_arrays fill_loop
    setup_func_table l =
        let funcs = heap_alloc l sym_table_size in
        let l1 = record l { heap = funcs.heap; mem = funcs.mem } in
        let len = (header_at l1.mem l.module_.script).func_count in
        let arrays = alloc_arrays l1 len in
        let hdr = header_at arrays.mem l.module_.script in
        let filled = fill_loop (setup_func string_hash l.module_.self) hdr.func_count 0 (record {
          syms = empty_table arrays.table len;
          mem = arrays.mem;
          iter = add64 l.module_.script hdr.funcs_offset;
        }) in
        if funcs.ptr == nil
        then done false l1
        else if not arrays.usable
        then crash
        else done true (record l1 {
          module_ = record (l.module_) { funcs = some (filled.syms) };
          heap = arrays.heap;
          mem = filled.mem;
        })

    unfoldable pub setup_var_table : Loading P → Setup P
    unfolding heap_alloc header_at alloc_arrays fill_loop
    setup_var_table l =
        let vars = heap_alloc l sym_table_size in
        let l1 = record l { heap = vars.heap; mem = vars.mem } in
        let len = (header_at l1.mem l.module_.script).var_count in
        let arrays = alloc_arrays l1 len in
        let hdr = header_at arrays.mem l.module_.script in
        let start = add64 l.module_.script hdr.vars_offset in
        let filled =
          fill_loop (setup_var string_hash l.module_.self) hdr.var_count 0
            (record { syms = empty_table arrays.table len; mem = arrays.mem; iter = start }) in
        if vars.ptr == nil
        then done false l1
        else if not arrays.usable
        then crash
        else done true (record l1 {
          module_ = record (l.module_) { low_seg = start; vars = some (filled.syms) };
          heap = arrays.heap;
          mem = filled.mem;
        })

    -- All three parts are run, whatever the first ones say.
    unfoldable pub read_module_data : ℕ → Loading P → Setup P
    unfolding header_at
    read_module_data filedata l =
        let l0 = record l {
          module_ = record (l.module_) {
            script = filedata;
            flags = (header_at l.mem filedata).flags;
          };
        } in
        elim (setup_memory l0) [
          | crash ↦ crash
          | done res_mem l1 ↦ elim (setup_func_table l1) [
            | crash ↦ crash
            | done res_funcs l2 ↦ elim (setup_var_table l2) [
              | crash ↦ crash
              | done res_vars l3 ↦ done (res_mem && res_funcs && res_vars) l3
            ]
          ]
        ]
