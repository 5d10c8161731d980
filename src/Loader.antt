-- ===== src/Loader.antt =====
-- Loading a script that stands in memory (tagha/tagha.c): the header, the memory region, and the
-- tables of functions and variables. The memory pool is Harbol's, and is a parameter.
pub mod Tables
use tagha.Base.{
  ℕ, zero, suc, ◌+◌, ◌*◌, ◌%◌, ◌^◌, Bool, true, false, ◌&&◌, ◌||◌, not, Option, none, some, List,
  [], ◌∷◌, ◌==◌, if◌then◌else◌,
}
use tagha.Words.{add64}
use tagha.Mem.{Mem, load}
use tagha.State.{SymTable, Item, Module, store_item, item_size, has_flag, flag_extern, nil}
use tagha.Symbols.{add_symbol, empty_table}

-- struct TaghaModuleHeader, without the fields that loading does not read
pub record Header : Type 0 where
  pub opstacksize : ℕ
  pub callstacksize : ℕ
  pub stacksize : ℕ
  pub heapsize : ℕ
  pub memsize : ℕ
  pub funcs_offset : ℕ
  pub func_count : ℕ
  pub vars_offset : ℕ
  pub var_count : ℕ
  pub mem_offset : ℕ
  pub flags : ℕ

unfoldable pub header_at : Mem → ℕ → Header
header_at m p = record {
  opstacksize = load 4 m (p + 4);
  callstacksize = load 4 m (p + 8);
  stacksize = load 4 m (p + 12);
  heapsize = load 4 m (p + 16);
  memsize = load 4 m (p + 20);
  funcs_offset = load 4 m (p + 24);
  func_count = load 4 m (p + 28);
  vars_offset = load 4 m (p + 32);
  var_count = load 4 m (p + 36);
  mem_offset = load 4 m (p + 40);
  flags = load 4 m (p + 44);
}

-- struct TaghaItemEntry, 16 bytes, without its size
pub record Entry : Type 0 where
  pub flags : ℕ
  pub name_len : ℕ
  pub data_len : ℕ

unfoldable pub entry_at : Mem → ℕ → Entry
entry_at m p = record {
  flags = load 4 m (p + 4);
  name_len = load 4 m (p + 8);
  data_len = load 4 m (p + 12);
}

-- The C string at an address, of at most `n` bytes.
unfoldable pub cstring : ℕ → Mem → ℕ → List ℕ
cstring zero m p = []
cstring (suc n) m p = elim (load 1 m p == 0) [
  | true ↦ []
  | false ↦ load 1 m p ∷ cstring n m (p + 1)
]

-- A table that is being filled: the iterator stands at the next entry.
pub record Filling : Type 0 where
  pub syms : SymTable
  pub mem : Mem
  pub iter : ℕ

-- harbol_mempool_make_from_buffer, _mem_remaining and _alloc, on pools of type `P`. An allocation
-- writes to the memory that the pool manages.
pub record PoolResult (P : Type 0) : Type 0 where
  pub heap : P
  pub mem : Mem
  pub ptr : ℕ

pub record PoolApi (P : Type 0) : Type 0 where
  pub make_from_buffer : ℕ → ℕ → P × Bool
  pub mem_remaining : P → Mem → ℕ
  pub alloc : P → Mem → ℕ → PoolResult P

-- A module that is being loaded.
pub record Loading (P : Type 0) : Type 0 where
  pub module_ : Module
  pub heap : P
  pub mem : Mem

module _ (string_hash : List ℕ → ℕ) (self : ℕ) where
  -- One round of the loop of `_setup_func_table`. Only bytecode functions have their address here.
  unfoldable pub setup_func : ℕ → Filling → Filling
  unfolding entry_at has_flag
  setup_func i st =
      let entry = entry_at st.mem st.iter in
      let name = add64 st.iter 16 in
      let cstr = cstring (2 ^ 64) st.mem name in
      let code = add64 name entry.name_len in
      let fn : Item = record {
        item = if entry.flags == 0 then code else nil;
        owner = if has_flag entry.flags flag_extern then nil else self;
        flags = entry.flags;
      } in
      record {
        syms = add_symbol string_hash cstr entry.data_len i st.syms;
        mem = store_item st.mem (st.syms.table + item_size * i) fn;
        iter = if entry.flags == 0 then add64 code entry.data_len else code;
      }

  -- One round of the loop of `_setup_var_table`. Every variable has its data behind its name.
  unfoldable pub setup_var : ℕ → Filling → Filling
  unfolding entry_at has_flag
  setup_var i st =
      let entry = entry_at st.mem st.iter in
      let name = add64 st.iter 16 in
      let cstr = cstring (2 ^ 64) st.mem name in
      let place = add64 name entry.name_len in
      let v : Item = record {
        item = place;
        owner = if has_flag entry.flags flag_extern then nil else self;
        flags = entry.flags;
      } in
      record {
        syms = add_symbol string_hash cstr entry.data_len i st.syms;
        mem = store_item st.mem (st.syms.table + item_size * i) v;
        iter = add64 place entry.data_len;
      }

-- `for( uint32_t i=0; i<count; i++ )`, with `n` rounds left
unfoldable pub fill_loop : (ℕ → Filling → Filling) → ℕ → ℕ → Filling → Filling
fill_loop body zero i st = st
fill_loop body (suc n) i st = fill_loop body n (i + 1) (body i st)
