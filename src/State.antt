-- ===== src/State.antt =====
-- tagha/tagha.h: symbol tables, the module structure, its error codes and flags.
-- Pointers and `uint_fast32_t` take 8 bytes, as under the x86-64 ABI.
use Prim.Native.Nat.{bit_and}
use tagha.Base.{ℕ, ◌+◌, ◌-◌, ◌^◌, Bool, not, List, Option, ◌==◌}
use tagha.Mem.{Mem, load, store}

abbrev pub nil : ℕ
nil = 0

abbrev pub size_max : ℕ
size_max = 2 ^ 64 - 1

-- sizeof(union TaghaVal)
abbrev pub val_size : ℕ
val_size = 8

-- enum TaghaErrCode, in its order from 0
abbrev pub err_none : ℕ
err_none = 0

abbrev pub err_bad_native : ℕ
err_bad_native = 1

abbrev pub err_bad_extern : ℕ
err_bad_extern = 2

abbrev pub err_op_stack_of : ℕ
err_op_stack_of = 3

abbrev pub err_opcode_oob : ℕ
err_opcode_oob = 4

abbrev pub err_bad_ptr : ℕ
err_bad_ptr = 5

abbrev pub err_bad_func : ℕ
err_bad_func = 6

-- TAGHA_FLAG_NATIVE, TAGHA_FLAG_EXTERN, TAGHA_FLAG_LINKED
abbrev pub flag_native : ℕ
flag_native = 1

abbrev pub flag_extern : ℕ
flag_extern = 2

abbrev pub flag_linked : ℕ
flag_linked = 4

-- `flags & flag` as a condition
unfoldable pub has_flag : ℕ → ℕ → Bool
has_flag flags flag = not (bit_and flags flag == 0)

-- struct TaghaItem, 24 bytes: the fields in their order
pub record Item : Type 0 where
  pub item : ℕ
  pub owner : ℕ
  pub flags : ℕ

abbrev pub item_size : ℕ
item_size = 24

-- `*ptr` for a `const struct TaghaItem *ptr`
unfoldable pub item_at : Mem → ℕ → Item
item_at m p = record { item = load 8 m p; owner = load 8 m (p + 8); flags = load 8 m (p + 16) }

unfoldable pub store_item : Mem → ℕ → Item → Mem
store_item m p x = store 8 (store 8 (store 8 m p x.item) (p + 8) x.owner) (p + 16) x.flags

-- struct TaghaSymTable. `table` is the address of the items; the other arrays are lists.
pub record SymTable : Type 0 where
  pub keys : List (List ℕ)
  pub table : ℕ
  pub len : ℕ
  pub buckets : List ℕ
  pub hashes : List ℕ
  pub chain : List ℕ
  pub bytes : List ℕ

-- struct TaghaModule, with its own address. `funcs` and `vars` are pointers that may be NULL.
pub record Module : Type 0 where
  pub self : ℕ
  pub funcs : Option SymTable
  pub vars : Option SymTable
  pub script : ℕ
  pub low_seg : ℕ
  pub high_seg : ℕ
  pub opstack : ℕ
  pub callstack : ℕ
  pub osp : ℕ
  pub ofp : ℕ
  pub csp : ℕ
  pub lr : ℕ
  pub opstack_size : ℕ
  pub callstack_size : ℕ
  pub vec_len : ℕ
  pub elem_len : ℕ
  pub flags : ℕ
  pub err : ℕ
  pub cond : ℕ
