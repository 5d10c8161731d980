-- ===== src/Api.antt =====
-- The interface of tagha/tagha.c for the host program: lookups, linking of C functions, pointers
-- and other modules, and calls.
pub mod Calls
pub mod Natives
use tagha.Base.{
  ℕ, zero, suc, ◌+◌, ◌*◌, ◌%◌, ◌^◌, Bool, true, false, ◌||◌, not, Option, none, some, List, [], ◌∷◌,
  ◌==◌, ltb, if◌then◌else◌, get_or, set, length,
}
use tagha.Words.{add64, sub64}
use tagha.Mem.{Mem, load, store}
use tagha.State.{
  SymTable, Item, Module, item_at, store_item, item_size, nil, val_size, has_flag, flag_native,
  flag_extern, flag_linked, err_none, err_bad_native, err_op_stack_of, err_bad_func,
}
use tagha.Symbols.{Search, found, missing, endless, key_get_item}
use tagha.Isa.Jump.{Env, NativeResult}
use tagha.Machine.{Run, returned, stuck, out_of_fuel}
use tagha.Exec.{module_exec}

-- `&syms->table[i]`
abbrev pub item_addr : SymTable → ℕ → ℕ
item_addr t i = t.table + item_size * i

-- tagha_module_get_var: the address of a variable's data, 0 where there is none
unfoldable pub module_get_var : (List ℕ → ℕ) → SymTable → Mem → List ℕ → ℕ
unfolding item_at
module_get_var string_hash vars m name = elim (key_get_item string_hash vars name) [
  | found i ↦ (item_at m (item_addr vars i)).item
  | _ ↦ nil
]

-- tagha_module_get_func: the address of the item
unfoldable pub module_get_func : (List ℕ → ℕ) → SymTable → List ℕ → ℕ
module_get_func string_hash funcs name = elim (key_get_item string_hash funcs name) [
  | found i ↦ item_addr funcs i
  | _ ↦ nil
]

-- tagha_module_throw_err
unfoldable pub module_throw_err : Module → ℕ → Module
module_throw_err vm err = record vm { err = err }

-- struct TaghaNative
pub record Native : Type 0 where
  pub name : List ℕ
  pub cfunc : ℕ

-- One round of the loop of `tagha_module_link_natives`.
unfoldable pub link_native : (List ℕ → ℕ) → SymTable → Native → Mem → Mem
link_native string_hash funcs n m = elim (key_get_item string_hash funcs n.name) [
  | found i ↦
      let func = item_at m (item_addr funcs i) in
      if func.flags == flag_native
      then store_item m (item_addr funcs i)
          (record func { item = n.cfunc; flags = flag_native + flag_linked })
      else m
  | _ ↦ m
]

-- tagha_module_link_natives, over the entries before the one without a name or a function
unfoldable pub module_link_natives : (List ℕ → ℕ) → SymTable → List Native → Mem → Mem
module_link_natives string_hash funcs [] m = m
module_link_natives string_hash funcs (n ∷ ns) m =
    module_link_natives string_hash funcs ns (link_native string_hash funcs n m)

-- tagha_module_link_ptr
unfoldable pub module_link_ptr : (List ℕ → ℕ) → SymTable → List ℕ → ℕ → Mem → Bool × Mem
unfolding module_get_var
module_link_ptr string_hash vars name ptr m =
    let ref = module_get_var string_hash vars m name in
    if ref == nil then (false, m) else (true, store 8 m ref ptr)

-- One round of the loop of `tagha_module_link_module`: the caller's table and the memory.
unfoldable pub link_extern : (List ℕ → ℕ) → SymTable → ℕ → SymTable × Mem → SymTable × Mem
unfolding item_at store_item has_flag
link_extern string_hash libfuncs i (funcs, m) =
    let func = item_at m (item_addr funcs i) in
    if not (func.flags == flag_extern)
    then (funcs, m)
    else elim (key_get_item string_hash libfuncs (get_or funcs.keys i [])) [
      | found j ↦
          let extern_func = item_at m (item_addr libfuncs j) in
          if has_flag extern_func.flags flag_native || extern_func.item == nil
          then (funcs, m)
          else (
            record funcs { bytes = set funcs.bytes i (get_or libfuncs.bytes j 0) },
            store_item m (item_addr funcs i) (record {
              item = extern_func.item;
              owner = extern_func.owner;
              flags = flag_extern + flag_linked;
            }),
          )
      | _ ↦ (funcs, m)
    ]

unfoldable pub link_externs : (List ℕ → ℕ) → SymTable → ℕ → ℕ → SymTable × Mem → SymTable × Mem
unfolding link_extern
link_externs string_hash libfuncs zero i st = st
link_externs string_hash libfuncs (suc n) i st =
    link_externs string_hash libfuncs n (i + 1) (link_extern string_hash libfuncs i st)

-- tagha_module_link_module
unfoldable pub module_link_module :
    (List ℕ → ℕ) → Option SymTable → Option SymTable → Mem → Option SymTable × Mem
unfolding link_externs
module_link_module string_hash none libfuncs m = (none, m)
module_link_module string_hash (some funcs) none m = (some funcs, m)
module_link_module string_hash (some funcs) (some libfuncs) m =
    let (funcs', m') = link_externs string_hash libfuncs funcs.len 0 (funcs, m) in (some funcs', m')

-- How a call of the host ends: with its `bool`, and the returned value where one was written.
pub data Called : Type 0 where
  called : Bool → Option ℕ → Module → Mem → Called
  call_stuck : Called
  call_timeout : Called

-- memcpy(rsp + 1, params, ...)
unfoldable pub store_params : ℕ → List ℕ → Mem → Mem
store_params a [] m = m
store_params a (p ∷ ps) m = store_params (a + val_size) ps (store 8 m a p)

module _ (env : Env) (fuel : ℕ) where
  -- The return of `_tagha_module_start` after the code has run.
  unfoldable pub finish_start : ℕ → Run → Called
  finish_start bytes (returned vm m) =
      called (vm.err == err_none) (some (load 8 m vm.osp)) (record vm { osp = add64 vm.osp bytes })
        m
  finish_start bytes stuck = call_stuck
  finish_start bytes out_of_fuel = call_timeout

  -- _tagha_module_start on the item `func`, with the `params` and their address `params_at`
  unfoldable pub module_start : Module → Mem → Item → List ℕ → ℕ → Called
  module_start vm m func params params_at =
      if has_flag func.flags flag_native
      then (if has_flag func.flags flag_linked
          then (let r = env.native func.item vm m params_at in
              called (r.vm.err == err_none) (some r.ret) r.vm r.mem)
          else called false none (record vm { err = err_bad_native }) m)
      else (let bytes = val_size * (length params + 1) in
          if ltb (sub64 vm.osp bytes) vm.opstack
          then called false none (record vm { err = err_op_stack_of }) m
          else (let osp = sub64 vm.osp bytes in
              finish_start bytes (
                module_exec env fuel func.item (record vm { osp = osp; lr = nil })
                  (store_params (osp + val_size) params m))))

  -- tagha_module_invoke
  unfoldable pub module_invoke : Module → Mem → ℕ → List ℕ → ℕ → Called
  module_invoke vm m f params params_at =
      let func = item_at m f in
      if func.item == nil
      then called false none (record vm { err = err_bad_func }) m
      else module_start vm m func params params_at

  -- tagha_module_call
  unfoldable pub module_call : (List ℕ → ℕ) → SymTable → Module → Mem → List ℕ → List ℕ → ℕ → Called
  module_call string_hash funcs vm m name params params_at =
      elim (key_get_item string_hash funcs name) [
        | found i ↦ module_invoke vm m (item_addr funcs i) params params_at
        | _ ↦ called false none (record vm { err = err_bad_func }) m
      ]
