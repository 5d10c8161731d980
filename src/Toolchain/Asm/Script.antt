-- ===== src/Toolchain/Asm/Script.antt =====
-- The end of `tagha_asm_assemble` (tagha_toolchain/assembler/assembler.c), which writes the functions and
-- the variables into a script. The link maps are lists here, in the order of their indices.
pub mod Listed
use Prim.Native.Nat.{bit_or}
use tagha.Base.{
  ℕ, ◌+◌, ◌*◌, ◌%◌, ◌^◌, ◌<◌, ◌≡◌, refl, sym, ap, subst, ◌∙◌, arith, Bool, Option, List, [], ◌∷◌,
  ◌++◌, length, All, ◌==◌, if◌then◌else◌,
}
use tagha.Mem.{Mem, load}
use tagha.State.{flag_native, flag_extern, item_size}
use tagha.Lifetime.{magic_verifier}
use tagha.Loader.{Header, header_at}
use tagha.Toolchain.Buffer.{BufApi, IsBuf, HoldsAt}
use tagha.Toolchain.Buffer.Adds.{Adds, Adds-nothing, Adds-then}
use tagha.Toolchain.ModuleGen.{
  ModGen, u32, mod_gen_create, write_header, write_func, write_var, finalize, create_file,
}
use tagha.Toolchain.ModuleGen.Entries.{IsAlign, func_entry, var_entry, write_func-func_entry}
use tagha.Toolchain.ModuleGen.Loaded.{IsWritable}
use tagha.Toolchain.ModuleGen.Script.{IsHeader, finalize-header_at}
use tagha.Toolchain.ModuleGen.Traversal.{
  Items, table_bytes, item_names, AreWritable, collect_names-funcs,
}
use tagha.Toolchain.Disasm.Names.{past_func, collect_names}
use tagha.Toolchain.Asm.Directives.{Label}

-- TAGHA_ASM_DEFAULT_MEMSIZE where no size was given
unfoldable pub or_default : ℕ → ℕ
or_default size = if size == 0 then 4096 else size

-- `flags |= ...`
unfoldable pub label_flags : {B : Type 0} → Label B → ℕ
label_flags label =
    bit_or (if label.is_native then flag_native else 0) (if label.is_extern then flag_extern else 0)

-- `mem_region_size`, for memory nodes of `memnode` bytes, on a 64-bit machine
unfoldable pub mem_region_size : (ℕ → ℕ → ℕ) → ℕ → ℕ → ℕ → ℕ
mem_region_size align_size memnode funcs vars =
    let memnode_size = align_size memnode 8 in
    let tagha_sym_arr_size = align_size item_size 8 in
    let start = u32 (memnode_size + 8 * 2) in
    let funcs1 = u32 (start + (tagha_sym_arr_size * funcs + memnode_size)) in
    let funcs2 = u32 (funcs1 + (8 * funcs * 5 + memnode_size * 5)) in
    let vars1 = u32 (funcs2 + (tagha_sym_arr_size * vars + memnode_size)) in
    u32 (vars1 + (8 * vars * 5 + memnode_size * 5))

module _ {B : Type 0} (api : BufApi B) (align_size : ℕ → ℕ → ℕ) where
  -- The loop over the functions.
  unfoldable pub write_funcs : ModGen B → List (List ℕ × Label B) → ModGen B
  unfolding write_func label_flags
  write_funcs modgen [] = modgen
  write_funcs modgen ((name, label) ∷ funcs) =
      write_funcs (write_func api align_size modgen (label_flags label) name label.data_) funcs

  -- The loop over the variables.
  unfoldable pub write_vars : ModGen B → List (List ℕ × B) → ModGen B
  unfolding write_var
  write_vars modgen [] = modgen
  write_vars modgen ((name, bytedata) ∷ vars) =
      write_vars (write_var api align_size modgen 0 name bytedata) vars

  -- From the sizes to the generated module.
  unfoldable pub build_module :
      ℕ → ℕ → ℕ → ℕ → List (List ℕ × Label B) → List (List ℕ × B) → ModGen B
  unfolding write_funcs write_vars write_header mod_gen_create or_default mem_region_size
  build_module memnode opstacksize callstacksize heapsize funcs vars =
      let region = mem_region_size align_size memnode (length funcs) (length vars) in
      let heap = u32 (or_default heapsize + u32 (align_size region 8)) in
      let headed =
        write_header (mod_gen_create api) (or_default opstacksize) (or_default callstacksize) heap
          0 in
      write_vars (write_funcs headed funcs) vars

  -- The file that is written at the end.
  unfoldable pub write_script :
      (B → Bool)
      → Bool
      → ℕ
      → ℕ
      → ℕ
      → ℕ
      → List (List ℕ × Label B)
      → List (List ℕ × B)
      → Bool × Option B × ModGen B
  unfolding build_module create_file
  write_script to_file opens memnode opstacksize callstacksize heapsize funcs vars =
      create_file api to_file opens
        (build_module memnode opstacksize callstacksize heapsize funcs vars)
