-- ===== src/Toolchain/Asm/Script/Listed.antt =====
-- What the disassembler (tagha_toolchain/disassembler/disassembler.c) finds in the script that the end
-- of `tagha_asm_assemble` (tagha_toolchain/assembler/assembler.c) writes.
use tagha.Base.{
  ℕ, ◌+◌, ◌^◌, ◌<◌, ◌≡◌, refl, sym, ap, subst, ◌∙◌, arith, List, [], ◌∷◌, ◌++◌, length,
}
use tagha.Mem.{Mem, load}
use tagha.Lifetime.{magic_verifier}
use tagha.Loader.{header_at}
use tagha.Toolchain.Buffer.{BufApi, IsBuf, HoldsAt}
use tagha.Toolchain.Buffer.Adds.{Adds, Adds-nothing, Adds-then}
use tagha.Toolchain.ModuleGen.{
  ModGen, u32, mod_gen_create, write_header, write_func, write_var, finalize,
}
use tagha.Toolchain.ModuleGen.Entries.{IsAlign, func_entry, write_func-func_entry}
use tagha.Toolchain.ModuleGen.Script.{IsHeader, finalize-header_at}
use tagha.Toolchain.ModuleGen.Traversal.{
  Items, table_bytes, item_names, AreWritable, collect_names-funcs,
}
use tagha.Toolchain.Disasm.Names.{past_func, collect_names}
use tagha.Toolchain.Asm.Directives.{Label}
use tagha.Toolchain.Asm.Script.{
  or_default, label_flags, mem_region_size, write_funcs, write_vars, build_module,
}

module _ {B : Type 0} (api : BufApi B) (align_size : ℕ → ℕ → ℕ) where
  -- The functions as entries of a table.
  abbrev pub func_items : List (List ℕ × Label B) → Items
  func_items [] = []
  func_items ((name, label) ∷ funcs) =
      (label_flags label, name, api.table label.data_) ∷ func_items funcs

  length-func_items : (funcs : List (List ℕ × Label B)) → length (func_items funcs) ≡ length funcs
  length-func_items [] = refl
  length-func_items ((name, label) ∷ funcs) =
      let more = length-func_items funcs in omega (arith, more)

  module _ (buf : IsBuf api) (aligned : IsAlign align_size) where
    write_funcs-table_bytes :
        (modgen : ModGen B) (funcs : List (List ℕ × Label B))
        → AreWritable (func_items funcs)
        → Adds api modgen.func_data
            (write_funcs api align_size modgen funcs).func_data
            (table_bytes (func_entry align_size) (func_items funcs))
    unfolding write_funcs table_bytes
    write_funcs-table_bytes modgen [] w = Adds-nothing api modgen.func_data
    write_funcs-table_bytes modgen ((name, label) ∷ funcs) w =
        let modgen' = write_func api align_size modgen (label_flags label) name label.data_ in
        Adds-then api modgen.func_data modgen'.func_data
          (write_funcs api align_size modgen' funcs).func_data _ _
          (write_func-func_entry align_size api buf aligned modgen (label_flags label) name
            label.data_ w.0.sizes_lt)
          (write_funcs-table_bytes modgen' funcs w.1)

    -- What the loops keep.
    record Keeps (modgen modgen' : ModGen B) : Type 0 where
      magic : modgen'.magic ≡ modgen.magic
      fields : IsHeader modgen.hdr → IsHeader modgen'.hdr

    write_func-Keeps :
        (modgen : ModGen B) (flags : ℕ) (name : List ℕ) (b : B)
        → Keeps modgen (write_func api align_size modgen flags name b)
    unfolding write_func
    write_func-Keeps modgen flags name b = record {
      magic = refl;
      fields = λ h. record {
        opstacksize_lt = h.opstacksize_lt;
        callstacksize_lt = h.callstacksize_lt;
        stacksize_lt = h.stacksize_lt;
        heapsize_lt = h.heapsize_lt;
        memsize_lt = h.memsize_lt;
        func_count_lt = omega arith;
        var_count_lt = h.var_count_lt;
        flags_lt = h.flags_lt;
      };
    }

    write_var-Keeps :
        (modgen : ModGen B) (flags : ℕ) (name : List ℕ) (b : B)
        → Keeps modgen (write_var api align_size modgen flags name b)
    unfolding write_var
    write_var-Keeps modgen flags name b = record {
      magic = refl;
      fields = λ h. record {
        opstacksize_lt = h.opstacksize_lt;
        callstacksize_lt = h.callstacksize_lt;
        stacksize_lt = h.stacksize_lt;
        heapsize_lt = h.heapsize_lt;
        memsize_lt = h.memsize_lt;
        func_count_lt = h.func_count_lt;
        var_count_lt = omega arith;
        flags_lt = h.flags_lt;
      };
    }

    write_funcs-Keeps :
        (modgen : ModGen B) (funcs : List (List ℕ × Label B))
        → Keeps modgen (write_funcs api align_size modgen funcs)
    unfolding write_funcs
    write_funcs-Keeps modgen [] = record { magic = refl; fields = λ h. h }
    write_funcs-Keeps modgen ((name, label) ∷ funcs) =
        let one = write_func-Keeps modgen (label_flags label) name label.data_ in
        let rest =
          write_funcs-Keeps (write_func api align_size modgen (label_flags label) name label.data_)
            funcs in
        record { magic = rest.magic ∙ one.magic; fields = λ h. rest.fields (one.fields h) }

    write_vars-Keeps :
        (modgen : ModGen B) (vars : List (List ℕ × B))
        → Keeps modgen (write_vars api align_size modgen vars)
    unfolding write_vars
    write_vars-Keeps modgen [] = record { magic = refl; fields = λ h. h }
    write_vars-Keeps modgen ((name, b) ∷ vars) =
        let one = write_var-Keeps modgen 0 name b in
        let rest = write_vars-Keeps (write_var api align_size modgen 0 name b) vars in
        record { magic = rest.magic ∙ one.magic; fields = λ h. rest.fields (one.fields h) }

    write_vars-func_data :
        (modgen : ModGen B) (vars : List (List ℕ × B))
        → (write_vars api align_size modgen vars).func_data ≡ modgen.func_data
    unfolding write_vars write_var
    write_vars-func_data modgen [] = refl
    write_vars-func_data modgen ((name, b) ∷ vars) =
        write_vars-func_data (write_var api align_size modgen 0 name b) vars

    write_funcs-func_count :
        (modgen : ModGen B) (funcs : List (List ℕ × Label B))
        → modgen.hdr.func_count < 2 ^ 32
        → (write_funcs api align_size modgen funcs).hdr.func_count
          ≡ u32 (modgen.hdr.func_count + length funcs)
    unfolding write_funcs write_func
    write_funcs-func_count modgen [] lt = omega arith
    write_funcs-func_count modgen ((name, label) ∷ funcs) lt =
        let modgen' = write_func api align_size modgen (label_flags label) name label.data_ in
        let more = write_funcs-func_count modgen' funcs (omega arith) in omega (arith, more)

    write_vars-func_count :
        (modgen : ModGen B) (vars : List (List ℕ × B))
        → (write_vars api align_size modgen vars).hdr.func_count ≡ modgen.hdr.func_count
    unfolding write_vars write_var
    write_vars-func_count modgen [] = refl
    write_vars-func_count modgen ((name, b) ∷ vars) =
        write_vars-func_count (write_var api align_size modgen 0 name b) vars

    module _ (memnode opstacksize callstacksize heapsize : ℕ) (funcs : List (List ℕ × Label B))
        (vars : List (List ℕ × B)) where
      abbrev built : ModGen B
      built = build_module api align_size memnode opstacksize callstacksize heapsize funcs vars

      abbrev headed : ModGen B
      headed =
          let region = mem_region_size align_size memnode (length funcs) (length vars) in
          let heap = u32 (or_default heapsize + u32 (align_size region 8)) in
          write_header (mod_gen_create api) (or_default opstacksize) (or_default callstacksize) heap
            0

      built-Keeps : Keeps headed built
      unfolding build_module
      built-Keeps =
          let fs = write_funcs-Keeps headed funcs in
          let vs = write_vars-Keeps (write_funcs api align_size headed funcs) vars in
          record { magic = vs.magic ∙ fs.magic; fields = λ h. vs.fields (fs.fields h) }

      headed-IsHeader :
          or_default opstacksize < 2 ^ 32 → or_default callstacksize < 2 ^ 32 → IsHeader headed.hdr
      unfolding write_header mod_gen_create
      headed-IsHeader o c = record {
        opstacksize_lt = o;
        callstacksize_lt = c;
        stacksize_lt = omega arith;
        heapsize_lt = omega arith;
        memsize_lt = omega arith;
        func_count_lt = omega arith;
        var_count_lt = omega arith;
        flags_lt = omega arith;
      }

      headed-magic : headed.magic < 2 ^ 32
      unfolding write_header mod_gen_create
      headed-magic = omega arith

      built-func_data :
          AreWritable (func_items funcs)
          → api.table built.func_data ≡ table_bytes (func_entry align_size) (func_items funcs)
      unfolding build_module write_header mod_gen_create
      built-func_data w =
          ap api.table (write_vars-func_data (write_funcs api align_size headed funcs) vars)
          ∙ write_funcs-table_bytes headed funcs w
          ∙ ap (λ t. t ++ table_bytes (func_entry align_size) (func_items funcs)) buf.create_table

      built-func_count : length funcs < 2 ^ 32 → built.hdr.func_count ≡ length funcs
      unfolding build_module write_header mod_gen_create
      built-func_count lt =
          let vs = write_vars-func_count (write_funcs api align_size headed funcs) vars in
          let fs = write_funcs-func_count headed funcs (omega arith) in omega (arith, vs, fs)

      built-magic : built.magic ≡ magic_verifier
      unfolding write_header mod_gen_create
      built-magic = built-Keeps.magic

      -- The disassembler finds the functions in the script that the assembler writes. Under the laws of
      -- the byte buffers and of the alignment, where sizes, names and code fit their fields, the
      -- header of the script has the magic number and the number of functions, and the first walk
      -- of the disassembler over the table of functions, in memory that holds the script, gives the
      -- names of the functions in their order and ends behind the table.
      pub build_module-collect_names :
          (m : Mem) (base : ℕ)
          → or_default opstacksize < 2 ^ 32
          → or_default callstacksize < 2 ^ 32
          → length funcs < 2 ^ 32
          → AreWritable (func_items funcs)
          → 48 + length (api.table built.func_data) + length (api.table built.var_data) < 2 ^ 32
          → HoldsAt m base (api.table (finalize api built).0)
          → (load 4 m base ≡ magic_verifier)
            × ((header_at m base).func_count ≡ length funcs)
            × (collect_names past_func (length funcs) m (base + (header_at m base).funcs_offset) ≡ (
              item_names (func_items funcs),
              base
                  + (header_at m base).funcs_offset
                  + length (table_bytes (func_entry align_size) (func_items funcs)),
            ))
      unfolding finalize
      build_module-collect_names m base o c n w room held =
          let magic_lt = subst (λ v. v < 2 ^ 32) (sym built-Keeps.magic) headed-magic in
          let (magic, hdr, at_funcs, at_vars, zeros) =
            finalize-header_at api buf built m base (built-Keeps.fields (headed-IsHeader o c))
              magic_lt room held in
          let table =
            subst (λ bs. HoldsAt m (base + (header_at m base).funcs_offset) bs) (built-func_data w)
              at_funcs in
          let walk =
            collect_names-funcs align_size aligned m (base + (header_at m base).funcs_offset)
              (func_items funcs) w table in
          let count : (header_at m base).func_count ≡ built.hdr.func_count =
            ap (λ h. h.func_count) hdr in
          (
            magic ∙ built-magic,
            count ∙ built-func_count n,
            subst
                (λ k. collect_names past_func k m (base + (header_at m base).funcs_offset) ≡ (
                  item_names (func_items funcs),
                  base
                      + (header_at m base).funcs_offset
                      + length (table_bytes (func_entry align_size) (func_items funcs)),
                ))
                (length-func_items funcs) walk,
          )
