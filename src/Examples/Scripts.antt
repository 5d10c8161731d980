-- ===== src/Examples/Scripts.antt =====
-- The theorems about tagha_toolchain/module_gen.h at concrete inputs.
use tagha.Base.{
  ℕ, ◌+◌, ◌*◌, ◌^◌, ◌<◌, ◌≡◌, refl, arith, List, [], ◌∷◌, ◌++◌, length, replicate, if◌then◌else◌,
  ◌&◌,
}
use tagha.Mem.{Mem, load}
use tagha.State.{store_item, item_size, has_flag, flag_extern, nil}
use tagha.Symbols.{add_symbol, empty_table}
use tagha.Loader.{header_at, Filling, setup_func, setup_var}
use tagha.Toolchain.Buffer.{HoldsAt, le_bytes}
use tagha.Toolchain.Buffer.Fields.{field_bytes}
use tagha.Toolchain.ModuleGen.{ModGen, mod_gen_create, write_header, write_func, finalize}
use tagha.Toolchain.ModuleGen.Entries.{entry_bytes, func_entry, var_entry, write_func-func_entry}
use tagha.Toolchain.ModuleGen.Loaded.{IsWritable, setup_func-func_entry}
use tagha.Toolchain.ModuleGen.LoadedVars.{setup_var-var_entry}
use tagha.Toolchain.ModuleGen.Script.{IsHeader, finalize-header_at}
use tagha.Examples.Fixtures.{with_bytes, blank}
use tagha.Examples.Bytes.{with_bytes-HoldsAt}
use tagha.Examples.Buffers.{bytes_api, bytes_IsBuf, align, align-IsAlign}

abbrev no_flags : ℕ
no_flags = 0

-- A function `f` of two bytes, a C function `g`, and a variable `v` of two bytes.
abbrev f_name : List ℕ
f_name = 102 ∷ []

abbrev v_name : List ℕ
v_name = 118 ∷ []

abbrev two_bytes : List ℕ
two_bytes = 1 ∷ 66 ∷ []

f_IsWritable : IsWritable 0 f_name two_bytes
f_IsWritable = record {
  chars = ((λ e. omega arith) & tt);
  flags_lt = omega arith;
  sizes_lt = omega arith;
}

abbrev empty_gen : ModGen (List ℕ)
empty_gen = write_header (mod_gen_create bytes_api) 64 64 4 0

write_func-func_entry_example :
    (write_func bytes_api align empty_gen 0 f_name two_bytes).func_data
    ≡ empty_gen.func_data ++ func_entry align 0 f_name two_bytes
write_func-func_entry_example =
    write_func-func_entry align bytes_api bytes_IsBuf align-IsAlign empty_gen 0 f_name two_bytes
      (omega arith)

abbrev f_filling : Filling
f_filling = record {
  syms = empty_table 6000 1;
  mem = with_bytes 1000 (func_entry align 0 f_name two_bytes) blank;
  iter = 1000;
}

f_held : HoldsAt f_filling.mem f_filling.iter (func_entry align 0 f_name two_bytes)
unfolding func_entry entry_bytes field_bytes le_bytes
f_held = with_bytes-HoldsAt 1000 (func_entry align 0 f_name two_bytes) blank refl (omega arith)

f_room : f_filling.iter + length (func_entry align 0 f_name two_bytes) < 2 ^ 64
unfolding func_entry entry_bytes field_bytes le_bytes
f_room = omega arith

setup_func-func_entry_example :
    (setup_func length 512 0 f_filling ≡ record {
      syms = add_symbol length f_name 4 0 f_filling.syms;
      mem = store_item f_filling.mem (f_filling.syms.table + item_size * 0) (record {
        item = 1000 + 16 + 4;
        owner = if has_flag 0 flag_extern then nil else 512;
        flags = 0;
      });
      iter = 1000 + length (func_entry align 0 f_name two_bytes);
    })
    × (no_flags ≡ 0 → HoldsAt f_filling.mem (1000 + 16 + 4) two_bytes)
setup_func-func_entry_example =
    setup_func-func_entry align align-IsAlign length 512 0 f_filling 0 f_name two_bytes f_IsWritable
      f_room f_held

abbrev v_filling : Filling
v_filling = record {
  syms = empty_table 6000 1;
  mem = with_bytes 1000 (var_entry align 0 v_name two_bytes) blank;
  iter = 1000;
}

v_IsWritable : IsWritable 0 v_name two_bytes
v_IsWritable = record {
  chars = ((λ e. omega arith) & tt);
  flags_lt = omega arith;
  sizes_lt = omega arith;
}

v_held : HoldsAt v_filling.mem v_filling.iter (var_entry align 0 v_name two_bytes)
unfolding var_entry entry_bytes field_bytes le_bytes
v_held = with_bytes-HoldsAt 1000 (var_entry align 0 v_name two_bytes) blank refl (omega arith)

v_room : v_filling.iter + length (var_entry align 0 v_name two_bytes) < 2 ^ 64
unfolding var_entry entry_bytes field_bytes le_bytes
v_room = omega arith

setup_var-var_entry_example :
    (setup_var length 512 0 v_filling ≡ record {
      syms = add_symbol length v_name 4 0 v_filling.syms;
      mem = store_item v_filling.mem (v_filling.syms.table + item_size * 0) (record {
        item = 1000 + 16 + 4;
        owner = if has_flag 0 flag_extern then nil else 512;
        flags = 0;
      });
      iter = 1000 + length (var_entry align 0 v_name two_bytes);
    })
    × HoldsAt v_filling.mem (1000 + 16 + 4) two_bytes
setup_var-var_entry_example =
    setup_var-var_entry align align-IsAlign length 512 0 v_filling 0 v_name two_bytes v_IsWritable
      v_room v_held

abbrev f_gen : ModGen (List ℕ)
f_gen =
    write_func bytes_api align (write_header (mod_gen_create bytes_api) 2 1 1 0) 0 f_name two_bytes

abbrev script_mem : Mem
script_mem = with_bytes 1000 (finalize bytes_api f_gen).0 blank

f_gen_IsHeader : IsHeader f_gen.hdr
unfolding write_func write_header mod_gen_create
f_gen_IsHeader = record {
  opstacksize_lt = omega arith;
  callstacksize_lt = omega arith;
  stacksize_lt = omega arith;
  heapsize_lt = omega arith;
  memsize_lt = omega arith;
  func_count_lt = omega arith;
  var_count_lt = omega arith;
  flags_lt = omega arith;
}

f_gen_magic : f_gen.magic < 2 ^ 32
unfolding write_func write_header mod_gen_create
f_gen_magic = omega arith

f_gen_room : 48 + length f_gen.func_data + length f_gen.var_data < 2 ^ 32
unfolding write_func write_header mod_gen_create le_bytes
f_gen_room = omega arith

script_held : HoldsAt script_mem 1000 (finalize bytes_api f_gen).0
unfolding finalize write_func write_header mod_gen_create tagha.Toolchain.ModuleGen.header_bytes
    field_bytes le_bytes
script_held = with_bytes-HoldsAt 1000 (finalize bytes_api f_gen).0 blank refl (omega arith)

finalize-header_at_example :
    (load 4 script_mem 1000 ≡ f_gen.magic)
    × (header_at script_mem 1000 ≡ (finalize bytes_api f_gen).1.hdr)
    × HoldsAt script_mem (1000 + (header_at script_mem 1000).funcs_offset) f_gen.func_data
    × HoldsAt script_mem (1000 + (header_at script_mem 1000).vars_offset) f_gen.var_data
    × HoldsAt script_mem
        (1000 + (header_at script_mem 1000).mem_offset)
        (replicate f_gen.hdr.memsize 0)
finalize-header_at_example =
    finalize-header_at bytes_api bytes_IsBuf f_gen script_mem 1000 f_gen_IsHeader f_gen_magic
      f_gen_room script_held
