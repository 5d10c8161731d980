-- ===== src/Toolchain/ModuleGen.antt =====
-- tagha_toolchain/module_gen.h: the tables and the header of a script, built in byte buffers and put
-- together. The buffers and `harbol_align_size` are Harbol's, and parameters.
pub mod Entries
pub mod Reads
pub mod Loaded
pub mod LoadedVars
pub mod Script
pub mod Traversal
use tagha.Base.{
  ℕ, ◌+◌, ◌-◌, ◌%◌, ◌^◌, Bool, true, false, List, [], ◌∷◌, ◌++◌, Option, none, some, length, ◌==◌,
  if◌then◌else◌,
}
use tagha.Loader.{Header}
use tagha.Lifetime.{magic_verifier}
use tagha.Toolchain.Buffer.{BufApi}
use tagha.Toolchain.Buffer.Fields.{field_bytes}

-- struct TaghaModGen
pub record ModGen (B : Type 0) : Type 0 where
  pub magic : ℕ
  pub hdr : Header
  pub var_data : B
  pub func_data : B

-- A `uint32_t`, and the difference of two.
abbrev pub u32 : ℕ → ℕ
u32 n = n % 2 ^ 32

abbrev pub u32_sub : ℕ → ℕ → ℕ
u32_sub a b = (a + 2 ^ 32 - b) % 2 ^ 32

-- sizeof(struct TaghaItemEntry) and sizeof(struct TaghaModuleHeader)
abbrev pub entry_sizeof : ℕ
entry_sizeof = 16

abbrev pub header_sizeof : ℕ
header_sizeof = 48

abbrev pub zero_header : Header
zero_header = record {
  opstacksize = 0;
  callstacksize = 0;
  stacksize = 0;
  heapsize = 0;
  memsize = 0;
  funcs_offset = 0;
  func_count = 0;
  vars_offset = 0;
  var_count = 0;
  mem_offset = 0;
  flags = 0;
}

-- The fields of a `struct TaghaModuleHeader`, twelve `uint32_t`, and its bytes.
abbrev pub header_fields : ℕ → Header → List (ℕ × ℕ)
header_fields magic hdr =
    (4, magic)
    ∷ (4, hdr.opstacksize)
    ∷ (4, hdr.callstacksize)
    ∷ (4, hdr.stacksize)
    ∷ (4, hdr.heapsize)
    ∷ (4, hdr.memsize)
    ∷ (4, hdr.funcs_offset)
    ∷ (4, hdr.func_count)
    ∷ (4, hdr.vars_offset)
    ∷ (4, hdr.var_count)
    ∷ (4, hdr.mem_offset)
    ∷ (4, hdr.flags)
    ∷ []

unfoldable pub header_bytes : ℕ → Header → List ℕ
unfolding field_bytes
header_bytes magic hdr = field_bytes (header_fields magic hdr)

-- tagha_mod_gen_write_header, whose arguments are `uint32_t`
unfoldable pub write_header : {B : Type 0} → ModGen B → ℕ → ℕ → ℕ → ℕ → ModGen B
write_header gen opstacksize callstacksize heapsize flags = record gen {
  hdr = record (gen.hdr) {
    opstacksize = opstacksize;
    callstacksize = callstacksize;
    stacksize = u32 (opstacksize + callstacksize);
    heapsize = heapsize;
    memsize = u32 (opstacksize + callstacksize + heapsize);
    flags = flags;
  };
}

module _ {B : Type 0} (api : BufApi B) where
  -- tagha_mod_gen_create
  unfoldable pub mod_gen_create : ModGen B
  mod_gen_create = record {
    magic = magic_verifier;
    hdr = zero_header;
    var_data = api.create;
    func_data = api.create;
  }

  -- The header with its offsets, in __tagha_mod_gen_finalize.
  unfoldable pub with_offsets : ModGen B → Header
  with_offsets gen =
      let vars_offset = u32 (header_sizeof + api.count gen.func_data) in
      record (gen.hdr) {
        funcs_offset = header_sizeof;
        vars_offset = vars_offset;
        mem_offset = u32 (vars_offset + api.count gen.var_data);
      }

  -- __tagha_mod_gen_finalize: the script, and the generator after it
  unfoldable pub finalize : ModGen B → B × ModGen B
  unfolding with_offsets header_bytes
  finalize gen =
      let hdr = with_offsets gen in
      let headed = api.insert_obj api.create (header_bytes gen.magic hdr) in
      let tables = api.append (api.append headed gen.func_data) gen.var_data in
      (
        api.insert_zeros tables hdr.memsize,
        record gen {
          hdr = hdr;
          func_data = api.clear gen.func_data;
          var_data = api.clear gen.var_data;
        },
      )

  -- tagha_mod_gen_create_file, where `fopen` gives a file or NULL and `to_file` is
  -- `harbol_bytebuffer_to_file` on it; with the buffer that is written
  unfoldable pub create_file : (B → Bool) → Bool → ModGen B → Bool × Option B × ModGen B
  unfolding finalize
  create_file to_file opens gen =
      if opens
      then (let (final_tbc, gen') = finalize gen in (to_file final_tbc, some final_tbc, gen'))
      else (false, none, gen)

  -- tagha_mod_gen_buffer
  unfoldable pub mod_gen_buffer : ModGen B → B × ModGen B
  unfolding finalize
  mod_gen_buffer gen = finalize gen

  -- tagha_mod_gen_raw, as the bytes that the pointer points to
  unfoldable pub mod_gen_raw : ModGen B → List ℕ × ModGen B
  unfolding mod_gen_buffer
  mod_gen_raw gen = let (final_tbc, gen') = mod_gen_buffer gen in (api.table final_tbc, gen')

module _ {B : Type 0} (api : BufApi B) (align_size : ℕ → ℕ → ℕ) where
  -- `name_len_diff`, `data_len_diff`
  unfoldable pub len_diff : ℕ → ℕ
  len_diff len = u32_sub (u32 (align_size len 4)) len

  -- The four numbers before the name of an entry.
  unfoldable pub insert_entry : B → ℕ → ℕ → ℕ → ℕ → B
  insert_entry b entry_size flags name_len data_len =
      api.insert_int32
        (api.insert_int32 (api.insert_int32 (api.insert_int32 b entry_size) flags) name_len)
        data_len

  -- tagha_mod_gen_write_func
  unfoldable pub write_func : ModGen B → ℕ → List ℕ → B → ModGen B
  unfolding len_diff insert_entry
  write_func gen flags name bytecode =
      let name_len = u32 (u32 (length name) + 1) in
      let name_len_diff = len_diff name_len in
      let data_len = u32 (api.count bytecode) in
      let data_len_diff = len_diff data_len in
      let entry_size = u32 (
        entry_sizeof
        + u32 (name_len + name_len_diff)
        + (if flags == 0 then u32 (data_len + data_len_diff) else 8)) in
      let numbers =
        insert_entry gen.func_data entry_size flags (u32 (name_len + name_len_diff))
          (if flags == 0 then u32 (data_len + data_len_diff) else 8) in
      let named = api.insert_zeros (api.insert_cstr numbers name) name_len_diff in
      let whole = api.insert_zeros (api.append named bytecode) data_len_diff in
      record gen {
        hdr = record (gen.hdr) { func_count = u32 (gen.hdr.func_count + 1) };
        func_data = if flags == 0 then whole else named;
      }

  -- tagha_mod_gen_write_var
  unfoldable pub write_var : ModGen B → ℕ → List ℕ → B → ModGen B
  unfolding len_diff insert_entry
  write_var gen flags name datum =
      let name_len = u32 (u32 (length name) + 1) in
      let data_len = u32 (api.count datum) in
      let name_len_diff = len_diff name_len in
      let data_len_diff = len_diff data_len in
      let entry_size =
        u32 (entry_sizeof + u32 (name_len + data_len + name_len_diff + data_len_diff)) in
      let numbers =
        insert_entry gen.var_data entry_size flags (u32 (name_len + name_len_diff))
          (u32 (data_len + data_len_diff)) in
      let named = api.insert_zeros (api.insert_cstr numbers name) name_len_diff in
      record gen {
        hdr = record (gen.hdr) { var_count = u32 (gen.hdr.var_count + 1) };
        var_data = api.insert_zeros (api.append named datum) data_len_diff;
      }
