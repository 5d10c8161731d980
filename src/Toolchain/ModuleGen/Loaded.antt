-- ===== src/Toolchain/ModuleGen/Loaded.antt =====
-- The loader (tagha/tagha.c) and the disassembler (tagha_toolchain/disassembler/disassembler.c) on the
-- entries that tagha_toolchain/module_gen.h wrote.
use tagha.Base.{
  ℕ, suc, ◌+◌, ◌*◌, ◌%◌, ◌^◌, ◌<◌, ◌≡◌, refl, ap, ◌∙◌, arith, List, length, ◌==◌, if◌then◌else◌,
  Bool-cases, inl, inr,
}
use tagha.Words.{add64}
use tagha.Mem.{Mem, load}
use tagha.State.{store_item, item_size, has_flag, flag_extern, nil}
use tagha.Symbols.{add_symbol}
use tagha.Loader.{Entry, entry_at, cstring, Filling, setup_func}
use tagha.Toolchain.Buffer.{HoldsAt, HoldsAt-left}
use tagha.Toolchain.ModuleGen.Entries.{IsAlign, name_space, data_space, func_entry}
use tagha.Toolchain.ModuleGen.Reads.{
  IsCstring, entry_at-entry_bytes, cstring-entry_bytes, rest-entry_bytes, length-entry_bytes,
  length-padded,
}

-- What a name, data and flags have to be for an entry: no NUL in the name, and 32-bit sizes.
pub record IsWritable (flags : ℕ) (name code : List ℕ) : Type 0 where
  pub chars : IsCstring name
  pub flags_lt : flags < 2 ^ 32
  pub sizes_lt : length name + length code + 64 < 2 ^ 32

module _ (align_size : ℕ → ℕ → ℕ) (aligned : IsAlign align_size) where
  -- The length of the data of a function's entry in its table.
  abbrev pub func_data_len : ℕ → List ℕ → ℕ
  func_data_len flags code = if flags == 0 then data_space align_size code else 8

  abbrev pub entry_of : ℕ → List ℕ → ℕ → Entry
  entry_of flags name data_len = record {
    flags = flags;
    name_len = name_space align_size name;
    data_len = data_len;
  }

  -- What the readers find in the entry of a function.
  pub record FuncRead (m : Mem) (p flags : ℕ) (name code : List ℕ) : Type 0 where
    pub entry : entry_at m p ≡ entry_of flags name (func_data_len flags code)
    pub name_at : cstring (2 ^ 64) m (p + 16) ≡ name
    pub size :
        length (func_entry align_size flags name code)
        ≡ 16 + name_space align_size name + (if flags == 0 then data_space align_size code else 0)
    pub code_at : flags ≡ 0 → HoldsAt m (p + 16 + name_space align_size name) code

  pub func_read :
      (m : Mem) (p flags : ℕ) (name code : List ℕ)
      → IsWritable flags name code
      → HoldsAt m p (func_entry align_size flags name code)
      → FuncRead m p flags name code
  unfolding func_entry
  func_read m p flags name code w held =
      let low = aligned.at_least (suc (length name)) in
      let high = aligned.below (suc (length name)) in
      let low' = aligned.at_least (length code) in
      let high' = aligned.below (length code) in
      let sizes = w.sizes_lt in
      elim (Bool-cases (flags == 0)) [
        | inl e ↦
            (let bytes = rw (func_entry, e) at held in
              record {
                entry = rw e (
                    entry_at-entry_bytes m p _ flags _ _ name _ bytes w.flags_lt (omega arith)
                      (omega arith));
                name_at = cstring-entry_bytes m p _ flags _ _ name _ bytes w.chars (omega arith);
                size =
                    rw (func_entry, e)
                      (length-entry_bytes _ flags _ _ name _ low
                        ∙ ap (λ k. 16 + name_space align_size name + k)
                            (length-padded (data_space align_size code) code low'));
                code_at = λ z.
                    HoldsAt-left m _ code _ (rest-entry_bytes m p _ flags _ _ name _ bytes low);
              })
        | inr e ↦
            (let bytes = rw (func_entry, e) at held in
              record {
                entry = rw e (
                    entry_at-entry_bytes m p _ flags _ _ name _ bytes w.flags_lt (omega arith)
                      (omega arith));
                name_at = cstring-entry_bytes m p _ flags _ _ name _ bytes w.chars (omega arith);
                size = rw (func_entry, e) (length-entry_bytes _ flags _ _ name _ low);
                code_at = λ z. absurd (ground arith);
              })
      ]

  -- One round of the loader over the entry of a function that `tagha_mod_gen_write_func` wrote files
  -- the function under its name and its length, stores an item that points to its code, or to
  -- nothing if it has flags, and goes on behind the entry. With flags the entry ends with the name,
  -- although its numbers count 8 bytes more. The name has no NUL, sizes have 32 bits, and the entry
  -- ends inside the address space.
  pub setup_func-func_entry :
      (string_hash : List ℕ → ℕ) (self i : ℕ) (st : Filling) (flags : ℕ) (name code : List ℕ)
      → IsWritable flags name code
      → st.iter + length (func_entry align_size flags name code) < 2 ^ 64
      → HoldsAt st.mem st.iter (func_entry align_size flags name code)
      → (setup_func string_hash self i st ≡ record {
        syms = add_symbol string_hash name (func_data_len flags code) i st.syms;
        mem = store_item st.mem (st.syms.table + item_size * i) (record {
          item = if flags == 0 then st.iter + 16 + name_space align_size name else nil;
          owner = if has_flag flags flag_extern then nil else self;
          flags = flags;
        });
        iter = st.iter + length (func_entry align_size flags name code);
      })
        × (flags ≡ 0 → HoldsAt st.mem (st.iter + 16 + name_space align_size name) code)
  unfolding setup_func add64 entry_at
  setup_func-func_entry string_hash self i st flags name code w room held =
      let read = func_read st.mem st.iter flags name code w held in
      let size = read.size in
      let f : load 4 st.mem (st.iter + 4) ≡ flags = ap (λ x. x.flags) read.entry in
      let n : load 4 st.mem (st.iter + 8) ≡ name_space align_size name =
        ap (λ x. x.name_len) read.entry in
      let d : load 4 st.mem (st.iter + 12) ≡ func_data_len flags code =
        ap (λ x. x.data_len) read.entry in
      let at_name : (st.iter + 16) % 2 ^ 64 ≡ st.iter + 16 = omega arith in
      let at_code : (st.iter + 16 + name_space align_size name) % 2 ^ 64
          ≡ st.iter + 16 + name_space align_size name =
        omega arith in
      (
        elim (Bool-cases (flags == 0)) [
          | inl e ↦
              (let s = rw e at size in
                let behind : (st.iter
                        + 16
                        + name_space align_size name
                        + data_space align_size code)
                      % 2 ^ 64
                    ≡ st.iter + length (func_entry align_size flags name code) =
                  omega arith in
                rw (setup_func, f, n, d, at_name, read.name_at, at_code, e, behind) refl)
          | inr e ↦
              (let s = rw e at size in
                let behind : st.iter + 16 + name_space align_size name
                    ≡ st.iter + length (func_entry align_size flags name code) =
                  omega arith in
                rw (setup_func, f, n, d, at_name, read.name_at, at_code, e, behind) refl)
        ],
        read.code_at,
      )
