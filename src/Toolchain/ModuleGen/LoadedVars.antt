-- ===== src/Toolchain/ModuleGen/LoadedVars.antt =====
-- The loader (tagha/tagha.c) on the entries of variables that tagha_toolchain/module_gen.h wrote.
use tagha.Base.{
  ℕ, suc, ◌+◌, ◌*◌, ◌%◌, ◌^◌, ◌<◌, ◌≡◌, refl, ap, ◌∙◌, arith, List, length, if◌then◌else◌,
}
use tagha.Words.{add64}
use tagha.Mem.{Mem, load}
use tagha.State.{store_item, item_size, has_flag, flag_extern, nil}
use tagha.Symbols.{add_symbol}
use tagha.Loader.{entry_at, cstring, Filling, setup_var}
use tagha.Toolchain.Buffer.{HoldsAt, HoldsAt-left}
use tagha.Toolchain.ModuleGen.Entries.{IsAlign, name_space, data_space, var_entry}
use tagha.Toolchain.ModuleGen.Reads.{
  entry_at-entry_bytes, cstring-entry_bytes, rest-entry_bytes, length-entry_bytes, length-padded,
}
use tagha.Toolchain.ModuleGen.Loaded.{IsWritable, entry_of}

module _ (align_size : ℕ → ℕ → ℕ) (aligned : IsAlign align_size) where
  -- What the readers find in the entry of a variable.
  pub record VarRead (m : Mem) (p flags : ℕ) (name datum : List ℕ) : Type 0 where
    pub entry : entry_at m p ≡ entry_of align_size aligned flags name (data_space align_size datum)
    pub name_at : cstring (2 ^ 64) m (p + 16) ≡ name
    pub size :
        length (var_entry align_size flags name datum)
        ≡ 16 + name_space align_size name + data_space align_size datum
    pub data_at : HoldsAt m (p + 16 + name_space align_size name) datum

  pub var_read :
      (m : Mem) (p flags : ℕ) (name datum : List ℕ)
      → IsWritable flags name datum
      → HoldsAt m p (var_entry align_size flags name datum)
      → VarRead m p flags name datum
  unfolding var_entry
  var_read m p flags name datum w held =
      let low = aligned.at_least (suc (length name)) in
      let high = aligned.below (suc (length name)) in
      let low' = aligned.at_least (length datum) in
      let high' = aligned.below (length datum) in
      let sizes = w.sizes_lt in
      record {
        entry =
            entry_at-entry_bytes m p _ flags _ _ name _ held w.flags_lt (omega arith) (omega arith);
        name_at = cstring-entry_bytes m p _ flags _ _ name _ held w.chars (omega arith);
        size =
            length-entry_bytes _ flags _ _ name _ low
            ∙ ap (λ k. 16 + name_space align_size name + k)
                (length-padded (data_space align_size datum) datum low');
        data_at = HoldsAt-left m _ datum _ (rest-entry_bytes m p _ flags _ _ name _ held low);
      }

  -- One round of the loader over the entry of a variable that `tagha_mod_gen_write_var` wrote files
  -- it under its name and its length, stores an item that points to its data, and goes on behind
  -- the entry. The entry ends inside the address space.
  pub setup_var-var_entry :
      (string_hash : List ℕ → ℕ) (self i : ℕ) (st : Filling) (flags : ℕ) (name datum : List ℕ)
      → IsWritable flags name datum
      → st.iter + length (var_entry align_size flags name datum) < 2 ^ 64
      → HoldsAt st.mem st.iter (var_entry align_size flags name datum)
      → (setup_var string_hash self i st ≡ record {
        syms = add_symbol string_hash name (data_space align_size datum) i st.syms;
        mem = store_item st.mem (st.syms.table + item_size * i) (record {
          item = st.iter + 16 + name_space align_size name;
          owner = if has_flag flags flag_extern then nil else self;
          flags = flags;
        });
        iter = st.iter + length (var_entry align_size flags name datum);
      })
        × HoldsAt st.mem (st.iter + 16 + name_space align_size name) datum
  unfolding setup_var add64 entry_at
  setup_var-var_entry string_hash self i st flags name datum w room held =
      let read = var_read st.mem st.iter flags name datum w held in
      let size = read.size in
      let f : load 4 st.mem (st.iter + 4) ≡ flags = ap (λ x. x.flags) read.entry in
      let n : load 4 st.mem (st.iter + 8) ≡ name_space align_size name =
        ap (λ x. x.name_len) read.entry in
      let d : load 4 st.mem (st.iter + 12) ≡ data_space align_size datum =
        ap (λ x. x.data_len) read.entry in
      let at_name : (st.iter + 16) % 2 ^ 64 ≡ st.iter + 16 = omega arith in
      let at_data : (st.iter + 16 + name_space align_size name) % 2 ^ 64
          ≡ st.iter + 16 + name_space align_size name =
        omega arith in
      let behind : (st.iter + 16 + name_space align_size name + data_space align_size datum)
            % 2 ^ 64
          ≡ st.iter + length (var_entry align_size flags name datum) =
        omega arith in
      (rw (setup_var, f, n, d, at_name, read.name_at, at_data, behind) refl, read.data_at)
