-- ===== src/Toolchain/ModuleGen/Entries.antt =====
-- The bytes of the entries that `tagha_mod_gen_write_func` and `tagha_mod_gen_write_var`
-- (tagha_toolchain/module_gen.h) put behind the tables.
use tagha.Base.{
  ℕ, suc, ◌+◌, ◌-◌, ◌%◌, ◌^◌, ◌<◌, ◌≤◌, ◌≡◌, refl, sym, arith, List, [], ◌∷◌, ◌++◌, length,
  replicate, ◌==◌, if◌then◌else◌, Bool-cases, inl, inr,
}
use tagha.Toolchain.Buffer.{BufApi, IsBuf}
use tagha.Toolchain.Buffer.Adds.{Adds, Adds-nothing, Adds-then, Adds-last}
use tagha.Toolchain.Buffer.Fields.{field_bytes}
use tagha.Toolchain.ModuleGen.{ModGen, u32, len_diff, insert_entry, write_func, write_var}

-- `harbol_align_size( size, 4 )` rounds up to the next multiple of 4.
pub record IsAlign (align_size : ℕ → ℕ → ℕ) : Type 0 where
  pub at_least : (size : ℕ) → size ≤ align_size size 4
  pub below : (size : ℕ) → align_size size 4 < size + 4
  pub multiple : (size : ℕ) → align_size size 4 % 4 ≡ 0

-- Four numbers, a name with its NUL and zeros up to `padded`, and what follows.
unfoldable pub entry_bytes : ℕ → ℕ → ℕ → ℕ → List ℕ → List ℕ → List ℕ
unfolding field_bytes
entry_bytes size flags name_len data_len name rest =
    field_bytes ((4, size) ∷ (4, flags) ∷ (4, name_len) ∷ (4, data_len) ∷ [])
    ++ ((name ++ 0 ∷ []) ++ (replicate (name_len - suc (length name)) 0 ++ rest))

-- Data with zeros up to a length.
abbrev pub padded : ℕ → List ℕ → List ℕ
padded len code = code ++ replicate (len - length code) 0

module _ (align_size : ℕ → ℕ → ℕ) where
  -- The length of a name with its NUL, and of data, in multiples of 4.
  abbrev pub name_space : List ℕ → ℕ
  name_space name = align_size (suc (length name)) 4

  abbrev pub data_space : List ℕ → ℕ
  data_space code = align_size (length code) 4

  -- The entry of a function: without flags its code follows, with flags only its name.
  unfoldable pub func_entry : ℕ → List ℕ → List ℕ → List ℕ
  unfolding entry_bytes
  func_entry flags name code =
      if flags == 0
      then entry_bytes (16 + name_space name + data_space code) flags (name_space name)
          (data_space code) name (padded (data_space code) code)
      else entry_bytes (16 + name_space name + 8) flags (name_space name) 8 name []

  -- The entry of a variable, always with its data.
  unfoldable pub var_entry : ℕ → List ℕ → List ℕ → List ℕ
  unfolding entry_bytes
  var_entry flags name datum =
      entry_bytes (16 + name_space name + data_space datum) flags (name_space name)
        (data_space datum) name (padded (data_space datum) datum)

  module _ {B : Type 0} (api : BufApi B) (buf : IsBuf api) (aligned : IsAlign align_size) where
    len_diff_lem :
        (len : ℕ) → len + 4 < 2 ^ 32 → len_diff api align_size len ≡ align_size len 4 - len
    unfolding len_diff
    len_diff_lem len small =
        let low = aligned.at_least len in let high = aligned.below len in omega arith

    insert_entry-Adds :
        (b : B) (size flags name_len data_len : ℕ)
        → Adds api b
            (insert_entry api align_size b size flags name_len data_len)
            (field_bytes ((4, size) ∷ (4, flags) ∷ (4, name_len) ∷ (4, data_len) ∷ []))
    unfolding insert_entry field_bytes
    insert_entry-Adds b size flags name_len data_len =
        let b1 = api.insert_int32 b size in
        let b2 = api.insert_int32 b1 flags in
        let b3 = api.insert_int32 b2 name_len in
        Adds-then api b b1 _ _ _ (buf.int32_table b size) (
          Adds-then api b1 b2 _ _ _ (buf.int32_table b1 flags) (
            Adds-then api b2 b3 _ _ _ (buf.int32_table b2 name_len)
              (Adds-last api b3 _ _ (buf.int32_table b3 data_len))))

    -- A named entry, and a buffer in which `rest` is put behind it.
    named-Adds :
        (b b' : B) (size flags name_len data_len pad : ℕ) (name rest : List ℕ)
        → pad ≡ name_len - suc (length name)
        → Adds api
            (api.insert_zeros
              (api.insert_cstr (insert_entry api align_size b size flags name_len data_len) name)
              pad)
            b'
            rest
        → Adds api b b' (entry_bytes size flags name_len data_len name rest)
    unfolding entry_bytes
    named-Adds b b' size flags name_len data_len pad name rest e adds =
        let b1 = insert_entry api align_size b size flags name_len data_len in
        let b2 = api.insert_cstr b1 name in
        let b3 = api.insert_zeros b2 pad in
        let zeros : Adds api b2 b3 (replicate (name_len - suc (length name)) 0) =
          rw (sym e) (buf.zeros_table b2 pad) in
        Adds-then api b b1 b' _ _ (insert_entry-Adds b size flags name_len data_len) (
          Adds-then api b1 b2 b' _ _ (buf.cstr_table b1 name)
            (Adds-then api b2 b3 b' _ _ zeros adds))

    -- Data with its zeros.
    padded-Adds :
        (b c : B) (len pad : ℕ)
        → pad ≡ len - length (api.table c)
        → Adds api b (api.insert_zeros (api.append b c) pad) (padded len (api.table c))
    padded-Adds b c len pad e = rw (sym e) (
        Adds-then api b (api.append b c) _ _ _ (buf.append_table b c)
          (buf.zeros_table (api.append b c) pad))

    -- The lengths that both functions compute do not overflow.
    record Lengths (name : List ℕ) (b : B) : Type 0 where
      name_len : u32 (u32 (length name) + 1) ≡ suc (length name)
      name_diff : len_diff api align_size (suc (length name)) ≡ name_space name - suc (length name)
      name_whole : u32 (suc (length name) + (name_space name - suc (length name))) ≡ name_space name
      data_len : u32 (api.count b) ≡ length (api.table b)
      data_diff :
          len_diff api align_size (length (api.table b))
          ≡ data_space (api.table b) - length (api.table b)
      data_whole :
          u32 (length (api.table b) + (data_space (api.table b) - length (api.table b)))
          ≡ data_space (api.table b)
      whole_size :
          u32 (16 + name_space name + data_space (api.table b))
          ≡ 16 + name_space name + data_space (api.table b)
      var_size :
          u32 (16 + (name_space name + data_space (api.table b)))
          ≡ 16 + name_space name + data_space (api.table b)
      bare_size : u32 (16 + name_space name + 8) ≡ 16 + name_space name + 8

    lengths :
        (name : List ℕ) (b : B) → length name + length (api.table b) + 64 < 2 ^ 32 → Lengths name b
    lengths name b small =
        let low = aligned.at_least (suc (length name)) in
        let high = aligned.below (suc (length name)) in
        let low' = aligned.at_least (length (api.table b)) in
        let high' = aligned.below (length (api.table b)) in
        record {
          name_len = omega arith;
          name_diff = len_diff_lem (suc (length name)) (omega arith);
          name_whole = omega arith;
          data_len = omega (arith, buf.count_table b);
          data_diff = len_diff_lem (length (api.table b)) (omega arith);
          data_whole = omega arith;
          whole_size = omega arith;
          var_size = omega arith;
          bare_size = omega arith;
        }

    sum_lem :
        (name : List ℕ) (b : B)
        → length name + length (api.table b) + 64 < 2 ^ 32
        → u32 (
            suc (length name)
            + length (api.table b)
            + (name_space name - suc (length name))
            + (data_space (api.table b) - length (api.table b)))
          ≡ name_space name + data_space (api.table b)
    sum_lem name b small =
        let low = aligned.at_least (suc (length name)) in
        let high = aligned.below (suc (length name)) in
        let low' = aligned.at_least (length (api.table b)) in
        let high' = aligned.below (length (api.table b)) in omega arith

    -- `tagha_mod_gen_write_func` puts one entry behind the functions: its numbers, the name with its
    -- NUL padded to a multiple of 4, and without flags the code, padded too. With flags nothing follows
    -- the name, although the numbers count 8 bytes there. Name and code have less than 2 ^ 32 - 64 bytes together, and the
    -- buffers append what is inserted.
    pub write_func-func_entry :
        (gen : ModGen B) (flags : ℕ) (name : List ℕ) (bytecode : B)
        → length name + length (api.table bytecode) + 64 < 2 ^ 32
        → Adds api gen.func_data
            (write_func api align_size gen flags name bytecode).func_data
            (func_entry flags name (api.table bytecode))
    unfolding write_func func_entry
    write_func-func_entry gen flags name bytecode small =
        let l = lengths name bytecode small in
        elim (Bool-cases (flags == 0)) [
          | inl e ↦
              rw
                (
                  e, l.name_len, l.name_diff, l.name_whole, l.data_len, l.data_diff, l.data_whole,
                  l.whole_size,
                )
                (named-Adds gen.func_data _ _ flags _ _ _ name _ refl
                  (padded-Adds _ bytecode _ _ refl))
          | inr e ↦
              rw (e, l.name_len, l.name_diff, l.name_whole, l.bare_size)
                (named-Adds gen.func_data _ _ flags _ 8 _ name [] refl (Adds-nothing api _))
        ]

    -- `tagha_mod_gen_write_var` puts one entry behind the variables.
    pub write_var-var_entry :
        (gen : ModGen B) (flags : ℕ) (name : List ℕ) (datum : B)
        → length name + length (api.table datum) + 64 < 2 ^ 32
        → Adds api gen.var_data
            (write_var api align_size gen flags name datum).var_data
            (var_entry flags name (api.table datum))
    unfolding write_var var_entry
    write_var-var_entry gen flags name datum small =
        let l = lengths name datum small in
        let sum = sum_lem name datum small in
        rw
          (
            l.name_len, l.name_diff, l.data_len, l.data_diff, l.name_whole, l.data_whole, sum,
            l.var_size,
          )
          (named-Adds gen.var_data _ _ flags _ _ _ name _ refl (padded-Adds _ datum _ _ refl))
