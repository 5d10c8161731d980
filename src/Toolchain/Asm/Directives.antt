-- ===== src/Toolchain/Asm/Directives.antt =====
-- The directives of the first pass of tagha_toolchain/assembler/assembler.c: sizes, functions of the host
-- and of other modules, and global variables with their data.
pub mod Sizes
use tagha.Base.{
  ℕ, zero, suc, ◌+◌, ◌-◌, ◌*◌, ◌%◌, ◌^◌, ◌≡◌, refl, ap, sym, ◌∙◌, arith, Bool, true, false, not,
  ◌||◌, Option, none, some, List, [], ◌∷◌, ◌==◌, length, if◌then◌else◌, Bool-cases, inl, inr,
  replicate, ◌++◌,
}
use tagha.Symbols.{same_string}
use tagha.Toolchain.Buffer.{BufApi, IsBuf, length-append, length-le_bytes, le_bytes}
use tagha.Toolchain.ModuleGen.Reads.{length-replicate}
use tagha.Toolchain.Asm.Lexer.{
  Lexers, Lex, char_at, advance, lex_id, skip_whitespace, skip_delim, string_to_int,
  is_alphabetical,
}

-- Label
pub record Label (B : Type 0) : Type 0 where
  pub data_ : B
  pub offset : ℕ
  pub is_func : Bool
  pub is_native : Bool
  pub is_extern : Bool

-- The widths of data, and the names `byte`, `half`, `long` and `word`.
pub data Width : Type 0 where
  byte : Width
  half : Width
  long : Width
  word : Width

abbrev pub width_size : Width → ℕ
width_size byte = 1
width_size half = 2
width_size long = 4
width_size word = 8

unfoldable pub width_of : List ℕ → Option Width
unfolding same_string
width_of name =
    if same_string name (98 ∷ 121 ∷ 116 ∷ 101 ∷ [])
    then some byte
    else if same_string name (104 ∷ 97 ∷ 108 ∷ 102 ∷ [])
    then some half
    else if same_string name (108 ∷ 111 ∷ 110 ∷ 103 ∷ [])
    then some long
    else if same_string name (119 ∷ 111 ∷ 114 ∷ 100 ∷ [])
    then some word
    else none

-- `_tagha_asm_err`, without its message
abbrev pub report : Lex → Lex
report lex = record lex { err = true }

-- What a directive leaves: the size, the label or the data that it declares, and the text behind it.
abbrev pub Declared : Type 0 → Type 0
Declared A = Option A × Lex

module _ (lx : Lexers) where
  -- tagha_asm_parse_opstacksize, _callstacksize and _heapsize, with the bytes of a unit
  unfoldable pub parse_size : ℕ → Lex → Declared ℕ
  unfolding skip_whitespace string_to_int
  parse_size unit st =
      let st' = skip_whitespace lx st in
      let (num, st'') = string_to_int lx st' in
      if not (lx.is_decimal (char_at st'.iter))
      then (none, report st')
      else elim num [ none ↦ (none, report st'') | some n ↦ (some (n * unit % 2 ^ 32), st'') ]

  unfoldable pub parse_opstacksize : Lex → Declared ℕ
  unfolding parse_size
  parse_opstacksize st = parse_size 8 st

  unfoldable pub parse_callstacksize : Lex → Declared ℕ
  unfolding parse_size
  parse_callstacksize st = parse_size 8 st

  unfoldable pub parse_heapsize : Lex → Declared ℕ
  unfolding parse_size
  parse_heapsize st = parse_size 1 st

  -- tagha_asm_parse_native and _extern: the name under which the label is inserted, and the label
  unfoldable pub parse_foreign :
      {B : Type 0} → (ℕ → Bool) → Label B → Lex → Declared (List ℕ × Label B)
  unfolding skip_whitespace lex_id
  parse_foreign is_alphabetic label st =
      let st' = skip_whitespace lx st in
      let (res, st'') = lex_id lx st' in
      if not (is_alphabetic (char_at st'.iter))
      then (none, report st')
      else if res
      then (some (st''.lexeme, label), st'')
      else (none, report st'')

module _ {B : Type 0} (api : BufApi B) where
  unfoldable pub parse_native : Lexers → (ℕ → Bool) → Lex → Declared (List ℕ × Label B)
  unfolding parse_foreign
  parse_native lx is_alphabetic st =
      parse_foreign lx is_alphabetic
        (record {
          data_ = api.create;
          offset = 0;
          is_func = true;
          is_native = true;
          is_extern = false;
        })
        st

  unfoldable pub parse_extern : Lexers → (ℕ → Bool) → Lex → Declared (List ℕ × Label B)
  unfolding parse_foreign
  parse_extern lx is_alphabetic st =
      parse_foreign lx is_alphabetic
        (record {
          data_ = api.create;
          offset = 0;
          is_func = true;
          is_native = false;
          is_extern = true;
        })
        st

  -- One round of the loop over the data of a variable: the bytes that are left, the data and the
  -- text; or an error.
  pub data Round : Type 0 where
    more : ℕ → B → Lex → Round
    stop : Lex → Round

  unfoldable pub insert_width : Width → B → ℕ → B
  insert_width byte b num = api.insert_byte b (num % 256)
  insert_width half b num = api.insert_int16 b (num % 2 ^ 16)
  insert_width long b num = api.insert_int32 b (num % 2 ^ 32)
  insert_width word b num = api.insert_int64 b num

  -- A number stands for all the bytes that are left, and has to be 0.
  unfoldable pub put_zeros : Lexers → ℕ → B → Option ℕ × Lex → Round
  unfolding skip_whitespace
  put_zeros lx bytes vardata (none, lex) =
      more 0 (api.insert_zeros vardata bytes)
        (skip_whitespace lx (record lex { iter = advance lex.iter }))
  put_zeros lx bytes vardata (some arg, lex) =
      if arg == 0
      then more 0 (api.insert_zeros vardata bytes)
          (skip_whitespace lx (record lex { iter = advance lex.iter }))
      else stop (report lex)

  -- `bytes -= sizeof(...)` on a `size_t`
  unfoldable pub put_datum : ℕ → B → Width → Option ℕ × Lex → Round
  unfolding insert_width
  put_datum bytes vardata w (none, lex) = stop (report lex)
  put_datum bytes vardata w (some num, lex) =
      more ((bytes + 2 ^ 64 - width_size w) % 2 ^ 64) (insert_width w vardata num) lex

  -- A name that is no width is passed over.
  unfoldable pub put_named : Lexers → ℕ → B → Option Width → Lex → Round
  unfolding put_datum string_to_int skip_whitespace
  put_named lx bytes vardata none lex = more bytes vardata lex
  put_named lx bytes vardata (some w) lex =
      put_datum bytes vardata w (string_to_int lx (skip_whitespace lx lex))

  unfoldable pub data_round : Lexers → ℕ → B → Lex → Round
  unfolding skip_delim put_zeros string_to_int lex_id put_named skip_whitespace is_alphabetical
      width_of
  data_round lx bytes vardata st =
      let st1 = skip_delim lx 44 st in
      let (res, st2) = lex_id lx st1 in
      let c = char_at st1.iter in
      if lx.is_decimal c
      then put_zeros lx bytes vardata (string_to_int lx st1)
      else if not (is_alphabetical c)
      then stop (report st1)
      else if not res
      then stop (report st2)
      else put_named lx bytes vardata (width_of st2.lexeme) (skip_whitespace lx st2)

  -- How the loop ends: with the data, with an error, or not within the fuel.
  pub data Loaded : Type 0 where
    complete : B → Lex → Loaded
    broken : Lex → Loaded
    endless : Loaded

  -- `while( bytes != 0 )`
  unfoldable pub data_loop : Lexers → ℕ → ℕ → B → Lex → Loaded
  unfolding data_round
  data_loop lx zero bytes vardata st = endless
  data_loop lx (suc f) bytes vardata st = elim (bytes == 0) [
    | true ↦ complete vardata st
    | false ↦ elim (data_round lx bytes vardata st) [
      | more bytes' vardata' st' ↦ data_loop lx f bytes' vardata' st'
      | stop st' ↦ broken st'
    ]
  ]

  -- The data of a variable behind its name: a string, or a number of bytes and the data.
  unfoldable pub global_data : Lexers → (List ℕ → Option (List ℕ × List ℕ)) → ℕ → Lex → Loaded
  unfolding data_loop string_to_int skip_delim
  global_data lx lex_go_style_str fuel st =
      let c = char_at st.iter in
      let (num, st') = string_to_int lx st in
      if c == 34 || c == 39 || c == 96
      then elim (lex_go_style_str st.iter) [
        | none ↦ broken (report st)
        | some (text, end) ↦ complete (api.insert_cstr api.create text) (record st { iter = end })
      ]
      else if not (lx.is_decimal c)
      then broken (report st)
      else elim num [
        | none ↦ broken (report st')
        | some n ↦ data_loop lx fuel n api.create (skip_delim lx 44 st')
      ]

  -- tagha_asm_parse_global: the name and the data that are inserted into the variables. The name has
  -- a string of its own, so that `lexeme` stays.
  unfoldable pub parse_global :
      Lexers → (List ℕ → Option (List ℕ × List ℕ)) → ℕ → Lex → List ℕ × Loaded
  unfolding global_data skip_whitespace lex_id skip_delim is_alphabetical
  parse_global lx lex_go_style_str fuel st =
      let st1 = skip_whitespace lx st in
      let (res, named) = lex_id lx st1 in
      let st2 = record st1 { iter = named.iter } in
      if not (is_alphabetical (char_at st1.iter))
      then ([], broken (report st1))
      else if not res
      then (named.lexeme, broken (report st1))
      else (named.lexeme, global_data lx lex_go_style_str fuel (skip_delim lx 44 st2))
