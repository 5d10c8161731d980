-- ===== src/Toolchain/Asm/Lexer.antt =====
-- Reading names and numbers in tagha_toolchain/assembler/assembler.c. The lexers are Harbol's, and
-- strtod and strtoll are C's: parameters. The text that is left is a list of its bytes up to the NUL.
use tagha.Base.{
  ℕ, Bool, true, false, ◌&&◌, ◌||◌, Option, none, some, List, [], ◌∷◌, ◌==◌, leb, if◌then◌else◌,
}
use tagha.Symbols.{same_string}

-- What `lex_c_style_number` does: its result, the string, whether it is a float, and `end`.
pub record Number : Type 0 where
  pub valid : Bool
  pub text : List ℕ
  pub isfloat : Bool
  pub ender : Option (List ℕ)

-- `lex_identifier` with the characters so far: its result, the string, and the text behind it; the
-- 64-bit patterns of `( int64_t )(strtod(...))` and of strtoll in any base.
pub record Lexers : Type 0 where
  pub lex_c_style_number : List ℕ → Number
  pub lex_identifier : (ℕ → Bool) → List ℕ → List ℕ → Bool × List ℕ × List ℕ
  pub is_whitespace : ℕ → Bool
  pub is_decimal : ℕ → Bool
  pub skip_chars_until_newline : (ℕ → Bool) → List ℕ → List ℕ
  pub strtod : List ℕ → ℕ
  pub strtoll : List ℕ → ℕ

-- `iter`, `lexeme` and `err` of `tagha_asm`
pub record Lex : Type 0 where
  pub iter : List ℕ
  pub lexeme : List ℕ
  pub err : Bool

-- `*str` and `str + 1`; the NUL is 0 and nothing is behind it.
abbrev pub char_at : List ℕ → ℕ
char_at [] = 0
char_at (c ∷ cs) = c

abbrev pub advance : List ℕ → List ℕ
advance [] = []
advance (c ∷ cs) = cs

abbrev pub between : ℕ → ℕ → ℕ → Bool
between lo hi c = leb lo c && leb c hi

-- `c < -1` holds for the bytes 128 to 254, since `char` has a sign.
unfoldable pub is_alphabetical : ℕ → Bool
is_alphabetical c =
    between 97 122 c || between 65 90 c || c == 95 || c == 64 || c == 36 || between 128 254 c

unfoldable pub is_possible_ident : ℕ → Bool
is_possible_ident c =
    between 97 122 c
    || between 65 90 c
    || c == 95
    || c == 64
    || c == 36
    || between 48 57 c
    || between 128 254 c

module _ (lx : Lexers) where
  -- lex_id( iter, &iter, &lexeme )
  unfoldable pub lex_id : Lex → Bool × Lex
  unfolding is_alphabetical is_possible_ident
  lex_id st =
      let c = char_at st.iter in
      let (res, text, end) = lx.lex_identifier is_possible_ident (c ∷ []) (advance st.iter) in
      if is_alphabetical c
      then (res, record st { iter = end; lexeme = text })
      else (false, record st { lexeme = [] })

  -- _tagha_asm_skip_whitespace
  unfoldable pub skip_whitespace : Lex → Lex
  skip_whitespace st = record st { iter = lx.skip_chars_until_newline lx.is_whitespace st.iter }

  -- `if( *tagha_asm.iter==c ) tagha_asm.iter++;`
  unfoldable pub skip_char : (ℕ → Bool) → Lex → Lex
  skip_char test st = if test (char_at st.iter) then record st { iter = advance st.iter } else st

  -- _tagha_asm_skip_delim
  unfoldable pub skip_delim : ℕ → Lex → Lex
  unfolding skip_whitespace skip_char
  skip_delim c st = skip_whitespace (skip_char (λ d. d == c) (skip_whitespace st))

  -- `if( *tagha_asm.iter=='r' || *tagha_asm.iter=='R' ) tagha_asm.iter++;`
  unfoldable pub skip_r : Lex → Lex
  unfolding skip_char
  skip_r st = skip_char (λ c. c == 114 || c == 82) st

  -- The value of a number that is read: `0b` and `0B` are compared with the whole string.
  unfoldable pub number_value : Bool → List ℕ → ℕ
  unfolding same_string
  number_value isfloat text =
      let is_binary = same_string text (48 ∷ 98 ∷ []) || same_string text (48 ∷ 66 ∷ []) in
      if isfloat
      then lx.strtod text
      else lx.strtoll (if is_binary then advance (advance text) else text)

  -- string_to_int, with the number if there is one
  unfoldable pub string_to_int : Lex → Option ℕ × Lex
  unfolding number_value
  string_to_int st =
      let n = lx.lex_c_style_number st.iter in
      let behind : List ℕ = elim n.ender [ none ↦ advance st.iter | some e ↦ e ] in
      if n.valid
      then (some (number_value n.isfloat n.text), record st { iter = behind; lexeme = n.text })
      else (none, record st { lexeme = n.text; err = true })
