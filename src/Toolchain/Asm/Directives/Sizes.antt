-- ===== src/Toolchain/Asm/Directives/Sizes.antt =====
-- How many bytes of data the loop of `tagha_asm_parse_global`
-- (tagha_toolchain/assembler/assembler.c) gives to a variable.
use tagha.Base.{
  ℕ, zero, suc, ◌+◌, ◌%◌, ◌^◌, ◌<◌, ◌≡◌, refl, ap, ◌∙◌, arith, Bool, true, false, not, Option, none,
  some, List, ◌==◌, ==→eq, length, if◌then◌else◌, Bool-cases, inl, inr, ◌++◌,
}
use tagha.Toolchain.Buffer.{BufApi, IsBuf, length-append, length-le_bytes}
use tagha.Toolchain.ModuleGen.Reads.{length-replicate}
use tagha.Toolchain.Asm.Lexer.{
  Lexers, Lex, char_at, lex_id, skip_whitespace, skip_delim, string_to_int, is_alphabetical,
}
use tagha.Toolchain.Asm.Directives.{
  Width, byte, half, long, word, width_size, width_of, Round, more, stop, insert_width, put_zeros,
  put_datum, put_named, report, data_round, Loaded, complete, broken, endless, data_loop,
}

module _ {B : Type 0} (api : BufApi B) (buf : IsBuf api) where
  size : B → ℕ
  size b = length (api.table b)

  grown : (b b' : B) (bs : List ℕ) → api.table b' ≡ api.table b ++ bs → size b' ≡ size b + length bs
  unfolding size
  grown b b' bs e = ap (λ t. length t) e ∙ length-append (api.table b) bs

  insert_width-size :
      (w : Width) (b : B) (num : ℕ) → size (insert_width api w b num) ≡ size b + width_size w
  unfolding insert_width
  insert_width-size byte b num =
      grown b _ _ (buf.byte_table b _) ∙ ap (λ n. size b + n) (length-le_bytes 1 _)
  insert_width-size half b num =
      grown b _ _ (buf.int16_table b _) ∙ ap (λ n. size b + n) (length-le_bytes 2 _)
  insert_width-size long b num =
      grown b _ _ (buf.int32_table b _) ∙ ap (λ n. size b + n) (length-le_bytes 4 _)
  insert_width-size word b num =
      grown b _ _ (buf.int64_table b num) ∙ ap (λ n. size b + n) (length-le_bytes 8 _)

  zeros_size : (b : B) (n : ℕ) → size (api.insert_zeros b n) ≡ size b + n
  zeros_size b n = grown b _ _ (buf.zeros_table b n) ∙ ap (λ k. size b + k) (length-replicate n)

  -- The data and the bytes that are left make up the same number, modulo 2 ^ 64.
  abbrev Balances : ℕ → B → Round api → Type 0
  Balances bytes b (more bytes' b' lex) =
      ((size b' + bytes') % 2 ^ 64 ≡ (size b + bytes) % 2 ^ 64) × (bytes' < 2 ^ 64)
  Balances bytes b (stop lex) = Unit

  zeros-Balances :
      (bytes : ℕ) (b : B) (lex : Lex) → Balances bytes b (more 0 (api.insert_zeros b bytes) lex)
  zeros-Balances bytes b lex = (omega (arith, zeros_size b bytes), omega arith)

  put_zeros-Balances :
      (lx : Lexers) (bytes : ℕ) (b : B) (n : Option ℕ × Lex)
      → Balances bytes b (put_zeros api lx bytes b n)
  unfolding put_zeros
  put_zeros-Balances lx bytes b (none, lex) = zeros-Balances bytes b lex
  put_zeros-Balances lx bytes b (some arg, lex) = elim (Bool-cases (arg == 0)) [
    | inl e ↦ rw (put_zeros, e) (zeros-Balances bytes b lex)
    | inr e ↦ rw (put_zeros, e) tt
  ]

  put_datum-Balances :
      (bytes : ℕ) (b : B) (w : Width) (n : Option ℕ × Lex)
      → bytes < 2 ^ 64
      → Balances bytes b (put_datum api bytes b w n)
  unfolding put_datum
  put_datum-Balances bytes b w (none, lex) lt = tt
  put_datum-Balances bytes b byte (some num, lex) lt =
      (omega (arith, insert_width-size byte b num), omega arith)
  put_datum-Balances bytes b half (some num, lex) lt =
      (omega (arith, insert_width-size half b num), omega arith)
  put_datum-Balances bytes b long (some num, lex) lt =
      (omega (arith, insert_width-size long b num), omega arith)
  put_datum-Balances bytes b word (some num, lex) lt =
      (omega (arith, insert_width-size word b num), omega arith)

  put_named-Balances :
      (lx : Lexers) (bytes : ℕ) (b : B) (w : Option Width) (lex : Lex)
      → bytes < 2 ^ 64
      → Balances bytes b (put_named api lx bytes b w lex)
  unfolding put_named
  put_named-Balances lx bytes b none lex lt = (refl, lt)
  put_named-Balances lx bytes b (some w) lex lt =
      put_datum-Balances bytes b w (string_to_int lx (skip_whitespace lx lex)) lt

  -- A choice between rounds that balance.
  if-Balances :
      (c : Bool) (bytes : ℕ) (b : B) (r r' : Round api)
      → Balances bytes b r
      → Balances bytes b r'
      → Balances bytes b (if c then r else r')
  if-Balances true bytes b r r' h h' = h
  if-Balances false bytes b r r' h h' = h'

  data_round-Balances :
      (lx : Lexers) (bytes : ℕ) (b : B) (st : Lex)
      → bytes < 2 ^ 64
      → Balances bytes b (data_round api lx bytes b st)
  unfolding data_round
  data_round-Balances lx bytes b st lt =
      let st1 = skip_delim lx 44 st in
      let (res, st2) = lex_id lx st1 in
      let c = char_at st1.iter in
      let st3 = skip_whitespace lx st2 in
      let zeros = put_zeros api lx bytes b (string_to_int lx st1) in
      let named = put_named api lx bytes b (width_of st2.lexeme) st3 in
      let inner : Round api = if not res then stop (report st2) else named in
      let outer : Round api = if not (is_alphabetical c) then stop (report st1) else inner in
      if-Balances (lx.is_decimal c) bytes b zeros outer
        (put_zeros-Balances lx bytes b (string_to_int lx st1))
        (if-Balances (not (is_alphabetical c)) bytes b (stop (report st1)) inner tt (
          if-Balances (not res) bytes b (stop (report st2)) named tt
            (put_named-Balances lx bytes b (width_of st2.lexeme) st3 lt)))

  follow_round :
      (lx : Lexers) (f bytes : ℕ) (b b' : B) (lex : Lex) (r : Round api)
      → Balances bytes b r
      → ((n : ℕ) (c : B) (l : Lex)
          → n < 2 ^ 64
          → data_loop api lx f n c l ≡ complete b' lex
          → size b' % 2 ^ 64 ≡ (size c + n) % 2 ^ 64)
      → elim r [ more n c l ↦ data_loop api lx f n c l | stop l ↦ broken l ] ≡ complete b' lex
      → size b' % 2 ^ 64 ≡ (size b + bytes) % 2 ^ 64
  follow_round lx f bytes b b' lex (more n c l) bal again e = again n c l bal.1 e ∙ bal.0
  follow_round lx f bytes b b' lex (stop l) bal again e = absurd cc

  data_of : B → Loaded api → B
  data_of d (complete b lex) = b
  data_of d (broken lex) = d
  data_of d endless = d

  data_loop-balance :
      (lx : Lexers) (f bytes : ℕ) (b b' : B) (st lex : Lex)
      → bytes < 2 ^ 64
      → data_loop api lx f bytes b st ≡ complete b' lex
      → size b' % 2 ^ 64 ≡ (size b + bytes) % 2 ^ 64
  unfolding data_loop data_of
  data_loop-balance lx zero bytes b b' st lex lt e = absurd cc
  data_loop-balance lx (suc f) bytes b b' st lex lt e = elim (Bool-cases (bytes == 0)) [
    | inl z ↦
        (let same = ap (data_of b) (rw (data_loop, z) at e) in
          omega (arith, ==→eq bytes 0 z, ap size same))
    | inr z ↦
        follow_round lx f bytes b b' lex (data_round api lx bytes b st)
          (data_round-Balances lx bytes b st lt)
          (λ n c l p q. data_loop-balance lx f n c b' l lex p q) (rw (data_loop, z) at e)
  ]

  -- Where the loop over the data of a variable completes, the data have as many bytes as the directive
  -- says, up to a multiple of 2 ^ 64, whatever mixture of widths and zeros they are.
  pub data_loop-size :
      (lx : Lexers) (f bytes : ℕ) (b' : B) (st lex : Lex)
      → bytes < 2 ^ 64
      → data_loop api lx f bytes api.create st ≡ complete b' lex
      → length (api.table b') % 2 ^ 64 ≡ bytes
  unfolding size
  data_loop-size lx f bytes b' st lex lt e =
      let balance = data_loop-balance lx f bytes api.create b' st lex lt e in
      let empty : length (api.table api.create) ≡ 0 = ap (λ t. length t) buf.create_table in
      omega (arith, balance, empty)
