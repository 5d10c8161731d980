-- ===== src/Toolchain/Asm/Emit.antt =====
-- An instruction in the second pass of tagha_toolchain/assembler/assembler.c: the bytes it generates and
-- how far `pc` goes on, against the first pass, which counts sizes only and places the labels.
use tagha.Base.{ℕ, ◌+◌, ◌-◌, ◌%◌, ◌^◌, ◌≡◌, ◌≢◌, sym, ap, ◌∙◌, Option, none, some, ◌++◌}
use tagha.Toolchain.Opcode.{InstrSet}
use tagha.Toolchain.Buffer.{BufApi, IsBuf}
use tagha.Toolchain.InstrGen.{Args, instr_gen}
use tagha.Toolchain.InstrGen.Bytes.{encode, instr_gen-encode}
use tagha.Toolchain.Asm.Lexer.{Lexers, Lex, skip_whitespace}
use tagha.Toolchain.Asm.Operands.{
  Symbols, Parsed, operands, jump, nothing, bad, args, parse_operands,
}

-- `pc`, the code of the function that is assembled, and the text that is left.
pub record Asm (B : Type 0) : Type 0 where
  pub pc : ℕ
  pub code : Option B
  pub lex : Lex

-- How an instruction ends: with its code, without any, or with an error.
pub data Assembled (B : Type 0) : Type 0 where
  emitted : Asm B → Assembled B
  ignored : Asm B → Assembled B
  failed : Assembled B

module _ {B : Type 0} (api : BufApi B) where
  -- The displacement of a jump from `pc` to a label, as an `int32_t`.
  abbrev pub displacement : ℕ → ℕ → ℕ
  displacement offset pc = (offset + 2 ^ 64 - pc) % 2 ^ 32

  -- `tagha_asm.pc += tagha_instr_gen(...)`; for a jump `pc` goes on first.
  unfoldable pub emit : InstrSet → Asm B → Parsed → Assembled B
  unfolding instr_gen
  emit op st (operands a lex) =
      let (size, code) = instr_gen api st.code op a in
      emitted (record { pc = st.pc + size; code = code; lex = lex })
  emit op st (jump offset lex) =
      let pc = st.pc + (instr_gen api none op (args 0 0 0)).0 in
      let code = (instr_gen api st.code op (args (displacement offset pc) 0 0)).1 in
      emitted (record { pc = pc; code = code; lex = lex })
  emit op st (nothing lex) = ignored (record st { lex = lex })
  emit op st bad = failed

  -- An instruction behind its name.
  unfoldable pub assemble_instr : Lexers → Symbols → InstrSet → Asm B → Assembled B
  unfolding emit skip_whitespace parse_operands
  assemble_instr lx names op st =
      emit op st (parse_operands lx names op (skip_whitespace lx st.lex))

  -- The first pass counts the size of the instruction and skips its operands.
  unfoldable pub count_instr : InstrSet → ℕ → ℕ
  unfolding instr_gen
  count_instr op pc = pc + (instr_gen api none op (args 0 0 0)).0

  -- What an emission leaves.
  pub record Emits (op : InstrSet) (pc : ℕ) (b : B) (st' : Asm B) : Type 0 where
    pub pc_counted : st'.pc ≡ count_instr op pc
    pub operands_of : Args
    pub code_after : B
    pub code_is : st'.code ≡ some code_after
    pub code_bytes : api.table code_after ≡ api.table b ++ encode op operands_of

  abbrev pub state_of : Asm B → Assembled B → Asm B
  state_of d (emitted st) = st
  state_of d (ignored st) = d
  state_of d failed = d

  pub gen_code :
      (op : InstrSet) (code : Option B) (a : Args) (b b' : B) (n : ℕ)
      → code ≡ some b
      → instr_gen api (some b) op a ≡ (n, some b')
      → instr_gen api code op a ≡ (n, some b')
  gen_code op code a b b' n c gen = ap (λ o. instr_gen api o op a) c ∙ gen

  emit-Emits :
      (op : InstrSet) (st st' : Asm B) (b : B) (p : Parsed)
      → IsBuf api
      → op ≢ InstrSet.max_ops
      → st.code ≡ some b
      → emit op st p ≡ emitted st'
      → Emits op st.pc b st'
  unfolding emit count_instr
  emit-Emits op st st' b (operands a lex) buf h c e =
      let ((b', gen, bytes), size) = instr_gen-encode api op a (args 0 0 0) b buf h in
      let g = gen_code op st.code a b b' _ c gen in
      let same = ap (state_of st) e in
      record {
        pc_counted =
            sym (ap (λ s. s.pc) same)
            ∙ ap (λ r. st.pc + r.0) (g ∙ ap (λ n. (n, some b')) (sym (ap (λ r. r.0) size)));
        operands_of = a;
        code_after = b';
        code_is = sym (ap (λ s. s.code) same) ∙ ap (λ r. r.1) g;
        code_bytes = bytes;
      }
  emit-Emits op st st' b (jump offset lex) buf h c e =
      let pc = st.pc + (instr_gen api none op (args 0 0 0)).0 in
      let a = args (displacement offset pc) 0 0 in
      let ((b', gen, bytes), size) = instr_gen-encode api op a (args 0 0 0) b buf h in
      let g = gen_code op st.code a b b' _ c gen in
      let same = ap (state_of st) e in
      record {
        pc_counted = sym (ap (λ s. s.pc) same);
        operands_of = a;
        code_after = b';
        code_is = sym (ap (λ s. s.code) same) ∙ ap (λ r. r.1) g;
        code_bytes = bytes;
      }
  emit-Emits op st st' b (nothing lex) buf h c e = absurd cc
  emit-Emits op st st' b bad buf h c e = absurd cc

  -- Where the second pass assembles an instruction, its `pc` goes on as far as that of the first pass
  -- did, so that the labels stand where the first pass placed them, and the code of the function
  -- grows by the bytes of the instruction with some operands.
  pub assemble_instr-Emits :
      (lx : Lexers) (names : Symbols) (op : InstrSet) (st st' : Asm B) (b : B)
      → IsBuf api
      → op ≢ InstrSet.max_ops
      → st.code ≡ some b
      → assemble_instr lx names op st ≡ emitted st'
      → Emits op st.pc b st'
  unfolding assemble_instr
  assemble_instr-Emits lx names op st st' b buf h c e =
      emit-Emits op st st' b (parse_operands lx names op (skip_whitespace lx st.lex)) buf h c e
