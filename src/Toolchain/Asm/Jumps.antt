-- ===== src/Toolchain/Asm/Jumps.antt =====
-- A jump that tagha_toolchain/assembler/assembler.c assembles, run by `_tagha_module_exec`
-- (tagha/tagha.c).
use tagha.Base.{
  ℕ, ◌+◌, ◌-◌, ◌%◌, ◌^◌, ◌<◌, ◌≡◌, ◌≢◌, sym, ap, subst, ◌∙◌, arith, none, some, [], ◌∷◌, length,
}
use tagha.Words.{add64, sext}
use tagha.Machine.{Machine, next, imm, skip}
use tagha.Isa.Jump.{Env, Nested, exec_jmp}
use tagha.Exec.{step}
use tagha.Toolchain.Opcode.{InstrSet, opcode}
use tagha.Toolchain.Opcode.Handlers.{handler_of}
use tagha.Toolchain.Buffer.{BufApi, IsBuf, HoldsAt, HoldsAt-right}
use tagha.Toolchain.Buffer.Fields.{fields_size, length-field_bytes}
use tagha.Toolchain.InstrGen.{Args, instr_gen, format}
use tagha.Toolchain.InstrGen.Bytes.{encode, fields, instr_gen-encode}
use tagha.Toolchain.InstrGen.Execute.{step-encode}
use tagha.Toolchain.Asm.Lexer.{Lexers, Lex, skip_whitespace}
use tagha.Toolchain.Asm.Operands.{Symbols, jump, args, parse_operands}
use tagha.Toolchain.Asm.Emit.{Asm, emitted, displacement, emit, assemble_instr, state_of, gen_code}

-- The displacement with its sign, from behind the instruction, leads to the label.
lands :
    (base pc offset : ℕ)
    → offset < 2 ^ 31
    → pc + 5 < 2 ^ 31
    → add64
        (add64 (add64 (base + pc) 1) 4)
        (sext 4 ((offset + 2 ^ 64 - (pc + 5)) % 2 ^ 32 % 256 ^ 4))
      ≡ (base + offset) % 2 ^ 64
unfolding add64 sext
lands base pc offset lo lp = ground arith

jmp_real : InstrSet.jmp ≢ InstrSet.max_ops
jmp_real e = cc

length-jmp : (a : Args) → length (encode InstrSet.jmp a) ≡ 5
unfolding encode format fields fields_size
length-jmp a = length-field_bytes ((1, opcode InstrSet.jmp) ∷ (4, a.oper1) ∷ [])

jump_target :
    (s : Machine) (d t : ℕ)
    → imm 4 (skip 1 s) ≡ d
    → add64 (add64 (add64 s.ip 1) 4) (sext 4 d) ≡ t
    → exec_jmp (skip 1 s) ≡ next (record s { ip = t })
unfolding exec_jmp imm skip
jump_target s d t read e =
    ap (λ v. next (record s { ip = add64 (add64 (add64 s.ip 1) 4) (sext 4 v) })) read
    ∙ ap (λ x. next (record s { ip = x })) e

module _ {B : Type 0} (api : BufApi B) where
  some_value : (b b' : B) → some b ≡ some b' → b ≡ b'
  some_value b b' e = ap (λ o. elim o [ none ↦ b | some x ↦ x ]) e

  -- A `jmp` to a label that the second pass assembles at the end of a function's code, where `pc` is
  -- the length of the code, goes to that label when the virtual machine runs it, wherever the code
  -- stands in memory: the next instruction is the one at the offset that the first pass gave to the
  -- label. Offsets in the function are below 2 ^ 31.
  pub assemble_instr-exec_jmp :
      (lx : Lexers) (names : Symbols) (st st' : Asm B) (b b' : B) (offset : ℕ) (lex : Lex)
      (env : Env) (nested : Nested) (s : Machine) (base : ℕ)
      → IsBuf api
      → parse_operands lx names InstrSet.jmp (skip_whitespace lx st.lex) ≡ jump offset lex
      → assemble_instr api lx names InstrSet.jmp st ≡ emitted st'
      → st.code ≡ some b
      → st'.code ≡ some b'
      → st.pc ≡ length (api.table b)
      → offset < 2 ^ 31
      → st.pc + 5 < 2 ^ 31
      → HoldsAt s.mem base (api.table b')
      → s.ip ≡ base + st.pc
      → step env nested s ≡ next (record s { ip = (base + offset) % 2 ^ 64 })
  unfolding assemble_instr emit handler_of format fields
  assemble_instr-exec_jmp lx names st st' b b' offset lex env nested s base buf p e c c' at lo lp
        held i =
      let pc = st.pc + (instr_gen api none InstrSet.jmp (args 0 0 0)).0 in
      let a = args (displacement api offset pc) 0 0 in
      let ((code, gen, bytes), size) =
        instr_gen-encode api InstrSet.jmp a (args 0 0 0) b buf jmp_real in
      let five : pc ≡ st.pc + 5 = ap (λ r. st.pc + r.0) size ∙ ap (λ n. st.pc + n) (length-jmp a) in
      let same = ap (state_of api st) (ap (emit api InstrSet.jmp st) (sym p) ∙ e) in
      let coded : st'.code ≡ some code =
        sym (ap (λ x. x.code) same)
        ∙ ap (λ r. r.1) (gen_code api InstrSet.jmp st.code a b code _ c gen) in
      let ours : b' ≡ code = some_value b' code (sym c' ∙ coded) in
      let all = subst (HoldsAt s.mem base) (ap api.table ours ∙ bytes) held in
      let place : base + length (api.table b) ≡ s.ip = omega (arith, at, i) in
      let here =
        subst (λ x. HoldsAt s.mem x (encode InstrSet.jmp a)) place
          (HoldsAt-right s.mem base (api.table b) (encode InstrSet.jmp a) all) in
      let (ran, reads) = step-encode env nested InstrSet.jmp a s jmp_real here in
      ran
      ∙ jump_target s _ _ reads.0 (
          subst
            (λ x.
              add64 (add64 (add64 x 1) 4) (sext 4 (a.oper1 % 256 ^ 4)) ≡ (base + offset) % 2 ^ 64)
            (sym i)
            (subst
              (λ q.
                add64 (add64 (add64 (base + st.pc) 1) 4)
                  (sext 4 (displacement api offset q % 256 ^ 4))
                ≡ (base + offset) % 2 ^ 64)
              (sym five) (lands base st.pc offset lo lp)))
