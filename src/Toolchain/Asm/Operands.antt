-- ===== src/Toolchain/Asm/Operands.antt =====
-- The switch of the second pass of tagha_toolchain/assembler/assembler.c: the operands of an
-- instruction, and the checks on them.
use tagha.Base.{
  ℕ, ◌+◌, ◌-◌, ◌%◌, ◌^◌, not, ◌&&◌, ◌||◌, Option, none, some, List, [], ◌∷◌, ◌++◌, ◌==◌, ltb, leb,
  if◌then◌else◌,
}
use tagha.Symbols.{same_string}
use tagha.Toolchain.Opcode.{InstrSet}
use tagha.Toolchain.InstrGen.{Args}
use tagha.Toolchain.Asm.Lexer.{
  Lexers, Lex, char_at, advance, lex_id, skip_whitespace, skip_delim, skip_r, string_to_int,
}

-- The link maps of the first pass, by name: the indices of functions and variables, the offsets of
-- labels; and the name of the function that is being assembled.
pub record Symbols : Type 0 where
  pub func_index : List ℕ → Option ℕ
  pub var_index : List ℕ → Option ℕ
  pub label_offset : List ℕ → Option ℕ
  pub active_label : List ℕ

-- What a case of the switch comes to: the arguments of `tagha_instr_gen`, the offset of the label of
-- a jump, nothing, or an error that ends the assembly.
pub data Parsed : Type 0 where
  operands : Args → Lex → Parsed
  jump : ℕ → Lex → Parsed
  nothing : Lex → Parsed
  bad : Parsed

-- `( int )x` as bits
abbrev pub int_of : ℕ → ℕ
int_of x = x % 2 ^ 32

abbrev pub args : ℕ → ℕ → ℕ → Args
args a b c = record { oper1 = a; oper2 = b; oper3 = c }

module _ (lx : Lexers) where
  unfoldable pub parse_plain : Lex → Parsed
  parse_plain st = operands (args 0 0 0) st

  -- A number below a limit, as the only operand.
  unfoldable pub parse_below : ℕ → Lex → Parsed
  unfolding string_to_int
  parse_below limit st =
      let (num, st') = string_to_int lx st in
      elim num [
        | none ↦ bad
        | some imm ↦ if ltb imm limit then operands (args (int_of imm) 0 0) st' else bad
      ]

  unfoldable pub parse_u8 : Lex → Parsed
  unfolding parse_below
  parse_u8 st = parse_below 256 st

  unfoldable pub parse_setvlen : Lex → Parsed
  unfolding parse_below
  parse_setvlen st = parse_below 65536 st

  -- `byte`, `half`, `long`, `word`
  unfoldable pub type_size : List ℕ → Option ℕ
  unfolding same_string
  type_size name =
      if same_string name (98 ∷ 121 ∷ 116 ∷ 101 ∷ [])
      then some 1
      else if same_string name (104 ∷ 97 ∷ 108 ∷ 102 ∷ [])
      then some 2
      else if same_string name (108 ∷ 111 ∷ 110 ∷ 103 ∷ [])
      then some 4
      else if same_string name (119 ∷ 111 ∷ 114 ∷ 100 ∷ [])
      then some 8
      else none

  unfoldable pub parse_setelen : Lex → Parsed
  unfolding lex_id skip_whitespace type_size
  parse_setelen st =
      let (res, st') = lex_id lx (skip_whitespace lx st) in
      elim (type_size st'.lexeme) [
        | none ↦ bad
        | some id ↦ if res then operands (args id 0 0) st' else bad
      ]

  -- An `r` that may be missing, and a number.
  unfoldable pub reg_number : Lex → Option ℕ × Lex
  unfolding skip_r string_to_int
  reg_number st = string_to_int lx (skip_r lx st)

  unfoldable pub parse_reg : Lex → Parsed
  unfolding reg_number
  parse_reg st =
      let (num, st') = reg_number st in
      elim num [
        | none ↦ bad
        | some reg ↦ if ltb reg 256 then operands (args (int_of reg) 0 0) st' else bad
      ]

  unfoldable pub parse_regs : Lex → Parsed
  unfolding reg_number skip_delim
  parse_regs st =
      let (res1, st1) = reg_number st in
      let (res2, st2) = reg_number (skip_delim lx 44 st1) in
      elim res1 [
        | none ↦ bad
        | some reg1 ↦ elim res2 [
          | none ↦ bad
          | some reg2 ↦
              if ltb reg1 256 && ltb reg2 256
              then operands (args (int_of reg1) (int_of reg2) 0) st2
              else bad
        ]
      ]

  -- The second operand of `lra` is tested against 0xFFFF.
  unfoldable pub parse_lra : Lex → Parsed
  unfolding reg_number skip_delim string_to_int
  parse_lra st =
      let (res1, st1) = reg_number st in
      let (res2, st2) = string_to_int lx (skip_delim lx 44 st1) in
      elim res1 [
        | none ↦ bad
        | some reg ↦ elim res2 [
          | none ↦ bad
          | some offset ↦
              if ltb reg 256 && ltb offset 65535
              then operands (args (int_of reg) (int_of offset) 0) st2
              else bad
        ]
      ]

  -- A register and a name, which `index` gives a number.
  unfoldable pub parse_named : (List ℕ → Option ℕ) → Lex → Parsed
  unfolding reg_number skip_delim lex_id
  parse_named index st =
      let (res1, st1) = reg_number st in
      let (res2, st2) = lex_id lx (skip_delim lx 44 st1) in
      elim res1 [
        | none ↦ bad
        | some reg ↦ elim (index st2.lexeme) [
          | none ↦ bad
          | some id ↦
              if ltb reg 256 && res2 then operands (args (int_of reg) (int_of id) 0) st2 else bad
        ]
      ]

  unfoldable pub parse_call : Symbols → Lex → Parsed
  unfolding skip_whitespace lex_id
  parse_call names st =
      let (res, st') = lex_id lx (skip_whitespace lx st) in
      elim (names.func_index st'.lexeme) [
        | none ↦ bad
        | some id ↦ if res then operands (args (int_of (id + 1)) 0 0) st' else bad
      ]

  -- The offset behind a register, 0 if there is none. The result of `string_to_int` is not tested.
  unfoldable pub parse_offset : Lex → Option (ℕ × Lex)
  unfolding string_to_int skip_whitespace
  parse_offset st =
      let neg = char_at st.iter == 45 in
      let at_number = skip_whitespace lx (record st { iter = advance st.iter }) in
      let (num, st') = string_to_int lx at_number in
      let offset : ℕ = elim num [ none ↦ 0 | some n ↦ n ] in
      if not (char_at st.iter == 43 || neg)
      then some (0, st)
      else if not (lx.is_decimal (char_at at_number.iter))
      then none
      else some (if neg then (2 ^ 64 - offset) % 2 ^ 64 else offset, st')

  unfoldable pub parse_ld : Lex → Parsed
  unfolding reg_number skip_delim skip_whitespace parse_offset
  parse_ld st =
      let (res1, st1) = reg_number st in
      let (res2, st2) = reg_number (skip_delim lx 91 (skip_delim lx 44 st1)) in
      elim res1 [
        | none ↦ bad
        | some reg1 ↦ elim res2 [
          | none ↦ bad
          | some reg2 ↦ elim (parse_offset (skip_whitespace lx st2)) [
            | none ↦ bad
            | some (offset, st3) ↦
                if leb reg1 255 && leb reg2 255
                then operands (args (int_of reg1) (int_of reg2) (int_of offset))
                    (skip_delim lx 93 st3)
                else bad
          ]
        ]
      ]

  unfoldable pub parse_st : Lex → Parsed
  unfolding reg_number skip_delim skip_whitespace parse_offset
  parse_st st =
      let (res1, st1) = reg_number (skip_delim lx 91 st) in
      elim (parse_offset st1) [
        | none ↦ bad
        | some (offset, st2) ↦
            (let (res2, st3) = reg_number (skip_delim lx 44 (skip_delim lx 93 st2)) in
              elim res1 [
                | none ↦ bad
                | some reg1 ↦ elim res2 [
                  | none ↦ bad
                  | some reg2 ↦
                      if leb reg1 255 && leb reg2 255 && lx.is_whitespace (char_at st3.iter)
                      then operands (args (int_of reg1) (int_of reg2) (int_of offset))
                          (skip_whitespace lx st3)
                      else bad
                ]
              ])
      ]

  -- The label of a jump, under its name and that of the function.
  unfoldable pub parse_jump : Symbols → Lex → Parsed
  unfolding skip_whitespace lex_id
  parse_jump names st =
      let at_dot = skip_whitespace lx st in
      let (res, st') = lex_id lx (record at_dot { iter = advance at_dot.iter }) in
      let lexeme = st'.lexeme ++ names.active_label in
      elim (names.label_offset lexeme) [
        | none ↦ bad
        | some offset ↦
            if char_at at_dot.iter == 46 && res
            then jump offset (record st' { lexeme = lexeme })
            else bad
      ]

  -- The register of `movi` is tested against 256 itself.
  unfoldable pub parse_movi : Lex → Parsed
  unfolding skip_whitespace reg_number skip_delim string_to_int
  parse_movi st =
      let (res1, st1) = reg_number (skip_whitespace lx st) in
      let (res2, st2) = string_to_int lx (skip_delim lx 44 st1) in
      elim res1 [
        | none ↦ bad
        | some reg ↦ elim res2 [
          | none ↦ bad
          | some val ↦ if leb reg 256 then operands (args (int_of reg) val 0) st2 else bad
        ]
      ]

-- The case labels.
unfoldable pub parse_operands : Lexers → Symbols → InstrSet → Lex → Parsed
unfolding parse_plain parse_u8 parse_setvlen parse_setelen parse_reg parse_regs parse_lra
    parse_named parse_call parse_ld parse_st parse_jump parse_movi
parse_operands lx names InstrSet.halt st = parse_plain lx st
parse_operands lx names InstrSet.nop st = parse_plain lx st
parse_operands lx names InstrSet.alloc st = parse_u8 lx st
parse_operands lx names InstrSet.redux st = parse_u8 lx st
parse_operands lx names InstrSet.movi st = parse_movi lx st
parse_operands lx names InstrSet.mov st = parse_regs lx st
parse_operands lx names InstrSet.lra st = parse_lra lx st
parse_operands lx names InstrSet.lea st = parse_ld lx st
parse_operands lx names InstrSet.ldvar st = parse_named lx names.var_index st
parse_operands lx names InstrSet.ldfn st = parse_named lx names.func_index st
parse_operands lx names InstrSet.ld1 st = parse_ld lx st
parse_operands lx names InstrSet.ld2 st = parse_ld lx st
parse_operands lx names InstrSet.ld4 st = parse_ld lx st
parse_operands lx names InstrSet.ld8 st = parse_ld lx st
parse_operands lx names InstrSet.ldu1 st = parse_ld lx st
parse_operands lx names InstrSet.ldu2 st = parse_ld lx st
parse_operands lx names InstrSet.ldu4 st = parse_ld lx st
parse_operands lx names InstrSet.st1 st = parse_st lx st
parse_operands lx names InstrSet.st2 st = parse_st lx st
parse_operands lx names InstrSet.st4 st = parse_st lx st
parse_operands lx names InstrSet.st8 st = parse_st lx st
parse_operands lx names InstrSet.add st = parse_regs lx st
parse_operands lx names InstrSet.sub st = parse_regs lx st
parse_operands lx names InstrSet.mul st = parse_regs lx st
parse_operands lx names InstrSet.idiv st = parse_regs lx st
parse_operands lx names InstrSet.mod_ st = parse_regs lx st
parse_operands lx names InstrSet.neg st = parse_reg lx st
parse_operands lx names InstrSet.fadd st = parse_regs lx st
parse_operands lx names InstrSet.fsub st = parse_regs lx st
parse_operands lx names InstrSet.fmul st = parse_regs lx st
parse_operands lx names InstrSet.fdiv st = parse_regs lx st
parse_operands lx names InstrSet.fneg st = parse_reg lx st
parse_operands lx names InstrSet.and_ st = parse_regs lx st
parse_operands lx names InstrSet.or_ st = parse_regs lx st
parse_operands lx names InstrSet.xor_ st = parse_regs lx st
parse_operands lx names InstrSet.sll st = parse_regs lx st
parse_operands lx names InstrSet.srl st = parse_regs lx st
parse_operands lx names InstrSet.sra st = parse_regs lx st
parse_operands lx names InstrSet.not_ st = parse_reg lx st
parse_operands lx names InstrSet.ilt st = parse_regs lx st
parse_operands lx names InstrSet.ile st = parse_regs lx st
parse_operands lx names InstrSet.ult st = parse_regs lx st
parse_operands lx names InstrSet.ule st = parse_regs lx st
parse_operands lx names InstrSet.cmp st = parse_regs lx st
parse_operands lx names InstrSet.flt st = parse_regs lx st
parse_operands lx names InstrSet.fle st = parse_regs lx st
parse_operands lx names InstrSet.setc st = parse_reg lx st
parse_operands lx names InstrSet.f32tof64 st = parse_reg lx st
parse_operands lx names InstrSet.f64tof32 st = parse_reg lx st
parse_operands lx names InstrSet.itof64 st = parse_reg lx st
parse_operands lx names InstrSet.itof32 st = parse_reg lx st
parse_operands lx names InstrSet.f64toi st = parse_reg lx st
parse_operands lx names InstrSet.f32toi st = parse_reg lx st
parse_operands lx names InstrSet.jmp st = parse_jump lx names st
parse_operands lx names InstrSet.jz st = parse_jump lx names st
parse_operands lx names InstrSet.jnz st = parse_jump lx names st
parse_operands lx names InstrSet.pushlr st = parse_plain lx st
parse_operands lx names InstrSet.poplr st = parse_plain lx st
parse_operands lx names InstrSet.call st = parse_call lx names st
parse_operands lx names InstrSet.callr st = parse_reg lx st
parse_operands lx names InstrSet.ret st = parse_plain lx st
parse_operands lx names InstrSet.setvlen st = parse_setvlen lx st
parse_operands lx names InstrSet.setelen st = parse_setelen lx st
parse_operands lx names InstrSet.vmov st = parse_regs lx st
parse_operands lx names InstrSet.vadd st = parse_regs lx st
parse_operands lx names InstrSet.vsub st = parse_regs lx st
parse_operands lx names InstrSet.vmul st = parse_regs lx st
parse_operands lx names InstrSet.vdiv st = parse_regs lx st
parse_operands lx names InstrSet.vmod st = parse_regs lx st
parse_operands lx names InstrSet.vneg st = parse_reg lx st
parse_operands lx names InstrSet.vfadd st = parse_regs lx st
parse_operands lx names InstrSet.vfsub st = parse_regs lx st
parse_operands lx names InstrSet.vfmul st = parse_regs lx st
parse_operands lx names InstrSet.vfdiv st = parse_regs lx st
parse_operands lx names InstrSet.vfneg st = parse_reg lx st
parse_operands lx names InstrSet.vand st = parse_regs lx st
parse_operands lx names InstrSet.vor st = parse_regs lx st
parse_operands lx names InstrSet.vxor st = parse_regs lx st
parse_operands lx names InstrSet.vsll st = parse_regs lx st
parse_operands lx names InstrSet.vsrl st = parse_regs lx st
parse_operands lx names InstrSet.vsra st = parse_regs lx st
parse_operands lx names InstrSet.vnot st = parse_reg lx st
parse_operands lx names InstrSet.vcmp st = parse_regs lx st
parse_operands lx names InstrSet.vilt st = parse_regs lx st
parse_operands lx names InstrSet.vile st = parse_regs lx st
parse_operands lx names InstrSet.vult st = parse_regs lx st
parse_operands lx names InstrSet.vule st = parse_regs lx st
parse_operands lx names InstrSet.vflt st = parse_regs lx st
parse_operands lx names InstrSet.vfle st = parse_regs lx st
parse_operands lx names InstrSet.restore st = parse_plain lx st
parse_operands lx names InstrSet.leave st = parse_u8 lx st
parse_operands lx names InstrSet.remit st = parse_u8 lx st
parse_operands lx names InstrSet.enter st = parse_u8 lx st
parse_operands lx names InstrSet.max_ops st = nothing st
