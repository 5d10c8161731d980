-- ===== src/Examples/Assembly.antt =====
-- The theorems about tagha_toolchain/assembler/assembler.c at concrete inputs.
use tagha.Base.{
  length, ℕ, ◌+◌, ◌-◌, ◌*◌, ◌%◌, ◌^◌, ◌<◌, ◌≡◌, refl, arith, Bool, true, false, none, some, List,
  [], ◌∷◌, ◌++◌, ◌==◌, if◌then◌else◌, ◌&◌,
}
use tagha.Mem.{Mem, load}
use tagha.Machine.{Machine, next, out_of_fuel}
use tagha.Isa.Jump.{Nested}
use tagha.Exec.{step, boot}
use tagha.Lifetime.{magic_verifier}
use tagha.Loader.{header_at}
use tagha.Toolchain.Opcode.{InstrSet}
use tagha.Toolchain.Buffer.{HoldsAt, le_bytes}
use tagha.Toolchain.InstrGen.{instr_gen}
use tagha.Toolchain.ModuleGen.{ModGen, finalize}
use tagha.Toolchain.ModuleGen.Entries.{func_entry}
use tagha.Toolchain.ModuleGen.Loaded.{IsWritable}
use tagha.Toolchain.ModuleGen.Traversal.{table_bytes, item_names, AreWritable}
use tagha.Toolchain.Disasm.Names.{past_func, collect_names}
use tagha.Toolchain.Asm.Lexer.{Lexers, Lex, Number, char_at, between, skip_whitespace}
use tagha.Toolchain.Asm.Operands.{Symbols, jump, parse_operands}
use tagha.Toolchain.Asm.Directives.{Label, Round, more, stop, data_round, complete, data_loop}
use tagha.Toolchain.Asm.Directives.Sizes.{data_loop-size}
use tagha.Toolchain.Asm.Emit.{
  Asm, emitted, emit, assemble_instr, Emits, state_of, assemble_instr-Emits,
}
use tagha.Toolchain.Asm.Jumps.{assemble_instr-exec_jmp}
use tagha.Toolchain.Asm.Script.{or_default, label_flags, build_module}
use tagha.Toolchain.Asm.Script.Listed.{func_items, build_module-collect_names}
use tagha.Examples.Fixtures.{with_bytes, blank, env, vm}
use tagha.Examples.Bytes.{with_bytes-HoldsAt}
use tagha.Examples.Buffers.{bytes_api, bytes_IsBuf, align, align-IsAlign}

-- The longest prefix of characters that pass a test, and the rest.
abbrev prefix : (ℕ → Bool) → List ℕ → List ℕ × List ℕ
prefix test [] = ([], [])
prefix test (c ∷ cs) =
    let (front, rest) = prefix test cs in if test c then (c ∷ front, rest) else ([], c ∷ cs)

abbrev is_digit : ℕ → Bool
is_digit c = between 48 57 c

abbrev decimal : ℕ → List ℕ → ℕ
decimal acc [] = acc
decimal acc (c ∷ cs) = decimal (acc * 10 + (c - 48)) cs

abbrev digits : List ℕ → Number
digits text =
    let (front, rest) = prefix is_digit text in
    record { valid = is_digit (char_at text); text = front; isfloat = false; ender = some rest }

abbrev lexers : Lexers
lexers = record {
  lex_c_style_number = digits;
  lex_identifier =
      λ test acc text. let (front, rest) = prefix test text in (true, acc ++ front, rest);
  is_whitespace = λ c. c == 32;
  is_decimal = is_digit;
  skip_chars_until_newline = λ test text. (prefix test text).1;
  strtod = decimal 0;
  strtoll = decimal 0;
}

-- A function `f` with a label `L` at its start.
abbrev names : Symbols
names = record {
  func_index = λ n. none;
  var_index = λ n. none;
  label_offset = λ n. some 0;
  active_label = 102 ∷ [];
}

-- ` r1, r2` behind an `add`
abbrev add_state : Asm (List ℕ)
add_state = record {
  pc = 0;
  code = some [];
  lex = record { iter = 32 ∷ 114 ∷ 49 ∷ 44 ∷ 32 ∷ 114 ∷ 50 ∷ []; lexeme = []; err = false };
}

abbrev add_after : Asm (List ℕ)
add_after =
    state_of bytes_api add_state (assemble_instr bytes_api lexers names InstrSet.add add_state)

add_assembles : assemble_instr bytes_api lexers names InstrSet.add add_state ≡ emitted add_after
unfolding assemble_instr parse_operands emit instr_gen
add_assembles = refl

assemble_instr-Emits_example : Emits bytes_api InstrSet.add 0 [] add_after
assemble_instr-Emits_example =
    assemble_instr-Emits bytes_api lexers names InstrSet.add add_state add_after [] bytes_IsBuf
      (λ e. cc) refl add_assembles

-- ` .L` behind a `jmp`, after a `nop`
abbrev jmp_state : Asm (List ℕ)
jmp_state = record {
  pc = 1;
  code = some (1 ∷ []);
  lex = record { iter = 32 ∷ 46 ∷ 76 ∷ []; lexeme = []; err = false };
}

abbrev jmp_after : Asm (List ℕ)
jmp_after =
    state_of bytes_api jmp_state (assemble_instr bytes_api lexers names InstrSet.jmp jmp_state)

abbrev jmp_lex : Lex
jmp_lex = record { iter = []; lexeme = 76 ∷ 102 ∷ []; err = false }

-- `nop` and `jmp -6`
abbrev jmp_code : List ℕ
jmp_code = 1 ∷ 53 ∷ 250 ∷ 255 ∷ 255 ∷ 255 ∷ []

jmp_parses :
    parse_operands lexers names InstrSet.jmp (skip_whitespace lexers jmp_state.lex) ≡ jump 0 jmp_lex
unfolding parse_operands skip_whitespace
jmp_parses = refl

jmp_assembles : assemble_instr bytes_api lexers names InstrSet.jmp jmp_state ≡ emitted jmp_after
unfolding assemble_instr parse_operands emit instr_gen
jmp_assembles = refl

jmp_codes : jmp_after.code ≡ some jmp_code
unfolding assemble_instr parse_operands emit instr_gen le_bytes
jmp_codes = refl

abbrev jmp_machine : Machine
jmp_machine = boot 1001 vm (with_bytes 1000 jmp_code blank)

abbrev no_nested : Nested
no_nested ip vm' m = out_of_fuel

jmp_held : HoldsAt jmp_machine.mem 1000 jmp_code
unfolding boot
jmp_held = with_bytes-HoldsAt 1000 jmp_code blank refl (omega arith)

jmp_at : jmp_machine.ip ≡ 1000 + 1
unfolding boot
jmp_at = refl

assemble_instr-exec_jmp_example :
    step env no_nested jmp_machine ≡ next (record jmp_machine { ip = (1000 + 0) % 2 ^ 64 })
assemble_instr-exec_jmp_example =
    assemble_instr-exec_jmp bytes_api lexers names jmp_state jmp_after (1 ∷ []) jmp_code 0 jmp_lex
      env no_nested jmp_machine 1000 bytes_IsBuf jmp_parses jmp_assembles refl jmp_codes refl
      (omega arith) (omega arith) jmp_held jmp_at

-- `byte 1, half 513`
abbrev data_lex : Lex
data_lex = record {
  iter = 98 ∷ 121 ∷ 116 ∷ 101 ∷ 32 ∷ 49 ∷ 44 ∷ 32 ∷ 104 ∷ 97 ∷ 108 ∷ 102 ∷ 32 ∷ 53 ∷ 49 ∷ 51 ∷ [];
  lexeme = [];
  err = false;
}

abbrev data_end : Lex
data_end = record { iter = []; lexeme = 53 ∷ 49 ∷ 51 ∷ []; err = false }

abbrev three_bytes : List ℕ
three_bytes = 1 ∷ 1 ∷ 2 ∷ []

data_completes : data_loop bytes_api lexers 3 3 [] data_lex ≡ complete three_bytes data_end
unfolding data_loop le_bytes
data_completes = refl

data_loop-size_example : length three_bytes % 2 ^ 64 ≡ 3
data_loop-size_example =
    data_loop-size bytes_api bytes_IsBuf lexers 3 3 three_bytes data_lex data_end (omega arith)
      data_completes

-- More data than the directive says: one byte is declared, `half 5, 0` is read as 2 bytes and
-- 2 ^ 64 - 1 zeros. The count of the bytes that are left has wrapped around.
abbrev wrapped : Round bytes_api → ℕ
wrapped (more bytes vardata lex) = bytes
wrapped (stop lex) = 0

half_wraps :
    wrapped (
      data_round bytes_api lexers 1 []
        (record { iter = 104 ∷ 97 ∷ 108 ∷ 102 ∷ 32 ∷ 53 ∷ []; lexeme = []; err = false }))
    ≡ 2 ^ 64 - 1
unfolding data_round
half_wraps = refl

-- A script of the functions `f`, one `nop` long, and `g` in C, and the variable `v` of one byte, for
-- a stack of 2 and 1, a heap of 1 and memory nodes of 8 bytes.
abbrev script_funcs : List (List ℕ × Label (List ℕ))
script_funcs =
    (
      102 ∷ [],
      record { data_ = 1 ∷ []; offset = 0; is_func = true; is_native = false; is_extern = false },
    )
    ∷ (
      103 ∷ [],
      record { data_ = []; offset = 0; is_func = true; is_native = true; is_extern = false },
    )
    ∷ []

abbrev script_vars : List (List ℕ × List ℕ)
script_vars = (118 ∷ [], 7 ∷ []) ∷ []

abbrev script_gen : ModGen (List ℕ)
script_gen = build_module bytes_api align 8 2 1 1 script_funcs script_vars

abbrev script_mem : Mem
script_mem = with_bytes 1000 (finalize bytes_api script_gen).0 blank

script_held : HoldsAt script_mem 1000 (finalize bytes_api script_gen).0
unfolding finalize build_module tagha.Toolchain.ModuleGen.header_bytes
    tagha.Toolchain.Buffer.Fields.field_bytes le_bytes
script_held = with_bytes-HoldsAt 1000 (finalize bytes_api script_gen).0 blank refl (omega arith)

script_room : 48 + length script_gen.func_data + length script_gen.var_data < 2 ^ 32
unfolding build_module le_bytes
script_room = omega arith

f_IsWritable : IsWritable 0 (102 ∷ []) (1 ∷ [])
f_IsWritable = record {
  chars = ((λ e. omega arith) & tt);
  flags_lt = omega arith;
  sizes_lt = omega arith;
}

g_IsWritable : IsWritable 1 (103 ∷ []) []
g_IsWritable = record {
  chars = ((λ e. omega arith) & tt);
  flags_lt = omega arith;
  sizes_lt = omega arith;
}

opstacksize_fits : or_default 2 < 2 ^ 32
unfolding or_default
opstacksize_fits = omega arith

callstacksize_fits : or_default 1 < 2 ^ 32
unfolding or_default
callstacksize_fits = omega arith

script_IsWritable : AreWritable (func_items bytes_api align script_funcs)
unfolding label_flags
script_IsWritable = f_IsWritable & g_IsWritable & tt

build_module-collect_names_example :
    (load 4 script_mem 1000 ≡ magic_verifier)
    × ((header_at script_mem 1000).func_count ≡ 2)
    × (collect_names past_func 2 script_mem (1000 + (header_at script_mem 1000).funcs_offset) ≡ (
      item_names (func_items bytes_api align script_funcs),
      1000
          + (header_at script_mem 1000).funcs_offset
          + length (table_bytes (func_entry align) (func_items bytes_api align script_funcs)),
    ))
build_module-collect_names_example =
    build_module-collect_names bytes_api align bytes_IsBuf align-IsAlign 8 2 1 1 script_funcs
      script_vars script_mem 1000 opstacksize_fits callstacksize_fits (omega arith)
      script_IsWritable script_room script_held
