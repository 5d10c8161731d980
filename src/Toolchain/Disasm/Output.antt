-- ===== src/Toolchain/Disasm/Output.antt =====
-- The rest of `tagha_disasm_module` (tagha_toolchain/disassembler/disassembler.c): the functions, the
-- variables and the header of a script, and the checks before them.
use tagha.Base.{
  ℕ, zero, suc, ◌+◌, ◌-◌, ◌/◌, ◌^◌, Bool, true, false, Option, none, some, List, [], ◌∷◌, ◌++◌,
  ◌==◌, if◌then◌else◌,
}
use tagha.Mem.{Mem, load}
use tagha.State.{has_flag, flag_native, flag_extern}
use tagha.Loader.{entry_at, cstring, Header, header_at}
use tagha.Lifetime.{magic_verifier}
use tagha.Toolchain.Disasm.Switch.{Line, Names}
use tagha.Toolchain.Disasm.Names.{names_of}
use tagha.Toolchain.Disasm.Body.{Disasm, listed, null_name, out_of_fuel, disasm_body}

-- The texts that are collected: of bytecode functions with their length, name and lines, of C
-- functions, and of functions of other modules.
pub data FuncText : Type 0 where
  bytecode : ℕ → List ℕ → List Line → FuncText
  native : List ℕ → FuncText
  extern : List ℕ → FuncText

-- `nbc_funcs`, `bc_funcs`, and the iterator
pub record FuncTexts : Type 0 where
  pub nbc_funcs : List FuncText
  pub bc_funcs : List FuncText
  pub iter : ℕ

-- The line of a function without bytecode, if it has a flag that is known.
unfoldable pub non_bytecode : ℕ → List ℕ → List FuncText
unfolding has_flag
non_bytecode flags name =
    if has_flag flags flag_native
    then native name ∷ []
    else if has_flag flags flag_extern
    then extern name ∷ []
    else []

-- What follows the loop over the bytecode.
unfoldable pub with_body : Disasm (List Line) → (List Line → Disasm FuncTexts) → Disasm FuncTexts
with_body (listed ls) next = next ls
with_body null_name next = null_name
with_body out_of_fuel next = out_of_fuel

-- The loop over the functions, with `n` of them left.
unfoldable pub disasm_funcs : ℕ → Names → Mem → FuncTexts → Disasm FuncTexts
unfolding entry_at with_body disasm_body non_bytecode
disasm_funcs zero names m st = listed st
disasm_funcs (suc n) names m st =
    let entry = entry_at m st.iter in
    let name = st.iter + 16 in
    let pc = name + entry.name_len in
    let end = pc + entry.data_len in
    let cstr = cstring (2 ^ 64) m name in
    elim (entry.flags == 0) [
      | true ↦ with_body (disasm_body (suc entry.data_len) names m (pc + 1) end pc) λ ls.
          disasm_funcs n names m (record st {
            bc_funcs = st.bc_funcs ++ bytecode entry.data_len cstr ls ∷ [];
            iter = end;
          })
      | false ↦
          disasm_funcs n names m
            (record st { nbc_funcs = st.nbc_funcs ++ non_bytecode entry.flags cstr; iter = pc })
    ]

-- What is left of a variable behind its whole words: `long`, `half`, `byte` or nothing.
pub data Tail : Type 0 where
  long : ℕ → Tail
  half : ℕ → Tail
  byte : ℕ → Tail
  nothing : Tail

unfoldable pub tail_at : ℕ → Mem → ℕ → Tail
tail_at bytes m data_ =
    if bytes == 4
    then long (load 4 m data_)
    else if bytes == 2
    then half (load 2 m data_)
    else if bytes == 1
    then byte (load 1 m data_)
    else nothing

-- `for( ; bytes / sizeof(union TaghaVal) > 0; bytes -= sizeof(union TaghaVal) )` and the switch behind
-- it. The fuel is the number of bytes.
unfoldable pub var_words : ℕ → Mem → ℕ → ℕ → List ℕ × Tail
unfolding tail_at
var_words zero m bytes data_ = ([], tail_at bytes m data_)
var_words (suc f) m bytes data_ =
    let (words, tail) = var_words f m (bytes - 8) (data_ + 8) in
    if bytes / 8 == 0 then ([], tail_at bytes m data_) else (load 8 m data_ ∷ words, tail)

-- `$global`
pub record VarText : Type 0 where
  pub name : List ℕ
  pub data_len : ℕ
  pub words : List ℕ
  pub tail : Tail

-- The loop over the variables.
unfoldable pub disasm_vars : ℕ → Mem → ℕ → List VarText
unfolding entry_at var_words
disasm_vars zero m iter = []
disasm_vars (suc n) m iter =
    let entry = entry_at m iter in
    let data_ = iter + 16 + entry.name_len in
    let (words, tail) = var_words entry.data_len m entry.data_len data_ in
    let text : VarText = record {
      name = cstring (2 ^ 64) m (iter + 16);
      data_len = entry.data_len;
      words = words;
      tail = tail;
    } in
    text ∷ disasm_vars n m (data_ + entry.data_len)

-- The numbers in the text of the header.
pub record HeaderText : Type 0 where
  pub opstack_size : ℕ
  pub callstack_size : ℕ
  pub stacks_size : ℕ
  pub heap_size : ℕ
  pub memory_usage : ℕ
  pub func_count : ℕ
  pub var_count : ℕ

-- `final_output`, part by part
pub record Output : Type 0 where
  pub header : HeaderText
  pub vars : List VarText
  pub nbc_funcs : List FuncText
  pub bc_funcs : List FuncText

unfoldable pub header_text : Header → HeaderText
header_text hdr = record {
  opstack_size = hdr.opstacksize / 8;
  callstack_size = hdr.callstacksize / 8;
  stacks_size = hdr.stacksize;
  heap_size = hdr.heapsize;
  memory_usage = hdr.memsize;
  func_count = hdr.func_count;
  var_count = hdr.var_count;
}

-- From the tables to the whole output.
unfoldable pub finish_output : Mem → Header → Disasm FuncTexts → Disasm Output
unfolding header_text disasm_vars
finish_output m hdr (listed texts) = listed (record {
  header = header_text hdr;
  vars = disasm_vars hdr.var_count m texts.iter;
  nbc_funcs = texts.nbc_funcs;
  bc_funcs = texts.bc_funcs;
})
finish_output m hdr null_name = null_name
finish_output m hdr out_of_fuel = out_of_fuel

-- `fopen` gives a file for the output or does not; then the `bool` and what is written.
unfoldable pub write_output : Bool → Disasm Output → Disasm (Bool × Option Output)
write_output opens (listed out) = listed (if opens then (true, some out) else (false, none))
write_output opens null_name = null_name
write_output opens out_of_fuel = out_of_fuel

-- tagha_disasm_module, where `make_buffer_from_binary` has read the file to an address, or has failed
unfoldable pub disasm_module :
    (List (List ℕ) → ℕ → Option (List ℕ)) → Bool → Mem → Option ℕ → Disasm (Bool × Option Output)
unfolding names_of disasm_funcs finish_output write_output header_at
disasm_module vector_get opens m none = listed (false, none)
disasm_module vector_get opens m (some filedata) =
    let hdr = header_at m filedata in
    let start : FuncTexts = record {
      nbc_funcs = [];
      bc_funcs = [];
      iter = filedata + hdr.funcs_offset;
    } in
    elim (load 4 m filedata == magic_verifier) [
      | true ↦ write_output opens (
          finish_output m hdr
            (disasm_funcs hdr.func_count (names_of vector_get m filedata hdr) m start))
      | false ↦ listed (false, none)
    ]
