-- ===== src/Toolchain/Disasm/Encoded.antt =====
-- The cases of the disassembler (tagha_toolchain/disassembler/disassembler.c) on the bytes that
-- `tagha_instr_gen` (tagha_toolchain/instr_gen.h) writes.
use tagha.Base.{
  ℕ, zero, suc, ◌+◌, ◌-◌, ◌%◌, ◌^◌, ◌<◌, ◌⊎◌, inl, inr, ◌≡◌, ◌≢◌, refl, sym, ap, ap₂, ltb, subst,
  ◌∙◌, arith, Option, none, some, List, ◌∷◌, length,
}
use tagha.Words.{sext}
use tagha.Words.Signed.{signed}
use tagha.Mem.{Mem}
use tagha.Toolchain.Opcode.{InstrSet, opcode}
use tagha.Toolchain.Buffer.{HoldsAt}
use tagha.Toolchain.Buffer.Fields.{fields_size, length-field_bytes, Loads, HoldsAt-Loads}
use tagha.Toolchain.InstrGen.{format, Args}
use tagha.Toolchain.InstrGen.Bytes.{fields, encode}
use tagha.Toolchain.Disasm.Switch.{
  Line, Names, Case, case_of, shows_plus, label_name, label_addr, before, disasm_case, with_name,
  plain_case, u8_case, reg_case, regs_case, call_case, u16_case, lra_case, named_case, load_case,
  store_case, jump_case, movi_case, default_case,
}
use tagha.Toolchain.Disasm.Cases.{case_format, format-case_of, case_of-real}
use tagha.Toolchain.Disasm.Listing.{shape, func_before, name_at, jump_target, named, line_of}

-- A line that is there, with the place behind it.
abbrev pub at_place : ℕ → Option Line → Option (Option Line × ℕ)
at_place pc none = none
at_place pc (some l) = some (some l, pc)

with_name-named :
    (o : Option (List ℕ)) (line : List ℕ → Line) (pc : ℕ)
    → with_name o line pc ≡ at_place pc (named o line)
unfolding with_name named
with_name-named none line pc = refl
with_name-named (some name) line pc = refl

before-func_before :
    (names : Names) (w k : ℕ)
    → (w ≡ 32) ⊎ (w ≡ 64)
    → k < 2 ^ 16
    → names.func_name (before w k) ≡ func_before names w k
unfolding before func_before
before-func_before names w zero (inl e) lt = rw e (ap names.func_name (omega arith))
before-func_before names w zero (inr e) lt = rw e (ap names.func_name (omega arith))
before-func_before names w (suc k) (inl e) lt = rw e (ap names.func_name (omega arith))
before-func_before names w (suc k) (inr e) lt = rw e (ap names.func_name (omega arith))

label_name-name_at :
    (names : Names) (op : InstrSet) (k : ℕ)
    → k < 2 ^ 16
    → label_name names op k ≡ name_at names op k
unfolding label_name name_at
label_name-name_at names InstrSet.ldvar k lt = refl
label_name-name_at names op k lt = before-func_before names 32 k (inl refl) lt

label_addr-jump_target : (off label : ℕ) → label_addr (off + 4) label ≡ jump_target off label
unfolding label_addr jump_target sext
label_addr-jump_target off label = ground arith

shows_plus-signed : (n : ℕ) → shows_plus (signed 2 n) ≡ ltb n (2 ^ 15)
shows_plus-signed n = ground arith

-- The switch of the disassembler shows every instruction as it should be shown.
case_of-shape : (op : InstrSet) → op ≢ InstrSet.max_ops → case_of op ≡ shape (format op) op
unfolding case_of shape format
case_of-shape InstrSet.max_ops h = absurd (h refl)
case_of-shape op h = refl

disasm_case-Loads :
    (c : Case) (names : Names) (m : Mem) (offs off pc : ℕ) (op : InstrSet) (args : Args)
    → c ≢ default_case
    → pc ≡ offs + off
    → Loads m pc (fields (case_format c) args)
    → disasm_case c names m offs op pc
      ≡ at_place (pc + fields_size (fields (case_format c) args)) (line_of c names op args off)
unfolding disasm_case line_of case_format fields fields_size
disasm_case-Loads plain_case names m offs off pc op args d e h =
    let start : pc - offs ≡ off = omega arith in
    let stay : pc + 0 ≡ pc = omega arith in rw (start, stay) refl
disasm_case-Loads u8_case names m offs off pc op args d e h =
    let start : pc - offs ≡ off = omega arith in
    let last : pc + 1 - offs ≡ off + 1 = omega arith in rw (h.0, start, last) refl
disasm_case-Loads reg_case names m offs off pc op args d e h =
    let start : pc - offs ≡ off = omega arith in
    let last : pc + 1 - offs ≡ off + 1 = omega arith in rw (h.0, start, last) refl
disasm_case-Loads regs_case names m offs off pc op args d e h =
    let start : pc - offs ≡ off = omega arith in
    let last : pc + 2 - offs ≡ off + 2 = omega arith in rw (h.0, h.1.0, start, last) refl
disasm_case-Loads call_case names m offs off pc op args d e h =
    let start : pc - offs ≡ off = omega arith in
    let last : pc + 2 - offs ≡ off + 2 = omega arith in
    let name = before-func_before names 64 (args.oper1 % 2 ^ 16) (inr refl) (omega arith) in
    rw (h.0, start, last, name) (with_name-named _ _ (pc + 2))
disasm_case-Loads u16_case names m offs off pc op args d e h =
    let start : pc - offs ≡ off = omega arith in
    let last : pc + 2 - offs ≡ off + 2 = omega arith in rw (h.0, start, last) refl
disasm_case-Loads lra_case names m offs off pc op args d e h =
    let start : pc - offs ≡ off = omega arith in
    let last : pc + 3 - offs ≡ off + 3 = omega arith in rw (h.0, h.1.0, start, last) refl
disasm_case-Loads named_case names m offs off pc op args d e h =
    let start : pc - offs ≡ off = omega arith in
    let last : pc + 3 - offs ≡ off + 3 = omega arith in
    let name = label_name-name_at names op (args.oper2 % 2 ^ 16) (omega arith) in
    rw (h.0, h.1.0, start, last, name) (with_name-named _ _ (pc + 3))
disasm_case-Loads load_case names m offs off pc op args d e h =
    let start : pc - offs ≡ off = omega arith in
    let last : pc + 4 - offs ≡ off + 4 = omega arith in
    let third : pc + 1 + 1 ≡ pc + 2 = omega arith in
    let offset = rw third at h.1.1.0 in
    rw (h.0, h.1.0, offset, start, last, shows_plus-signed (args.oper3 % 2 ^ 16)) refl
disasm_case-Loads store_case names m offs off pc op args d e h =
    let start : pc - offs ≡ off = omega arith in
    let last : pc + 4 - offs ≡ off + 4 = omega arith in
    let third : pc + 1 + 1 ≡ pc + 2 = omega arith in
    let offset = rw third at h.1.1.0 in
    rw (h.0, h.1.0, offset, start, last, shows_plus-signed (args.oper3 % 2 ^ 16)) refl
disasm_case-Loads jump_case names m offs off pc op args d e h =
    let start : pc - offs ≡ off = omega arith in
    let last : pc + 4 - offs ≡ off + 4 = omega arith in
    let target = label_addr-jump_target off (args.oper1 % 2 ^ 32) in
    rw (h.0, start, last, target) refl
disasm_case-Loads movi_case names m offs off pc op args d e h =
    let start : pc - offs ≡ off = omega arith in
    let last : pc + 9 - offs ≡ off + 9 = omega arith in rw (h.0, h.1.0, start, last) refl
disasm_case-Loads default_case names m offs off pc op args d e h = absurd (d refl)

-- The case of an instruction on the bytes that the generator wrote for it.
pub disasm_case-encode :
    (names : Names) (m : Mem) (start off : ℕ) (op : InstrSet) (args : Args)
    → op ≢ InstrSet.max_ops
    → HoldsAt m (start + off) (encode op args)
    → disasm_case (case_of op) names m (start + 1) op (start + off + 1)
      ≡ at_place
          (start + (off + length (encode op args)))
          (line_of (shape (format op) op) names op args off)
unfolding encode fields_size
disasm_case-encode names m start off op args h held =
    let fs = (1, opcode op) ∷ fields (format op) args in
    let loads = HoldsAt-Loads m (start + off) fs held in
    let same = format-case_of op in
    let len = length-field_bytes fs in
    let end : start + off + 1 + fields_size (fields (case_format (case_of op)) args)
        ≡ start + (off + length (encode op args)) =
      rw (sym same) (omega (arith, len)) in
    disasm_case-Loads (case_of op) names m (start + 1) off (start + off + 1) op args
      (case_of-real op h) (omega arith)
      (subst (λ f. Loads m (start + off + 1) (fields f args)) same loads.1)
    ∙ ap₂ (λ p c. at_place p (line_of c names op args off)) end (case_of-shape op h)
