-- ===== src/Toolchain/Disasm/RoundTrip.antt =====
-- `tagha_disasm_module` (tagha_toolchain/disassembler/disassembler.c) on bytecode that
-- `tagha_instr_gen` (tagha_toolchain/instr_gen.h) wrote.
use tagha.Base.{
  ℕ, zero, suc, ◌+◌, ◌≤◌, ◌≡◌, ◌≢◌, refl, sym, ap, ◌∙◌, arith, Option, none, some, List, [], ◌∷◌,
  ◌++◌, Bool, true, false, not, ◌||◌, length, ltb, ◌==◌, All, eq→==, ne→==-false, ◌⊎◌, inl, inr,
  lt→ltb, le→ltb-false,
}
use mathlib.Core.List.{append_assoc}
use tagha.Mem.{Mem, load}
use tagha.Toolchain.Opcode.{InstrSet, opcode, op_at}
use tagha.Toolchain.Opcode.Numbers.{op_at-opcode, opcode-lt}
use tagha.Toolchain.Buffer.{
  HoldsAt, HoldsAt-left, HoldsAt-right, le_bytes, load-le_bytes, length-append,
}
use tagha.Toolchain.Buffer.Fields.{field_bytes, fields_size, length-field_bytes}
use tagha.Toolchain.InstrGen.{Args, format}
use tagha.Toolchain.InstrGen.Bytes.{fields, encode}
use tagha.Toolchain.Disasm.Switch.{Line, Names}
use tagha.Toolchain.Disasm.Body.{Disasm, listed, null_name, add_line, disasm_round, disasm_body}
use tagha.Toolchain.Disasm.Listing.{shape, line_of, listing}
use tagha.Toolchain.Disasm.Encoded.{at_place, disasm_case-encode}

-- The bytecode of a function.
unfoldable pub encode_all : List (InstrSet × Args) → List ℕ
unfolding encode
encode_all [] = []
encode_all ((op, args) ∷ prog) = encode op args ++ encode_all prog

-- What follows the bytes of a line.
abbrev follow : (ℕ → Disasm (List Line)) → ℕ → Option Line → Disasm (List Line)
follow again pc none = null_name
follow again pc (some l) = add_line (some l) (again pc)

after_case :
    (again : ℕ → Disasm (List Line)) (pc : ℕ) (o : Option Line)
    → elim (at_place pc o) [ none ↦ null_name | some (line, pc') ↦ add_line line (again pc') ]
      ≡ follow again pc o
after_case again pc none = refl
after_case again pc (some l) = refl

load-opcode :
    (m : Mem) (a : ℕ) (op : InstrSet) (args : Args)
    → op ≢ InstrSet.max_ops
    → HoldsAt m a (encode op args)
    → load 1 m a ≡ opcode op
unfolding encode field_bytes opcode
load-opcode m a op args h held =
    let first =
      load-le_bytes 1 m a (opcode op)
        (HoldsAt-left m a (le_bytes 1 (opcode op)) (field_bytes (fields (format op) args)) held) in
    let lt = opcode-lt op h in omega (arith, first, lt)

disasm_round-encode :
    (again : ℕ → Disasm (List Line)) (names : Names) (m : Mem) (start off : ℕ) (op : InstrSet)
    (args : Args)
    → op ≢ InstrSet.max_ops
    → HoldsAt m (start + off) (encode op args)
    → disasm_round again names m (start + 1) (start + off)
      ≡ follow again
          (start + (off + length (encode op args)))
          (line_of (shape (format op) op) names op args off)
unfolding disasm_round
disasm_round-encode again names m start off op args h held =
    let fetched = ap op_at (load-opcode m (start + off) op args h held) ∙ op_at-opcode op h in
    let this = disasm_case-encode names m start off op args h held in
    rw (disasm_round, fetched, this)
      (after_case again _ (line_of (shape (format op) op) names op args off))

follow_lem :
    (again : ℕ → Disasm (List Line)) (pc : ℕ) (o : Option Line) (rest : Disasm (List Line))
    → again pc ≡ rest
    → follow again pc o ≡ elim o [ none ↦ null_name | some l ↦ add_line (some l) rest ]
follow_lem again pc none rest e = refl
follow_lem again pc (some l) rest e = ap (add_line (some l)) e

-- Instructions of the set other than `halt`, whose opcode is 0.
abbrev pub AreListed : List (InstrSet × Args) → Type 0
AreListed prog = All (λ i. (i.0 ≢ InstrSet.halt) × (i.0 ≢ InstrSet.max_ops)) prog

-- What follows the instructions is nothing or begins with a zero byte.
abbrev pub Stops : List ℕ → Type 0
Stops [] = Unit
Stops (b ∷ bs) = b ≡ 0

opcode-nonzero : (op : InstrSet) → op ≢ InstrSet.halt → op ≢ InstrSet.max_ops → opcode op ≢ 0
unfolding op_at
opcode-nonzero op h k e =
    let at : op_at 0 ≡ some op = ap op_at (sym e) ∙ op_at-opcode op k in
    h (ap (λ o. elim o [ none ↦ op | some o' ↦ o' ]) (sym at))

ended : (b inside : Bool) → (b ≡ true) ⊎ (inside ≡ false) → (b || not inside) ≡ true
ended true inside h = refl
ended false inside (inl e) = absurd cc
ended false inside (inr e) = ap not e

body_ended :
    (f : ℕ) (names : Names) (m : Mem) (offs iter pc : ℕ) (tail : List ℕ)
    → Stops tail
    → pc + length tail ≡ iter
    → HoldsAt m pc tail
    → disasm_body (suc f) names m offs iter pc ≡ listed []
unfolding disasm_body load
body_ended f names m offs iter pc [] st e held =
    rw (ended (load 1 m pc == 0) (ltb pc iter) (inr (le→ltb-false pc iter (omega arith)))) refl
body_ended f names m offs iter pc (b ∷ bs) st e held =
    let first : load 1 m pc ≡ 0 = omega (arith, held.0, st) in
    rw (ended (load 1 m pc == 0) (ltb pc iter) (inl (eq→== _ 0 first))) refl

body_goes :
    (f : ℕ) (names : Names) (m : Mem) (offs iter pc : ℕ)
    → load 1 m pc ≢ 0
    → pc + 1 ≤ iter
    → disasm_body (suc f) names m offs iter pc
      ≡ disasm_round (disasm_body f names m offs iter) names m offs pc
unfolding disasm_body
body_goes f names m offs iter pc h lt =
    let nonzero = ne→==-false (load 1 m pc) 0 h in
    let inside = lt→ltb pc iter (omega arith) in rw (nonzero, inside) refl

length-encode : (op : InstrSet) (args : Args) → 1 ≤ length (encode op args)
unfolding encode fields_size
length-encode op args = omega (arith, length-field_bytes ((1, opcode op) ∷ fields (format op) args))

-- The listing of a function holds, instruction by instruction, the offsets of the bytes and what
-- the operands that were given to the generator stand for: numbers cut to their widths, for `ldvar`
-- the name of the variable with the index, for `call` and for `ldfn` the name of the function one
-- before the index, for a jump the displacement and the target. Where a name is missing the
-- listing ends there in a null pointer. The bytecode is what `tagha_instr_gen` wrote for instructions
-- other than `halt`, up to the end of the function or to a zero byte, which may be padding or a
-- `halt` with anything behind it.
pub disasm_body-encode_all :
    (f : ℕ) (names : Names) (m : Mem) (start off iter : ℕ) (prog : List (InstrSet × Args))
    (tail : List ℕ)
    → AreListed prog
    → length prog ≤ f
    → Stops tail
    → start + off + length (encode_all prog ++ tail) ≡ iter
    → HoldsAt m (start + off) (encode_all prog ++ tail)
    → disasm_body (suc f) names m (start + 1) iter (start + off) ≡ listing names prog off
unfolding encode_all listing
disasm_body-encode_all f names m start off iter [] tail all le st e held =
    body_ended f names m (start + 1) iter (start + off) tail st e held
disasm_body-encode_all zero names m start off iter ((op, args) ∷ prog) tail all le st e held =
    absurd (omega arith)
disasm_body-encode_all (suc f) names m start off iter ((op, args) ∷ prog) tail all le st e held =
    let bytes = encode op args in
    let rest = encode_all prog ++ tail in
    let whole : HoldsAt m (start + off) (bytes ++ rest) =
      rw (append_assoc bytes (encode_all prog) tail) at held in
    let size : start + off + (length bytes + length rest) ≡ iter =
      rw (append_assoc bytes (encode_all prog) tail, length-append bytes rest) at e in
    let this = HoldsAt-left m (start + off) bytes rest whole in
    let shift : start + off + length bytes ≡ start + (off + length bytes) = omega arith in
    let there = rw shift at (HoldsAt-right m (start + off) bytes rest whole) in
    let fetched = load-opcode m (start + off) op args all.0.1 this in
    let nonzero : load 1 m (start + off) ≢ 0 =
      λ z. opcode-nonzero op all.0.0 all.0.1 (sym fetched ∙ z) in
    let again =
      disasm_body-encode_all f names m start (off + length bytes) iter prog tail all.1 (omega arith)
        st (omega (arith, size)) there in
    body_goes (suc f) names m (start + 1) iter (start + off) nonzero
      (omega (arith, length-encode op args, size))
    ∙ disasm_round-encode _ names m start off op args all.0.1 this
    ∙ follow_lem (disasm_body (suc f) names m (start + 1) iter) (start + (off + length bytes))
        (line_of (shape (format op) op) names op args off) _ again
