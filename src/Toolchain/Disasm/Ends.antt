-- ===== src/Toolchain/Disasm/Ends.antt =====
-- The loops of `tagha_disasm_module` (tagha_toolchain/disassembler/disassembler.c) end on every file.
use tagha.Base.{
  ℕ, zero, suc, ◌+◌, ◌≤◌, ◌≡◌, refl, ap, arith, Option, none, some, List, Bool, true, false, not,
  ◌||◌, ◌==◌, ltb, le→ltb-false, Bool-cases, Option-cases, inl, inr,
}
use tagha.Mem.{Mem, load}
use tagha.Loader.{Header, header_at, entry_at}
use tagha.Lifetime.{magic_verifier}
use tagha.Toolchain.Opcode.{InstrSet, op_at}
use tagha.Toolchain.Disasm.Switch.{
  Line, Names, Case, case_of, disasm_case, with_name, plain_case, u8_case, reg_case, regs_case,
  call_case, u16_case, lra_case, named_case, load_case, store_case, jump_case, movi_case,
  default_case,
}
use tagha.Toolchain.Disasm.Body.{
  Disasm, listed, null_name, out_of_fuel, add_line, disasm_round, disasm_body,
}
use tagha.Toolchain.Disasm.Output.{
  FuncTexts, with_body, disasm_funcs, finish_output, write_output, disasm_module,
}

-- The fuel was enough.
abbrev pub ends : {A : Type 0} → Disasm A → Bool
ends (listed a) = true
ends null_name = true
ends out_of_fuel = false

add_line-ends :
    (l : Option Line) (d : Disasm (List Line)) → ends d ≡ true → ends (add_line l d) ≡ true
unfolding add_line
add_line-ends none d h = h
add_line-ends (some l) (listed ls) h = refl
add_line-ends (some l) null_name h = refl
add_line-ends (some l) out_of_fuel h = h

with_name-le :
    (o : Option (List ℕ)) (line : List ℕ → Line) (pc pc' : ℕ) (l : Option Line)
    → with_name o line pc ≡ some (l, pc')
    → pc ≤ pc'
unfolding with_name
with_name-le none line pc pc' l e = absurd cc
with_name-le (some name) line pc pc' l e = ground arith

-- Every case moves on or stays behind the opcode.
disasm_case-le :
    (c : Case) (names : Names) (m : Mem) (offs : ℕ) (op : InstrSet) (pc pc' : ℕ) (l : Option Line)
    → disasm_case c names m offs op pc ≡ some (l, pc')
    → pc ≤ pc'
unfolding disasm_case
disasm_case-le plain_case names m offs op pc pc' l e = ground arith
disasm_case-le u8_case names m offs op pc pc' l e = ground arith
disasm_case-le reg_case names m offs op pc pc' l e = ground arith
disasm_case-le regs_case names m offs op pc pc' l e = ground arith
disasm_case-le call_case names m offs op pc pc' l e =
    let step = with_name-le _ _ (pc + 2) pc' l e in omega arith
disasm_case-le u16_case names m offs op pc pc' l e = ground arith
disasm_case-le lra_case names m offs op pc pc' l e = ground arith
disasm_case-le named_case names m offs op pc pc' l e =
    let step = with_name-le _ _ (pc + 3) pc' l e in omega arith
disasm_case-le load_case names m offs op pc pc' l e = ground arith
disasm_case-le store_case names m offs op pc pc' l e = ground arith
disasm_case-le jump_case names m offs op pc pc' l e = ground arith
disasm_case-le movi_case names m offs op pc pc' l e = ground arith
disasm_case-le default_case names m offs op pc pc' l e = ground arith

disasm_round-ends :
    (again : ℕ → Disasm (List Line)) (names : Names) (m : Mem) (offs pc : ℕ)
    → ((pc' : ℕ) → pc + 1 ≤ pc' → ends (again pc') ≡ true)
    → ends (disasm_round again names m offs pc) ≡ true
unfolding disasm_round
disasm_round-ends again names m offs pc h = elim (Option-cases (op_at (load 1 m pc))) [
  | inl e ↦ rw (ends, e) (h (pc + 1) (omega arith))
  | inr (op, e) ↦ elim (Option-cases (disasm_case (case_of op) names m offs op (pc + 1))) [
    | inl e' ↦ rw (ends, e, e') refl
    | inr ((l, pc'), e') ↦
        rw (ends, e, e')
          (add_line-ends l (again pc')
            (h pc' (disasm_case-le (case_of op) names m offs op (pc + 1) pc' l e')))
  ]
]

stopped : (zero_byte inside : Bool) → inside ≡ false → (zero_byte || not inside) ≡ true
stopped true inside h = refl
stopped false inside h = ap not h

-- One round for each byte, and one to see the end.
disasm_body-ends :
    (f : ℕ) (names : Names) (m : Mem) (offs iter pc : ℕ)
    → iter ≤ pc + f
    → ends (disasm_body (suc f) names m offs iter pc) ≡ true
unfolding disasm_body
disasm_body-ends zero names m offs iter pc h =
    let past = le→ltb-false pc iter (omega arith) in
    rw (stopped (load 1 m pc == 0) (ltb pc iter) past) refl
disasm_body-ends (suc f) names m offs iter pc h =
    elim (Bool-cases ((load 1 m pc == 0) || not (ltb pc iter))) [
      | inl e ↦ rw e refl
      | inr e ↦ rw e (
          disasm_round-ends (disasm_body (suc f) names m offs iter) names m offs pc
            (λ pc' le. disasm_body-ends f names m offs iter pc' (omega arith)))
    ]

with_body-ends :
    (d : Disasm (List Line)) (next : List Line → Disasm FuncTexts)
    → ends d ≡ true
    → ((ls : List Line) → ends (next ls) ≡ true)
    → ends (with_body d next) ≡ true
unfolding with_body
with_body-ends (listed ls) next h k = k ls
with_body-ends null_name next h k = refl
with_body-ends out_of_fuel next h k = h

disasm_funcs-ends :
    (n : ℕ) (names : Names) (m : Mem) (st : FuncTexts) → ends (disasm_funcs n names m st) ≡ true
unfolding disasm_funcs
disasm_funcs-ends zero names m st = refl
disasm_funcs-ends (suc n) names m st = elim (Bool-cases ((entry_at m st.iter).flags == 0)) [
  | inl e ↦
      rw (ends, e)
        (with_body-ends (disasm_body (suc (entry_at m st.iter).data_len) names m _ _ _) _
          (disasm_body-ends (entry_at m st.iter).data_len names m _ _ _ (omega arith))
          (λ ls. disasm_funcs-ends n names m _))
  | inr e ↦ rw (ends, e) (disasm_funcs-ends n names m _)
]

write_output-ends :
    (opens : Bool) (m : Mem) (hdr : Header) (d : Disasm FuncTexts)
    → ends d ≡ true
    → ends (write_output opens (finish_output m hdr d)) ≡ true
unfolding write_output finish_output
write_output-ends opens m hdr (listed texts) h = refl
write_output-ends opens m hdr null_name h = refl
write_output-ends opens m hdr out_of_fuel h = h

-- `tagha_disasm_module` comes to an end on every file, whatever bytes it holds, and whatever names
-- the vectors give for an index: no loop runs out of the fuel that the lengths in the file set.
pub disasm_module-ends :
    (vector_get : List (List ℕ) → ℕ → Option (List ℕ)) (opens : Bool) (m : Mem)
    (filedata : Option ℕ)
    → ends (disasm_module vector_get opens m filedata) ≡ true
unfolding disasm_module
disasm_module-ends vector_get opens m none = refl
disasm_module-ends vector_get opens m (some filedata) =
    elim (Bool-cases (load 4 m filedata == magic_verifier)) [
      | inl e ↦
          rw (ends, e)
            (write_output-ends opens m (header_at m filedata) _ (disasm_funcs-ends _ _ m _))
      | inr e ↦ rw (ends, e) refl
    ]
