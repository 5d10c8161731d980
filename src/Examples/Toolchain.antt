-- ===== src/Examples/Toolchain.antt =====
-- The theorems about tagha_toolchain/instr_gen.h and the disassembler at concrete inputs.
use tagha.Base.{
  ℕ, ◌+◌, ◌≡◌, ◌≢◌, refl, arith, true, none, some, List, [], ◌∷◌, ◌++◌, length, get_elem?, ◌&◌,
}
use tagha.Mem.{Mem}
use tagha.Machine.{Machine, skip, out_of_fuel}
use tagha.Isa.Jump.{Nested}
use tagha.Exec.{step, boot}
use tagha.Toolchain.Opcode.{InstrSet, opcode}
use tagha.Toolchain.Opcode.Handlers.{handler_of}
use tagha.Toolchain.Buffer.{HoldsAt, le_bytes}
use tagha.Toolchain.Buffer.Fields.{field_bytes}
use tagha.Toolchain.InstrGen.{Args, instr_gen, format}
use tagha.Toolchain.InstrGen.Bytes.{encode, fields, instr_gen-encode}
use tagha.Toolchain.InstrGen.Execute.{Reads, step-encode}
use tagha.Toolchain.Disasm.Switch.{Names}
use tagha.Toolchain.Disasm.Body.{disasm_body}
use tagha.Toolchain.Disasm.Output.{disasm_module}
use tagha.Toolchain.Disasm.Ends.{ends, disasm_module-ends}
use tagha.Toolchain.Disasm.Listing.{listing}
use tagha.Toolchain.Disasm.RoundTrip.{encode_all, disasm_body-encode_all}
use tagha.Examples.Fixtures.{with_bytes, blank, env, vm}
use tagha.Examples.Bytes.{with_bytes-HoldsAt}
use tagha.Examples.Buffers.{bytes_api, bytes_IsBuf}

-- `movi r1, 258` and `ld4 r2, [r3-1]`
abbrev movi_args : Args
movi_args = record { oper1 = 1; oper2 = 258; oper3 = 0 }

abbrev ld4_args : Args
ld4_args = record { oper1 = 2; oper2 = 3; oper3 = 65535 }

movi_real : InstrSet.movi ≢ InstrSet.max_ops
movi_real e = cc

instr_gen-encode_example :
    ((b' : List ℕ) × (instr_gen bytes_api (some (7 ∷ [])) InstrSet.movi movi_args
        ≡ (length (encode InstrSet.movi movi_args), some b'))
      × (b' ≡ 7 ∷ encode InstrSet.movi movi_args))
    × (instr_gen bytes_api none InstrSet.movi ld4_args
        ≡ (length (encode InstrSet.movi movi_args), none))
instr_gen-encode_example =
    instr_gen-encode bytes_api InstrSet.movi movi_args ld4_args (7 ∷ []) bytes_IsBuf movi_real

abbrev movi_machine : Machine
movi_machine = boot 1000 vm (with_bytes 1000 (encode InstrSet.movi movi_args) blank)

abbrev no_nested : Nested
no_nested ip vm' m = out_of_fuel

movi_held : HoldsAt movi_machine.mem movi_machine.ip (encode InstrSet.movi movi_args)
unfolding encode field_bytes le_bytes fields format opcode boot
movi_held = with_bytes-HoldsAt 1000 (encode InstrSet.movi movi_args) blank refl (omega arith)

step-encode_example :
    (step env no_nested movi_machine ≡ handler_of env no_nested InstrSet.movi (skip 1 movi_machine))
    × Reads (fields (format InstrSet.movi) movi_args) (skip 1 movi_machine)
step-encode_example =
    step-encode env no_nested InstrSet.movi movi_args movi_machine movi_real movi_held

disasm_module-ends_example :
    ends (disasm_module get_elem? true (with_bytes 1000 (255 ∷ []) blank) (some 1000)) ≡ true
disasm_module-ends_example =
    disasm_module-ends get_elem? true (with_bytes 1000 (255 ∷ []) blank) (some 1000)

-- `ldvar r3, v` and `jmp -5`
abbrev ldvar_args : Args
ldvar_args = record { oper1 = 3; oper2 = 0; oper3 = 0 }

abbrev jmp_args : Args
jmp_args = record { oper1 = 4294967291; oper2 = 0; oper3 = 0 }

abbrev instrs : List (InstrSet × Args)
instrs =
    (InstrSet.movi, movi_args)
    ∷ (InstrSet.ld4, ld4_args)
    ∷ (InstrSet.ldvar, ldvar_args)
    ∷ (InstrSet.jmp, jmp_args)
    ∷ []

abbrev v_names : Names
v_names = record { func_name = λ i. none; var_name = λ i. some (118 ∷ []) }

-- The instructions, a `halt` and a byte behind it.
abbrev code_mem : Mem
code_mem = with_bytes 1000 (encode_all instrs ++ 0 ∷ 9 ∷ []) blank

code_held : HoldsAt code_mem (1000 + 0) (encode_all instrs ++ 0 ∷ 9 ∷ [])
unfolding encode_all encode field_bytes le_bytes fields format opcode
code_held = with_bytes-HoldsAt 1000 (encode_all instrs ++ 0 ∷ 9 ∷ []) blank refl (omega arith)

code_length : 1000 + 0 + length (encode_all instrs ++ 0 ∷ 9 ∷ []) ≡ 1026
unfolding encode_all encode field_bytes le_bytes fields format opcode
code_length = refl

disasm_body-encode_all_example :
    disasm_body 27 v_names code_mem (1000 + 1) 1026 (1000 + 0) ≡ listing v_names instrs 0
disasm_body-encode_all_example =
    disasm_body-encode_all 26 v_names code_mem 1000 0 1026 instrs (0 ∷ 9 ∷ [])
      (((λ e. cc) & movi_real)
        & ((λ e. cc) & (λ e. cc))
        & ((λ e. cc) & (λ e. cc))
        & ((λ e. cc) & (λ e. cc))
        & tt)
      (omega arith) refl code_length code_held
