-- ===== src/Toolchain/InstrGen/Execute.antt =====
-- `_tagha_module_exec` (tagha/tagha.c) on the bytes that `tagha_instr_gen`
-- (tagha_toolchain/instr_gen.h) writes.
use tagha.Base.{
  ℕ, ◌+◌, ◌%◌, ◌^◌, ◌≡◌, ◌≢◌, arith, some, List, [], ◌∷◌, length, sym, refl, ap, ◌∙◌, get_elem?,
}
use tagha.Words.{add64}
use tagha.Mem.{Mem}
use tagha.Machine.{Machine, Handler, imm, skip}
use tagha.Isa.Jump.{Env, Nested}
use tagha.Dispatch.{dispatch}
use tagha.Exec.{step}
use tagha.Toolchain.Opcode.{InstrSet, opcode}
use tagha.Toolchain.Opcode.Numbers.{opcode-lt}
use tagha.Toolchain.Opcode.Handlers.{handler_of, dispatch-opcode}
use tagha.Toolchain.Buffer.{
  le_bytes, length-le_bytes, HoldsAt, HoldsAt-left, HoldsAt-right, load-le_bytes,
}
use tagha.Toolchain.Buffer.Fields.{field_bytes}
use tagha.Toolchain.InstrGen.{Args, format}
use tagha.Toolchain.InstrGen.Bytes.{fields, encode}

-- Reading the immediates at the instruction pointer, each past the one before, gives the values.
abbrev pub Reads : List (ℕ × ℕ) → Machine → Type 0
Reads [] s = Unit
Reads ((n, v) ∷ fs) s = (imm n s ≡ v % 256 ^ n) × Reads fs (skip n s)

-- Addresses count modulo 2 ^ 64.
HoldsAt-wrap :
    (m : Mem) (a b : ℕ) (bs : List ℕ) → a % 2 ^ 64 ≡ b % 2 ^ 64 → HoldsAt m a bs → HoldsAt m b bs
HoldsAt-wrap m a b [] e h = tt
HoldsAt-wrap m a b (x ∷ bs) e h =
    (rw (sym e) h.0, HoldsAt-wrap m (a + 1) (b + 1) bs (omega arith) h.1)

HoldsAt-Reads : (fs : List (ℕ × ℕ)) (s : Machine) → HoldsAt s.mem s.ip (field_bytes fs) → Reads fs s
unfolding imm skip add64 field_bytes
HoldsAt-Reads [] s h = tt
HoldsAt-Reads ((n, v) ∷ fs) s h =
    let here = HoldsAt-left s.mem s.ip (le_bytes n v) (field_bytes fs) h in
    let there = HoldsAt-right s.mem s.ip (le_bytes n v) (field_bytes fs) h in
    (
      load-le_bytes n s.mem s.ip v here,
      HoldsAt-Reads fs (skip n s) (
          HoldsAt-wrap s.mem (s.ip + length (le_bytes n v)) (add64 s.ip n) (field_bytes fs)
            (omega (arith, length-le_bytes n v)) there),
    )

step-fetched :
    (env : Env) (nested : Nested) (handler : Handler) (s : Machine)
    → get_elem? (dispatch env nested) (imm 1 s) ≡ some handler
    → step env nested s ≡ handler (skip 1 s)
unfolding step
step-fetched env nested handler s e = rw (step, e) refl

-- Where the bytes of an instruction stand at the instruction pointer, one round of the interpreter
-- is the handler of that instruction, started behind the opcode, and the immediates there are the
-- operands that were given to the generator, each cut to its width.
pub step-encode :
    (env : Env) (nested : Nested) (op : InstrSet) (args : Args) (s : Machine)
    → op ≢ InstrSet.max_ops
    → HoldsAt s.mem s.ip (encode op args)
    → (step env nested s ≡ handler_of env nested op (skip 1 s))
      × Reads (fields (format op) args) (skip 1 s)
unfolding encode opcode
step-encode env nested op args s h held =
    let all = HoldsAt-Reads ((1, opcode op) ∷ fields (format op) args) s held in
    let lt = opcode-lt op h in
    let fetched : imm 1 s ≡ opcode op = omega (arith, all.0, lt) in
    let found = ap (get_elem? (dispatch env nested)) fetched ∙ dispatch-opcode env nested op h in
    (step-fetched env nested (handler_of env nested op) s found, all.1)
