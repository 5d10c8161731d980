-- ===== src/Toolchain/Opcode/Numbers.antt =====
-- The numbers of the instructions and their places in the enumeration of tagha/tagha.h.
use tagha.Base.{List, [], ◌∷◌, length, zero, suc, ℕ, ◌<◌, ◌≡◌, ◌≢◌, refl, some, get_elem?, arith}
use tagha.Toolchain.Opcode.{InstrSet, opcode, instr_set, op_at, max_ops}

-- A member stands at its number.
pub op_at-opcode : (op : InstrSet) → op ≢ max_ops → op_at (opcode op) ≡ some op
unfolding op_at opcode
op_at-opcode max_ops h = absurd (h refl)
op_at-opcode op h = refl

get_elem?-lt {ℓ} :
    {A : Type ℓ} (xs : List A) (i : ℕ) (a : A) → get_elem? xs i ≡ some a → i < length xs
get_elem?-lt [] i a h = absurd cc
get_elem?-lt (x ∷ xs) zero a h = omega arith
get_elem?-lt (x ∷ xs) (suc i) a h = omega (arith, get_elem?-lt xs i a h)

-- The members other than MaxOps are numbered below it.
pub opcode-lt : (op : InstrSet) → op ≢ max_ops → opcode op < opcode max_ops
unfolding opcode instr_set op_at
opcode-lt op h = get_elem?-lt instr_set (opcode op) op (op_at-opcode op h)
