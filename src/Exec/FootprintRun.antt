-- ===== src/Exec/FootprintRun.antt =====
-- What one instruction of tagha/tagha.c can change in memory, calls included.
use tagha.Base.{ℕ, ◌≡◌, ◌⊎◌, Option, some}
use tagha.Mem.{Mem}
use tagha.Words.{sub64}
use tagha.State.{SymTable, Module, Item, item_at}
use tagha.Machine.{Machine, Handler, imm, skip, reg, Run, returned, stuck, out_of_fuel}
use tagha.Isa.Move.{entry_addr}
use tagha.Isa.Jump.{Env, Nested, enter_lib}
use tagha.Exec.Framed.{Ends}
use tagha.Exec.Footprint
use tagha.Exec.Footprint.{IsAway, SameCell}
use tagha.Exec.FootprintTable

-- C functions leave the cell `x` alone.
abbrev pub NativeSpares : ℕ → Env → Type 0
NativeSpares x env = (f p : ℕ) (vm : Module) (m : Mem) → (env.native f vm m p).mem x ≡ m x

abbrev pub RunSpares : ℕ → Mem → Run → Type 0
RunSpares x m (returned vm m') = m' x ≡ m x
RunSpares x m stuck = Unit
RunSpares x m out_of_fuel = Unit

-- The item of the function that a `call` or `callr` at the pointer, behind its opcode, reaches.
abbrev pub IsCallee : Machine → Item → Type 0
IsCallee s func =
    ((t : SymTable) × (s.table_funcs ≡ some t)
      × (func ≡ item_at s.mem (entry_addr t (sub64 (imm 2 s) 1))))
    ⊎ (func ≡ item_at s.mem (reg (imm 1 s) (skip 1 s)))

-- If that function belongs to another module, its run, from the state in which the call enters it,
-- leaves the cell `x` alone.
abbrev pub CalleeSpares : ℕ → Env → Nested → Machine → Type 0
CalleeSpares x env nested s =
    (func : Item) (fs vs : Option SymTable)
    → IsCallee s func
    → env.libs func.owner ≡ some (fs, vs)
    → RunSpares x (enter_lib fs vs s).mem
        (nested func.item (enter_lib fs vs s).vm (enter_lib fs vs s).mem)

-- The handler leaves the cell `x` alone in the state `s`.
abbrev SparesAt : ℕ → Machine → Handler → Type 0
SparesAt x s h = IsAway x s → Ends (SameCell s.mem x) (SameCell s.mem x) (h s)
