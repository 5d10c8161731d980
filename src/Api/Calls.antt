-- ===== src/Api/Calls.antt =====
-- Which calls of the host into a module (tagha/tagha.c) are refused, and with which error.
use tagha.Base.{
  ℕ, ◌+◌, ◌≡◌, ◌≤◌, ◌<◌, ◌⊎◌, true, false, Option, if◌then◌else◌, none, some, List, ◌==◌, length,
  ◌*◌,
}
use tagha.Words.{sub64}
use tagha.Mem.{Mem}
use tagha.State.{
  SymTable, Module, Item, item_at, nil, has_flag, flag_native, flag_linked, err_none,
  err_bad_native, err_op_stack_of, err_bad_func,
}
use tagha.Symbols.{found, key_get_item}
use tagha.Api.{Called, called, call_stuck, call_timeout, item_addr}

-- The call was refused with that error: nothing ran, and only `err` has changed.
abbrev pub RefusedWith : ℕ → Module → Mem → Called → Type 0
RefusedWith err vm m c = c ≡ called false none (record vm { err = err }) m

-- The call was not refused: it gave a value, and `true` if no error was set, or its run was undefined
-- in C or out of fuel.
abbrev pub Goes : Called → Type 0
Goes (called ok (some v) vm' m') = ok ≡ (vm'.err == err_none)
Goes (called ok none vm' m') = ⊥
Goes call_stuck = Unit
Goes call_timeout = Unit

-- The function of a name: an item that has code.
unfoldable pub function_of : (List ℕ → ℕ) → SymTable → Mem → List ℕ → Option Item
function_of string_hash funcs m name = elim (key_get_item string_hash funcs name) [
  | found i ↦
      let func = item_at m (item_addr funcs i) in if func.item == nil then none else some func
  | _ ↦ none
]

-- A C function that was not linked; code for which the operand stack has no room, with one cell
-- for each argument and one for the result; and what is left, linked or with room.
abbrev pub IsUnlinked : Item → Type 0
IsUnlinked func =
    (has_flag func.flags flag_native ≡ true) × (has_flag func.flags flag_linked ≡ false)

abbrev pub LacksRoom : Module → List ℕ → Item → Type 0
LacksRoom vm params func =
    (has_flag func.flags flag_native ≡ false)
    × (sub64 vm.osp (8 * (length params + 1)) < vm.opstack)

abbrev pub IsCallable : Module → List ℕ → Item → Type 0
IsCallable vm params func =
    ((has_flag func.flags flag_native ≡ true) × (has_flag func.flags flag_linked ≡ true))
    ⊎ ((has_flag func.flags flag_native ≡ false)
        × (vm.opstack ≤ sub64 vm.osp (8 * (length params + 1))))

-- What becomes of a call: without a function it is refused with TaghaErrBadFunc, an unlinked C
-- function with TaghaErrBadNative, lack of room with TaghaErrOpStackOF, and all others go on.
abbrev pub Answers : Option Item → List ℕ → Module → Mem → Called → Type 0
Answers none params vm m c = RefusedWith err_bad_func vm m c
Answers (some func) params vm m c =
    (IsUnlinked func × RefusedWith err_bad_native vm m c)
    ⊎ (LacksRoom vm params func × RefusedWith err_op_stack_of vm m c)
    ⊎ (IsCallable vm params func × Goes c)
