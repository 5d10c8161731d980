-- ===== src/Toolchain/Disasm/Names.antt =====
-- The first walk of `tagha_disasm_module` (tagha_toolchain/disassembler/disassembler.c) over the tables
-- of a script, which collects the names. The script lies in one buffer, so pointers do not wrap.
use tagha.Base.{ℕ, zero, suc, ◌+◌, ◌^◌, Option, List, [], ◌∷◌, ◌==◌, if◌then◌else◌}
use tagha.Mem.{Mem}
use tagha.Loader.{entry_at, cstring, Header}
use tagha.Toolchain.Disasm.Switch.{Names}

-- The address behind the entry of a function; bytecode is only there without flags.
unfoldable pub past_func : Mem → ℕ → ℕ
unfolding entry_at
past_func m iter =
    let entry = entry_at m iter in
    if entry.flags == 0
    then iter + 16 + entry.name_len + entry.data_len
    else iter + 16 + entry.name_len

-- The address behind the entry of a variable.
unfoldable pub past_var : Mem → ℕ → ℕ
unfolding entry_at
past_var m iter = let entry = entry_at m iter in iter + 16 + (entry.name_len + entry.data_len)

-- The names of `n` entries, and the iterator behind them.
unfoldable pub collect_names : (Mem → ℕ → ℕ) → ℕ → Mem → ℕ → List (List ℕ) × ℕ
collect_names past zero m iter = ([], iter)
collect_names past (suc n) m iter =
    let (names, end) = collect_names past n m (past m iter) in
    (cstring (2 ^ 64) m (iter + 16) ∷ names, end)

-- Both loops, and the vectors that they fill, read by `vector_get`.
unfoldable pub names_of : (List (List ℕ) → ℕ → Option (List ℕ)) → Mem → ℕ → Header → Names
unfolding collect_names past_func past_var
names_of vector_get m filedata hdr =
    let (funcs, first_run) =
      collect_names past_func hdr.func_count m (filedata + hdr.funcs_offset) in
    let (vars, end) = collect_names past_var hdr.var_count m first_run in
    record { func_name = vector_get funcs; var_name = vector_get vars }
