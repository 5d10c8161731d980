-- ===== src/Toolchain/ModuleGen/Traversal.antt =====
-- The disassembler (tagha_toolchain/disassembler/disassembler.c) walks over the tables that
-- tagha_toolchain/module_gen.h wrote.
use tagha.Base.{
  ℕ, ◌+◌, ◌^◌, ◌≡◌, ap, arith, List, [], ◌∷◌, ◌++◌, length, All, Bool-cases, inl, inr, ◌==◌,
}
use tagha.Mem.{Mem, load}
use tagha.Loader.{entry_at, cstring}
use tagha.Toolchain.Buffer.{HoldsAt, HoldsAt-left, HoldsAt-right, length-append}
use tagha.Toolchain.ModuleGen.Entries.{IsAlign, name_space, data_space, func_entry, var_entry}
use tagha.Toolchain.ModuleGen.Loaded.{IsWritable, func_data_len, FuncRead, func_read}
use tagha.Toolchain.ModuleGen.LoadedVars.{VarRead, var_read}
use tagha.Toolchain.Disasm.Names.{past_func, past_var, collect_names}

-- Flags, name and data of the entries of a table.
abbrev pub Items : Type 0
Items = List (ℕ × List ℕ × List ℕ)

-- The bytes of the entries, one behind the other.
unfoldable pub table_bytes : (ℕ → List ℕ → List ℕ → List ℕ) → Items → List ℕ
table_bytes entry [] = []
table_bytes entry ((flags, name, code) ∷ items) = entry flags name code ++ table_bytes entry items

abbrev pub item_names : Items → List (List ℕ)
item_names [] = []
item_names ((flags, name, code) ∷ items) = name ∷ item_names items

abbrev pub AreWritable : Items → Type 0
AreWritable items = All (λ i. IsWritable i.0 i.1 i.2) items

-- A walk whose step goes behind each entry collects the names.
collect_names-table_bytes :
    (past : Mem → ℕ → ℕ) (entry : ℕ → List ℕ → List ℕ → List ℕ) (m : Mem) (p : ℕ) (items : Items)
    → ((a flags : ℕ) (name code : List ℕ)
        → IsWritable flags name code
        → HoldsAt m a (entry flags name code)
        → (past m a ≡ a + length (entry flags name code)) × (cstring (2 ^ 64) m (a + 16) ≡ name))
    → AreWritable items
    → HoldsAt m p (table_bytes entry items)
    → collect_names past (length items) m p
      ≡ (item_names items, p + length (table_bytes entry items))
unfolding collect_names table_bytes
collect_names-table_bytes past entry m p [] step w held = ap (λ a. ([], a)) (omega arith)
collect_names-table_bytes past entry m p ((flags, name, code) ∷ items) step w held =
    let this = entry flags name code in
    let rest = table_bytes entry items in
    let (on, named) = step p flags name code w.0 (HoldsAt-left m p this rest held) in
    let more =
      collect_names-table_bytes past entry m (p + length this) items step w.1
        (HoldsAt-right m p this rest held) in
    let end : p + length this + length rest ≡ p + length (this ++ rest) =
      omega (arith, length-append this rest) in
    rw (collect_names, on, named, more) (ap (λ a. (name ∷ item_names items, a)) end)

module _ (align_size : ℕ → ℕ → ℕ) (aligned : IsAlign align_size) where
  past_func-func_entry :
      (m : Mem) (p flags : ℕ) (name code : List ℕ)
      → FuncRead align_size aligned m p flags name code
      → past_func m p ≡ p + length (func_entry align_size flags name code)
  unfolding past_func entry_at
  past_func-func_entry m p flags name code read =
      let size = read.size in
      let f : load 4 m (p + 4) ≡ flags = ap (λ x. x.flags) read.entry in
      let n : load 4 m (p + 8) ≡ name_space align_size name = ap (λ x. x.name_len) read.entry in
      let d : load 4 m (p + 12) ≡ func_data_len align_size aligned flags code =
        ap (λ x. x.data_len) read.entry in
      elim (Bool-cases (flags == 0)) [
        | inl e ↦ (let s = rw e at size in rw (past_func, f, n, d, e) (omega arith))
        | inr e ↦ (let s = rw e at size in rw (past_func, f, n, d, e) (omega arith))
      ]

  past_var-var_entry :
      (m : Mem) (p flags : ℕ) (name datum : List ℕ)
      → VarRead align_size aligned m p flags name datum
      → past_var m p ≡ p + length (var_entry align_size flags name datum)
  unfolding past_var entry_at
  past_var-var_entry m p flags name datum read =
      let size = read.size in
      let n : load 4 m (p + 8) ≡ name_space align_size name = ap (λ x. x.name_len) read.entry in
      let d : load 4 m (p + 12) ≡ data_space align_size datum = ap (λ x. x.data_len) read.entry in
      rw (past_var, n, d) (omega arith)

  -- The first walk of the disassembler over a table of functions that the module generator wrote
  -- collects the names of the functions in their order, and ends behind the table.
  pub collect_names-funcs :
      (m : Mem) (p : ℕ) (items : Items)
      → AreWritable items
      → HoldsAt m p (table_bytes (func_entry align_size) items)
      → collect_names past_func (length items) m p
        ≡ (item_names items, p + length (table_bytes (func_entry align_size) items))
  collect_names-funcs m p items w held =
      collect_names-table_bytes past_func (func_entry align_size) m p items
        (λ a flags name code w' h.
          let read = func_read align_size aligned m a flags name code w' h in
          (past_func-func_entry m a flags name code read, read.name_at))
        w held

  -- The same for the table of variables.
  pub collect_names-vars :
      (m : Mem) (p : ℕ) (items : Items)
      → AreWritable items
      → HoldsAt m p (table_bytes (var_entry align_size) items)
      → collect_names past_var (length items) m p
        ≡ (item_names items, p + length (table_bytes (var_entry align_size) items))
  collect_names-vars m p items w held =
      collect_names-table_bytes past_var (var_entry align_size) m p items
        (λ a flags name code w' h.
          let read = var_read align_size aligned m a flags name code w' h in
          (past_var-var_entry m a flags name code read, read.name_at))
        w held
