-- ===== src/Setup/Tables.antt =====
-- What `_setup_func_table` and `_setup_var_table` (tagha/tagha.c) leave in the module.
use tagha.Base.{ℕ, ◌+◌, ◌<◌, ◌≡◌, sym, ap, subst, ◌∙◌, arith, true, List, some}
use tagha.Words.{add64}
use tagha.Mem.{Mem}
use tagha.Mem.Laws.{load-lt}
use tagha.State.{SymTable, size_max}
use tagha.Symbols.{empty_table}
use tagha.Symbols.Filed.{IsFiled}
use tagha.Loader.{Header, header_at, Filling, Loading, PoolApi, setup_func, setup_var, fill_loop}
use tagha.Loader.Tables.{setup_func-IsFiled, setup_var-IsFiled}
use tagha.Setup.{Arrays, done, sym_table_size, alloc_arrays, setup_func_table, setup_var_table}

-- Allocations leave the header of the script alone.
abbrev pub KeepsHeader : {P : Type 0} → PoolApi P → ℕ → Type 0
KeepsHeader {P} api script =
    (heap : P) (m : Mem) (size : ℕ)
    → header_at (api.alloc heap m size).mem script ≡ header_at m script

func_count-lt : (m : Mem) (p : ℕ) → (header_at m p).func_count < size_max
unfolding header_at
func_count-lt m p = omega (arith, load-lt 4 m (p + 28))

var_count-lt : (m : Mem) (p : ℕ) → (header_at m p).var_count < size_max
unfolding header_at
var_count-lt m p = omega (arith, load-lt 4 m (p + 36))

-- A loop of `c` rounds where the table has `n` entries and the counts agree.
filled_of :
    (string_hash : List ℕ → ℕ) (body : ℕ → Filling → Filling) (c n : ℕ) (st : Filling)
    → c ≡ n
    → IsFiled string_hash n (fill_loop body n 0 st).syms × ((fill_loop body n 0 st).syms.len ≡ n)
    → ((fill_loop body c 0 st).syms.len ≡ n)
      × IsFiled string_hash (fill_loop body c 0 st).syms.len (fill_loop body c 0 st).syms
filled_of string_hash body c n st e f =
    rw e (f.1, subst (λ k. IsFiled string_hash k (fill_loop body n 0 st).syms) (sym f.1) f.0)

module _ {P : Type 0} (api : PoolApi P) (string_hash : List ℕ → ℕ) (script : ℕ)
    (keeps : KeepsHeader api script) where
  alloc_arrays-header :
      (l : Loading P) (len : ℕ)
      → header_at (alloc_arrays api l len).mem script ≡ header_at l.mem script
  unfolding alloc_arrays
  alloc_arrays-header l len = keeps _ _ _ ∙ keeps _ _ _ ∙ keeps _ _ _ ∙ keeps _ _ _ ∙ keeps _ _ _

  -- The module after the allocation of the table's structure, and the arrays.
  abbrev allocated : Loading P → Loading P
  allocated l =
      let r = api.alloc l.heap l.mem sym_table_size in record l { heap = r.heap; mem = r.mem }

  abbrev arrays_of : (Header → ℕ) → Loading P → Arrays P
  arrays_of count l =
      alloc_arrays api (allocated l) (count (header_at (allocated l).mem l.module_.script))

  -- The counts that the two reads of the header give are one.
  counts_agree :
      (count : Header → ℕ) (l : Loading P)
      → l.module_.script ≡ script
      → (count (header_at (arrays_of count l).mem l.module_.script)
          ≡ count (header_at (allocated l).mem l.module_.script))
        × (count (header_at (allocated l).mem l.module_.script) ≡ count (header_at l.mem script))
  unfolding alloc_arrays
  counts_agree count l here = rw here (
    ap count (alloc_arrays-header (allocated l) (count (header_at (allocated l).mem script))),
    ap count (keeps l.heap l.mem sym_table_size),
  )

  abbrev func_start : Loading P → Filling
  func_start l =
      let arrays = arrays_of (λ h. h.func_count) l in
      record {
        syms = empty_table arrays.table (header_at (allocated l).mem l.module_.script).func_count;
        mem = arrays.mem;
        iter = add64 l.module_.script (header_at arrays.mem l.module_.script).funcs_offset;
      }

  abbrev func_rounds : Loading P → ℕ
  func_rounds l = (header_at (arrays_of (λ h. h.func_count) l).mem l.module_.script).func_count

  pub setup_func_table-done :
      (l l' : Loading P)
      → setup_func_table api string_hash l ≡ done true l'
      → (l'.module_.funcs
          ≡ some
              (fill_loop
                (setup_func string_hash l.module_.self)
                (func_rounds l)
                0
                (func_start l)).syms)
        × (l'.module_.vars ≡ l.module_.vars)
        × (l'.module_.script ≡ l.module_.script)
  unfolding setup_func_table
  setup_func_table-done l l' e = ground arith

  -- Where `_setup_func_table` succeeds, over allocations that leave the script's header, the module
  -- has a table with the header's number of entries, and it is filed.
  pub setup_func_table-IsFiled :
      (l l' : Loading P)
      → l.module_.script ≡ script
      → setup_func_table api string_hash l ≡ done true l'
      → (t : SymTable) × (l'.module_.funcs ≡ some t)
        × (t.len ≡ (header_at l.mem script).func_count)
        × IsFiled string_hash t.len t
  setup_func_table-IsFiled l l' here e =
      let start = func_start l in
      let agree = counts_agree (λ h. h.func_count) l here in
      let (len, filed) =
        filled_of string_hash (setup_func string_hash l.module_.self) (func_rounds l)
          (header_at (allocated l).mem l.module_.script).func_count start agree.0
          (setup_func-IsFiled string_hash l.module_.self _ _ start.iter start.mem
            (func_count-lt (allocated l).mem l.module_.script)) in
      (
        (fill_loop (setup_func string_hash l.module_.self) (func_rounds l) 0 start).syms,
        (setup_func_table-done l l' e).0,
        len ∙ agree.1,
        filed,
      )

  abbrev var_start : Loading P → Filling
  var_start l =
      let arrays = arrays_of (λ h. h.var_count) l in
      record {
        syms = empty_table arrays.table (header_at (allocated l).mem l.module_.script).var_count;
        mem = arrays.mem;
        iter = add64 l.module_.script (header_at arrays.mem l.module_.script).vars_offset;
      }

  abbrev var_rounds : Loading P → ℕ
  var_rounds l = (header_at (arrays_of (λ h. h.var_count) l).mem l.module_.script).var_count

  pub setup_var_table-done :
      (l l' : Loading P)
      → setup_var_table api string_hash l ≡ done true l'
      → (l'.module_.vars
          ≡ some
              (fill_loop
                (setup_var string_hash l.module_.self)
                (var_rounds l)
                0
                (var_start l)).syms)
        × (l'.module_.funcs ≡ l.module_.funcs)
        × (l'.module_.script ≡ l.module_.script)
  unfolding setup_var_table
  setup_var_table-done l l' e = ground arith

  -- Where `_setup_var_table` succeeds, over allocations that leave the script's header, the module
  -- has a table with the header's number of entries, and it is filed.
  pub setup_var_table-IsFiled :
      (l l' : Loading P)
      → l.module_.script ≡ script
      → setup_var_table api string_hash l ≡ done true l'
      → (t : SymTable) × (l'.module_.vars ≡ some t)
        × (t.len ≡ (header_at l.mem script).var_count)
        × IsFiled string_hash t.len t
  setup_var_table-IsFiled l l' here e =
      let start = var_start l in
      let agree = counts_agree (λ h. h.var_count) l here in
      let (len, filed) =
        filled_of string_hash (setup_var string_hash l.module_.self) (var_rounds l)
          (header_at (allocated l).mem l.module_.script).var_count start agree.0
          (setup_var-IsFiled string_hash l.module_.self _ _ start.iter start.mem
            (var_count-lt (allocated l).mem l.module_.script)) in
      (
        (fill_loop (setup_var string_hash l.module_.self) (var_rounds l) 0 start).syms,
        (setup_var_table-done l l' e).0,
        len ∙ agree.1,
        filed,
      )
