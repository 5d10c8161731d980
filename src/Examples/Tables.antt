-- ===== src/Examples/Tables.antt =====
-- A symbol table of tagha/tagha.c with the functions "f" and "g", and the theorems on it.
use tagha.Base.{ℕ, ◌≤◌, ◌≡◌, ◌≢◌, refl, sym, subst, arith, List, [], ◌∷◌, get_or, inr}
use tagha.State.{SymTable}
use tagha.Symbols.{add_symbol, empty_table, link_index, found, key_get_item, scan_chain}
use tagha.Symbols.Filed.{IsFiled, hash_at}
use tagha.Symbols.Keep.{add_symbol-IsFiled}
use tagha.Symbols.Refine.{position, file_names, key_get_item-position}
use tagha.Symbols.Find.{
  FirstWith, key_get_item-FirstWith, key_get_item_present, key_get_item_shadowed,
}
use tagha.Loader.{fill_loop, setup_func, setup_var}
use tagha.Loader.Tables.{empty_table-IsFiled, setup_func-IsFiled, setup_var-IsFiled}
use tagha.Api.{Native, module_link_natives}
use tagha.Api.Natives.{module_link_natives-off}
use tagha.Examples.Fixtures.{blank}

abbrev first_char : List ℕ → ℕ
first_char [] = 0
first_char (c ∷ cs) = c

-- Every name has this hash.
abbrev one_hash : List ℕ → ℕ
one_hash cs = 7

abbrev table1 : (List ℕ → ℕ) → SymTable
table1 hash = add_symbol hash (102 ∷ []) 3 0 (empty_table 5000 2)

abbrev table2 : (List ℕ → ℕ) → SymTable
table2 hash = add_symbol hash (103 ∷ []) 5 1 (table1 hash)

abbrev empty2 : SymTable
empty2 = empty_table 5000 2

table1-IsFiled : (hash : List ℕ → ℕ) → IsFiled hash 1 (table1 hash)
unfolding empty_table
table1-IsFiled hash =
    add_symbol-IsFiled hash (102 ∷ []) 3 0 empty2 (empty_table-IsFiled hash 5000 2 (omega arith))
      (omega arith)

table2-IsFiled :
    (hash : List ℕ → ℕ)
    → (table1 hash).len ≡ 2
    → (table2 hash).len ≡ 2
    → IsFiled hash (table2 hash).len (table2 hash)
table2-IsFiled hash e1 e2 =
    subst (λ n. IsFiled hash n (table2 hash)) (sym e2)
      (add_symbol-IsFiled hash (103 ∷ []) 5 1 (table1 hash) (table1-IsFiled hash) (omega arith))

first_len1 : (table1 first_char).len ≡ 2
unfolding add_symbol link_index empty_table
first_len1 = refl

first_len2 : (table2 first_char).len ≡ 2
unfolding add_symbol link_index empty_table
first_len2 = refl

one_len1 : (table1 one_hash).len ≡ 2
unfolding add_symbol link_index empty_table
one_len1 = refl

one_len2 : (table2 one_hash).len ≡ 2
unfolding add_symbol link_index empty_table
one_len2 = refl

key_get_item-FirstWith_example :
    FirstWith
      (hash_at (table2 first_char))
      103
      (table2 first_char).len
      (key_get_item first_char (table2 first_char) (103 ∷ []))
key_get_item-FirstWith_example =
    key_get_item-FirstWith first_char (table2 first_char)
      (table2-IsFiled first_char first_len1 first_len2) (103 ∷ [])

g_is_found : key_get_item first_char (table2 first_char) (103 ∷ []) ≡ found 1
unfolding key_get_item scan_chain add_symbol link_index empty_table
g_is_found = refl

key_get_item_present_example :
    (i : ℕ) × (key_get_item first_char (table2 first_char) (103 ∷ []) ≡ found i)
    × (i ≤ 1)
    × (first_char (get_or (table2 first_char).keys i []) ≡ 103)
unfolding add_symbol link_index empty_table
key_get_item_present_example =
    key_get_item_present first_char (table2 first_char) (103 ∷ []) 1
      (table2-IsFiled first_char first_len1 first_len2) (omega arith) refl

key_get_item_shadowed_example :
    key_get_item one_hash (table2 one_hash) (get_or (table2 one_hash).keys 1 []) ≢ found 1
key_get_item_shadowed_example =
    key_get_item_shadowed one_hash (table2 one_hash) 0 1 (table2-IsFiled one_hash one_len1 one_len2)
      (omega arith) (omega (arith, one_len2)) refl

-- "g" is looked up and "f" is found.
g_is_shadowed : key_get_item one_hash (table2 one_hash) (103 ∷ []) ≡ found 0
unfolding key_get_item scan_chain add_symbol link_index empty_table
g_is_shadowed = refl

setup_func-IsFiled_example :
    IsFiled first_char 2
      (fill_loop
        (setup_func first_char 512)
        2
        0
        (record { syms = empty_table 5000 2; mem = blank; iter = 1000 })).syms
    × ((fill_loop
          (setup_func first_char 512)
          2
          0
          (record { syms = empty_table 5000 2; mem = blank; iter = 1000 })).syms.len
        ≡ 2)
setup_func-IsFiled_example = setup_func-IsFiled first_char 512 2 5000 1000 blank (omega arith)

setup_var-IsFiled_example :
    IsFiled first_char 2
      (fill_loop
        (setup_var first_char 512)
        2
        0
        (record { syms = empty_table 5000 2; mem = blank; iter = 1000 })).syms
    × ((fill_loop
          (setup_var first_char 512)
          2
          0
          (record { syms = empty_table 5000 2; mem = blank; iter = 1000 })).syms.len
        ≡ 2)
setup_var-IsFiled_example = setup_var-IsFiled first_char 512 2 5000 1000 blank (omega arith)

abbrev puts : Native
puts = record { name = 103 ∷ []; cfunc = 777 }

-- "g" is linked, and the cell behind the table is as before.
module_link_natives-off_example :
    module_link_natives first_char (table2 first_char) (puts ∷ []) blank 5048 ≡ 0
unfolding add_symbol link_index empty_table
module_link_natives-off_example =
    module_link_natives-off first_char (table2 first_char)
      (table2-IsFiled first_char first_len1 first_len2) (omega arith) (puts ∷ []) blank 5048
      (inr (omega arith))

key_get_item-position_example :
    key_get_item first_char
      (file_names first_char ((102 ∷ []) ∷ (103 ∷ []) ∷ []) (3 ∷ 5 ∷ []) 0 (empty_table 5000 2))
      (103 ∷ [])
    ≡ position first_char 103 ((102 ∷ []) ∷ (103 ∷ []) ∷ []) 0
key_get_item-position_example =
    key_get_item-position first_char ((102 ∷ []) ∷ (103 ∷ []) ∷ []) (3 ∷ 5 ∷ []) 5000 (103 ∷ [])
      (omega arith)
