-- ===== src/Symbols.antt =====
-- The symbol tables of tagha/tagha.c: the loops of `_setup_func_table` and `_setup_var_table` that
-- read the entries of a script and file them under their hashes, and the lookup by name.
-- `string_hash` is a parameter: it belongs to the Harbol headers.
pub mod Walk
pub mod Build
pub mod Filed
pub mod Keep
pub mod Find
pub mod Refine
use tagha.Base.{
  ℕ, zero, suc, ◌+◌, ◌*◌, ◌%◌, ◌^◌, Bool, true, false, ◌&&◌, ◌||◌, Option, none, some, List, [],
  ◌∷◌, ◌==◌, if◌then◌else◌, get_or, set, replicate,
}
use tagha.Words.{add64}
use tagha.Mem.{Mem, load}
use tagha.State.{SymTable, Item, store_item, item_size, has_flag, flag_extern, nil, size_max}

-- TAGHA_SYM_BUCKETS
abbrev pub sym_buckets : ℕ
sym_buckets = 32

-- !strcmp
unfoldable pub same_string : List ℕ → List ℕ → Bool
same_string [] [] = true
same_string [] (b ∷ bs) = false
same_string (a ∷ as') [] = false
same_string (a ∷ as') (b ∷ bs) = (a == b) && same_string as' bs

-- How a search ends. The C loop has no fuel: `endless` is a search that has used up its own.
pub data Search : Type 0 where
  found : ℕ → Search
  missing : Search
  endless : Search

-- The test of one entry: the hash or the string is the one looked for.
unfoldable pub entry_matches : SymTable → ℕ → List ℕ → ℕ → Bool
unfolding same_string
entry_matches syms hash key i =
    (get_or syms.hashes i 0 == hash) || same_string (get_or syms.keys i []) key

-- `for( size_t i=syms->buckets[index]; i != SIZE_MAX; i = syms->chain[i] )`
unfoldable pub scan_chain : ℕ → SymTable → ℕ → List ℕ → ℕ → Search
unfolding entry_matches
scan_chain zero syms hash key i = endless
scan_chain (suc f) syms hash key i =
    let rest = scan_chain f syms hash key (get_or syms.chain i size_max) in
    if i == size_max then missing else if entry_matches syms hash key i then found i else rest

-- _tagha_key_get_item, as the index of the item
unfoldable pub key_get_item : (List ℕ → ℕ) → SymTable → List ℕ → Search
key_get_item string_hash syms key =
    if syms.len == 0
    then missing
    else (let hash = string_hash key in
        scan_chain (suc syms.len) syms hash key (get_or syms.buckets (hash % sym_buckets) size_max))

-- `while( chain[n] != SIZE_MAX ) n = chain[n];`
unfoldable pub last_of_chain : ℕ → List ℕ → ℕ → ℕ
last_of_chain zero chain n = n
last_of_chain (suc f) chain n =
    let rest = last_of_chain f chain (get_or chain n size_max) in
    if get_or chain n size_max == size_max then n else rest

-- Entry `i` goes to the end of the chain of its bucket.
unfoldable pub link_index : ℕ → ℕ → SymTable → SymTable
unfolding last_of_chain
link_index hash i t =
    let b = hash % sym_buckets in
    let n = get_or t.buckets b size_max in
    if n == size_max
    then record t { buckets = set t.buckets b i }
    else record t { chain = set t.chain (last_of_chain t.len t.chain n) i }

-- The part of the loop body that both tables share: size, name and hash, and the link.
unfoldable pub add_symbol : (List ℕ → ℕ) → List ℕ → ℕ → ℕ → SymTable → SymTable
add_symbol string_hash key size i t =
    let hash = string_hash key in
    link_index hash i (record t {
      bytes = set t.bytes i size;
      keys = set t.keys i key;
      hashes = set t.hashes i hash;
    })

-- A table of `n` entries before they are read, with its items at `table`.
unfoldable pub empty_table : ℕ → ℕ → SymTable
empty_table table n = record {
  keys = replicate n [];
  table = table;
  len = n;
  buckets = replicate sym_buckets size_max;
  hashes = replicate n 0;
  chain = replicate n size_max;
  bytes = replicate n 0;
}
