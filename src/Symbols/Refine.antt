-- ===== src/Symbols/Refine.antt =====
-- A symbol table of tagha/tagha.c that is filled name by name, against a list of names that is searched
-- from the front.
use tagha.Base.{
  ℕ, zero, suc, ◌+◌, ◌<◌, ◌≤◌, ◌≡◌, ◌≢◌, refl, sym, ap, subst, ◌∙◌, arith, List, [], ◌∷◌, length,
  get_or, set, ltb, ltb→lt, ltb-false→le, ==→eq, ◌==◌, if◌then◌else◌, Bool-cases, inl, inr, false,
}
use tagha.State.{SymTable, size_max}
use tagha.Symbols.{Search, found, missing, endless, add_symbol, empty_table, key_get_item}
use tagha.Symbols.Walk.{get_or-set_ne, get_or-set_self, length-set}
use tagha.Symbols.Filed.{hash_at, IsFiled}
use tagha.Symbols.Keep.{link_index-rest, add_symbol-IsFiled, len-add_symbol}
use tagha.Symbols.Find.{FirstWith, key_get_item-FirstWith}
use tagha.Loader.Tables.{empty_table-IsFiled}

unequal : (a b : ℕ) → (a == b) ≡ false → a ≢ b
unequal a b h e = ground arith

-- The specification: the index of the first name with a hash, counted from `i`.
unfoldable pub position : (List ℕ → ℕ) → ℕ → List (List ℕ) → ℕ → Search
position string_hash hash [] i = missing
position string_hash hash (name ∷ names) i =
    if string_hash name == hash then found i else position string_hash hash names (i + 1)

module _ (string_hash : List ℕ → ℕ) where
  -- Names with their sizes, filed from entry `i` on.
  unfoldable pub file_names : List (List ℕ) → List ℕ → ℕ → SymTable → SymTable
  unfolding add_symbol
  file_names [] sizes i t = t
  file_names (name ∷ names) sizes i t =
      file_names names sizes (i + 1) (add_symbol string_hash name (get_or sizes i 0) i t)

  keys-add_symbol :
      (name : List ℕ) (size i : ℕ) (t : SymTable)
      → (add_symbol string_hash name size i t).keys ≡ set t.keys i name
  unfolding add_symbol
  keys-add_symbol name size i t =
      (link_index-rest (string_hash name) i (record t {
        bytes = set t.bytes i size;
        keys = set t.keys i name;
        hashes = set t.hashes i (string_hash name);
      })).2

  file_names-old :
      (names : List (List ℕ)) (sizes : List ℕ) (i j : ℕ) (t : SymTable)
      → j < i
      → get_or (file_names names sizes i t).keys j [] ≡ get_or t.keys j []
  unfolding file_names
  file_names-old [] sizes i j t lt = refl
  file_names-old (name ∷ names) sizes i j t lt =
      file_names-old names sizes (i + 1) j (add_symbol string_hash name (get_or sizes i 0) i t)
        (omega arith)
      ∙ ap (λ ks. get_or ks j []) (keys-add_symbol name (get_or sizes i 0) i t)
      ∙ get_or-set_ne t.keys i j name [] (λ e. omega arith)

  file_names-keys :
      (names : List (List ℕ)) (sizes : List ℕ) (i j : ℕ) (t : SymTable)
      → j < length names
      → i + length names ≤ length t.keys
      → get_or (file_names names sizes i t).keys (i + j) [] ≡ get_or names j []
  unfolding file_names
  file_names-keys [] sizes i j t lt le = absurd (omega arith)
  file_names-keys (name ∷ names) sizes i zero t lt le =
      let t1 = add_symbol string_hash name (get_or sizes i 0) i t in
      let same : i + 0 ≡ i = omega arith in
      rw same (
        file_names-old names sizes (i + 1) i t1 (omega arith)
        ∙ ap (λ ks. get_or ks i []) (keys-add_symbol name (get_or sizes i 0) i t)
        ∙ get_or-set_self t.keys i name [] (omega arith))
  file_names-keys (name ∷ names) sizes i (suc j) t lt le =
      let t1 = add_symbol string_hash name (get_or sizes i 0) i t in
      let next : i + suc j ≡ i + 1 + j = omega arith in
      let len : length t1.keys ≡ length t.keys =
        ap (λ ks. length {A = List ℕ} ks) (keys-add_symbol name (get_or sizes i 0) i t)
        ∙ length-set t.keys i name in
      rw next (file_names-keys names sizes (i + 1) j t1 (omega arith) (omega (arith, len)))

  file_names-IsFiled :
      (names : List (List ℕ)) (sizes : List ℕ) (i : ℕ) (t : SymTable)
      → IsFiled string_hash i t
      → i + length names ≡ t.len
      → IsFiled string_hash (file_names names sizes i t).len (file_names names sizes i t)
        × ((file_names names sizes i t).len ≡ t.len)
  unfolding file_names
  file_names-IsFiled [] sizes i t f e = (subst (λ k. IsFiled string_hash k t) (omega arith) f, refl)
  file_names-IsFiled (name ∷ names) sizes i t f e =
      let t1 = add_symbol string_hash name (get_or sizes i 0) i t in
      let len = len-add_symbol string_hash name (get_or sizes i 0) i t in
      let f1 = add_symbol-IsFiled string_hash name (get_or sizes i 0) i t f (omega arith) in
      let (g, same) =
        file_names-IsFiled names sizes (i + 1) t1
          (subst (λ k. IsFiled string_hash k t1) (omega arith) f1) (omega (arith, len)) in
      (g, same ∙ len)

  -- A search that finds the first entry with the hash, where none before `i` has it.
  at_first :
      (g : ℕ → ℕ) (hash i n : ℕ) (r : Search)
      → ((j : ℕ) → j < i → g j ≢ hash)
      → g i ≡ hash
      → i < n
      → FirstWith g hash n r
      → r ≡ found i
  at_first g hash i n (found k) before here lt first = ap found (elim (Bool-cases (ltb k i)) [
    | inl e ↦ absurd (before k (ltb→lt k i e) first.1)
    | inr e ↦ elim (Bool-cases (ltb i k)) [
      | inl e' ↦ absurd (first.2 i (ltb→lt i k e') here)
      | inr e' ↦ omega (arith, ltb-false→le k i e, ltb-false→le i k e')
    ]
  ])
  at_first g hash i n missing before here lt first = absurd (first i lt here)
  at_first g hash i n endless before here lt first = absurd first

  nowhere :
      (g : ℕ → ℕ) (hash n : ℕ) (r : Search)
      → ((j : ℕ) → j < n → g j ≢ hash)
      → FirstWith g hash n r
      → r ≡ missing
  nowhere g hash n (found k) none first = absurd (none k first.0 first.1)
  nowhere g hash n missing none first = refl
  nowhere g hash n endless none first = absurd first

  below_suc :
      (g : ℕ → ℕ) (hash i j : ℕ)
      → ((k : ℕ) → k < i → g k ≢ hash)
      → g i ≢ hash
      → j < i + 1
      → g j ≢ hash
  below_suc g hash i j before here lt = elim (Bool-cases (ltb j i)) [
    | inl e ↦ before j (ltb→lt j i e)
    | inr e ↦
        (let same : j ≡ i = omega (arith, ltb-false→le j i e) in λ q. here (ap g (sym same) ∙ q))
  ]

  position_lem :
      (names : List (List ℕ)) (g : ℕ → ℕ) (hash i : ℕ) (r : Search)
      → ((j : ℕ) → j < length names → g (i + j) ≡ string_hash (get_or names j []))
      → ((j : ℕ) → j < i → g j ≢ hash)
      → FirstWith g hash (i + length names) r
      → r ≡ position string_hash hash names i
  unfolding position
  position_lem [] g hash i r same before first =
      nowhere g hash (i + 0) r (λ j lt. before j (omega arith)) first
  position_lem (name ∷ names) g hash i r same before first =
      let here : g i ≡ string_hash name = ap g (omega arith) ∙ same 0 (omega arith) in
      elim (Bool-cases (string_hash name == hash)) [
        | inl e ↦
            rw (position, e)
              (at_first g hash i _ r before (here ∙ ==→eq (string_hash name) hash e) (omega arith)
                first)
        | inr e ↦
            rw (position, e)
              (position_lem names g hash (i + 1) r
                (λ j lt. ap g (omega arith) ∙ same (suc j) (omega arith))
                (λ j lt.
                  below_suc g hash i j before
                    (λ q. unequal (string_hash name) hash e (sym here ∙ q)) lt)
                (subst (λ n. FirstWith g hash n r) (omega arith) first))
      ]

  -- The hash table implements a list of names in their order: filed name by name from the empty
  -- table, and looked up, it gives the index of the first name of the list with the hash of the key,
  -- and nothing when no name has it. There are fewer names than SIZE_MAX.
  pub key_get_item-position :
      (names : List (List ℕ)) (sizes : List ℕ) (table : ℕ) (key : List ℕ)
      → length names < size_max
      → key_get_item string_hash (file_names names sizes 0 (empty_table table (length names))) key
        ≡ position string_hash (string_hash key) names 0
  unfolding empty_table
  key_get_item-position names sizes table key small =
      let start = empty_table table (length names) in
      let empty = empty_table-IsFiled string_hash table (length names) small in
      let (filed, len) = file_names-IsFiled names sizes 0 start empty (omega arith) in
      let t = file_names names sizes 0 start in
      position_lem names (hash_at t) (string_hash key) 0 (key_get_item string_hash t key)
        (λ j lt.
          filed.hashed (0 + j) (omega (arith, len, lt))
          ∙ ap string_hash
              (file_names-keys names sizes 0 j start lt (omega (arith, empty.keys_len))))
        (λ j lt. absurd (omega arith))
        (subst (λ n. FirstWith (hash_at t) (string_hash key) n (key_get_item string_hash t key))
          (omega (arith, len)) (key_get_item-FirstWith string_hash t filed key))
