-- ===== src/Symbols/Find.antt =====
-- What the lookup by name of tagha/tagha.c finds in a table whose entries are all filed.
use tagha.Base.{
  ℕ, zero, suc, ◌%◌, ◌<◌, ◌≤◌, ◌≡◌, ◌≢◌, ◌∙◌, refl, sym, ap, subst, arith, List, [], ◌∷◌, ◌++◌,
  get_or, length, All, true, Bool-cases, inl, inr, ◌==◌, if◌then◌else◌, ==→eq, eq→==, ne→==-false,
  ltb, ltb→lt, ltb-false→le,
}
use tagha.State.{SymTable, size_max}
use tagha.Symbols.{
  sym_buckets, same_string, entry_matches, Search, found, missing, endless, scan_chain,
  key_get_item,
}
use tagha.Symbols.Walk.{Walks}
use tagha.Symbols.Build.{members, members-All, length-members}
use tagha.Symbols.Filed.{hash_at, IsFiled}

-- The lookup as it is meant to be read: the first of the first `n` entries with that hash.
abbrev pub FirstWith : (ℕ → ℕ) → ℕ → ℕ → Search → Type 0
FirstWith h hash n (found i) = (i < n) × (h i ≡ hash) × ((j : ℕ) → j < i → h j ≢ hash)
FirstWith h hash n missing = (j : ℕ) → j < n → h j ≢ hash
FirstWith h hash n endless = ⊥

-- The scan of a list of indices.
first_with : (ℕ → ℕ) → ℕ → List ℕ → Search
first_with h hash [] = missing
first_with h hash (i ∷ is) = if h i == hash then found i else first_with h hash is

or_else : Search → Search → Search
or_else (found i) r = found i
or_else missing r = r
or_else endless r = endless

first_with-snoc :
    (h : ℕ → ℕ) (hash : ℕ) (is : List ℕ) (n : ℕ)
    → first_with h hash (is ++ n ∷ [])
      ≡ or_else (first_with h hash is) (if h n == hash then found n else missing)
unfolding first_with or_else
first_with-snoc h hash [] n = refl
first_with-snoc h hash (i ∷ is) n = ground (arith, first_with-snoc h hash is n)

FirstWith-step :
    (h : ℕ → ℕ) (hash n : ℕ) (r : Search)
    → FirstWith h hash n r
    → FirstWith h hash (suc n) (or_else r (if h n == hash then found n else missing))
unfolding or_else
FirstWith-step h hash n (found i) f = (omega arith, f.1, f.2)
FirstWith-step h hash n missing f = elim (Bool-cases (h n == hash)) [
  | inl e ↦ rw e (omega arith, ==→eq (h n) hash e, f)
  | inr e ↦ rw e (λ j p q. elim (Bool-cases (j == n)) [
    | inl same ↦ let s = ==→eq j n same in ground arith
    | inr other ↦ f j (ground arith) q
  ])
]
FirstWith-step h hash n endless f = f

FirstWith-skip :
    (h : ℕ → ℕ) (hash n : ℕ) (r : Search)
    → h n ≢ hash
    → FirstWith h hash n r
    → FirstWith h hash (suc n) r
FirstWith-skip h hash n (found i) ne f = (omega arith, f.1, f.2)
FirstWith-skip h hash n missing ne f = λ j p q. elim (Bool-cases (j == n)) [
  | inl same ↦ ne (ap h (sym (==→eq j n same)) ∙ q)
  | inr other ↦ f j (ground arith) q
]
FirstWith-skip h hash n endless ne f = f

first_with-members :
    (h : ℕ → ℕ) (hash n : ℕ)
    → FirstWith h hash n (first_with h hash (members h (hash % sym_buckets) n))
unfolding first_with
first_with-members h hash zero = λ j p. elim p [ ]
first_with-members h hash (suc n) =
    let b = hash % sym_buckets in
    elim (Bool-cases (h n % sym_buckets == b)) [
      | inl e ↦
          rw (e, first_with-snoc h hash (members h b n) n)
            (FirstWith-step h hash n (first_with h hash (members h b n))
              (first_with-members h hash n))
      | inr e ↦ rw e (
          FirstWith-skip h hash n (first_with h hash (members h b n)) (λ q. ground arith)
            (first_with-members h hash n))
    ]

same_string→eq : (a b : List ℕ) → same_string a b ≡ true → a ≡ b
unfolding same_string
same_string→eq [] [] h = refl
same_string→eq [] (b ∷ bs) h = cc
same_string→eq (a ∷ as') [] h = cc
same_string→eq (a ∷ as') (b ∷ bs) h = ground (arith, same_string→eq as' bs)

module _ (string_hash : List ℕ → ℕ) (t : SymTable) (filed : IsFiled string_hash t.len t) where
  -- Where the strings are equal the hashes are, so the test is one of hashes.
  entry_matches-eq :
      (key : List ℕ) (i : ℕ)
      → i < t.len
      → entry_matches t (string_hash key) key i ≡ (hash_at t i == string_hash key)
  unfolding entry_matches
  entry_matches-eq key i p = elim (Bool-cases (same_string (get_or t.keys i []) key)) [
    | inl e ↦
        let q : hash_at t i ≡ string_hash key =
          filed.hashed i p ∙ ap string_hash (same_string→eq (get_or t.keys i []) key e) in
        rw (e, eq→== (hash_at t i) (string_hash key) q) refl
    | inr e ↦ rw e (ground arith)
  ]

  scan_chain-first_with :
      (fuel : ℕ) (key : List ℕ) (n : ℕ) (is : List ℕ)
      → length is < fuel
      → All (λ i. i < t.len) is
      → Walks t.chain n is
      → scan_chain fuel t (string_hash key) key n ≡ first_with (hash_at t) (string_hash key) is
  unfolding scan_chain first_with
  scan_chain-first_with zero key n is h a w = absurd (omega arith)
  scan_chain-first_with (suc f) key n [] h a w = rw (eq→== n size_max w) refl
  scan_chain-first_with (suc f) key n (i ∷ is) h a w =
      let rest = scan_chain-first_with f key (get_or t.chain i size_max) is (omega arith) a.1 w.3 in
      rw (w.0, ne→==-false i size_max (λ q. omega arith), entry_matches-eq key i a.0, rest) refl

  -- In a table with all its entries filed the lookup ends, and finds the first entry that has the
  -- name's hash; it finds nothing exactly when no entry has.
  pub key_get_item-FirstWith :
      (key : List ℕ)
      → FirstWith (hash_at t) (string_hash key) t.len (key_get_item string_hash t key)
  unfolding key_get_item
  key_get_item-FirstWith key =
      let hash = string_hash key in
      let b = hash % sym_buckets in
      let is = members (hash_at t) b t.len in
      elim (Bool-cases (t.len == 0)) [
        | inl e ↦ rw e (λ j p. absurd (omega (arith, ==→eq t.len 0 e)))
        | inr e ↦ rw e (
            subst (FirstWith (hash_at t) hash t.len)
              (sym (
                scan_chain-first_with (suc t.len) key (get_or t.buckets b size_max) is
                  (omega (arith, length-members (hash_at t) b t.len))
                  (members-All (hash_at t) b t.len) (filed.walks b (omega arith))))
              (first_with-members (hash_at t) hash t.len))
      ]

  FirstWith-found :
      (hash k : ℕ) (r : Search)
      → FirstWith (hash_at t) hash t.len r
      → k < t.len
      → hash_at t k ≡ hash
      → (i : ℕ) × (r ≡ found i) × (i ≤ k)
  FirstWith-found hash k (found i) f p q = (
    i,
    refl,
    elim (Bool-cases (ltb k i)) [
      | inl e ↦ absurd (f.2 k (ltb→lt k i e) q)
      | inr e ↦ ltb-false→le k i e
    ],
  )
  FirstWith-found hash k missing f p q = absurd (f k p q)
  FirstWith-found hash k endless f p q = absurd f

-- A name that stands in a table with all entries filed is found, at its own entry or at an earlier
-- one with its hash.
pub key_get_item_present :
    (string_hash : List ℕ → ℕ) (t : SymTable) (key : List ℕ) (k : ℕ)
    → IsFiled string_hash t.len t
    → k < t.len
    → get_or t.keys k [] ≡ key
    → (i : ℕ) × (key_get_item string_hash t key ≡ found i)
      × (i ≤ k)
      × (string_hash (get_or t.keys i []) ≡ string_hash key)
key_get_item_present string_hash t key k filed p named =
    let first = key_get_item-FirstWith string_hash t filed key in
    let own = filed.hashed k p ∙ ap string_hash named in
    let (i, e, le) =
      FirstWith-found string_hash t filed (string_hash key) k (key_get_item string_hash t key) first
        p own in
    (
      i,
      e,
      le,
      sym (filed.hashed i (omega arith))
          ∙ (subst (FirstWith (hash_at t) (string_hash key) t.len) e first).1,
    )

-- Two names with one hash in a table with all entries filed: whatever the strings are, the later
-- entry is never found by its name, since the test takes the hash or the string.
pub key_get_item_shadowed :
    (string_hash : List ℕ → ℕ) (t : SymTable) (j k : ℕ)
    → IsFiled string_hash t.len t
    → j < k
    → k < t.len
    → string_hash (get_or t.keys j []) ≡ string_hash (get_or t.keys k [])
    → key_get_item string_hash t (get_or t.keys k []) ≢ found k
key_get_item_shadowed string_hash t j k filed lt p same e =
    let key = get_or t.keys k [] in
    let first =
      subst (FirstWith (hash_at t) (string_hash key) t.len) e
        (key_get_item-FirstWith string_hash t filed key) in
    first.2 j lt (filed.hashed j (omega arith) ∙ same)
