-- ===== src/Symbols/Filed.antt =====
-- The invariant of the loops that fill a symbol table (tagha/tagha.c), and that each entry keeps it.
use tagha.Base.{
  ℕ, zero, suc, ◌%◌, ◌<◌, ◌≤◌, ◌≡◌, ◌≢◌, ◌⊎◌, ◌∙◌, refl, sym, ap, subst, arith, List, [], ◌∷◌, ◌++◌,
  get_or, set, length, All, true, false, Bool-cases, inl, inr, ◌==◌, ==→eq, ne→==-false, eq→==,
}
use tagha.State.{SymTable, size_max}
use tagha.Symbols.{sym_buckets, link_index, last_of_chain}
use tagha.Symbols.Walk.{
  Walks, Walks-set_ne, Walks-snoc, last_of, last_of_chain_lem, get_or-set_ne, get_or-set_self,
}
use tagha.Symbols.Build.{members, last_of-lt, members-All, members-Ascends, length-members}

abbrev pub hash_at : SymTable → ℕ → ℕ
hash_at t i = get_or t.hashes i 0

-- The first `n` entries are filed: each bucket's chain leads through its entries in order, the
-- other entries are in no chain, and the hashes are those of the names.
pub record IsFiled (string_hash : List ℕ → ℕ) (n : ℕ) (t : SymTable) : Type 0 where
  pub in_range : n ≤ t.len
  pub small : t.len < size_max
  pub buckets_len : length t.buckets ≡ sym_buckets
  pub chain_len : length t.chain ≡ t.len
  pub hashes_len : length t.hashes ≡ t.len
  pub keys_len : length t.keys ≡ t.len
  pub walks :
      (b : ℕ)
      → b < sym_buckets
      → Walks t.chain (get_or t.buckets b size_max) (members (hash_at t) b n)
  pub fresh : (i : ℕ) → n ≤ i → i < t.len → get_or t.chain i size_max ≡ size_max
  pub hashed : (i : ℕ) → i < n → hash_at t i ≡ string_hash (get_or t.keys i [])

last_of-All {ℓ} : (P : ℕ → Type ℓ) (i : ℕ) (is : List ℕ) → All P (i ∷ is) → P (last_of i is)
last_of-All P i [] h = h.0
last_of-All P i (j ∷ js) h = last_of-All P j js h.1

All-bucket_snoc :
    (h : ℕ → ℕ) (b n : ℕ) (is : List ℕ)
    → h n % sym_buckets ≡ b
    → All (λ j. h j % sym_buckets ≡ b) is
    → All (λ j. h j % sym_buckets ≡ b) (is ++ n ∷ [])
All-bucket_snoc h b n [] e a = (e, tt)
All-bucket_snoc h b n (i ∷ is) e a = (a.0, All-bucket_snoc h b n is e a.1)

members-bucket : (h : ℕ → ℕ) (b n : ℕ) → All (λ j. h j % sym_buckets ≡ b) (members h b n)
members-bucket h b zero = tt
members-bucket h b (suc n) = elim (Bool-cases (h n % sym_buckets == b)) [
  | inl e ↦ rw e (All-bucket_snoc h b n (members h b n) (==→eq _ _ e) (members-bucket h b n))
  | inr e ↦ rw e (members-bucket h b n)
]

All-ne :
    (h : ℕ → ℕ) (b v : ℕ) (is : List ℕ)
    → b ≢ h v % sym_buckets
    → All (λ j. h j % sym_buckets ≡ b) is
    → All (λ j. v ≢ j) is
All-ne h b v [] ne a = tt
All-ne h b v (i ∷ is) ne a =
    (λ e. ne (sym a.0 ∙ ap (λ j. h j % sym_buckets) (sym e)), All-ne h b v is ne a.1)

-- What linking entry `n` does to the walks, given its bucket.
module _ (h : ℕ → ℕ) (n : ℕ) (t : SymTable) (low : n < t.len) (small : t.len < size_max)
    (buckets_len : length t.buckets ≡ sym_buckets) (chain_len : length t.chain ≡ t.len)
    (walks : (b : ℕ)
      → b < sym_buckets
      → Walks t.chain (get_or t.buckets b size_max) (members h b n))
    (fresh : (i : ℕ) → n ≤ i → i < t.len → get_or t.chain i size_max ≡ size_max) where
  abbrev Linked : ℕ → SymTable → Type 0
  Linked b t' = Walks t'.chain (get_or t'.buckets b size_max) (members h b (suc n))

  abbrev own : ℕ
  own = h n % sym_buckets

  -- The entry opens its bucket, or it follows the last entry of the chain.
  abbrev LinkCase : Type 0
  LinkCase =
      ((members h own n ≡ []) × (link_index (h n) n t ≡ record t { buckets = set t.buckets own n }))
      ⊎ ((i : ℕ) × (is : List ℕ) × (members h own n ≡ i ∷ is)
          × (link_index (h n) n t ≡ record t { chain = set t.chain (last_of i is) n }))

  link_case : LinkCase
  unfolding link_index
  link_case = go (members h own n) refl (walks own (omega arith))
    where
      go :
          (is : List ℕ)
          → members h own n ≡ is
          → Walks t.chain (get_or t.buckets own size_max) is
          → LinkCase
      go [] e w = inl (e, rw (eq→== (get_or t.buckets own size_max) size_max w, link_index) refl)
      go (i ∷ is) e w =
          let short : length is < t.len =
            omega (arith, length-members h own n, ap (length {A = ℕ}) e) in
          let open_ : (get_or t.buckets own size_max == size_max) ≡ false =
            ne→==-false (get_or t.buckets own size_max) size_max (λ q. omega arith) in
          let last : last_of_chain t.len t.chain (get_or t.buckets own size_max) ≡ last_of i is =
            rw w.0 (last_of_chain_lem t.len t.chain i is short (refl, w.1, w.2, w.3)) in
          inr (i, is, e, rw (open_, last) refl)

  -- The chain of another bucket.
  link_other : (b : ℕ) → b < sym_buckets → b ≢ own → Linked b (link_index (h n) n t)
  link_other b lt ne =
      let stays : (own == b) ≡ false = ne→==-false own b (λ q. ne (sym q)) in
      elim link_case [
        | inl (e, link) ↦
            rw (link, stays, get_or-set_ne t.buckets own b n size_max (λ q. ne (sym q)))
              (walks b lt)
        | inr (i, is, e, link) ↦
            let last : h (last_of i is) % sym_buckets ≡ own =
              last_of-All (λ j. h j % sym_buckets ≡ own) i is (rw e at (members-bucket h own n)) in
            rw (link, stays)
              (Walks-set_ne t.chain (last_of i is) n (get_or t.buckets b size_max) (members h b n)
                (All-ne h b (last_of i is) (members h b n) (λ q. ne (q ∙ last))
                  (members-bucket h b n))
                (walks b lt))
      ]

  link_own : Linked own (link_index (h n) n t)
  link_own =
      let joins : (own == own) ≡ true = eq→== own own refl in
      elim link_case [
        | inl (e, link) ↦
            rw (link, joins, e)
              (
                get_or-set_self t.buckets own n size_max (omega arith),
                omega arith,
                omega arith,
                fresh n (omega arith) low,
              )
        | inr (i, is, e, link) ↦
            rw (link, joins, e)
              (Walks-snoc t.chain (get_or t.buckets own size_max) i is n
                (rw e at (walks own (omega arith))) (rw e at (members-Ascends h own n))
                (last_of-lt n i is (rw e at (members-All h own n))) (omega arith) (omega arith)
                (fresh n (omega arith) low))
      ]

  pub link_walks : (b : ℕ) → b < sym_buckets → Linked b (link_index (h n) n t)
  link_walks b lt = elim (Bool-cases (b == own)) [
    | inl e ↦ subst (λ c. Linked c (link_index (h n) n t)) (sym (==→eq b own e)) link_own
    | inr e ↦ link_other b lt (λ q. ground arith)
  ]

  -- The next entries stay out of every chain.
  pub link_fresh :
      (i : ℕ) → n < i → i < t.len → get_or (link_index (h n) n t).chain i size_max ≡ size_max
  link_fresh i lt fit = elim link_case [
    | inl (e, link) ↦ rw link (fresh i (omega arith) fit)
    | inr (j, js, e, link) ↦
        let last : last_of j js < n = last_of-lt n j js (rw e at (members-All h own n)) in
        rw (link, get_or-set_ne t.chain (last_of j js) i n size_max (λ q. omega arith))
          (fresh i (omega arith) fit)
  ]
