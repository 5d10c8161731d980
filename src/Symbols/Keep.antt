-- ===== src/Symbols/Keep.antt =====
-- Reading one more entry keeps a symbol table of tagha/tagha.c filed.
use tagha.Base.{
  ℕ, suc, ◌%◌, ◌<◌, ◌≡◌, ◌∙◌, refl, arith, List, [], get_or, set, length, Bool-cases, inl, inr,
  ◌==◌, ==→eq, sym, subst, ap,
}
use tagha.State.{SymTable, size_max}
use tagha.Symbols.{sym_buckets, link_index, add_symbol}
use tagha.Symbols.Walk.{Walks, get_or-set_ne, get_or-set_self, length-set}
use tagha.Symbols.Build.{members, members-agree}
use tagha.Symbols.Filed.{hash_at, IsFiled, link_walks, link_fresh}

-- `link_index` changes the buckets and the chain only, and not their lengths.
pub link_index-rest :
    (hash i : ℕ) (t : SymTable)
    → ((link_index hash i t).len ≡ t.len)
      × ((link_index hash i t).hashes ≡ t.hashes)
      × ((link_index hash i t).keys ≡ t.keys)
      × ((link_index hash i t).table ≡ t.table)
      × (length (link_index hash i t).buckets ≡ length t.buckets)
      × (length (link_index hash i t).chain ≡ length t.chain)
unfolding link_index
link_index-rest hash i t =
    elim (Bool-cases (get_or t.buckets (hash % sym_buckets) size_max == size_max)) [
      | inl e ↦ rw e (refl, refl, refl, refl, length-set t.buckets (hash % sym_buckets) i, refl)
      | inr e ↦ rw e (refl, refl, refl, refl, refl, length-set t.chain _ i)
    ]

-- Reading entry `n` of a table, with name `key`, files it beside the `n` before it.
pub add_symbol-IsFiled :
    (string_hash : List ℕ → ℕ) (key : List ℕ) (size n : ℕ) (t : SymTable)
    → IsFiled string_hash n t
    → n < t.len
    → IsFiled string_hash (suc n) (add_symbol string_hash key size n t)
unfolding add_symbol
add_symbol-IsFiled string_hash key size n t f low =
    let hash = string_hash key in
    let t1 = record t {
      bytes = set t.bytes n size;
      keys = set t.keys n key;
      hashes = set t.hashes n hash;
    } in
    let (len, hs, ks, tb, bl, cl) = link_index-rest hash n t1 in
    let own : hash_at t1 n ≡ hash =
      get_or-set_self t.hashes n hash 0 (omega (arith, f.hashes_len)) in
    let old = λ (i : ℕ) (p : i < n). get_or-set_ne t.hashes n i hash 0 (λ q. omega arith) in
    let walks1 = λ (b : ℕ) (lt : b < sym_buckets).
      subst (λ is. Walks t.chain (get_or t.buckets b size_max) is)
        (sym (members-agree (hash_at t1) (hash_at t) b n old)) (f.walks b lt) in
    record {
      in_range = omega (arith, len);
      small = omega (arith, len, f.small);
      buckets_len = bl ∙ f.buckets_len;
      chain_len = omega (arith, len, cl, f.chain_len);
      hashes_len = rw (hs, len) (length-set t.hashes n hash ∙ f.hashes_len);
      keys_len = rw (ks, len) (length-set t.keys n key ∙ f.keys_len);
      walks = λ b lt.
          subst
            (λ is.
              Walks (link_index hash n t1).chain (get_or (link_index hash n t1).buckets b size_max)
                is)
            (sym (
              members-agree (hash_at (link_index hash n t1)) (hash_at t1) b (suc n)
                (λ i p. ap (λ (l : List ℕ). get_or l i 0) hs)))
            (subst
              (λ v.
                Walks (link_index v n t1).chain (get_or (link_index v n t1).buckets b size_max)
                  (members (hash_at t1) b (suc n)))
              own
              (link_walks (hash_at t1) n t1 low f.small f.buckets_len f.chain_len walks1 f.fresh b
                lt));
      fresh = λ i p q.
          subst (λ v. get_or (link_index v n t1).chain i size_max ≡ size_max) own
            (link_fresh (hash_at t1) n t1 low f.small f.buckets_len f.chain_len walks1 f.fresh i
              (omega arith) (omega (arith, len)));
      hashed = λ i p.
          rw (hs, ks)
            (elim (Bool-cases (i == n)) [
              | inl e ↦
                  subst (λ j. get_or t1.hashes j 0 ≡ string_hash (get_or t1.keys j []))
                    (sym (==→eq i n e))
                    (own
                      ∙ ap string_hash
                          (sym (get_or-set_self t.keys n key [] (omega (arith, f.keys_len)))))
              | inr e ↦
                  let lt : i < n = ground arith in
                  old i lt
                  ∙ f.hashed i lt
                  ∙ ap string_hash (sym (get_or-set_ne t.keys n i key [] (λ q. omega arith)))
            ]);
    }

pub len-add_symbol :
    (string_hash : List ℕ → ℕ) (key : List ℕ) (size n : ℕ) (t : SymTable)
    → (add_symbol string_hash key size n t).len ≡ t.len
unfolding add_symbol
len-add_symbol string_hash key size n t = (link_index-rest (string_hash key) n _).0
