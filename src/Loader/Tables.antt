-- ===== src/Loader/Tables.antt =====
-- The tables that loading a script fills (tagha/tagha.c) are filed, whatever the script holds.
use tagha.Base.{
  ℕ, zero, suc, ◌+◌, ◌<◌, ◌≡◌, refl, arith, List, [], get_or, length, replicate, subst,
}
use tagha.Mem.{Mem}
use tagha.State.{size_max}
use tagha.Symbols.{sym_buckets, empty_table}
use tagha.Symbols.Filed.{IsFiled}
use tagha.Symbols.Keep.{add_symbol-IsFiled, len-add_symbol}
use tagha.Loader.{Filling, setup_func, setup_var, fill_loop}

length-replicate {ℓ} : {A : Type ℓ} (n : ℕ) (a : A) → length (replicate n a) ≡ n
length-replicate zero a = refl
length-replicate (suc n) a = omega (arith, length-replicate n a)

get_or-replicate : (n i d : ℕ) → get_or (replicate n d) i d ≡ d
get_or-replicate zero i d = refl
get_or-replicate (suc n) zero d = refl
get_or-replicate (suc n) (suc i) d = get_or-replicate n i d

-- Before the first entry.
pub empty_table-IsFiled :
    (string_hash : List ℕ → ℕ) (table n : ℕ)
    → n < size_max
    → IsFiled string_hash 0 (empty_table table n)
unfolding empty_table
empty_table-IsFiled string_hash table n small = record {
  in_range = omega arith;
  small = small;
  buckets_len = refl;
  chain_len = length-replicate n size_max;
  hashes_len = length-replicate n 0;
  keys_len = length-replicate n [];
  walks = λ b lt. get_or-replicate sym_buckets b size_max;
  fresh = λ i p q. get_or-replicate n i size_max;
  hashed = λ i p. elim p [ ];
}

empty_table-len : (table n : ℕ) → (empty_table table n).len ≡ n
unfolding empty_table
empty_table-len table n = refl

-- `n` rounds from `i` on file `n` more entries, if each round files one.
fill_loop-IsFiled :
    (string_hash : List ℕ → ℕ) (body : ℕ → Filling → Filling) (n i len : ℕ) (st : Filling)
    → ((j : ℕ) (u : Filling)
        → IsFiled string_hash j u.syms
        → j < u.syms.len
        → IsFiled string_hash (suc j) (body j u).syms × ((body j u).syms.len ≡ u.syms.len))
    → i + n ≡ len
    → st.syms.len ≡ len
    → IsFiled string_hash i st.syms
    → IsFiled string_hash len (fill_loop body n i st).syms
      × ((fill_loop body n i st).syms.len ≡ len)
unfolding fill_loop
fill_loop-IsFiled string_hash body zero i len st step e l f =
    (subst (λ k. IsFiled string_hash k st.syms) (omega arith) f, l)
fill_loop-IsFiled string_hash body (suc n) i len st step e l f =
    let (f', l') = step i st f (omega arith) in
    fill_loop-IsFiled string_hash body n (i + 1) len (body i st) step (omega arith)
      (omega (arith, l')) (subst (λ k. IsFiled string_hash k (body i st).syms) (omega arith) f')

-- After the loop of `_setup_func_table` over `n` entries, fewer than SIZE_MAX, the table is filed
-- and has `n` entries, whatever the bytes of the script are.
pub setup_func-IsFiled :
    (string_hash : List ℕ → ℕ) (self n table iter : ℕ) (m : Mem)
    → n < size_max
    → IsFiled string_hash n
        (fill_loop
          (setup_func string_hash self)
          n
          0
          (record { syms = empty_table table n; mem = m; iter = iter })).syms
      × ((fill_loop
            (setup_func string_hash self)
            n
            0
            (record { syms = empty_table table n; mem = m; iter = iter })).syms.len
          ≡ n)
unfolding setup_func
setup_func-IsFiled string_hash self n table iter m small =
    fill_loop-IsFiled string_hash (setup_func string_hash self) n 0 n
      (record { syms = empty_table table n; mem = m; iter = iter })
      (λ j u f p.
        (add_symbol-IsFiled string_hash _ _ j u.syms f p, len-add_symbol string_hash _ _ j u.syms))
      (omega arith) (empty_table-len table n) (empty_table-IsFiled string_hash table n small)

-- After the loop of `_setup_var_table` over `n` entries, fewer than SIZE_MAX, the table is filed
-- and has `n` entries, whatever the bytes of the script are.
pub setup_var-IsFiled :
    (string_hash : List ℕ → ℕ) (self n table iter : ℕ) (m : Mem)
    → n < size_max
    → IsFiled string_hash n
        (fill_loop
          (setup_var string_hash self)
          n
          0
          (record { syms = empty_table table n; mem = m; iter = iter })).syms
      × ((fill_loop
            (setup_var string_hash self)
            n
            0
            (record { syms = empty_table table n; mem = m; iter = iter })).syms.len
          ≡ n)
unfolding setup_var
setup_var-IsFiled string_hash self n table iter m small =
    fill_loop-IsFiled string_hash (setup_var string_hash self) n 0 n
      (record { syms = empty_table table n; mem = m; iter = iter })
      (λ j u f p.
        (add_symbol-IsFiled string_hash _ _ j u.syms f p, len-add_symbol string_hash _ _ j u.syms))
      (omega arith) (empty_table-len table n) (empty_table-IsFiled string_hash table n small)
