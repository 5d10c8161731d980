-- ===== src/Mem/Laws.antt =====
-- What a little-endian store changes, and what a load reads back.
use native.Mathlib.Nat.{pow-suc, mod-eq_of_lt, mod-add-div, div-div-eq-div-mul, mul_assoc}
use tagha.Base.{
  ℕ, zero, suc, ◌+◌, ◌*◌, ◌/◌, ◌%◌, ◌^◌, ◌≤◌, ◌<◌, ◌≡◌, ◌≢◌, refl, sym, ap, arith, ◌∙◌,
}
use tagha.Mem.{Mem, poke, load, store}

-- The `n` bytes from address `a` on do not meet the cell `x`.
abbrev pub Outside : ℕ → ℕ → ℕ → Type 0
Outside n a x = (i : ℕ) → i < n → x ≢ (a + i) % 2 ^ 64

pub Outside-tail : (n a x : ℕ) → Outside (suc n) a x → Outside n (a + 1) x
Outside-tail n a x out i h e = out (suc i) (omega arith) (omega arith)

pub poke-ne : (m : Mem) (a b x : ℕ) → x ≢ a % 2 ^ 64 → poke m a b x ≡ m x
unfolding poke
poke-ne m a b x h = ground arith

poke_self : (m : Mem) (a b : ℕ) → poke m a b (a % 2 ^ 64) ≡ b
unfolding poke
poke_self m a b = ground arith

-- A store changes no cell outside its bytes.
pub store-Outside : (n : ℕ) (m : Mem) (a v x : ℕ) → Outside n a x → store n m a v x ≡ m x
unfolding store
store-Outside zero m a v x out = refl
store-Outside (suc n) m a v x out =
    store-Outside n (poke m a (v % 256)) (a + 1) (v / 256) x (Outside-tail n a x out)
    ∙ poke-ne m a (v % 256) x (λ e. out 0 (omega arith) (omega arith))

-- A load depends only on its own cells.
pub load-agree :
    (n : ℕ) (m m' : Mem) (a : ℕ)
    → ((i : ℕ) → i < n → m' ((a + i) % 2 ^ 64) ≡ m ((a + i) % 2 ^ 64))
    → load n m' a ≡ load n m a
unfolding load
load-agree zero m m' a h = refl
load-agree (suc n) m m' a h =
    let first : m' (a % 2 ^ 64) ≡ m (a % 2 ^ 64) =
      let e : (a + 0) ≡ a = omega arith in rw e at (h 0 (omega arith)) in
    let rest : load n m' (a + 1) ≡ load n m (a + 1) =
      load-agree n m m' (a + 1)
        (λ i p. let e : a + 1 + i ≡ a + suc i = omega arith in rw e (h (suc i) (omega arith))) in
    rw (first, rest)

-- Two ranges of bytes that share no cell.
abbrev pub Apart : ℕ → ℕ → ℕ → ℕ → Type 0
Apart n a k b = (i j : ℕ) → i < n → j < k → (a + i) % 2 ^ 64 ≢ (b + j) % 2 ^ 64

pub load-store-Apart :
    (n : ℕ) (m : Mem) (a k b v : ℕ) → Apart n a k b → load n (store k m b v) a ≡ load n m a
load-store-Apart n m a k b v h =
    load-agree n m (store k m b v) a
      λ i p. store-Outside k m b v ((a + i) % 2 ^ 64) (λ j q. h i j p q)

-- The lowest byte of a number, and the rest of its low bytes.
pub mod-bytes : (p v : ℕ) → v % 256 + 256 * (v / 256 % p) ≡ v % (256 * p)
mod-bytes p v =
    let q : v / 256 / p ≡ v / (256 * p) = div-div-eq-div-mul v 256 p in
    let low : v / 256 % p + p * (v / (256 * p)) ≡ v / 256 = rw (sym q) (mod-add-div (v / 256) p) in
    let all : v % (256 * p) + 256 * (p * (v / (256 * p))) ≡ v =
      ap (λ k. v % (256 * p) + k) (sym (mul_assoc 256 p (v / (256 * p))))
      ∙ mod-add-div v (256 * p) in
    omega (arith, low, all)

-- Reading back up to 8 bytes gives the low bytes of the value that was stored.
pub load-store-mod : (n : ℕ) (m : Mem) (a v : ℕ) → n ≤ 8 → load n (store n m a v) a ≡ v % 256 ^ n
unfolding load store
load-store-mod zero m a v h = omega arith
load-store-mod (suc n) m a v h =
    let low : store n (poke m a (v % 256)) (a + 1) (v / 256) (a % 2 ^ 64) ≡ v % 256 =
      store-Outside n (poke m a (v % 256)) (a + 1) (v / 256) (a % 2 ^ 64) (λ i p e. omega arith)
      ∙ poke_self m a (v % 256) in
    let rest = load-store-mod n (poke m a (v % 256)) (a + 1) (v / 256) (omega arith) in
    let byte : v % 256 % 256 ≡ v % 256 = omega arith in
    rw (low, rest, byte) (mod-bytes (256 ^ n) v ∙ ap (λ k. v % k) (omega (arith, pow-suc 256 n)))

-- Reading back up to 8 bytes gives the value that was stored, where it fits in them, at every
-- address: accesses wrap around at the end of the address space.
pub load-store : (n : ℕ) (m : Mem) (a v : ℕ) → n ≤ 8 → v < 256 ^ n → load n (store n m a v) a ≡ v
load-store n m a v h b = load-store-mod n m a v h ∙ mod-eq_of_lt b

-- Every load is below the bound of its width.
pub load-lt : (n : ℕ) (m : Mem) (a : ℕ) → load n m a < 256 ^ n
unfolding load
load-lt zero m a = omega arith
load-lt (suc n) m a = omega (arith, load-lt n m (a + 1), pow-suc 256 n)
