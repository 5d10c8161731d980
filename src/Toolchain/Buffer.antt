-- ===== src/Toolchain/Buffer.antt =====
-- The byte buffers of the Harbol library that tagha_toolchain/instr_gen.h and
-- tagha_toolchain/module_gen.h write to, as an interface: the operations, and what the code relies on.
pub mod Adds
pub mod Fields
use tagha.Base.{
  ℕ, zero, suc, ◌+◌, ◌*◌, ◌/◌, ◌%◌, ◌^◌, ◌≡◌, refl, sym, ap, ◌∙◌, arith, List, [], ◌∷◌, ◌++◌,
  length, replicate,
}
use native.Mathlib.Nat.{pow-suc}
use tagha.Mem.Laws.{mod-bytes}
use tagha.Mem.{Mem, load}

-- The `n` low bytes of a number, the lowest first.
unfoldable pub le_bytes : ℕ → ℕ → List ℕ
le_bytes zero v = []
le_bytes (suc n) v = v % 256 ∷ le_bytes n (v / 256)

-- harbol_bytebuffer_create, _insert_byte, _insert_int16, _insert_int32, _insert_int64,
-- _insert_zeros, _insert_cstr, _append, _insert_obj and _clear on buffers of type `B`, with the bytes of an
-- object as a list; `table` reads the bytes that a buffer holds.
pub record BufApi (B : Type 0) : Type 0 where
  pub create : B
  pub table : B → List ℕ
  pub count : B → ℕ
  pub insert_byte : B → ℕ → B
  pub insert_int16 : B → ℕ → B
  pub insert_int32 : B → ℕ → B
  pub insert_int64 : B → ℕ → B
  pub insert_zeros : B → ℕ → B
  pub insert_cstr : B → List ℕ → B
  pub append : B → B → B
  pub insert_obj : B → List ℕ → B
  pub clear : B → B

-- What an insertion appends: numbers in little-endian order, strings with their NUL.
pub record IsBuf {B : Type 0} (api : BufApi B) : Type 0 where
  pub create_table : api.table api.create ≡ []
  pub count_table : (b : B) → api.count b ≡ length (api.table b)
  pub byte_table : (b : B) (v : ℕ) → api.table (api.insert_byte b v) ≡ api.table b ++ le_bytes 1 v
  pub int16_table : (b : B) (v : ℕ) → api.table (api.insert_int16 b v) ≡ api.table b ++ le_bytes 2 v
  pub int32_table : (b : B) (v : ℕ) → api.table (api.insert_int32 b v) ≡ api.table b ++ le_bytes 4 v
  pub int64_table : (b : B) (v : ℕ) → api.table (api.insert_int64 b v) ≡ api.table b ++ le_bytes 8 v
  pub zeros_table :
      (b : B) (n : ℕ) → api.table (api.insert_zeros b n) ≡ api.table b ++ replicate n 0
  pub cstr_table :
      (b : B) (s : List ℕ) → api.table (api.insert_cstr b s) ≡ api.table b ++ (s ++ 0 ∷ [])
  pub append_table : (b c : B) → api.table (api.append b c) ≡ api.table b ++ api.table c
  pub obj_table : (b : B) (o : List ℕ) → api.table (api.insert_obj b o) ≡ api.table b ++ o

pub length-le_bytes : (n v : ℕ) → length (le_bytes n v) ≡ n
unfolding le_bytes
length-le_bytes zero v = refl
length-le_bytes (suc n) v = omega (arith, length-le_bytes n (v / 256))

pub length-append : (xs ys : List ℕ) → length (xs ++ ys) ≡ length xs + length ys
length-append [] ys = omega arith
length-append (x ∷ xs) ys = omega (arith, length-append xs ys)

-- The bytes of a list stand in memory from an address on.
abbrev pub HoldsAt : Mem → ℕ → List ℕ → Type 0
HoldsAt m a [] = Unit
HoldsAt m a (b ∷ bs) = (m (a % 2 ^ 64) % 256 ≡ b) × HoldsAt m (a + 1) bs

pub HoldsAt-left : (m : Mem) (a : ℕ) (xs ys : List ℕ) → HoldsAt m a (xs ++ ys) → HoldsAt m a xs
HoldsAt-left m a [] ys h = tt
HoldsAt-left m a (x ∷ xs) ys h = (h.0, HoldsAt-left m (a + 1) xs ys h.1)

pub HoldsAt-right :
    (m : Mem) (a : ℕ) (xs ys : List ℕ) → HoldsAt m a (xs ++ ys) → HoldsAt m (a + length xs) ys
HoldsAt-right m a [] ys h = let e : a + 0 ≡ a = omega arith in rw e h
HoldsAt-right m a (x ∷ xs) ys h =
    let e : a + suc (length xs) ≡ a + 1 + length xs = omega arith in
    rw e (HoldsAt-right m (a + 1) xs ys h.1)

-- A load of the bytes of a number gives its low bytes.
pub load-le_bytes :
    (n : ℕ) (m : Mem) (a v : ℕ) → HoldsAt m a (le_bytes n v) → load n m a ≡ v % 256 ^ n
unfolding load le_bytes
load-le_bytes zero m a v h = omega arith
load-le_bytes (suc n) m a v h =
    let rest = load-le_bytes n m (a + 1) (v / 256) h.1 in
    rw (h.0, rest) (mod-bytes (256 ^ n) v ∙ ap (λ k. v % k) (omega (arith, pow-suc 256 n)))

-- Only the bytes that are written matter.
pub le_bytes-mod : (n v : ℕ) → le_bytes n (v % 256 ^ n) ≡ le_bytes n v
unfolding le_bytes
le_bytes-mod zero v = refl
le_bytes-mod (suc n) v =
    let e : v % 256 ^ suc n ≡ v % 256 + 256 * (v / 256 % 256 ^ n) =
      ap (λ k. v % k) (omega (arith, pow-suc 256 n)) ∙ sym (mod-bytes (256 ^ n) v) in
    let low : v % 256 ^ suc n % 256 ≡ v % 256 = omega (arith, e) in
    let high : v % 256 ^ suc n / 256 ≡ v / 256 % 256 ^ n = omega (arith, e) in
    rw (low, high) (ap (λ bs. v % 256 ∷ bs) (le_bytes-mod n (v / 256)))
