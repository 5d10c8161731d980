-- ===== src/Toolchain/ModuleGen/Reads.antt =====
-- Reading an entry that tagha_toolchain/module_gen.h wrote: its numbers, its name, and what follows.
use tagha.Base.{
  ℕ, zero, suc, ◌+◌, ◌-◌, ◌%◌, ◌^◌, ◌<◌, ◌≤◌, ◌≡◌, ◌≢◌, refl, sym, ap₂, ◌∙◌, arith, List, [], ◌∷◌,
  ◌++◌, length, replicate, All, eq→==, ne→==-false,
}
use tagha.Mem.{Mem, load}
use tagha.Loader.{entry_at, cstring}
use tagha.Toolchain.Buffer.{HoldsAt, HoldsAt-left, HoldsAt-right, length-append}
use tagha.Toolchain.Buffer.Fields.{field_bytes, fields_size, length-field_bytes, HoldsAt-Loads}
use tagha.Toolchain.ModuleGen.Entries.{entry_bytes, padded}

-- The characters of a C string.
abbrev pub IsCstring : List ℕ → Type 0
IsCstring name = All (λ c. c ≢ 0) name

load_byte : (m : Mem) (a b : ℕ) → m (a % 2 ^ 64) % 256 ≡ b → load 1 m a ≡ b
unfolding load
load_byte m a b h = omega (arith, h)

pub cstring-HoldsAt :
    (n : ℕ) (m : Mem) (p : ℕ) (name rest : List ℕ)
    → IsCstring name
    → length name < n
    → HoldsAt m p (name ++ 0 ∷ rest)
    → cstring n m p ≡ name
unfolding cstring
cstring-HoldsAt zero m p name rest c lt h = absurd (omega arith)
cstring-HoldsAt (suc n) m p [] rest c lt h =
    let here = eq→== (load 1 m p) 0 (load_byte m p 0 h.0) in rw (cstring, here) refl
cstring-HoldsAt (suc n) m p (x ∷ name) rest c lt h =
    let this = load_byte m p x h.0 in
    let more = ne→==-false (load 1 m p) 0 (λ z. c.0 (sym this ∙ z)) in
    let tail = cstring-HoldsAt n m (p + 1) name rest c.1 (omega arith) h.1 in
    rw (cstring, more) (ap₂ (λ b bs. b ∷ bs) this tail)

pub length-replicate : (n : ℕ) → length {A = ℕ} (replicate n 0) ≡ n
length-replicate zero = refl
length-replicate (suc n) = omega (arith, length-replicate n)

module _ (m : Mem) (p size flags name_len data_len : ℕ) (name rest : List ℕ)
    (held : HoldsAt m p (entry_bytes size flags name_len data_len name rest)) where
  abbrev numbers : List (ℕ × ℕ)
  numbers = (4, size) ∷ (4, flags) ∷ (4, name_len) ∷ (4, data_len) ∷ []

  pub entry_at-entry_bytes :
      flags < 2 ^ 32
      → name_len < 2 ^ 32
      → data_len < 2 ^ 32
      → entry_at m p ≡ record { flags = flags; name_len = name_len; data_len = data_len }
  unfolding entry_at entry_bytes
  entry_at-entry_bytes f n d =
      let loads = HoldsAt-Loads m p numbers (HoldsAt-left m p (field_bytes numbers) _ held) in
      let p8 : p + 4 + 4 ≡ p + 8 = omega arith in
      let p12 : p + 4 + 4 + 4 ≡ p + 12 = omega arith in
      let second : load 4 m (p + 4) ≡ flags = omega (arith, loads.1.0) in
      let third : load 4 m (p + 8) ≡ name_len = rw (sym p8) (omega (arith, loads.1.1.0)) in
      let fourth : load 4 m (p + 12) ≡ data_len = rw (sym p12) (omega (arith, loads.1.1.1.0)) in
      rw (second, third, fourth) refl

  after_numbers :
      HoldsAt m (p + 16) ((name ++ 0 ∷ []) ++ (replicate (name_len - suc (length name)) 0 ++ rest))
  unfolding entry_bytes fields_size
  after_numbers =
      let sixteen : length (field_bytes numbers) ≡ 16 = length-field_bytes numbers in
      rw sixteen at (HoldsAt-right m p (field_bytes numbers) _ held)

  pub cstring-entry_bytes :
      IsCstring name → length name < 2 ^ 64 → cstring (2 ^ 64) m (p + 16) ≡ name
  cstring-entry_bytes c lt =
      let tail = replicate (name_len - suc (length name)) 0 ++ rest in
      cstring-HoldsAt (2 ^ 64) m (p + 16) name [] c lt
        (HoldsAt-left m (p + 16) (name ++ 0 ∷ []) tail after_numbers)

  pub rest-entry_bytes : suc (length name) ≤ name_len → HoldsAt m (p + 16 + name_len) rest
  rest-entry_bytes le =
      let pad = replicate (name_len - suc (length name)) 0 in
      let behind = HoldsAt-right m (p + 16) (name ++ 0 ∷ []) (pad ++ rest) after_numbers in
      let place : p + 16 + length (name ++ 0 ∷ []) + length pad ≡ p + 16 + name_len =
        omega
          (arith, length-append name (0 ∷ []), length-replicate (name_len - suc (length name))) in
      rw place at (HoldsAt-right m (p + 16 + length (name ++ 0 ∷ [])) pad rest behind)

pub length-entry_bytes :
    (size flags name_len data_len : ℕ) (name rest : List ℕ)
    → suc (length name) ≤ name_len
    → length (entry_bytes size flags name_len data_len name rest) ≡ 16 + name_len + length rest
unfolding entry_bytes fields_size
length-entry_bytes size flags name_len data_len name rest le =
    let numbers : List (ℕ × ℕ) = (4, size) ∷ (4, flags) ∷ (4, name_len) ∷ (4, data_len) ∷ [] in
    let pad : List ℕ = replicate (name_len - suc (length name)) 0 in
    omega (
      arith,
      length-append (field_bytes numbers) ((name ++ 0 ∷ []) ++ (pad ++ rest)),
      length-field_bytes numbers,
      length-append (name ++ 0 ∷ []) (pad ++ rest),
      length-append name (0 ∷ []),
      length-append pad rest,
      length-replicate (name_len - suc (length name)),
    )

pub length-padded : (len : ℕ) (code : List ℕ) → length code ≤ len → length (padded len code) ≡ len
length-padded len code le = omega (
  arith,
  length-append code (replicate (len - length code) 0),
  length-replicate (len - length code),
)
