-- ===== src/Examples/Bytes.antt =====
-- Memories that hold given bytes, for the examples about the toolchain (tagha_toolchain).
use tagha.Base.{
  ℕ, ◌+◌, ◌-◌, ◌%◌, ◌^◌, ◌<◌, ◌≡◌, refl, subst, ◌∙◌, arith, Bool, true, false, List, [], ◌∷◌, ◌++◌,
  length, get_or, ltb, if◌then◌else◌, lt→ltb, le→ltb-false,
}
use mathlib.Core.List.{append_assoc}
use tagha.Mem.{Mem}
use tagha.Toolchain.Buffer.{HoldsAt, length-append}
use tagha.Examples.Fixtures.{with_bytes}

abbrev pub are_bytes : List ℕ → Bool
are_bytes [] = true
are_bytes (b ∷ bs) = if ltb b 256 then are_bytes bs else false

get_or-append : (pre : List ℕ) (b : ℕ) (bs : List ℕ) → get_or (pre ++ b ∷ bs) (length pre) 0 ≡ b
get_or-append [] b bs = refl
get_or-append (x ∷ pre) b bs = get_or-append pre b bs

with_bytes-inside :
    (base i : ℕ) (bs : List ℕ) (m : Mem)
    → i < length bs
    → base + length bs < 2 ^ 64
    → with_bytes base bs m ((base + i) % 2 ^ 64) ≡ get_or bs i 0
with_bytes-inside base i bs m lt room =
    let same : (base + i) % 2 ^ 64 ≡ base + i = omega arith in
    let low = le→ltb-false (base + i) base (omega arith) in
    let high = lt→ltb (base + i) (base + length bs) (omega arith) in
    let index : base + i - base ≡ i = omega arith in rw (same, low, high, index) refl

head_byte : (b : ℕ) (bs : List ℕ) → are_bytes (b ∷ bs) ≡ true → b < 256
head_byte b bs h = ground arith

tail_bytes : (b : ℕ) (bs : List ℕ) → are_bytes (b ∷ bs) ≡ true → are_bytes bs ≡ true
tail_bytes b bs h = ground arith

holds_rest :
    (base a : ℕ) (pre bs : List ℕ) (m : Mem)
    → a ≡ base + length pre
    → are_bytes bs ≡ true
    → base + length (pre ++ bs) < 2 ^ 64
    → HoldsAt (with_bytes base (pre ++ bs) m) a bs
holds_rest base a pre [] m e small room = tt
holds_rest base a pre (b ∷ bs) m e small room =
    let len = length-append pre (b ∷ bs) in
    let here : with_bytes base (pre ++ b ∷ bs) m (a % 2 ^ 64) ≡ b = rw e (
      with_bytes-inside base (length pre) (pre ++ b ∷ bs) m (omega (arith, len)) room
      ∙ get_or-append pre b bs) in
    let lt = head_byte b bs small in
    let split : (pre ++ b ∷ []) ++ bs ≡ pre ++ b ∷ bs = append_assoc pre (b ∷ []) bs in
    let len' = length-append pre (b ∷ []) in
    (
      omega (arith, here, lt),
      subst (λ all. HoldsAt (with_bytes base all m) (a + 1) bs) split
          (holds_rest base (a + 1) (pre ++ b ∷ []) bs m (omega (arith, len'))
            (tail_bytes b bs small) (rw split room)),
    )

-- The memory holds the bytes that were put there.
pub with_bytes-HoldsAt :
    (base : ℕ) (bs : List ℕ) (m : Mem)
    → are_bytes bs ≡ true
    → base + length bs < 2 ^ 64
    → HoldsAt (with_bytes base bs m) base bs
with_bytes-HoldsAt base bs m small room = holds_rest base base [] bs m (omega arith) small room
