-- ===== src/Toolchain/Buffer/Fields.antt =====
-- Numbers of given widths one behind the other, as the bytes that
-- tagha_toolchain/instr_gen.h and tagha_toolchain/module_gen.h write.
use tagha.Base.{ℕ, ◌+◌, ◌%◌, ◌^◌, ◌≡◌, refl, ap₂, ◌∙◌, List, [], ◌∷◌, ◌++◌, length}
use tagha.Mem.{Mem, load}
use tagha.Toolchain.Buffer.{
  le_bytes, length-le_bytes, length-append, HoldsAt, HoldsAt-left, HoldsAt-right, load-le_bytes,
}

-- The bytes of numbers, each with its width.
unfoldable pub field_bytes : List (ℕ × ℕ) → List ℕ
field_bytes [] = []
field_bytes ((n, v) ∷ fs) = le_bytes n v ++ field_bytes fs

-- How many bytes they take.
unfoldable pub fields_size : List (ℕ × ℕ) → ℕ
fields_size [] = 0
fields_size ((n, v) ∷ fs) = n + fields_size fs

pub length-field_bytes : (fs : List (ℕ × ℕ)) → length (field_bytes fs) ≡ fields_size fs
unfolding field_bytes fields_size
length-field_bytes [] = refl
length-field_bytes ((n, v) ∷ fs) =
    length-append (le_bytes n v) (field_bytes fs)
    ∙ ap₂ (λ a b. a + b) (length-le_bytes n v) (length-field_bytes fs)

-- The loads of consecutive fields from an address on.
abbrev pub Loads : Mem → ℕ → List (ℕ × ℕ) → Type 0
Loads m a [] = Unit
Loads m a ((n, v) ∷ fs) = (load n m a ≡ v % 256 ^ n) × Loads m (a + n) fs

pub HoldsAt-Loads :
    (m : Mem) (a : ℕ) (fs : List (ℕ × ℕ)) → HoldsAt m a (field_bytes fs) → Loads m a fs
unfolding field_bytes
HoldsAt-Loads m a [] h = tt
HoldsAt-Loads m a ((n, v) ∷ fs) h =
    let there = HoldsAt-right m a (le_bytes n v) (field_bytes fs) h in
    (
      load-le_bytes n m a v (HoldsAt-left m a (le_bytes n v) (field_bytes fs) h),
      HoldsAt-Loads m (a + n) fs (rw (length-le_bytes n v) at there),
    )
