-- ===== src/Symbols/Build.antt =====
-- Filing the entries of a symbol table one by one (tagha/tagha.c): after `n` of them every bucket's
-- chain leads through the entries of that bucket, in their order.
use tagha.Base.{
  ℕ, zero, suc, ◌%◌, ◌<◌, ◌≤◌, ◌≡◌, refl, ap, arith, List, [], ◌∷◌, ◌++◌, length, All, Bool-cases,
  inl, inr, ◌==◌, if◌then◌else◌,
}
use tagha.Symbols.{sym_buckets}
use tagha.Symbols.Walk.{Rises, Rises-snoc, last_of}

-- The indices below `n` whose hash falls into bucket `b`, in their order.
abbrev pub members : (ℕ → ℕ) → ℕ → ℕ → List ℕ
members h b zero = []
members h b (suc n) = if h n % sym_buckets == b then members h b n ++ n ∷ [] else members h b n

abbrev pub Ascends : List ℕ → Type 0
Ascends [] = Unit
Ascends (i ∷ is) = Rises i is

All-snoc :
    (k v : ℕ) (is : List ℕ) → All (λ j. j < k) is → k ≤ v → All (λ j. j < suc v) (is ++ v ∷ [])
All-snoc k v [] h le = (omega arith, tt)
All-snoc k v (i ∷ is) h le = (omega arith, All-snoc k v is h.1 le)

All-lt_mono : (k v : ℕ) (is : List ℕ) → All (λ j. j < k) is → k ≤ v → All (λ j. j < v) is
All-lt_mono k v [] h le = tt
All-lt_mono k v (i ∷ is) h le = (omega arith, All-lt_mono k v is h.1 le)

pub last_of-lt : (k i : ℕ) (is : List ℕ) → All (λ j. j < k) (i ∷ is) → last_of i is < k
last_of-lt k i [] h = h.0
last_of-lt k i (j ∷ js) h = last_of-lt k j js h.1

Ascends-snoc : (is : List ℕ) (v : ℕ) → All (λ j. j < v) is → Ascends is → Ascends (is ++ v ∷ [])
Ascends-snoc [] v h a = tt
Ascends-snoc (i ∷ is) v h a = Rises-snoc i is v a (last_of-lt v i is h)

pub members-All : (h : ℕ → ℕ) (b n : ℕ) → All (λ j. j < n) (members h b n)
members-All h b zero = tt
members-All h b (suc n) = elim (Bool-cases (h n % sym_buckets == b)) [
  | inl e ↦ rw e (All-snoc n n (members h b n) (members-All h b n) (omega arith))
  | inr e ↦ rw e (All-lt_mono n (suc n) (members h b n) (members-All h b n) (omega arith))
]

pub members-Ascends : (h : ℕ → ℕ) (b n : ℕ) → Ascends (members h b n)
members-Ascends h b zero = tt
members-Ascends h b (suc n) = elim (Bool-cases (h n % sym_buckets == b)) [
  | inl e ↦ rw e (Ascends-snoc (members h b n) n (members-All h b n) (members-Ascends h b n))
  | inr e ↦ rw e (members-Ascends h b n)
]

length-snoc : (is : List ℕ) (v : ℕ) → length (is ++ v ∷ []) ≡ suc (length is)
length-snoc [] v = refl
length-snoc (i ∷ is) v = ap suc (length-snoc is v)

pub length-members : (h : ℕ → ℕ) (b n : ℕ) → length (members h b n) ≤ n
length-members h b zero = omega arith
length-members h b (suc n) = elim (Bool-cases (h n % sym_buckets == b)) [
  | inl e ↦ rw e (omega (arith, length-snoc (members h b n) n, length-members h b n))
  | inr e ↦ rw e (omega (arith, length-members h b n))
]

-- Only the hashes below `n` matter.
pub members-agree :
    (h g : ℕ → ℕ) (b n : ℕ) → ((i : ℕ) → i < n → h i ≡ g i) → members h b n ≡ members g b n
members-agree h g b zero e = refl
members-agree h g b (suc n) e =
    let same = members-agree h g b n (λ i p. e i (omega arith)) in rw (e n (omega arith), same)
