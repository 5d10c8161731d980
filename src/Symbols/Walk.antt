-- ===== src/Symbols/Walk.antt =====
-- Chains of symbol table entries (tagha/tagha.c) as lists of indices.
use tagha.Base.{
  ap, ℕ, zero, suc, ◌<◌, ◌≤◌, ◌≡◌, ◌≢◌, ◌∙◌, refl, arith, List, [], ◌∷◌, ◌++◌, get_or, set, length,
  All, ne→==-false,
}
use tagha.State.{size_max}
use tagha.Symbols.{last_of_chain}

-- From `n` the chain leads through the indices of the list and ends at SIZE_MAX.
abbrev pub Walks : List ℕ → ℕ → List ℕ → Type 0
Walks chain n [] = n ≡ size_max
Walks chain n (i ∷ is) =
    (n ≡ i) × (i < size_max) × (i < length chain) × Walks chain (get_or chain i size_max) is

module _ {ℓ} {A : Type ℓ} where
  pub get_or-set_ne :
      (xs : List A) (i j : ℕ) (v d : A) → i ≢ j → get_or (set xs i v) j d ≡ get_or xs j d
  get_or-set_ne [] i j v d h = refl
  get_or-set_ne (x ∷ xs) zero zero v d h = absurd (h refl)
  get_or-set_ne (x ∷ xs) zero (suc j) v d h = refl
  get_or-set_ne (x ∷ xs) (suc i) zero v d h = refl
  get_or-set_ne (x ∷ xs) (suc i) (suc j) v d h = get_or-set_ne xs i j v d (λ e. h (ap suc e))

  pub get_or-set_self :
      (xs : List A) (i : ℕ) (v d : A) → i < length xs → get_or (set xs i v) i d ≡ v
  get_or-set_self [] i v d h = elim h [ ]
  get_or-set_self (x ∷ xs) zero v d h = refl
  get_or-set_self (x ∷ xs) (suc i) v d h = get_or-set_self xs i v d (omega arith)

  pub length-set : (xs : List A) (i : ℕ) (v : A) → length (set xs i v) ≡ length xs
  length-set [] i v = refl
  length-set (x ∷ xs) zero v = refl
  length-set (x ∷ xs) (suc i) v = ap suc (length-set xs i v)

-- A write to an entry that is not on the walk leaves it.
pub Walks-set_ne :
    (chain : List ℕ) (j v n : ℕ) (is : List ℕ)
    → All (λ i. j ≢ i) is
    → Walks chain n is
    → Walks (set chain j v) n is
Walks-set_ne chain j v n [] away w = w
Walks-set_ne chain j v n (i ∷ is) away w =
    let e = get_or-set_ne chain j i v size_max away.0 in
    (
      w.0,
      w.1,
      omega (arith, length-set {0} chain j v),
      rw e (Walks-set_ne chain j v (get_or chain i size_max) is away.1 w.3),
    )

-- The last index of a list that begins with `i`.
abbrev pub last_of : ℕ → List ℕ → ℕ
last_of i [] = i
last_of i (j ∷ js) = last_of j js

-- The loop to the end of a chain finds the last index of its walk.
pub last_of_chain_lem :
    (fuel : ℕ) (chain : List ℕ) (i : ℕ) (is : List ℕ)
    → length is < fuel
    → Walks chain i (i ∷ is)
    → last_of_chain fuel chain i ≡ last_of i is
unfolding last_of_chain
last_of_chain_lem zero chain i is h w = absurd (omega arith)
last_of_chain_lem (suc f) chain i [] h w = ground arith
last_of_chain_lem (suc f) chain i (j ∷ js) h w =
    rw (w.3.0, ne→==-false j size_max (λ e. omega arith))
      (last_of_chain_lem f chain j js (omega arith) (refl, w.3.1, w.3.2, w.3.3))

-- The list goes up from `i` on.
abbrev pub Rises : ℕ → List ℕ → Type 0
Rises i [] = Unit
Rises i (j ∷ js) = (i < j) × Rises j js

le-last_of : (i : ℕ) (is : List ℕ) → Rises i is → i ≤ last_of i is
le-last_of i [] r = omega arith
le-last_of i (j ∷ js) r = omega (arith, le-last_of j js r.1)

pub Rises-All : (i : ℕ) (is : List ℕ) (k : ℕ) → k ≤ i → Rises i is → All (λ j. k < j) is
Rises-All i [] k h r = tt
Rises-All i (j ∷ js) k h r = (omega arith, Rises-All j js k (omega arith) r.1)

pub Rises-snoc :
    (i : ℕ) (is : List ℕ) (v : ℕ) → Rises i is → last_of i is < v → Rises i (is ++ v ∷ [])
Rises-snoc i [] v r h = (h, tt)
Rises-snoc i (j ∷ js) v r h = (r.0, Rises-snoc j js v r.1 h)

-- Linking a fresh index to the last one of a walk makes it the walk's new end.
pub Walks-snoc :
    (chain : List ℕ) (n i : ℕ) (is : List ℕ) (v : ℕ)
    → Walks chain n (i ∷ is)
    → Rises i is
    → last_of i is < v
    → v < size_max
    → v < length chain
    → get_or chain v size_max ≡ size_max
    → Walks (set chain (last_of i is) v) n (i ∷ is ++ v ∷ [])
Walks-snoc chain n i [] v w r h fit low fresh =
    let len = length-set {0} chain i v in
    (
      w.0,
      w.1,
      omega (arith, len),
      (
        get_or-set_self chain i v size_max w.2,
        fit,
        omega (arith, len),
        get_or-set_ne chain i v v size_max (λ e. omega arith) ∙ fresh,
      ),
    )
Walks-snoc chain n i (j ∷ js) v w r h fit low fresh =
    let last = last_of j js in
    let len = length-set {0} chain last v in
    let same : get_or (set chain last v) i size_max ≡ get_or chain i size_max =
      get_or-set_ne chain last i v size_max (λ e. omega (arith, le-last_of j js r.1)) in
    (
      w.0,
      w.1,
      omega (arith, len),
      rw same (Walks-snoc chain (get_or chain i size_max) j js v w.3 r.1 h fit low fresh),
    )
