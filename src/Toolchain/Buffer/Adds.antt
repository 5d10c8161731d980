-- ===== src/Toolchain/Buffer/Adds.antt =====
-- Chains of insertions into a byte buffer of the Harbol library, as tagha_toolchain/instr_gen.h and
-- tagha_toolchain/module_gen.h make them.
use tagha.Base.{ℕ, ◌%◌, ◌^◌, ◌≡◌, sym, ap, ◌∙◌, List, [], ◌++◌}
use mathlib.Core.List.{append-nil, append_assoc}
use tagha.Toolchain.Buffer.{BufApi, le_bytes, le_bytes-mod}

module _ {B : Type 0} (api : BufApi B) where
  -- `b'` holds what `b` holds, and `bs` behind it.
  abbrev pub Adds : B → B → List ℕ → Type 0
  Adds b b' bs = api.table b' ≡ api.table b ++ bs

  pub Adds-nothing : (b : B) → Adds b b []
  Adds-nothing b = sym (append-nil (api.table b))

  pub Adds-then :
      (b b' b'' : B) (xs ys : List ℕ) → Adds b b' xs → Adds b' b'' ys → Adds b b'' (xs ++ ys)
  Adds-then b b' b'' xs ys p q = q ∙ ap (λ t. t ++ ys) p ∙ append_assoc (api.table b) xs ys

  pub Adds-last : (b b' : B) (xs : List ℕ) → Adds b b' xs → Adds b b' (xs ++ [])
  Adds-last b b' xs p = p ∙ ap (λ t. api.table b ++ t) (sym (append-nil xs))

  -- A number that is cut to the width of its bytes before it is written.
  pub Adds-mod :
      (b b' : B) (n v : ℕ) → Adds b b' (le_bytes n (v % 256 ^ n)) → Adds b b' (le_bytes n v)
  Adds-mod b b' n v p = p ∙ ap (λ t. api.table b ++ t) (le_bytes-mod n v)
