-- ===== src/Api/Natives.antt =====
-- What linking C functions changes (tagha/tagha.c).
use tagha.Base.{
  ℕ, ◌+◌, ◌*◌, ◌^◌, ◌<◌, ◌≤◌, ◌≡◌, ◌⊎◌, ◌∙◌, refl, arith, List, [], ◌∷◌, Bool-cases, inl, inr, ◌==◌,
}
use tagha.Mem.{Mem, store}
use tagha.Mem.Laws.{Outside, store-Outside, load-store, load-store-Apart}
use tagha.State.{SymTable, Item, item_at, store_item, item_size, flag_native}
use tagha.Symbols.{Search, found, missing, endless, key_get_item}
use tagha.Symbols.Filed.{IsFiled, hash_at}
use tagha.Symbols.Find.{FirstWith, key_get_item-FirstWith}
use tagha.Api.{Native, item_addr, link_native, module_link_natives}

-- The items of the table lie in the address space.
abbrev pub TableFits : SymTable → Type 0
TableFits t = t.table + item_size * t.len < 2 ^ 64

-- The cell is no byte of the table's items.
abbrev pub OffTable : SymTable → ℕ → Type 0
OffTable t x = (x < t.table) ⊎ (t.table + item_size * t.len ≤ x)

store_item-off : (m : Mem) (p x : ℕ) (it : Item) → Outside 24 p x → store_item m p it x ≡ m x
unfolding store_item
store_item-off m p x it out =
    store-Outside 8 _ (p + 16) it.flags x (λ i q e. out (16 + i) (omega arith) (omega arith))
    ∙ store-Outside 8 _ (p + 8) it.owner x (λ i q e. out (8 + i) (omega arith) (omega arith))
    ∙ store-Outside 8 m p it.item x (λ i q e. out i (omega arith) (omega arith))

-- Reading an item back gives the item that was stored, where its fields fit in 64 bits.
pub item_at-store_item :
    (m : Mem) (p : ℕ) (it : Item)
    → it.item < 2 ^ 64
    → it.owner < 2 ^ 64
    → it.flags < 2 ^ 64
    → item_at (store_item m p it) p ≡ it
unfolding item_at store_item
item_at-store_item m p it hi ho hf =
    rw
      (
        load-store-Apart 8 (store 8 (store 8 m p it.item) (p + 8) it.owner) p 8 (p + 16) it.flags
            (λ i j a b e. omega arith),
        load-store-Apart 8 (store 8 m p it.item) p 8 (p + 8) it.owner (λ i j a b e. omega arith),
        load-store 8 m p it.item (omega arith) hi,
        load-store-Apart 8 (store 8 (store 8 m p it.item) (p + 8) it.owner) (p + 8) 8 (p + 16)
            it.flags (λ i j a b e. omega arith),
        load-store 8 (store 8 m p it.item) (p + 8) it.owner (omega arith) ho,
        load-store 8 (store 8 (store 8 m p it.item) (p + 8) it.owner) (p + 16) it.flags
            (omega arith) hf,
      )
      refl

module _ (string_hash : List ℕ → ℕ) (funcs : SymTable) (filed : IsFiled string_hash funcs.len funcs)
    (fits : TableFits funcs) where
  item-off : (i x : ℕ) → i < funcs.len → OffTable funcs x → Outside 24 (item_addr funcs i) x
  item-off i x p off j q e = omega (arith, off)

  link_native-off :
      (n : Native) (m : Mem) (x : ℕ) → OffTable funcs x → link_native string_hash funcs n m x ≡ m x
  unfolding link_native
  link_native-off n m x off =
      by_search (key_get_item string_hash funcs n.name) refl
        (key_get_item-FirstWith string_hash funcs filed n.name)
    where
      by_search :
          (r : Search)
          → key_get_item string_hash funcs n.name ≡ r
          → FirstWith (hash_at funcs) (string_hash n.name) funcs.len r
          → link_native string_hash funcs n m x ≡ m x
      by_search (found i) e first =
          elim (Bool-cases ((item_at m (item_addr funcs i)).flags == flag_native)) [
            | inl q ↦
                rw (e, link_native, q)
                  (store_item-off m (item_addr funcs i) x _ (item-off i x first.0 off))
            | inr q ↦ rw (e, link_native, q) refl
          ]
      by_search missing e first = rw (e, link_native) refl
      by_search endless e first = absurd first

  -- Linking C functions, however many and whatever their names, changes no cell outside the items
  -- of the module's function table, where all its entries are filed and its items lie in the
  -- address space.
  pub module_link_natives-off :
      (ns : List Native) (m : Mem) (x : ℕ)
      → OffTable funcs x
      → module_link_natives string_hash funcs ns m x ≡ m x
  unfolding module_link_natives
  module_link_natives-off [] m x off = refl
  module_link_natives-off (n ∷ ns) m x off =
      module_link_natives-off ns (link_native string_hash funcs n m) x off
      ∙ link_native-off n m x off
