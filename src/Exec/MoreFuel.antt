-- ===== src/Exec/MoreFuel.antt =====
-- Fuel and results of the loop of tagha/tagha.c: a run that ends does so with more fuel too.
use tagha.Base.{◌≡◌, ◌⊎◌, Option, none, some, List, [], ◌∷◌}
use tagha.Mem.{Mem}
use tagha.Machine.{Machine, Outcome, Handler, undefined, timeout, Run, out_of_fuel}

-- The second outcome is the first, unless the first is out of fuel.
abbrev Grows : Outcome → Outcome → Type 0
Grows o o' = (o ≡ timeout) ⊎ (o' ≡ o)

abbrev pub RunGrows : Run → Run → Type 0
RunGrows r r' = (r ≡ out_of_fuel) ⊎ (r' ≡ r)

abbrev HandlerGrows : Handler → Handler → Type 0
HandlerGrows h h' = (s : Machine) → Grows (h s) (h' s)

-- Two lists of handlers, one by one.
abbrev ListGrows : List Handler → List Handler → Type 0
ListGrows [] [] = Unit
ListGrows [] (h' ∷ hs') = ⊥
ListGrows (h ∷ hs) [] = ⊥
ListGrows (h ∷ hs) (h' ∷ hs') = HandlerGrows h h' × ListGrows hs hs'

abbrev GroupsGrow : List (List Handler) → List (List Handler) → Type 0
GroupsGrow [] [] = Unit
GroupsGrow [] (hs' ∷ hss') = ⊥
GroupsGrow (hs ∷ hss) [] = ⊥
GroupsGrow (hs ∷ hss) (hs' ∷ hss') = ListGrows hs hs' × GroupsGrow hss hss'

-- The outcome of the handler at an index, as `step` takes it.
run_at : Option Handler → Machine → Outcome
run_at none s = undefined
run_at (some h) s = h s
