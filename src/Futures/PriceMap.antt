-- ===== src/Futures/PriceMap.antt =====
-- `BTreeMap<Decimal, Decimal>`: price and quantity, in ascending order of the price. Keys are
-- compared by their value.
pub mod Order
pub mod Lookup
use razortrade.Common.{◌≡◌, true, Option, none, some, List, [], ◌∷◌, if◌then◌else◌}
use razortrade.Decimal.{DecimalOps, ◌<ᵈ◌}

abbrev pub PriceMap : Type 0 → Type 0
PriceMap D = List (D × D)

module _ {D : Type 0} ⦃dec : DecimalOps D⦄ where
  -- A key that is there keeps its place and its digits.
  unfoldable pub insert : D → D → PriceMap D → PriceMap D
  insert k v [] = (k, v) ∷ []
  insert k v ((j, w) ∷ m) =
      if k <ᵈ j then (k, v) ∷ (j, w) ∷ m else if j <ᵈ k then (j, w) ∷ insert k v m else (j, v) ∷ m

  unfoldable pub remove : D → PriceMap D → PriceMap D
  remove k [] = []
  remove k ((j, w) ∷ m) = if k <ᵈ j then (j, w) ∷ m else if j <ᵈ k then (j, w) ∷ remove k m else m

  unfoldable pub get : D → PriceMap D → Option D
  get k [] = none
  get k ((j, w) ∷ m) = if k <ᵈ j then none else if j <ᵈ k then get k m else some w

  -- `first_key_value`.
  abbrev pub first : PriceMap D → Option (D × D)
  first [] = none
  first (e ∷ m) = some e

  -- `last_key_value`.
  abbrev pub last : PriceMap D → Option (D × D)
  last [] = none
  last (e ∷ []) = some e
  last (e ∷ f ∷ m) = last (f ∷ m)

  -- All keys lie above the bound.
  abbrev pub AllAbove : D → PriceMap D → Type 0
  AllAbove k [] = Unit
  AllAbove k ((j, w) ∷ m) = ((k <ᵈ j) ≡ true) × AllAbove k m

  abbrev pub IsAscending : PriceMap D → Type 0
  IsAscending [] = Unit
  IsAscending ((j, w) ∷ m) = AllAbove j m × IsAscending m
