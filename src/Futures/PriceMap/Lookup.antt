-- ===== src/Futures/PriceMap/Lookup.antt =====
-- What a lookup finds after an update, for keys in order.
use razortrade.Common.{◌≡◌, false, none, some, [], ◌∷◌, arith, if◌then◌else◌}
use razortrade.Decimal.{DecimalOps, IsOrdered, ◌<ᵈ◌, ◌=ᵈ◌}
use razortrade.Futures.PriceMap.{PriceMap, insert, remove, get, AllAbove, IsAscending}

module _ {D : Type 0} ⦃dec : DecimalOps D⦄ (laws : IsOrdered D) where
  -- A key below all others is not found.
  get-AllAbove : (k : D) (m : PriceMap D) → AllAbove k m → get k m ≡ none
  unfolding get
  get-AllAbove k [] above = ground arith
  get-AllAbove k ((j, w) ∷ m) above = ground arith

  pub get-insert :
      (k l v : D) (m : PriceMap D)
      → IsAscending m
      → get l (insert k v m) ≡ (if k =ᵈ l then some v else get l m)
  unfolding get insert
  get-insert k l v [] s = ground arith
  get-insert k l v ((j, w) ∷ m) s = ground (
    arith,
    get-insert k l v m s.1,
    laws.lt_trans l k j,
    laws.lt_trans k j l,
    laws.lt_trans j k l,
    laws.lt_trans l j k,
    laws.lt_trans k l j,
    laws.lt_trans j l k,
    laws.le_trans k l j,
    laws.le_trans l k j,
    laws.le_trans j l k,
    laws.le_trans j k l,
    laws.le_trans l j k,
    laws.le_trans k j l,
  )

  AllAbove-le : (a b : D) (m : PriceMap D) → (b <ᵈ a) ≡ false → AllAbove b m → AllAbove a m
  AllAbove-le a b [] h above = tt
  AllAbove-le a b ((j, w) ∷ m) h above =
      (ground (arith, laws.le_trans j a b), AllAbove-le a b m h above.1)

  pub get-remove :
      (k l : D) (m : PriceMap D)
      → IsAscending m
      → get l (remove k m) ≡ (if k =ᵈ l then none else get l m)
  unfolding get remove
  get-remove k l [] s = ground arith
  get-remove k l ((j, w) ∷ m) s = ground (
    arith,
    get-remove k l m s.1,
    get-AllAbove l m,
    AllAbove-le l j m,
    laws.lt_trans l k j,
    laws.lt_trans k j l,
    laws.lt_trans j l k,
    laws.le_trans k l j,
    laws.le_trans l k j,
    laws.le_trans j l k,
    laws.le_trans j k l,
    laws.le_trans l j k,
    laws.le_trans k j l,
  )
