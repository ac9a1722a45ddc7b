-- ===== src/Futures/PriceMap/Order.antt =====
-- The updates keep the keys in order.
use razortrade.Common.{◌≡◌, true, [], ◌∷◌, arith}
use razortrade.Decimal.{DecimalOps, IsOrdered, ◌<ᵈ◌}
use razortrade.Futures.PriceMap.{PriceMap, insert, remove, AllAbove, IsAscending}

module _ {D : Type 0} ⦃dec : DecimalOps D⦄ (laws : IsOrdered D) where
  AllAbove-trans : (a b : D) (m : PriceMap D) → (a <ᵈ b) ≡ true → AllAbove b m → AllAbove a m
  AllAbove-trans a b [] h above = tt
  AllAbove-trans a b ((j, w) ∷ m) h above =
      (laws.lt_trans a b j h above.0, AllAbove-trans a b m h above.1)

  AllAbove-insert :
      (a k v : D) (m : PriceMap D) → (a <ᵈ k) ≡ true → AllAbove a m → AllAbove a (insert k v m)
  unfolding insert
  AllAbove-insert a k v [] h above = (h, tt)
  AllAbove-insert a k v ((j, w) ∷ m) h above = ground (arith, AllAbove-insert a k v m h above.1)

  pub insert-IsAscending : (k v : D) (m : PriceMap D) → IsAscending m → IsAscending (insert k v m)
  unfolding insert
  insert-IsAscending k v [] s = (tt, tt)
  insert-IsAscending k v ((j, w) ∷ m) s =
      ground (arith, insert-IsAscending k v m s.1, AllAbove-trans k j m, AllAbove-insert j k v m)

  AllAbove-remove : (a k : D) (m : PriceMap D) → AllAbove a m → AllAbove a (remove k m)
  unfolding remove
  AllAbove-remove a k [] above = tt
  AllAbove-remove a k ((j, w) ∷ m) above = ground (arith, AllAbove-remove a k m above.1)

  pub remove-IsAscending : (k : D) (m : PriceMap D) → IsAscending m → IsAscending (remove k m)
  unfolding remove
  remove-IsAscending k [] s = tt
  remove-IsAscending k ((j, w) ∷ m) s =
      ground (arith, remove-IsAscending k m s.1, AllAbove-remove j k m s.0)
