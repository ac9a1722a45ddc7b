-- ===== src/Futures/OpenOrders/Lookup.antt =====
-- What the store of open orders answers after each message.
use razortrade.Common.{
  ◌≡◌, refl, false, Option, none, some, List, [], ◌∷◌, String, str_eq, str_eq_iff, if◌then◌else◌,
  arith,
}
use razortrade.Futures.Messages.{OpenOrderVerboseEntry, OpenOrdersUpdateMessage}
use razortrade.Futures.OpenOrders.{
  OrderMap, OpenOrdersState, remove_order, insert_order, get_order, insert_all, cancelled_id,
  cancel_order, place_order, apply_snapshot, apply_update, get,
}

module _ {D : Type 0} where
  abbrev pub IsAbsent : String → OrderMap D → Type 0
  IsAbsent k [] = Unit
  IsAbsent k ((j, o) ∷ m) = (str_eq k j ≡ false) × IsAbsent k m

  -- The keys are distinct.
  abbrev pub IsKeyed : OrderMap D → Type 0
  IsKeyed [] = Unit
  IsKeyed ((j, o) ∷ m) = IsAbsent j m × IsKeyed m

  get-IsAbsent : (k : String) (m : OrderMap D) → IsAbsent k m → get_order k m ≡ none
  unfolding get_order
  get-IsAbsent k [] h = refl
  get-IsAbsent k ((j, o) ∷ m) h = ground (arith, get-IsAbsent k m h.1)

  pub get-insert_order :
      (k l : String) (o : OpenOrderVerboseEntry D) (m : OrderMap D)
      → get_order l (insert_order k o m) ≡ (if str_eq l k then some o else get_order l m)
  unfolding get_order insert_order
  get-insert_order k l o [] = refl
  get-insert_order k l o ((j, p) ∷ m) =
      ground (arith, get-insert_order k l o m, str_eq_iff l j, str_eq_iff k j, str_eq_iff l k)

  get-remove_order :
      (k l : String) (m : OrderMap D)
      → IsKeyed m
      → get_order l (remove_order k m) ≡ (if str_eq l k then none else get_order l m)
  unfolding get_order remove_order
  get-remove_order k l [] h = ground arith
  get-remove_order k l ((j, p) ∷ m) h = ground (
    arith,
    get-remove_order k l m h.1,
    get-IsAbsent j m h.0,
    str_eq_iff l j,
    str_eq_iff k j,
    str_eq_iff l k,
  )

  insert-IsAbsent :
      (i k : String) (o : OpenOrderVerboseEntry D) (m : OrderMap D)
      → str_eq i k ≡ false
      → IsAbsent i m
      → IsAbsent i (insert_order k o m)
  unfolding insert_order
  insert-IsAbsent i k o [] ne h = (ne, tt)
  insert-IsAbsent i k o ((j, p) ∷ m) ne h = ground (arith, insert-IsAbsent i k o m ne h.1)

  insert-IsKeyed :
      (k : String) (o : OpenOrderVerboseEntry D) (m : OrderMap D)
      → IsKeyed m
      → IsKeyed (insert_order k o m)
  unfolding insert_order
  insert-IsKeyed k o [] h = (tt, tt)
  insert-IsKeyed k o ((j, p) ∷ m) h =
      ground
        (arith, insert-IsKeyed k o m h.1, insert-IsAbsent j k o m, str_eq_iff k j, str_eq_iff j k)

  remove-IsAbsent : (i k : String) (m : OrderMap D) → IsAbsent i m → IsAbsent i (remove_order k m)
  unfolding remove_order
  remove-IsAbsent i k [] h = tt
  remove-IsAbsent i k ((j, p) ∷ m) h = ground (arith, remove-IsAbsent i k m h.1)

  remove-IsKeyed : (k : String) (m : OrderMap D) → IsKeyed m → IsKeyed (remove_order k m)
  unfolding remove_order
  remove-IsKeyed k [] h = tt
  remove-IsKeyed k ((j, p) ∷ m) h =
      ground (arith, remove-IsKeyed k m h.1, remove-IsAbsent j k m h.0)

  pub insert_all-IsKeyed :
      (os : List (OpenOrderVerboseEntry D)) (m : OrderMap D) → IsKeyed m → IsKeyed (insert_all os m)
  unfolding insert_all
  insert_all-IsKeyed [] m h = h
  insert_all-IsKeyed (o ∷ os) m h =
      insert_all-IsKeyed os (insert_order o.order_id o m) (insert-IsKeyed o.order_id o m h)

  cancel-IsKeyed : (c : Option String) (m : OrderMap D) → IsKeyed m → IsKeyed (cancel_order c m)
  unfolding cancel_order
  cancel-IsKeyed none m h = h
  cancel-IsKeyed (some k) m h = remove-IsKeyed k m h

  place-IsKeyed :
      (o : Option (OpenOrderVerboseEntry D)) (m : OrderMap D)
      → IsKeyed m
      → IsKeyed (place_order o m)
  unfolding place_order
  place-IsKeyed none m h = h
  place-IsKeyed (some o) m h = insert-IsKeyed o.order_id o m h

  -- What an id answers once the named order is gone.
  abbrev pub without : Option String → String → OrderMap D → Option (OpenOrderVerboseEntry D)
  without none id m = get_order id m
  without (some k) id m = if str_eq id k then none else get_order id m

  -- What an id answers once the order is there.
  abbrev pub with_order :
      Option (OpenOrderVerboseEntry D) → String → OrderMap D → Option (OpenOrderVerboseEntry D)
  with_order none id m = get_order id m
  with_order (some o) id m = if str_eq id o.order_id then some o else get_order id m

  get-cancel :
      (c : Option String) (id : String) (m : OrderMap D)
      → IsKeyed m
      → get_order id (cancel_order c m) ≡ without c id m
  unfolding cancel_order
  get-cancel none id m h = refl
  get-cancel (some k) id m h = get-remove_order k id m h

  get-place :
      (o : Option (OpenOrderVerboseEntry D)) (id : String) (m : OrderMap D)
      → get_order id (place_order o m) ≡ with_order o id m
  unfolding place_order
  get-place none id m = refl
  get-place (some o) id m = get-insert_order o.order_id id o m

module _ {D T : Type 0} where
  -- A snapshot leaves one entry for each id, and an update of a store that is so keeps it so.
  pub orders-IsKeyed :
      (s : OpenOrdersState D T) (os : List (OpenOrderVerboseEntry D))
      (u : OpenOrdersUpdateMessage D) (now : T)
      → IsKeyed s.orders
      → IsKeyed (apply_snapshot s os now).orders × IsKeyed (apply_update s u now).orders
  unfolding apply_snapshot apply_update
  orders-IsKeyed s os u now h = (
    insert_all-IsKeyed os [] tt,
    ground (arith, cancel-IsKeyed (cancelled_id u) s.orders h, place-IsKeyed u.order s.orders h),
  )

  -- With one entry for each id: after a cancel the order that it names is not found; after any
  -- other update with an order, that order is found under its id. Every other id answers as before.
  pub get-apply_update :
      (s : OpenOrdersState D T) (u : OpenOrdersUpdateMessage D) (now : T) (id : String)
      → IsKeyed s.orders
      → get (apply_update s u now) id ≡ (
          if u.is_cancel
          then without (cancelled_id u) id s.orders
          else with_order u.order id s.orders)
  unfolding apply_update
  get-apply_update s u now id h =
      ground (arith, get-cancel (cancelled_id u) id s.orders h, get-place u.order id s.orders)
