-- ===== src/Futures/OpenOrders/History.antt =====
-- What the store of open orders answers after any history of messages: the store as a map, against
-- the account of a single id.
use razortrade.Common.{
  ◌≡◌, Bool, true, false, Option, none, some, List, [], ◌∷◌, String, str_eq, if◌then◌else◌,
}
use razortrade.Futures.Messages.{OpenOrderVerboseEntry, OpenOrdersUpdateMessage}
use razortrade.Futures.OpenOrders.{OpenOrdersState, apply_snapshot, apply_update, invalidate, get}

-- A call of one of the three methods that change the store.
pub data OrdersEvent (D T : Type 0) : Type 0 where
  snapshot : List (OpenOrderVerboseEntry D) → T → OrdersEvent D T
  update : OpenOrdersUpdateMessage D → T → OrdersEvent D T
  invalidation : OrdersEvent D T

module _ {D T : Type 0} where
  abbrev pub after_event : OpenOrdersState D T → OrdersEvent D T → OpenOrdersState D T
  after_event s (snapshot os now) = apply_snapshot s os now
  after_event s (update u now) = apply_update s u now
  after_event s invalidation = invalidate s

  abbrev pub after_events : OpenOrdersState D T → List (OrdersEvent D T) → OpenOrdersState D T
  after_events s [] = s
  after_events s (e ∷ es) = after_events (after_event s e) es

module _ {D : Type 0} where
  -- The last order of the id in a list, or what was there before.
  abbrev pub listed :
      String
      → List (OpenOrderVerboseEntry D)
      → Option (OpenOrderVerboseEntry D)
      → Option (OpenOrderVerboseEntry D)
  listed id [] before = before
  listed id (o ∷ os) before = listed id os (if str_eq id o.order_id then some o else before)

  -- A cancel names the id of its order, or without an order the id beside it.
  abbrev pub names : OpenOrdersUpdateMessage D → String → Bool
  names u id = elim u.order [
    | some o ↦ str_eq id o.order_id
    | none ↦ elim u.order_id [ some k ↦ str_eq id k | none ↦ false ]
  ]

  -- What an update leaves of one id: a cancel that names it, nothing; the order of any other
  -- update, if that has the id; else what was there before.
  abbrev pub updated :
      String
      → OpenOrdersUpdateMessage D
      → Option (OpenOrderVerboseEntry D)
      → Option (OpenOrderVerboseEntry D)
  updated id u before =
      if u.is_cancel
      then (if names u id then none else before)
      else elim u.order [ some o ↦ if str_eq id o.order_id then some o else before | none ↦ before ]

module _ {D T : Type 0} where
  -- The account of one id: whether the store is in sync, and the open order of the id.
  abbrev pub answer_step :
      String
      → Bool × Option (OpenOrderVerboseEntry D)
      → OrdersEvent D T
      → Bool × Option (OpenOrderVerboseEntry D)
  answer_step id (synced, order) (snapshot os now) = (true, listed id os none)
  answer_step id (synced, order) (update u now) = (synced, updated id u order)
  answer_step id (synced, order) invalidation = (false, none)

  abbrev pub answer :
      String
      → Bool × Option (OpenOrderVerboseEntry D)
      → List (OrdersEvent D T)
      → Bool × Option (OpenOrderVerboseEntry D)
  answer id a [] = a
  answer id a (e ∷ es) = answer id (answer_step id a e) es

  -- The store answers as the account of the id.
  abbrev pub AnswersAs :
      String → OpenOrdersState D T → Bool × Option (OpenOrderVerboseEntry D) → Type 0
  AnswersAs id s (synced, order) = (s.is_synced ≡ synced) × (get s id ≡ order)
