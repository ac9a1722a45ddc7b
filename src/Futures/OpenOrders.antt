-- ===== src/Futures/OpenOrders.antt =====
-- `OpenOrdersState` (crates/rt-kraken-futures/src/private_state.rs): the open orders of the
-- account by their broker id; `now` is the reading of the clock. The hash map is a list of entries
-- with distinct keys, whose order means nothing.
pub mod Lookup
pub mod History
use razortrade.Common.{
  Bool, true, false, Option, none, some, List, [], ◌∷◌, String, str_eq, if◌then◌else◌,
}
use razortrade.Futures.Messages.{OpenOrderVerboseEntry, OpenOrdersUpdateMessage}

abbrev pub OrderMap : Type 0 → Type 0
OrderMap D = List (String × OpenOrderVerboseEntry D)

pub record OpenOrdersState (D T : Type 0) : Type 0 where
  pub orders : OrderMap D
  pub last_seen_at : Option T
  pub is_synced : Bool

module _ {D : Type 0} where
  -- `HashMap::remove`.
  unfoldable pub remove_order : String → OrderMap D → OrderMap D
  remove_order k [] = []
  remove_order k ((j, o) ∷ m) = if str_eq k j then m else (j, o) ∷ remove_order k m

  -- `HashMap::insert`.
  unfoldable pub insert_order : String → OpenOrderVerboseEntry D → OrderMap D → OrderMap D
  insert_order k o [] = (k, o) ∷ []
  insert_order k o ((j, p) ∷ m) = if str_eq k j then (j, o) ∷ m else (j, p) ∷ insert_order k o m

  -- `HashMap::get`.
  unfoldable pub get_order : String → OrderMap D → Option (OpenOrderVerboseEntry D)
  get_order k [] = none
  get_order k ((j, o) ∷ m) = if str_eq k j then some o else get_order k m

  -- The loop of `apply_snapshot`.
  unfoldable pub insert_all : List (OpenOrderVerboseEntry D) → OrderMap D → OrderMap D
  insert_all [] m = m
  insert_all (o ∷ os) m = insert_all os (insert_order o.order_id o m)

  -- The id that a cancel names: that of its order, or else the one beside it.
  unfoldable pub cancelled_id : OpenOrdersUpdateMessage D → Option String
  cancelled_id u = elim u.order [ some o ↦ some o.order_id | none ↦ u.order_id ]

  -- The two branches of `apply_update`.
  unfoldable pub cancel_order : Option String → OrderMap D → OrderMap D
  cancel_order none m = m
  cancel_order (some id) m = remove_order id m

  unfoldable pub place_order : Option (OpenOrderVerboseEntry D) → OrderMap D → OrderMap D
  place_order none m = m
  place_order (some o) m = insert_order o.order_id o m

module _ {D T : Type 0} where
  -- `OpenOrdersState::new`.
  abbrev pub new_orders : OpenOrdersState D T
  new_orders = record { orders = []; last_seen_at = none; is_synced = false }

  unfoldable pub apply_snapshot :
      OpenOrdersState D T → List (OpenOrderVerboseEntry D) → T → OpenOrdersState D T
  apply_snapshot s os now = record {
    orders = insert_all os [];
    last_seen_at = some now;
    is_synced = true;
  }

  unfoldable pub apply_update :
      OpenOrdersState D T → OpenOrdersUpdateMessage D → T → OpenOrdersState D T
  unfolding cancel_order place_order cancelled_id
  apply_update s u now =
      let seen = record s { last_seen_at = some now } in
      if u.is_cancel
      then record seen { orders = cancel_order (cancelled_id u) s.orders }
      else record seen { orders = place_order u.order s.orders }

  unfoldable pub invalidate : OpenOrdersState D T → OpenOrdersState D T
  invalidate s = record s { orders = []; is_synced = false }

  -- `OpenOrdersState::get`.
  abbrev pub get : OpenOrdersState D T → String → Option (OpenOrderVerboseEntry D)
  get s id = get_order id s.orders
