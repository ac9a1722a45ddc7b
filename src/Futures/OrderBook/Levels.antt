-- ===== src/Futures/OrderBook/Levels.antt =====
-- What a message does to the price levels, and crossed books.
use razortrade.Common.{ℕ, ◌≡◌, true, Option, none, some, arith, if◌then◌else◌, map, take, reverse}
use razortrade.Decimal.{DecimalOps, IsOrdered, ◌<ᵈ◌, ◌=ᵈ◌}
use razortrade.Core.MarketData.{OrderBookSnapshot}
use razortrade.Futures.Messages.{BookSide, buy, sell, BookSnapshotMessage, BookDeltaMessage}
use razortrade.Futures.PriceMap.{PriceMap, get, first, last, IsAscending}
use razortrade.Futures.PriceMap.Lookup.{get-insert, get-remove}
use razortrade.Futures.OrderBook.{
  LocalOrderBook, synced, ok, err, crossed, level, update_side, sanity_check, apply_snapshot,
  apply_delta, to_rf_core_snapshot,
}
use razortrade.Futures.OrderBook.Invariant.{IsValid}

abbrev pub side_of : {D T : Type 0} → BookSide → LocalOrderBook D T → PriceMap D
side_of buy b = b.bids
side_of sell b = b.asks

abbrev pub other_side : BookSide → BookSide
other_side buy = sell
other_side sell = buy

-- The highest bid lies below the lowest ask, if both are there.
abbrev pub IsUncrossed :
    {D : Type 0} ⦃dec : DecimalOps D⦄ → Option (D × D) → Option (D × D) → Type 0
IsUncrossed (some (bid, _)) (some (ask, _)) = (bid <ᵈ ask) ≡ true
IsUncrossed (some _) none = Unit
IsUncrossed none ask = Unit

module _ {D : Type 0} ⦃dec : DecimalOps D⦄ (laws : IsOrdered D) where
  get-update_side :
      (l price qty : D) (m : PriceMap D)
      → IsAscending m
      → get l (update_side price qty m)
        ≡ (if price =ᵈ l then (if dec.is_zero qty then none else some qty) else get l m)
  get-update_side l price qty m s =
      ground (arith, get-insert laws price l qty m s, get-remove laws price l m s)

module _ {D T : Type 0} ⦃dec : DecimalOps D⦄ where
  sanity_check-IsUncrossed :
      (b : LocalOrderBook D T) → sanity_check b ≡ ok tt → IsUncrossed (last b.bids) (first b.asks)
  unfolding sanity_check
  sanity_check-IsUncrossed b h = ground arith

  -- A delta that succeeds leaves the book uncrossed.
  pub apply_delta-IsUncrossed :
      (b : LocalOrderBook D T) (d : BookDeltaMessage D) (now : T)
      → (apply_delta b d now).1 ≡ ok tt
      → let b' = (apply_delta b d now).0 in IsUncrossed (last b'.bids) (first b'.asks)
  unfolding apply_delta
  apply_delta-IsUncrossed b d now h = ground arith

  -- A snapshot that is accepted leaves the book uncrossed.
  pub apply_snapshot-IsUncrossed :
      (b : LocalOrderBook D T) (snap : BookSnapshotMessage D) (now : T)
      → (apply_snapshot b snap now).1 ≡ ok tt
      → let b' = (apply_snapshot b snap now).0 in IsUncrossed (last b'.bids) (first b'.asks)
  unfolding apply_snapshot
  apply_snapshot-IsUncrossed b snap now h = ground arith

module _ {D T : Type 0} ⦃dec : DecimalOps D⦄ (laws : IsOrdered D) where
  -- A delta that succeeds on a valid book sets its price to its quantity, or clears it at quantity
  -- zero, leaves every other price of that side as it was, and does not touch the other side.
  pub apply_delta_levels :
      (b : LocalOrderBook D T) (d : BookDeltaMessage D) (now : T) (l : D)
      → IsValid b
      → (apply_delta b d now).1 ≡ ok tt
      → let b' = (apply_delta b d now).0 in
        (get l (side_of d.side b') ≡ (
          if d.price =ᵈ l
          then (if dec.is_zero d.qty then none else some d.qty)
          else get l (side_of d.side b)))
        × (side_of (other_side d.side) b' ≡ side_of (other_side d.side) b)
  unfolding apply_delta
  apply_delta_levels b d now l v h = ground (
    arith,
    get-update_side laws l d.price d.qty b.bids v.bids_ascending,
    get-update_side laws l d.price d.qty b.asks v.asks_ascending,
  )

module _ {D T : Type 0} ⦃dec : DecimalOps D⦄ where
  -- A snapshot whose sides cross is reported as an error, and yet leaves the book in sync: the
  -- next reading succeeds.
  pub crossed_snapshot_readable :
      (b : LocalOrderBook D T) (snap : BookSnapshotMessage D) (now : T) (bid ask : D) (depth : ℕ)
      → (apply_snapshot b snap now).1 ≡ err (crossed bid ask)
      → let b' = (apply_snapshot b snap now).0 in
        (b'.state ≡ synced)
        × (book : OrderBookSnapshot D T) × (to_rf_core_snapshot b' depth now ≡ ok book)
  unfolding apply_snapshot to_rf_core_snapshot
  crossed_snapshot_readable b snap now bid ask depth h = (
    ground arith,
    record {
      bids = map level (take depth (reverse (apply_snapshot b snap now).0.bids));
      asks = map level (take depth (apply_snapshot b snap now).0.asks);
      timestamp = now;
    },
    ground arith,
  )
