-- ===== src/Futures/OrderBook.antt =====
-- `LocalOrderBook` (crates/rt-kraken-futures/src/orderbook.rs). A method returns the new book and
-- its result; `now` is the reading of the clock. Sequence numbers are `u64`, so that the next one
-- wraps at 2 ^ 64.
pub mod Invariant
pub mod Sequence
pub mod Levels
pub mod Reading
use razortrade.Common.{
  ℕ, ◌+◌, ◌%◌, ◌^◌, Bool, true, false, not, Option, none, some, List, [], ◌∷◌, map, reverse, String,
  take, str_eq, ◌==◌, if◌then◌else◌,
}
use razortrade.Decimal.{DecimalOps, ◌<ᵈ◌, ◌≤ᵈ◌}
use razortrade.Core.MarketData.{OrderBookLevel, OrderBookSnapshot, MarketSnapshot}
use razortrade.Futures.Messages.{PriceLevel, BookSnapshotMessage, BookDeltaMessage, buy, sell}
use razortrade.Futures.PriceMap.{PriceMap, insert, remove, first, last}

pub data BookError (D : Type 0) : Type 0 where
  sequence_gap : String → ℕ → ℕ → BookError D
  book_out_of_sync : String → String → BookError D
  not_initialised : String → BookError D
  crossed : D → D → BookError D
  product_mismatch : String → String → BookError D

pub data BookState : Type 0 where
  uninitialised synced out_of_sync : BookState

pub record LocalOrderBook (D T : Type 0) : Type 0 where
  pub product_id : String
  pub bids : PriceMap D
  pub asks : PriceMap D
  pub last_seq : Option ℕ
  pub last_update_at : Option T
  pub state : BookState

-- `Result<A, BookError>`, with the panic of `expect`.
pub data BookResult (D A : Type 0) : Type 0 where
  ok : A → BookResult D A
  err : BookError D → BookResult D A
  panicked : BookResult D A

abbrev pub is_synced : {D T : Type 0} → LocalOrderBook D T → Bool
is_synced b = elim b.state [ synced ↦ true | _ ↦ false ]

abbrev pub Done : Type 0 → Type 0
Done D = BookResult D (Unit {0})

-- `LocalOrderBook::new`.
abbrev pub new_book : {D T : Type 0} → String → LocalOrderBook D T
new_book product = record {
  product_id = product;
  bids = [];
  asks = [];
  last_seq = none;
  last_update_at = none;
  state = uninitialised;
}

module _ {D : Type 0} ⦃dec : DecimalOps D⦄ where
  -- One side of a snapshot: levels with a positive quantity are inserted in turn.
  unfoldable pub load_levels : List (PriceLevel D) → PriceMap D → PriceMap D
  load_levels [] m = m
  load_levels (l ∷ ls) m = load_levels ls (if dec.zero <ᵈ l.qty then insert l.price l.qty m else m)

  unfoldable pub cross_check : Option (D × D) → Option (D × D) → Done D
  cross_check (some (bid, _)) (some (ask, _)) = if ask ≤ᵈ bid then err (crossed bid ask) else ok tt
  cross_check (some _) none = ok tt
  cross_check none ask = ok tt

  -- The change of one side by a delta.
  abbrev pub update_side : D → D → PriceMap D → PriceMap D
  update_side price qty m = if dec.is_zero qty then remove price m else insert price qty m

module _ {D T : Type 0} ⦃dec : DecimalOps D⦄ where
  unfoldable pub sanity_check : LocalOrderBook D T → Done D
  unfolding cross_check
  sanity_check b = cross_check (last b.bids) (first b.asks)

  unfoldable pub apply_snapshot :
      LocalOrderBook D T → BookSnapshotMessage D → T → LocalOrderBook D T × Done D
  unfolding sanity_check
  apply_snapshot b snap now =
      let b' = record b {
        bids = load_levels snap.bids [];
        asks = load_levels snap.asks [];
        last_seq = some snap.seq;
        last_update_at = some now;
        state = synced;
      } in
      if not (str_eq snap.product_id b.product_id)
      then (b, err (product_mismatch b.product_id snap.product_id))
      else (b', sanity_check b')

  -- The end of `apply_delta`: a book that fails the check is marked.
  abbrev checked : LocalOrderBook D T → LocalOrderBook D T × Done D
  checked b = elim (sanity_check b) [
    | ok _ ↦ (b, ok tt)
    | err e ↦ (record b { state = out_of_sync }, err e)
    | panicked ↦ (b, panicked)
  ]

  -- `match delta.side`.
  abbrev pub change_side : LocalOrderBook D T → BookDeltaMessage D → LocalOrderBook D T
  change_side b delta = elim delta.side [
    | buy ↦ record b { bids = update_side delta.price delta.qty b.bids }
    | sell ↦ record b { asks = update_side delta.price delta.qty b.asks }
  ]

  -- `apply_delta` on a book that is in sync, by its last sequence number.
  unfoldable pub apply_next :
      LocalOrderBook D T → Option ℕ → BookDeltaMessage D → T → LocalOrderBook D T × Done D
  unfolding sanity_check
  apply_next b none delta now = (b, panicked)
  apply_next b (some seq) delta now =
      let expected = (seq + 1) % 2 ^ 64 in
      if not (delta.seq == expected)
      then (record b { state = out_of_sync }, err (sequence_gap b.product_id expected delta.seq))
      else checked
          (record (change_side b delta) { last_seq = some delta.seq; last_update_at = some now })

  unfoldable pub apply_delta :
      LocalOrderBook D T → BookDeltaMessage D → T → LocalOrderBook D T × Done D
  unfolding apply_next
  apply_delta b delta now =
      if not (str_eq delta.product_id b.product_id)
      then (b, err (product_mismatch b.product_id delta.product_id))
      else elim b.state [
        | uninitialised ↦ (b, err (not_initialised b.product_id))
        | out_of_sync ↦
            (b, err (book_out_of_sync b.product_id "book was previously marked out-of-sync"))
        | synced ↦ apply_next b b.last_seq delta now
      ]

  unfoldable pub invalidate : LocalOrderBook D T → LocalOrderBook D T
  invalidate b = record b { state = out_of_sync; bids = []; asks = []; last_seq = none }

abbrev state_name : BookState → String
state_name uninitialised = "current state: Uninitialised"
state_name synced = "current state: Synced"
state_name out_of_sync = "current state: OutOfSync"

abbrev pub level : {D : Type 0} → D × D → OrderBookLevel D
level (price, qty) = record { price = price; quantity = qty }

module _ {D T : Type 0} where
  unfoldable pub to_rf_core_snapshot :
      LocalOrderBook D T → ℕ → T → BookResult D (OrderBookSnapshot D T)
  to_rf_core_snapshot b depth now =
      if not (is_synced b)
      then err (book_out_of_sync b.product_id (state_name b.state))
      else ok (record {
        bids = map level (take depth (reverse b.bids));
        asks = map level (take depth b.asks);
        timestamp = elim b.last_update_at [ some at ↦ at | none ↦ now ];
      })

  unfoldable pub to_market_snapshot :
      LocalOrderBook D T → ℕ → D → T → D → D → Option D → D → T → BookResult D (MarketSnapshot D T)
  unfolding to_rf_core_snapshot
  to_market_snapshot b depth last_price last_trade_at atr atr_pct funding fx now =
      elim (to_rf_core_snapshot b depth now) [
        | ok book ↦ ok (record {
          instrument_symbol = b.product_id;
          order_book = book;
          last_price = last_price;
          last_trade_at = last_trade_at;
          atr_absolute = atr;
          atr_pct = atr_pct;
          funding_rate_per_8h = funding;
          fx_quote_per_chf = fx;
        })
        | err e ↦ err e
        | panicked ↦ panicked
      ]
