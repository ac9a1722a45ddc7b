-- ===== src/Daemon/OrderBuilding.antt =====
-- The orders that the signal processor builds (crates/rt-daemon/src/signal_processor.rs):
-- `build_kraken_futures_order` for an entry, `build_exit_order` for a trend exit, and
-- `build_order_intent` for the log of a dry run.
pub mod Bounds
use Prim.Native.String.{◌++◌ as append}
use razortrade.Common.{
  ℕ, Bool, true, false, not, ◌&&◌, Option, none, some, String, str_eq, if◌then◌else◌, find?,
}
use razortrade.Common.Int.{pos}
use razortrade.Decimal.{DecimalOps, ◌<ᵈ◌, ◌≤ᵈ◌, ◌=ᵈ◌}
use razortrade.Formats.{IsoOps}
use razortrade.Core.Instrument.{
  Instrument, InstrumentRegistry, lookup, kraken_futures, asset_perp, Sleeve, sleeve_eq,
  crypto_spot, crypto_leverage, etf, cash_yield,
}
use razortrade.Core.Order.{
  Order, Side, buy, sell, side_eq, OrderType, market, post_only, TimeInForce, gtc, ioc,
  pending_submission,
}
use razortrade.Core.Signal.{Signal, SignalType, trend_exit}
use razortrade.Core.MarketData.{MarketSnapshot, OrderBookLevel, best_bid, best_ask}
use razortrade.Core.Portfolio.{PortfolioState, OpenPositionSummary}

-- `Result<Order, Value>`: a reason is a kind and the value it reports.
pub data Built (D T : Type 0) : Type 0 where
  built : Order D T → Built D T
  unbuildable : String → String → Built D T

abbrev pub broker_hint_for_sleeve : Sleeve → String
broker_hint_for_sleeve crypto_spot = "kraken_spot"
broker_hint_for_sleeve crypto_leverage = "kraken_futures"
broker_hint_for_sleeve etf = "ibkr"
broker_hint_for_sleeve cash_yield = "ibkr"

abbrev pub is_exit : SignalType → Bool
is_exit t = elim t [ trend_exit ↦ true | _ ↦ false ]

abbrev pub level_price : {D : Type 0} → Option (OrderBookLevel D) → Option D
level_price none = none
level_price (some l) = some l.price

-- `format!("rt-s{}", signal.id)`
abbrev pub client_order_id : (ℕ → String) → ℕ → String
client_order_id show id = append "rt-s" (show id)

module _ {D : Type 0} ⦃dec : DecimalOps D⦄ where
  abbrev pub perp : InstrumentRegistry D → String → Instrument D
  perp instruments symbol =
      let meta = lookup instruments symbol in
      record {
        symbol = symbol;
        broker = kraken_futures;
        asset_class = asset_perp;
        min_order_size = meta.min_order_size;
        tick_size = meta.tick_size;
      }

  -- long position: sell exit, short: buy
  abbrev pub exit_side : OpenPositionSummary D → Side
  exit_side p = if dec.zero <ᵈ p.quantity then sell else buy

  abbrev pub max_contracts_per_order : D
  max_contracts_per_order = dec.of_int (pos 10_000)

module _ {D T : Type 0} ⦃dec : DecimalOps D⦄ where
  -- The struct literal that the orders of the daemon share.
  abbrev pub new_order :
      InstrumentRegistry D
      → Option ℕ
      → String
      → String
      → Side
      → OrderType
      → TimeInForce
      → D
      → Option D
      → Option Bool
      → T
      → Order D T
  new_order instruments signal_id cli symbol side order_type tif quantity price reduce_only now =
      record {
        id = 0;
        signal_id = signal_id;
        broker = kraken_futures;
        broker_order_id = none;
        cli_ord_id = some cli;
        instrument = perp instruments symbol;
        side = side;
        order_type = order_type;
        time_in_force = tif;
        quantity = quantity;
        limit_price = price;
        stop_price = none;
        status = pending_submission;
        filled_quantity = dec.zero;
        avg_fill_price = none;
        fees_paid = dec.zero;
        created_at = now;
        updated_at = now;
        error_message = none;
        reduce_only = reduce_only;
      }

module _ {D T : Type 0} ⦃dec : DecimalOps D⦄ ⦃iso : IsoOps T⦄ where
  abbrev pub is_exit_target : Signal D T → OpenPositionSummary D → Bool
  is_exit_target signal p =
      str_eq p.instrument_symbol signal.instrument_symbol
      && (sleeve_eq p.sleeve crypto_leverage && not (p.quantity =ᵈ dec.zero))

  -- `build_exit_order`, for the position found.
  unfoldable pub exit_order :
      Signal D T → InstrumentRegistry D → T → Option (OpenPositionSummary D) → Built D T
  exit_order signal instruments now none =
      unbuildable "exit_without_open_position" signal.instrument_symbol
  exit_order signal instruments now (some p) =
      let qty = dec.abs p.quantity in
      if not (side_eq signal.side (exit_side p))
      then unbuildable "exit_side_mismatch" (dec.show p.quantity)
      else if qty <ᵈ dec.one
      then unbuildable "exit_quantity_below_minimum" (dec.show p.quantity)
      else built (
          new_order instruments (some signal.id) (client_order_id iso.show_id signal.id)
            signal.instrument_symbol signal.side market ioc qty none (some true) now)

  unfoldable pub build_exit_order :
      Signal D T → PortfolioState D T → InstrumentRegistry D → T → Built D T
  unfolding exit_order
  build_exit_order signal portfolio instruments now =
      exit_order signal instruments now (find? (is_exit_target signal) portfolio.open_positions)

  -- The own side of the book: the best bid for a purchase, the best ask for a sale.
  abbrev pub own_price : Signal D T → MarketSnapshot D T → Option D
  own_price signal snapshot = elim signal.side [
    | buy ↦ level_price (best_bid snapshot.order_book)
    | sell ↦ level_price (best_ask snapshot.order_book)
  ]

  -- The limit price, for a quantity within the bounds.
  unfoldable pub priced_order : Signal D T → InstrumentRegistry D → T → D → Option D → Built D T
  priced_order signal instruments now quantity none =
      unbuildable "no_limit_price" "empty or invalid side of the order book"
  priced_order signal instruments now quantity (some price) =
      if dec.zero <ᵈ price
      then built (
          new_order instruments (some signal.id) (client_order_id iso.show_id signal.id)
            signal.instrument_symbol signal.side post_only gtc quantity (some price) none now)
      else unbuildable "no_limit_price" "empty or invalid side of the order book"

  -- The contract quantity, for the product of the notional and the rate.
  unfoldable pub sized_order :
      Signal D T → MarketSnapshot D T → InstrumentRegistry D → T → Option D → Built D T
  unfolding priced_order
  sized_order signal snapshot instruments now none =
      unbuildable "notional_overflow" (dec.show signal.notional_chf)
  sized_order signal snapshot instruments now (some notional_usd) =
      let quantity = dec.floor notional_usd in
      if quantity <ᵈ dec.one
      then unbuildable "below_minimum_contract_size" (dec.show notional_usd)
      else if max_contracts_per_order <ᵈ quantity
      then unbuildable "above_maximum_contract_size" (dec.show quantity)
      else priced_order signal instruments now quantity (own_price signal snapshot)

  unfoldable pub build_kraken_futures_order :
      Signal D T → MarketSnapshot D T → PortfolioState D T → InstrumentRegistry D → T → Built D T
  unfolding build_exit_order sized_order
  build_kraken_futures_order signal snapshot portfolio instruments now =
      let fx = snapshot.fx_quote_per_chf in
      if is_exit signal.signal_type
      then build_exit_order signal portfolio instruments now
      else if fx ≤ᵈ dec.zero
      then unbuildable "invalid_fx_rate" (dec.show fx)
      else sized_order signal snapshot instruments now (dec.checked_mul signal.notional_chf fx)

pub record OrderIntent (D : Type 0) : Type 0 where
  pub broker_hint : String
  pub estimated_price : Option D
  pub estimated_quantity : Option D
  pub note : String

module _ {D T : Type 0} ⦃dec : DecimalOps D⦄ where
  -- The other side of the book: the best ask for a purchase, the best bid for a sale.
  abbrev pub other_price : Signal D T → MarketSnapshot D T → Option D
  other_price signal snapshot = elim signal.side [
    | buy ↦ level_price (best_ask snapshot.order_book)
    | sell ↦ level_price (best_bid snapshot.order_book)
  ]

  abbrev pub estimate_quantity : Signal D T → MarketSnapshot D T → Option D → Option D
  estimate_quantity signal snapshot none = none
  estimate_quantity signal snapshot (some price) =
      if dec.is_zero price
      then none
      else elim (dec.checked_mul signal.notional_chf snapshot.fx_quote_per_chf) [
        | none ↦ none
        | some notional ↦ dec.checked_div notional price
      ]

  unfoldable pub build_order_intent : Signal D T → MarketSnapshot D T → OrderIntent D
  build_order_intent signal snapshot =
      let price = other_price signal snapshot in
      record {
        broker_hint = broker_hint_for_sleeve signal.sleeve;
        estimated_price = price;
        estimated_quantity = estimate_quantity signal snapshot price;
        note = "dry-run intent; not submitted to any broker";
      }
