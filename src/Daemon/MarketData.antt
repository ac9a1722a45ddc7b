-- ===== src/Daemon/MarketData.antt =====
-- crates/rt-daemon/src/market_data.rs: the market snapshot of a signal, from the local order book,
-- the ticker and the metadata of the signal.
use razortrade.Common.{ℕ, Option, none, some, List, [], ◌∷◌, String, str_eq, if◌then◌else◌}
use razortrade.Common.Int.{pos}
use razortrade.Decimal.{DecimalOps}
use razortrade.Formats.{IsoOps, JsonOps, JsonValue, string_value, number_value, other_value}
use razortrade.Core.MarketData.{MarketSnapshot}
use razortrade.Persistence.Columns.{TextOps}
use razortrade.Futures.Messages.{TickerMessage}
use razortrade.Futures.OrderBook.{LocalOrderBook, BookError, BookResult, to_market_snapshot}
use razortrade.Futures.OrderBook as Book

pub data MarketDataError (D : Type 0) : Type 0 where
  no_book no_ticker missing_metadata invalid_metadata : String → MarketDataError D
  book_error : BookError D → MarketDataError D

-- `Result<A, MarketDataError>`, with the abort of a book.
pub data MarketResult (D A : Type 0) : Type 0 where
  found : A → MarketResult D A
  market_error : MarketDataError D → MarketResult D A
  market_panic : MarketResult D A

module _ {D A B : Type 0} where
  abbrev pub then_with : MarketResult D A → (A → MarketResult D B) → MarketResult D B
  then_with (found a) f = f a
  then_with (market_error e) f = market_error e
  then_with market_panic f = market_panic

module _ {D A : Type 0} where
  -- `ok_or_else`
  abbrev pub or_error : Option A → MarketDataError D → MarketResult D A
  or_error (some a) e = found a
  or_error none e = market_error e

-- The `HashMap`s as association lists.
pub record MarketDataService (D T : Type 0) : Type 0 where
  pub books : List (String × LocalOrderBook D T)
  pub tickers : List (String × TickerMessage D)
  pub depth : ℕ

unfoldable pub by_symbol {ℓ} : {A : Type ℓ} → String → List (String × A) → Option A
by_symbol symbol [] = none
by_symbol symbol ((s, a) ∷ rest) = if str_eq s symbol then some a else by_symbol symbol rest

-- Multiplied by 8 * 3600.
abbrev pub funding_rate_per_8h : {D : Type 0} ⦃dec : DecimalOps D⦄ → TickerMessage D → Option D
funding_rate_per_8h ⦃dec⦄ t = elim t.funding_rate [
  | some r ↦ some (dec.mul r (dec.of_int (pos 28_800)))
  | none ↦ none
]

module _ {D X : Type 0} ⦃txt : TextOps D X⦄ where
  -- The closure `parse`: a text or a number that is read as a decimal.
  abbrev pub metadata_value : String → JsonValue X → MarketResult D D
  metadata_value name (string_value x) = or_error (txt.from_str x) (invalid_metadata name)
  metadata_value name (number_value x) = or_error (txt.from_str x) (invalid_metadata name)
  metadata_value name other_value = market_error (invalid_metadata name)

module _ {D T X : Type 0} ⦃txt : TextOps D X⦄ (json : JsonOps D T X) where
  abbrev pub metadata_field : String → String → MarketResult D (JsonValue X)
  metadata_field meta name = or_error (json.field meta name) (missing_metadata name)

  -- Both fields are looked up before either is read.
  unfoldable pub extract_atr : Option String → MarketResult D (D × D)
  extract_atr none = market_error (missing_metadata "metadata")
  extract_atr (some meta) = then_with (metadata_field meta "atr_absolute") λ a.
      then_with (metadata_field meta "atr_pct") λ p.
        then_with (metadata_value "atr_absolute" a)
          λ atr_abs. then_with (metadata_value "atr_pct" p) λ atr_pct. found (atr_abs, atr_pct)

  unfoldable pub extract_fx : Option String → MarketResult D D
  extract_fx none = market_error (missing_metadata "metadata")
  extract_fx (some meta) =
      then_with (metadata_field meta "fx_quote_per_chf") λ v. metadata_value "fx_quote_per_chf" v

-- `book.to_market_snapshot(…)?`
abbrev pub of_book : {D A : Type 0} → BookResult D A → MarketResult D A
of_book (Book.ok a) = found a
of_book (Book.err e) = market_error (book_error e)
of_book Book.panicked = market_panic

abbrev pub trade_time : {T : Type 0} ⦃iso : IsoOps T⦄ → Option ℕ → T → T
trade_time none now = now
trade_time ⦃iso⦄ (some ms) now = elim (iso.from_millis ms) [ some t ↦ t | none ↦ now ]

module _ {D T X : Type 0} ⦃dec : DecimalOps D⦄ ⦃txt : TextOps D X⦄ ⦃iso : IsoOps T⦄ where
  unfoldable pub snapshot_for_signal :
      JsonOps D T X
      → MarketDataService D T
      → String
      → Option String
      → T
      → MarketResult D (MarketSnapshot D T)
  unfolding extract_atr extract_fx
  snapshot_for_signal json service product_id metadata now =
      then_with (extract_atr json metadata) λ atr. then_with (extract_fx json metadata) λ fx.
        then_with (or_error (by_symbol product_id service.books) (no_book product_id)) λ book.
          then_with (or_error (by_symbol product_id service.tickers) (no_ticker product_id))
            λ ticker.
              then_with (or_error ticker.last (missing_metadata "ticker.last")) λ last_price.
                of_book (
                  to_market_snapshot book service.depth last_price (trade_time ticker.time now)
                    atr.0 atr.1 (funding_rate_per_8h ticker) fx now)
