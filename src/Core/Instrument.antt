-- ===== src/Core/Instrument.antt =====
-- crates/rt-core/src/instrument.rs and instrument_registry.rs.
use razortrade.Common.{
  ℕ, Bool, true, false, Option, none, some, List, [], ◌∷◌, String, ◌==◌, str_eq, if◌then◌else◌,
}
use razortrade.Common.Int.{pos}
use razortrade.Decimal.{DecimalOps}

pub data Broker : Type 0 where
  kraken_spot kraken_futures ibkr : Broker

-- `impl Display for Broker`.
abbrev pub broker_name : Broker → String
broker_name kraken_spot = "kraken_spot"
broker_name kraken_futures = "kraken_futures"
broker_name ibkr = "ibkr"

pub data Sleeve : Type 0 where
  crypto_spot etf crypto_leverage cash_yield : Sleeve

abbrev sleeve_index : Sleeve → ℕ
sleeve_index crypto_spot = 0
sleeve_index etf = 1
sleeve_index crypto_leverage = 2
sleeve_index cash_yield = 3

-- The derived `PartialEq`.
abbrev pub sleeve_eq : Sleeve → Sleeve → Bool
sleeve_eq a b = sleeve_index a == sleeve_index b

abbrev pub counts_toward_kill_switch : Sleeve → Bool
counts_toward_kill_switch crypto_leverage = true
counts_toward_kill_switch _ = false

pub data AssetClass : Type 0 where
  asset_spot asset_perp asset_equity_etf asset_bond_etf asset_fiat : AssetClass

pub record Instrument (D : Type 0) : Type 0 where
  pub symbol : String
  pub broker : Broker
  pub asset_class : AssetClass
  pub min_order_size : D
  pub tick_size : D

abbrev pub is_leveraged : {D : Type 0} → Instrument D → Bool
is_leveraged i = elim i.asset_class [ asset_perp ↦ true | _ ↦ false ]

pub record InstrumentMeta (D : Type 0) : Type 0 where
  pub min_order_size : D
  pub tick_size : D

-- The `HashMap` as an association list, the last insertion of a symbol first.
abbrev pub InstrumentRegistry : Type 0 → Type 0
InstrumentRegistry D = List (String × InstrumentMeta D)

module _ {D : Type 0} where
  pub insert : InstrumentRegistry D → String → InstrumentMeta D → InstrumentRegistry D
  insert r symbol m = (symbol, m) ∷ r

  unfoldable pub get : InstrumentRegistry D → String → Option (InstrumentMeta D)
  get [] symbol = none
  get ((s, m) ∷ r) symbol = if str_eq s symbol then some m else get r symbol

module _ {D : Type 0} ⦃dec : DecimalOps D⦄ where
  -- Falls back to the values of PI_XBTUSD.
  unfoldable pub lookup : InstrumentRegistry D → String → InstrumentMeta D
  unfolding get
  lookup r symbol = elim (get r symbol) [
    | some m ↦ m
    | none ↦ record { min_order_size = dec.one; tick_size = dec.new (pos 5) 1 }
  ]
