-- ===== src/Futures/Accounts.antt =====
-- The answer of the accounts endpoint (crates/rt-kraken-futures/src/accounts.rs). An account is
-- what serde decodes its JSON value to.
use razortrade.Common.{Option, none, some, List, [], ◌∷◌, String, str_eq, if◌then◌else◌}

pub record MarginAuxiliary (D : Type 0) : Type 0 where
  pub usd : D
  pub pv : D
  pub pnl : D
  pub af : D
  pub funding : D

pub record MarginAccount (D : Type 0) : Type 0 where
  pub account_type : String
  pub currency : String
  pub auxiliary : MarginAuxiliary D
  pub balances : List (String × D)

pub record CashAccount (D : Type 0) : Type 0 where
  pub account_type : String
  pub balances : List (String × D)

pub record FlexCurrency (D : Type 0) : Type 0 where
  pub quantity : D
  pub value : D
  pub collateral : D
  pub available : D
  pub excluded_collateral : D

pub record FlexAccount (D : Type 0) : Type 0 where
  pub account_type : String
  pub currencies : List (String × FlexCurrency D)
  pub initial_margin : D
  pub initial_margin_with_orders : D
  pub maintenance_margin : D
  pub balance_value : D
  pub portfolio_value : D
  pub collateral_value : D
  pub pnl : D
  pub unrealized_funding : D
  pub total_unrealized : D
  pub total_unrealized_as_margin : D
  pub available_margin : D
  pub margin_equity : D

pub data AccountValue (D : Type 0) : Type 0 where
  margin_value : MarginAccount D → AccountValue D
  cash_value : CashAccount D → AccountValue D
  flex_value : FlexAccount D → AccountValue D
  unknown_value : AccountValue D

pub record AccountsResponse (D : Type 0) : Type 0 where
  pub result : String
  pub accounts : List (String × AccountValue D)
  pub server_time : String

module _ {D : Type 0} where
  -- `accounts.get(key)`
  unfoldable pub account : List (String × AccountValue D) → String → AccountValue D
  account [] key = unknown_value
  account ((k, v) ∷ rest) key = if str_eq k key then v else account rest key

  -- A value of another shape is not decoded.
  abbrev pub as_margin : AccountValue D → Option (MarginAccount D)
  as_margin (margin_value m) = some m
  as_margin (cash_value _) = none
  as_margin (flex_value _) = none
  as_margin unknown_value = none

  abbrev pub as_flex : AccountValue D → Option (FlexAccount D)
  as_flex (margin_value _) = none
  as_flex (cash_value _) = none
  as_flex (flex_value f) = some f
  as_flex unknown_value = none

  abbrev pub as_cash : AccountValue D → Option (CashAccount D)
  as_cash (margin_value _) = none
  as_cash (cash_value c) = some c
  as_cash (flex_value _) = none
  as_cash unknown_value = none

  abbrev pub margin : AccountsResponse D → String → Option (MarginAccount D)
  margin r key = as_margin (account r.accounts key)

  abbrev pub flex : AccountsResponse D → Option (FlexAccount D)
  flex r = as_flex (account r.accounts "flex")

  abbrev pub cash : AccountsResponse D → Option (CashAccount D)
  cash r = as_cash (account r.accounts "cash")
