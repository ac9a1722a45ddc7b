-- ===== src/Risk/Config.antt =====
-- `RiskConfig` and its defaults (crates/rt-risk/src/lib.rs).
use razortrade.Common.{ℕ}
use razortrade.Common.Int.{pos, negsuc}
use razortrade.Decimal.{DecimalOps}

pub record RiskConfig (D : Type 0) : Type 0 where
  pub max_tick_age_ms : ℕ
  pub max_spread_bps : D
  pub min_book_depth_multiple : D
  pub book_depth_levels : ℕ
  pub max_atr_pct_for_leverage : D
  pub max_atr_pct_absolute : D
  pub leverage_kill_switch_budget_chf : D
  pub max_portfolio_drawdown : D
  pub kill_switch_effective_threshold_chf : D
  pub adverse_move_for_worst_case : D
  pub max_funding_rate_per_8h : D
  pub max_leverage : D
  pub max_notional_chf_per_order : D
  pub usd_per_chf_fallback : D
  pub min_liq_distance_atrs : D
  pub expected_round_trip_fee_fraction : D
  pub expected_funding_reserve_fraction : D

module _ {D : Type 0} ⦃dec : DecimalOps D⦄ where
  abbrev pub default_min_liq_distance_atrs : D
  default_min_liq_distance_atrs = dec.of_int (pos 2)

  abbrev pub default_expected_round_trip_fee_fraction : D
  default_expected_round_trip_fee_fraction = dec.new (pos 1) 3

  abbrev pub default_expected_funding_reserve_fraction : D
  default_expected_funding_reserve_fraction = dec.new (pos 2) 3

  abbrev pub default_max_notional_chf_per_order : D
  default_max_notional_chf_per_order = dec.of_int (pos 1000)

  abbrev pub default_usd_per_chf_fallback : D
  default_usd_per_chf_fallback = dec.new (pos 110) 2

  -- -1200
  abbrev pub default_kill_switch_effective_threshold_chf : D
  default_kill_switch_effective_threshold_chf = dec.of_int (negsuc 1199)

  -- `RiskConfig::default`.
  abbrev pub default_config : RiskConfig D
  default_config = record {
    max_tick_age_ms = 500;
    max_spread_bps = dec.of_int (pos 20);
    min_book_depth_multiple = dec.of_int (pos 3);
    book_depth_levels = 5;
    max_atr_pct_for_leverage = dec.of_int (pos 6);
    max_atr_pct_absolute = dec.of_int (pos 15);
    -- -1000
    leverage_kill_switch_budget_chf = dec.of_int (negsuc 999);
    max_portfolio_drawdown = dec.new (pos 20) 2;
    kill_switch_effective_threshold_chf = default_kill_switch_effective_threshold_chf;
    adverse_move_for_worst_case = dec.new (pos 10) 2;
    max_funding_rate_per_8h = dec.new (pos 2) 4;
    max_leverage = dec.of_int (pos 2);
    max_notional_chf_per_order = default_max_notional_chf_per_order;
    usd_per_chf_fallback = default_usd_per_chf_fallback;
    min_liq_distance_atrs = default_min_liq_distance_atrs;
    expected_round_trip_fee_fraction = default_expected_round_trip_fee_fraction;
    expected_funding_reserve_fraction = default_expected_funding_reserve_fraction;
  }
