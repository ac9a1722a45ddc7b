-- ===== src/Tests/Processor.antt =====
-- Tests and examples of the signal processor.
use razortrade.Common.Int.{◌+ℤ◌, ◌-ℤ◌, ◌*ℤ◌, div_ℕ}
use razortrade.Core.Instrument.{get, lookup}
use razortrade.Core.MarketData.{spread_bps, bid_depth, ask_depth}
use razortrade.Core.Portfolio.{
  drawdown_fraction, leverage_sleeve_realized_pnl, leverage_sleeve_unrealized_pnl,
  leverage_sleeve_effective_pnl,
}
use razortrade.Daemon.MarketData.{by_symbol, extract_atr, extract_fx, snapshot_for_signal}
use razortrade.Daemon.OrderBuilding.{priced_order, sized_order, build_kraken_futures_order}
use razortrade.Daemon.PortfolioLoader.{
  summarise, summarise_all, parse_snapshot, materialise, load_from, load_found,
  load_portfolio_state,
}
use razortrade.Daemon.SignalProcessor.{
  handle_approval, act_on, with_portfolio, with_market, process_valid, process_read, process_signal,
  process_all, poll_once,
}
use razortrade.Daemon.SignalRows.{read_enum, row_to_signal}
use razortrade.Daemon.UncertainOrders.{reconcile_found, try_reconcile_uncertain_order, after_submit}
use razortrade.Daemon.Submission.{
  hand_off, hand_off_inserted, submit_built, submit_reconciled, submit_to, submit_via_broker,
}
use razortrade.Futures.OrderBook.{to_rf_core_snapshot, to_market_snapshot}
use razortrade.Persistence.Equity.{latest_equity_snapshot, list_open_leverage_positions}
use razortrade.Persistence.Events.{kill_switch_active, record_checklist_evaluation}
use razortrade.Persistence.Orders.Pending.{insert_pending_order}
use razortrade.Persistence.Signals.{
  update_signal, mark_signal_processed, set_signal_retry_after, clear_signal_retry_after,
  insert_by_created, order_by_created, pending_signals,
}
use razortrade.Risk.Checklist.{evaluate}
use razortrade.Risk.Checks.DuplicatePosition.{scan_duplicates, check_duplicate_position}
use razortrade.Risk.Checks.FundingRate.{check_funding_rate}
use razortrade.Risk.Checks.HardLimit.{check_hard_limit}
use razortrade.Risk.Checks.LiquidationDistance.{scan_liquidations, check_liquidation_distance}
use razortrade.Risk.Checks.NotionalCap.{check_notional_cap}
use razortrade.Risk.Checks.SpreadLiquidity.{
  check_depth, check_mid, check_spread, check_spread_liquidity,
}
use razortrade.Risk.Checks.Staleness.{check_staleness}
use razortrade.Risk.Checks.VolatilityRegime.{check_volatility_regime}
use razortrade.Persistence.OrderRows.{update_order, mark_order_submitted, pending_order_for_signal}
use razortrade.Common.{◌≡◌, refl, true, some, none, [], ◌∷◌, map}
use razortrade.Decimal.Fixed.{Fixed, fixed_ops}
use razortrade.Time.{Millis, at, millis_ops}
use razortrade.Core.Order.{Order, buy, post_only, gtc}
use razortrade.Core.ExecutionMode.{dry_run, live}
use razortrade.Persistence.Columns.{text_ops, Text, printed, Text-IsReadBack}
use razortrade.Persistence.Orders.Pending.{OrderTable, pending_row}
use razortrade.Daemon.OrderBuilding.{built, new_order}
use razortrade.Daemon.OrderBuilding.Bounds.{IsBuilt, built-IsBuilt}
use razortrade.Daemon.Submission.{pending_of}
use razortrade.Daemon.Submission.Completion.{Completes}
use razortrade.Daemon.Submission.Readback.{IsFound, inserted-IsFound}
use razortrade.Daemon.SignalProcessor.Routed.{Grows}
use razortrade.Daemon.SignalProcessor.Warranted.{IsWarranted, process_signal-IsWarranted}
use razortrade.Daemon.SignalProcessor.Completion.{process_signal-Completes}
use razortrade.Daemon.SignalProcessor.Polls.{dry_run_submits_nothing, killed_submits_nothing}
use razortrade.Tests.Data.{num, leverage_signal, calm_market, calm}
use razortrade.Tests.World.{
  iso_millis, json, processor, accepting, silent, entry_world, killed_world, signal_row,
}

-- The order that a poll submits for the entry.
abbrev entry_order : Order Fixed Millis
entry_order =
    new_order [] (some 1) "rt-s1" "PI_XBTUSD" buy post_only gtc (num 110) (some (num 49_990)) none
      (at 1200)

submits_entry :
    (poll_once json (processor live (some accepting)) entry_world (at 1200)).submissions
    ≡ (entry_order ∷ [])
unfolding ◌+ℤ◌ ◌-ℤ◌ ◌*ℤ◌ div_ℕ get lookup spread_bps bid_depth ask_depth drawdown_fraction
    leverage_sleeve_realized_pnl leverage_sleeve_unrealized_pnl leverage_sleeve_effective_pnl
    by_symbol extract_atr extract_fx snapshot_for_signal priced_order sized_order
    build_kraken_futures_order summarise summarise_all parse_snapshot materialise load_from
    load_found load_portfolio_state handle_approval act_on with_portfolio with_market process_valid
    process_read process_signal process_all poll_once read_enum row_to_signal reconcile_found
    try_reconcile_uncertain_order after_submit hand_off hand_off_inserted submit_built
    submit_reconciled submit_to submit_via_broker to_rf_core_snapshot to_market_snapshot
    latest_equity_snapshot list_open_leverage_positions kill_switch_active
    record_checklist_evaluation insert_pending_order update_signal mark_signal_processed
    set_signal_retry_after clear_signal_retry_after insert_by_created order_by_created
    pending_signals evaluate scan_duplicates check_duplicate_position check_funding_rate
    check_hard_limit scan_liquidations check_liquidation_distance check_notional_cap check_depth
    check_mid check_spread check_spread_liquidity check_staleness check_volatility_regime
    update_order mark_order_submitted pending_order_for_signal
submits_entry = refl

marks_entry :
    map
      (λ r. r.status)
      (poll_once json (processor live (some accepting)) entry_world (at 1200)).tables.signals
    ≡ ("processed" ∷ [])
unfolding ◌+ℤ◌ ◌-ℤ◌ ◌*ℤ◌ div_ℕ get lookup spread_bps bid_depth ask_depth drawdown_fraction
    leverage_sleeve_realized_pnl leverage_sleeve_unrealized_pnl leverage_sleeve_effective_pnl
    by_symbol extract_atr extract_fx snapshot_for_signal priced_order sized_order
    build_kraken_futures_order summarise summarise_all parse_snapshot materialise load_from
    load_found load_portfolio_state handle_approval act_on with_portfolio with_market process_valid
    process_read process_signal process_all poll_once read_enum row_to_signal reconcile_found
    try_reconcile_uncertain_order after_submit hand_off hand_off_inserted submit_built
    submit_reconciled submit_to submit_via_broker to_rf_core_snapshot to_market_snapshot
    latest_equity_snapshot list_open_leverage_positions kill_switch_active
    record_checklist_evaluation insert_pending_order update_signal mark_signal_processed
    set_signal_retry_after clear_signal_retry_after insert_by_created order_by_created
    pending_signals evaluate scan_duplicates check_duplicate_position check_funding_rate
    check_hard_limit scan_liquidations check_liquidation_distance check_notional_cap check_depth
    check_mid check_spread check_spread_liquidity check_staleness check_volatility_regime
    update_order mark_order_submitted pending_order_for_signal
marks_entry = refl

-- Without an answer of the broker the signal stays pending with a cooldown.
cools_down :
    map
      (λ r. r.retry_after_at)
      (poll_once json (processor live (some silent)) entry_world (at 1200)).tables.signals
    ≡ (some "t2" ∷ [])
unfolding ◌+ℤ◌ ◌-ℤ◌ ◌*ℤ◌ div_ℕ get lookup spread_bps bid_depth ask_depth drawdown_fraction
    leverage_sleeve_realized_pnl leverage_sleeve_unrealized_pnl leverage_sleeve_effective_pnl
    by_symbol extract_atr extract_fx snapshot_for_signal priced_order sized_order
    build_kraken_futures_order summarise summarise_all parse_snapshot materialise load_from
    load_found load_portfolio_state handle_approval act_on with_portfolio with_market process_valid
    process_read process_signal process_all poll_once read_enum row_to_signal reconcile_found
    try_reconcile_uncertain_order after_submit hand_off hand_off_inserted submit_built
    submit_reconciled submit_to submit_via_broker to_rf_core_snapshot to_market_snapshot
    latest_equity_snapshot list_open_leverage_positions kill_switch_active
    record_checklist_evaluation insert_pending_order update_signal mark_signal_processed
    set_signal_retry_after clear_signal_retry_after insert_by_created order_by_created
    pending_signals evaluate scan_duplicates check_duplicate_position check_funding_rate
    check_hard_limit scan_liquidations check_liquidation_distance check_notional_cap check_depth
    check_mid check_spread check_spread_liquidity check_staleness check_volatility_regime
    update_order mark_order_submitted pending_order_for_signal
cools_down = refl

process_signal-IsWarranted_example :
    Grows
      (IsWarranted json
        (processor live (some accepting))
        entry_world
        (signal_row "buy" "trend_entry")
        (at 1200))
      []
      (process_signal json
        (processor live (some accepting))
        entry_world
        (signal_row "buy" "trend_entry")
        (at 1200)).0.submissions
process_signal-IsWarranted_example =
    process_signal-IsWarranted json (processor live (some accepting)) entry_world
      (signal_row "buy" "trend_entry") (at 1200)

process_signal-Completes_example : Completes 1 entry_world (
    process_signal json
      (processor live (some silent))
      entry_world
      (signal_row "buy" "trend_entry")
      (at 1200))
process_signal-Completes_example =
    process_signal-Completes json (processor live (some silent)) entry_world
      (signal_row "buy" "trend_entry") (at 1200)

dry_run_submits_nothing_example :
    (poll_once json (processor dry_run (some accepting)) entry_world (at 1200)).submissions ≡ []
dry_run_submits_nothing_example =
    dry_run_submits_nothing json (processor dry_run (some accepting)) entry_world (at 1200) refl

is_killed : kill_switch_active killed_world.tables.switch_events ≡ true
unfolding kill_switch_active
is_killed = refl

killed_submits_nothing_example :
    (poll_once json (processor live (some accepting)) killed_world (at 1200)).submissions ≡ []
killed_submits_nothing_example =
    killed_submits_nothing json (processor live (some accepting)) killed_world (at 1200) is_killed

builds_entry :
    build_kraken_futures_order leverage_signal calm_market calm.portfolio [] (at 1200)
    ≡ built entry_order
unfolding build_kraken_futures_order sized_order priced_order lookup get ◌*ℤ◌ div_ℕ
builds_entry = refl

built-IsBuilt_example : IsBuilt leverage_signal calm_market calm.portfolio entry_order
built-IsBuilt_example =
    built-IsBuilt leverage_signal calm_market calm.portfolio [] (at 1200) entry_order builds_entry

abbrev no_orders : OrderTable Text
no_orders = record { orders = []; next_order = 1 }

abbrev one_order : OrderTable Text
one_order = record {
  orders = pending_row (printed (num 0)) (pending_of entry_order 1 (at 1200)) 1 ∷ [];
  next_order = 2;
}

inserts_entry :
    insert_pending_order (printed (num 0)) (pending_of entry_order 1 (at 1200)) no_orders
    ≡ some (one_order, 1)
unfolding insert_pending_order
inserts_entry = refl

inserted-IsFound_example : IsFound Text-IsReadBack entry_order 1 "rt-s1" (one_order, 1)
inserted-IsFound_example =
    inserted-IsFound Text-IsReadBack entry_order 1 (at 1200) no_orders "rt-s1" (one_order, 1) refl
      inserts_entry
