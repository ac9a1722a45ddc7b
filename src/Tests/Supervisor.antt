-- ===== src/Tests/Supervisor.antt =====
-- Tests and examples of the supervisor and the portfolio loader.
use razortrade.Common.{◌≡◌, ◌⊎◌, refl, true, false, some, none, [], ◌∷◌}
use razortrade.Common.Int.{◌+ℤ◌, ◌*ℤ◌, div_ℕ}
use razortrade.Decimal.{◌≤ᵈ◌}
use razortrade.Decimal.Fixed.{Fixed, fixed_ops}
use razortrade.Time.{Millis, at, millis_ops}
use razortrade.Core.Order.{Order, sell, market, ioc}
use razortrade.Core.ExecutionMode.{live}
use razortrade.Core.Instrument.{crypto_leverage, lookup, get}
use razortrade.Core.Portfolio.{
  PortfolioState, leverage_sleeve_effective_pnl, leverage_sleeve_realized_pnl,
  leverage_sleeve_unrealized_pnl, drawdown_fraction,
}
use razortrade.Risk.Config.{default_config}
use razortrade.Risk.KillSwitch.{evaluate_kill_switch, no_change}
use razortrade.Persistence.Columns.{Text, text_ops, ok, Fixed-IsExact}
use razortrade.Persistence.Events.{record_kill_switch, kill_switch_active, has_active_hard_trigger}
use razortrade.Persistence.Equity.{latest_equity_snapshot, list_open_leverage_positions}
use razortrade.Daemon.Tables.{World}
use razortrade.Daemon.PortfolioLoader.{
  summary_of, portfolio_of, summarise, summarise_all, parse_snapshot, materialise, load_from,
  load_found, load_portfolio_state,
}
use razortrade.Daemon.OrderBuilding.{new_order}
use razortrade.Daemon.SignalProcessor.{poll_once}
use razortrade.Daemon.Supervisor.{
  close_position, close_all, panic_close_leverage_positions, react, evaluate_loaded,
  evaluate_kill_switch_once, supervise,
}
use razortrade.Daemon.Supervisor.PanicClose.{PanicCloses, panic_tick-ClosesEach}
use razortrade.Daemon.Supervisor.Ticks.{panic_close_once, tick_silences_poll}
use razortrade.Tests.Data.{num, minus}
use razortrade.Tests.Rows.{long_row}
use razortrade.Tests.World.{iso_millis, json, processor, accepting, world, tables, signal_row}

-- A long position of ten contracts and an open loss of 1300.
abbrev losing_world : World Fixed Millis Text
losing_world = world (tables (signal_row "buy" "trend_entry" ∷ []) (long_row ∷ []) [] (minus 1300))

abbrev losing_portfolio : PortfolioState Fixed Millis
losing_portfolio =
    portfolio_of
      (record {
        crypto_spot_value = num 0;
        etf_value = num 0;
        leverage_value = num 5000;
        cash = num 5000;
        realized_leverage = num 0;
        unrealized_leverage = minus 1300;
        nav_per_unit = num 1;
        nav_hwm_per_unit = num 1;
        total_units = num 10_000;
      })
      (at 1200) false (summary_of "PI_XBTUSD" crypto_leverage (num 10) ∷ [])

loads_losing : (load_portfolio_state losing_world.tables (at 1200)).1 ≡ ok losing_portfolio
unfolding load_portfolio_state load_found load_from materialise parse_snapshot summarise_all
    summarise list_open_leverage_positions latest_equity_snapshot kill_switch_active ◌+ℤ◌
loads_losing = refl

-- The position is sold with the id "7" of the event in the client id.
abbrev closing_order : Order Fixed Millis
closing_order =
    new_order [] none "rt-panic-7-7" "PI_XBTUSD" sell market ioc (num 10) none (some true) (at 1200)

closes_position :
    (evaluate_kill_switch_once json default_config []
      (some accepting)
      losing_world
      (at 1200)).0.submissions
    ≡ (closing_order ∷ [])
unfolding evaluate_kill_switch_once evaluate_loaded react panic_close_leverage_positions close_all
    close_position load_portfolio_state load_found load_from materialise parse_snapshot
    summarise_all summarise list_open_leverage_positions latest_equity_snapshot kill_switch_active
    record_kill_switch has_active_hard_trigger evaluate_kill_switch leverage_sleeve_effective_pnl
    leverage_sleeve_realized_pnl leverage_sleeve_unrealized_pnl drawdown_fraction lookup get ◌+ℤ◌
    ◌*ℤ◌ div_ℕ
closes_position = refl

is_breached :
    (leverage_sleeve_effective_pnl losing_portfolio
      ≤ᵈ default_config.kill_switch_effective_threshold_chf)
    ≡ true
unfolding leverage_sleeve_effective_pnl leverage_sleeve_realized_pnl leverage_sleeve_unrealized_pnl
    ◌+ℤ◌ ◌*ℤ◌
is_breached = refl

is_quiet : has_active_hard_trigger losing_world.tables.switch_events ≡ false
unfolding has_active_hard_trigger
is_quiet = refl

panic_tick-ClosesEach_example :
    PanicCloses Fixed-IsExact losing_world
      (evaluate_kill_switch_once json default_config [] (some accepting) losing_world (at 1200)).0
panic_tick-ClosesEach_example =
    panic_tick-ClosesEach Fixed-IsExact json default_config [] accepting losing_world (at 1200)
      losing_portfolio loads_losing is_breached is_quiet

-- The world after the tick that closes the position.
abbrev closed_world : World Fixed Millis Text
closed_world =
    (evaluate_kill_switch_once json default_config [] (some accepting) losing_world (at 1200)).0

panic_close_once_example :
    (closed_world.submissions ≡ losing_world.submissions)
    ⊎ ((supervise json default_config []
          (some accepting)
          closed_world
          (at 1300 ∷ at 1400 ∷ [])).submissions
        ≡ closed_world.submissions)
panic_close_once_example =
    panic_close_once json default_config [] (some accepting) losing_world (at 1200)
      (at 1300 ∷ at 1400 ∷ [])

tick_silences_poll_example :
    (evaluate_kill_switch losing_portfolio default_config (at 1200) ≡ no_change)
    ⊎ ((poll_once json (processor live (some accepting)) closed_world (at 1300)).submissions
        ≡ closed_world.submissions)
tick_silences_poll_example =
    tick_silences_poll json default_config [] (some accepting) (processor live (some accepting))
      losing_world (at 1200) (at 1300) losing_portfolio loads_losing
