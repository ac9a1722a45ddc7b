-- ===== src/Daemon/SignalProcessor/Warranted.antt =====
-- Which conditions an order has met that a turn of the signal processor submits.
use razortrade.Common.{ℕ, ◌≡◌, refl, inl, inr, false, Bool-cases}
use razortrade.Decimal.{DecimalOps}
use razortrade.Time.{TimeOps}
use razortrade.Formats.{IsoOps, JsonOps}
use razortrade.Core.Order.{Order}
use razortrade.Core.Signal.{Signal}
use razortrade.Core.MarketData.{MarketSnapshot}
use razortrade.Persistence.Columns.{DbResult, ok, decimal_error, invalid_enum, panicked, TextOps}
use razortrade.Persistence.Signals.{SignalRow}
use razortrade.Daemon.Tables.{World}
use razortrade.Daemon.MarketData.{found, snapshot_for_signal}
use razortrade.Daemon.SignalRows.{row_to_signal}
use razortrade.Daemon.SignalProcessor.{
  SignalProcessor, with_market, process_valid, process_read, process_signal, is_expired,
}
use razortrade.Daemon.SignalProcessor.Routed.{
  Grows, Grows-map, Grows-result, IsFunded, with_market-Grows,
}

module _ {D T X : Type 0} ⦃dec : DecimalOps D⦄ ⦃chr : TimeOps T⦄ ⦃txt : TextOps D X⦄
    ⦃iso : IsoOps T⦄ where
  -- The conditions on a signal that has been read: in time, with a market snapshot.
  abbrev pub IsTimely :
      JsonOps D T X → SignalProcessor D T → World D T X → T → Signal D T → Order D T → Type 0
  IsTimely json p w now s o =
      (is_expired s.expires_at now ≡ false)
      × ((m : MarketSnapshot D T) × (snapshot_for_signal json p.market_data s.instrument_symbol
              s.metadata now
            ≡ found m)
          × IsFunded p w s m now o)

  -- All the conditions on an order that the turn for a row submits.
  abbrev pub IsWarranted :
      JsonOps D T X → SignalProcessor D T → World D T X → SignalRow X → T → Order D T → Type 0
  IsWarranted json p w row now o =
      (s : Signal D T) × (row_to_signal json row ≡ ok s) × IsTimely json p w now s o

  process_valid-Grows :
      (json : JsonOps D T X) (p : SignalProcessor D T) (w : World D T X) (s : Signal D T) (now : T)
      → Grows (IsTimely json p w now s) w.submissions (process_valid json p w s now).0.submissions
  unfolding process_valid
  process_valid-Grows json p w s now = elim (Bool-cases (is_expired s.expires_at now)) [
    | inl e ↦ inl (rw e refl)
    | inr e ↦
        let market = snapshot_for_signal json p.market_data s.instrument_symbol s.metadata now in
        Grows-map (λ o. (m : MarketSnapshot D T) × (market ≡ found m) × IsFunded p w s m now o)
          (IsTimely json p w now s) (λ o h. (e, h)) w.submissions
          (process_valid json p w s now).0.submissions
          (Grows-result
            (λ o. (m : MarketSnapshot D T) × (market ≡ found m) × IsFunded p w s m now o)
            (process_valid json p w s now) (with_market json p w s now market) (rw e refl)
            (with_market-Grows json p w s now market))
  ]

  process_read-Grows :
      (json : JsonOps D T X) (p : SignalProcessor D T) (w : World D T X) (id : ℕ) (now : T)
      (read : DbResult (Signal D T))
      → Grows
          (λ o. (s : Signal D T) × (read ≡ ok s) × IsTimely json p w now s o)
          w.submissions
          (process_read json p w id now read).0.submissions
  unfolding process_read
  process_read-Grows json p w id now (ok s) =
      Grows-map (IsTimely json p w now s)
        (λ o. (s' : Signal D T) × (ok s ≡ ok s') × IsTimely json p w now s' o) (λ o h. (s, refl, h))
        w.submissions (process_valid json p w s now).0.submissions
        (process_valid-Grows json p w s now)
  process_read-Grows json p w id now (decimal_error c) = inl refl
  process_read-Grows json p w id now (invalid_enum c v) = inl refl
  process_read-Grows json p w id now panicked = inl refl

  -- The turn of the signal processor for a row submits nothing, or exactly one order, and then the
  -- row was read as a signal that has not expired, its market snapshot and the portfolio were
  -- there, the checklist approved it, the mode is not the dry run, the sleeve is the leverage
  -- sleeve with a broker, no order of the signal waits unless it is uncertain and unknown to the
  -- broker, and the order is the one built from these.
  pub process_signal-IsWarranted :
      (json : JsonOps D T X) (p : SignalProcessor D T) (w : World D T X) (row : SignalRow X)
      (now : T)
      → Grows
          (IsWarranted json p w row now)
          w.submissions
          (process_signal json p w row now).0.submissions
  unfolding process_signal
  process_signal-IsWarranted json p w row now =
      process_read-Grows json p w row.id now (row_to_signal json row)
