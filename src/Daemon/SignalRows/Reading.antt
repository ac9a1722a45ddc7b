-- ===== src/Daemon/SignalRows/Reading.antt =====
-- What `row_to_signal` keeps of a row.
use razortrade.Common.{◌≡◌, refl}
use razortrade.Formats.{IsoOps, JsonOps}
use razortrade.Core.Signal.{Signal}
use razortrade.Persistence.Columns.{Yields, and_then-Yields, TextOps, parse}
use razortrade.Persistence.Signals.{SignalRow}
use razortrade.Daemon.SignalRows.{
  or_invalid, read_enum, sides, signal_types, sleeves, signal_statuses, read_time, read_time_opt,
  read_metadata, row_to_signal,
}

module _ {D T X : Type 0} ⦃txt : TextOps D X⦄ ⦃iso : IsoOps T⦄ where
  pub row_to_signal-id :
      (json : JsonOps D T X) (r : SignalRow X)
      → Yields (λ (s : Signal D T). s.id ≡ r.id) (row_to_signal json r)
  unfolding row_to_signal
  row_to_signal-id json r =
      let P : Signal D T → Type 0 = λ s. s.id ≡ r.id in
      and_then-Yields P (or_invalid "side" r.side (read_enum sides r.side)) _ λ side.
        and_then-Yields P
          (or_invalid "signal_type" r.signal_type (read_enum signal_types r.signal_type)) _
          λ signal_type.
            and_then-Yields P (or_invalid "sleeve" r.sleeve (read_enum sleeves r.sleeve)) _
              λ sleeve. and_then-Yields P (parse {D = D} "notional" r.notional_chf) _ λ notional.
                and_then-Yields P (parse {D = D} "leverage" r.leverage) _ λ leverage.
                  and_then-Yields P (read_time {T = T} "created_at" r.created_at) _ λ created_at.
                    and_then-Yields P (read_metadata json r.metadata_json) _ λ metadata.
                      and_then-Yields P
                        (or_invalid "status" r.status (read_enum signal_statuses r.status)) _
                        λ status.
                          and_then-Yields P (read_time_opt {T = T} "processed_at" r.processed_at) _
                            λ processed_at.
                              and_then-Yields P (read_time_opt {T = T} "expires_at" r.expires_at) _
                                λ expires_at. refl
