-- ===== src/Daemon/PortfolioLoader/Agreement.antt =====
-- The loaded portfolio agrees with the tables.
use mathlib.Core.Path.{subst}
use razortrade.Risk.Hazard.Spec.{Any}
use razortrade.Common.{
  ◌↔◌, Selects, ◌≡◌, refl, ap, ◌∙◌, inl, inr, Bool, true, Option, none, some, List, [], ◌∷◌, String,
  str_eq, Option-cases, All, All-filter, arith,
}
use razortrade.Decimal.{DecimalOps}
use razortrade.Formats.{IsoOps}
use razortrade.Core.Instrument.{crypto_leverage}
use razortrade.Core.Portfolio.{PortfolioState, OpenPositionSummary}
use razortrade.Persistence.Columns.{ok, and_then, and_then-ok, ok-injective, TextOps, parse}
use razortrade.Persistence.PositionRows.{PositionRow}
use razortrade.Persistence.Events.{KillSwitchEventRow, kill_switch_active}
use razortrade.Persistence.Equity.{
  EquitySnapshotRow, latest_equity_snapshot, is_open_leverage, list_open_leverage_positions,
}
use razortrade.Daemon.Tables.{Tables}
use razortrade.Daemon.PortfolioLoader.{
  position_sleeve, summary_of, summarise, summarise_all, portfolio_of, parse_snapshot, materialise,
  load_from, load_found, load_portfolio_state, bootstrapped,
}

module _ {D X : Type 0} ⦃txt : TextOps D X⦄ where
  -- A position of the portfolio stands for a row of the table.
  abbrev pub IsSummary : PositionRow X → OpenPositionSummary D → Type 0
  IsSummary r p =
      (p.instrument_symbol ≡ r.instrument_symbol)
      × (p.sleeve ≡ crypto_leverage)
      × (txt.from_str r.quantity ≡ some p.quantity)

  -- The positions stand for the rows, one for one and in order.
  abbrev pub AreSummaries : List (PositionRow X) → List (OpenPositionSummary D) → Type 0
  AreSummaries [] [] = Unit
  AreSummaries [] (p ∷ ps) = ⊥
  AreSummaries (r ∷ rows) [] = ⊥
  AreSummaries (r ∷ rows) (p ∷ ps) = IsSummary r p × AreSummaries rows ps

  pub parse-ok : (c : String) (x : X) (d : D) → parse c x ≡ ok d → txt.from_str x ≡ some d
  parse-ok c x d e = elim (Option-cases (txt.from_str x)) [
    | inl n ↦ ground arith
    | inr (a, s) ↦ s ∙ ap some (ok-injective (rw (parse, s) at e))
  ]

  summarise-IsSummary :
      (r : PositionRow X) (p : OpenPositionSummary D)
      → str_eq r.sleeve "crypto_leverage" ≡ true
      → summarise r ≡ ok p
      → IsSummary r p
  unfolding summarise
  summarise-IsSummary r p sl e =
      let (qty, parsed, rest) =
        and_then-ok (parse "positions.quantity" r.quantity)
          (λ qty.
            and_then (position_sleeve r.sleeve)
              λ sleeve. ok (summary_of r.instrument_symbol sleeve qty))
          e in
      let same = rw sl at rest in
      subst (IsSummary r) {x = summary_of r.instrument_symbol crypto_leverage qty}
        (ok-injective same) (refl, refl, parse-ok "positions.quantity" r.quantity qty parsed)

  summarise_all-AreSummaries :
      (rows : List (PositionRow X)) (ps : List (OpenPositionSummary D))
      → All (λ (r : PositionRow X). str_eq r.sleeve "crypto_leverage" ≡ true) rows
      → summarise_all rows ≡ ok ps
      → AreSummaries rows ps
  unfolding summarise_all
  summarise_all-AreSummaries [] ps h e = subst (AreSummaries []) {x = []} (ok-injective e) tt
  summarise_all-AreSummaries (r ∷ rows) ps h e =
      let (p, first, rest) =
        and_then-ok (summarise r) (λ p. and_then (summarise_all rows) λ qs. ok (p ∷ qs)) e in
      let (qs, others, same) = and_then-ok (summarise_all rows) (λ qs. ok (p ∷ qs)) rest in
      subst (AreSummaries (r ∷ rows)) {x = p ∷ qs} (ok-injective same)
        (summarise-IsSummary r p h.0 first, summarise_all-AreSummaries rows qs h.1 others)

module _ {X : Type 0} where
  open_leverage-sleeve :
      (nonzero : X → Bool) (rows : List (PositionRow X))
      → All
          (λ (r : PositionRow X). str_eq r.sleeve "crypto_leverage" ≡ true)
          (list_open_leverage_positions nonzero rows)
  unfolding list_open_leverage_positions
  open_leverage-sleeve nonzero rows =
      All-filter (λ (r : PositionRow X). str_eq r.sleeve "crypto_leverage" ≡ true)
        (is_open_leverage nonzero) (λ r e. ground arith) rows

module _ {D T X : Type 0} ⦃dec : DecimalOps D⦄ ⦃txt : TextOps D X⦄ where
  -- The same by the queries of the loader.
  abbrev pub Mirrors : Tables X → T → PortfolioState D T → Type 0
  Mirrors t now pf =
      (pf.snapshot_at ≡ now)
      × (pf.kill_switch_active ≡ kill_switch_active t.switch_events)
      × AreSummaries (list_open_leverage_positions txt.is_nonzero_real t.positions.rows)
          pf.open_positions

  load_from-Mirrors :
      (t : Tables X) (now : T) (snap : Option (EquitySnapshotRow X)) (pf : PortfolioState D T)
      → load_from t now snap ≡ ok pf
      → Mirrors t now pf
  unfolding load_from materialise
  load_from-Mirrors t now none pf e = absurd (ground arith)
  load_from-Mirrors t now (some snap) pf e =
      let rows = list_open_leverage_positions txt.is_nonzero_real t.positions.rows in
      let active = kill_switch_active t.switch_events in
      let (ps, summarised, rest) =
        and_then-ok (summarise_all rows) (λ ps. materialise snap now active ps) e in
      let (v, parsed, same) =
        and_then-ok (parse_snapshot snap) (λ v. ok (portfolio_of v now active ps)) rest in
      subst (Mirrors t now) {x = portfolio_of v now active ps} (ok-injective same) (
        refl,
        refl,
        summarise_all-AreSummaries rows ps
            (open_leverage-sleeve txt.is_nonzero_real t.positions.rows) summarised,
      )

module _ {D T X : Type 0} ⦃dec : DecimalOps D⦄ ⦃txt : TextOps D X⦄ ⦃iso : IsoOps T⦄ where
  pub load-Mirrors :
      (t : Tables X) (now : T) (pf : PortfolioState D T)
      → (load_portfolio_state t now).1 ≡ ok pf
      → Mirrors t now pf
  unfolding load_portfolio_state load_found
  load-Mirrors t now pf e =
      elim (Option-cases (latest_equity_snapshot iso.text_le t.equity.snapshots)) [
        | inl n ↦
            let t' = bootstrapped txt.zero_text txt.one_text t (iso.canonical_iso now) in
            load_from-Mirrors t' now (latest_equity_snapshot iso.text_le t'.equity.snapshots) pf
              (rw n at e)
        | inr (s, n) ↦ load_from-Mirrors t now (some s) pf (rw n at e)
      ]

-- The row is not closed, of the leverage sleeve and not zero as a number of SQLite.
abbrev pub IsOpenLeverage : {X : Type 0} → (X → Bool) → PositionRow X → Type 0
IsOpenLeverage nonzero r =
    (r.closed_at ≡ none) × (r.sleeve ≡ "crypto_leverage") × (nonzero r.quantity ≡ true)

module _ {D T X : Type 0} ⦃dec : DecimalOps D⦄ ⦃txt : TextOps D X⦄ where
  -- The portfolio agrees with the tables: the kill switch is on exactly if an event is unresolved,
  -- and the positions stand for the open leverage rows.
  abbrev pub Agrees : Tables X → T → PortfolioState D T → Type 0
  Agrees t now pf =
      (pf.snapshot_at ≡ now)
      × ((pf.kill_switch_active ≡ true)
          ↔ Any (λ (e : KillSwitchEventRow). e.resolved_at ≡ none) t.switch_events.events)
      × ((rows : List (PositionRow X)) × Selects (IsOpenLeverage txt.is_nonzero_real)
            t.positions.rows rows
          × AreSummaries rows pf.open_positions)
