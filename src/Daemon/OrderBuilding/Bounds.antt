-- ===== src/Daemon/OrderBuilding/Bounds.antt =====
-- What every order that the signal processor builds satisfies.
use Prim.Native.String.{◌++◌ as append}
use mathlib.Core.Path.{subst}
use razortrade.Common.{
  ◌≡◌, ◌≢◌, ◌↔◌, refl, ap, ◌⊎◌, inl, inr, true, false, Option, none, some, find?, head?, Bool-cases,
  IsFirst, find?-IsFirst, str_eq_iff, arith,
}
use razortrade.Common.Int.{pos}
use razortrade.Decimal.{DecimalOps, ◌<ᵈ◌, ◌≤ᵈ◌, ◌=ᵈ◌}
use razortrade.Formats.{IsoOps}
use razortrade.Core.Instrument.{InstrumentRegistry, crypto_leverage}
use razortrade.Core.Order.{Order, Side, buy, sell, side_eq, market, post_only}
use razortrade.Core.Signal.{Signal, SignalType, trend_exit}
use razortrade.Core.MarketData.{MarketSnapshot, OrderBookLevel}
use razortrade.Core.Portfolio.{PortfolioState, OpenPositionSummary}
use razortrade.Risk.Hazard.Checks.{sleeve_eq_iff}
use razortrade.Daemon.OrderBuilding.{
  level_price, Built, built, unbuildable, is_exit, exit_side, max_contracts_per_order,
  is_exit_target, exit_order, build_exit_order, own_price, priced_order, sized_order,
  build_kraken_futures_order,
}

is_exit_iff : (t : SignalType) → (is_exit t ≡ true) ↔ (t ≡ trend_exit)
is_exit_iff t = ground arith

not_exit : (t : SignalType) → is_exit t ≡ false → t ≢ trend_exit
not_exit t e = ground arith

side_cases : (s : Side) → (s ≡ buy) ⊎ (s ≡ sell)
side_cases buy = inl refl
side_cases sell = inr refl

level_price_lem :
    {D : Type 0} (best : Option (OrderBookLevel D)) (price : D)
    → level_price best ≡ some price
    → (l : OrderBookLevel D) × (best ≡ some l) × (price ≡ l.price)
level_price_lem none price e = absurd (ground arith)
level_price_lem (some l) price e = (l, refl, ground arith)

module _ {D T : Type 0} ⦃dec : DecimalOps D⦄ ⦃iso : IsoOps T⦄ where
  -- An entry: a post-only order of 1 to 10000 contracts at a positive price, that of the best bid
  -- for a purchase and of the best ask for a sale.
  abbrev pub IsEntry : Signal D T → MarketSnapshot D T → Order D T → Type 0
  IsEntry s m o =
      (o.order_type ≡ post_only)
      × (o.reduce_only ≡ none)
      × ((o.quantity <ᵈ dec.one) ≡ false)
      × ((dec.of_int (pos 10_000) <ᵈ o.quantity) ≡ false)
      × ((best : OrderBookLevel D) × (((s.side ≡ buy) × (head? m.order_book.bids ≡ some best))
            ⊎ ((s.side ≡ sell) × (head? m.order_book.asks ≡ some best)))
          × (o.limit_price ≡ some best.price)
          × ((dec.zero <ᵈ best.price) ≡ true))

  -- An open leverage position on the signal's instrument.
  abbrev pub IsTarget : Signal D T → OpenPositionSummary D → Type 0
  IsTarget s p =
      (p.instrument_symbol ≡ s.instrument_symbol)
      × (p.sleeve ≡ crypto_leverage)
      × ((p.quantity =ᵈ dec.zero) ≡ false)

  -- An exit: a reduce-only market order of at least one contract with the size of the first target,
  -- a sale if that is long and else a purchase.
  abbrev pub IsExit : Signal D T → PortfolioState D T → Order D T → Type 0
  IsExit s pf o =
      (o.order_type ≡ market)
      × (o.reduce_only ≡ some true)
      × ((o.quantity <ᵈ dec.one) ≡ false)
      × ((p : OpenPositionSummary D) × IsFirst (IsTarget s) pf.open_positions p
          × (o.quantity ≡ dec.abs p.quantity)
          × ((((dec.zero <ᵈ p.quantity) ≡ true) × (s.side ≡ sell))
              ⊎ (((dec.zero <ᵈ p.quantity) ≡ false) × (s.side ≡ buy))))

  -- The order carries the client id, the symbol and the side of its signal.
  abbrev pub IsOf : Signal D T → Order D T → Type 0
  IsOf s o =
      (o.cli_ord_id ≡ some (append "rt-s" (iso.show_id s.id)))
      × (o.instrument.symbol ≡ s.instrument_symbol)
      × (o.side ≡ s.side)

  abbrev pub IsBuilt : Signal D T → MarketSnapshot D T → PortfolioState D T → Order D T → Type 0
  IsBuilt s m pf o =
      IsOf s o
      × (((s.signal_type ≢ trend_exit) × IsEntry s m o)
          ⊎ ((s.signal_type ≡ trend_exit) × IsExit s pf o))

  is_exit_target_iff :
      (s : Signal D T) (p : OpenPositionSummary D) → (is_exit_target s p ≡ true) ↔ IsTarget s p
  is_exit_target_iff s p =
      ground (arith, str_eq_iff p.instrument_symbol s.instrument_symbol, sleeve_eq_iff p.sleeve)

  exit_side_lem :
      (s : Signal D T) (p : OpenPositionSummary D)
      → side_eq s.side (exit_side p) ≡ true
      → (((dec.zero <ᵈ p.quantity) ≡ true) × (s.side ≡ sell))
        ⊎ (((dec.zero <ᵈ p.quantity) ≡ false) × (s.side ≡ buy))
  exit_side_lem s p e = ground arith

  own_price_lem :
      (s : Signal D T) (m : MarketSnapshot D T) (price : D)
      → own_price s m ≡ some price
      → (best : OrderBookLevel D) × (((s.side ≡ buy) × (head? m.order_book.bids ≡ some best))
          ⊎ ((s.side ≡ sell) × (head? m.order_book.asks ≡ some best)))
        × (price ≡ best.price)
  own_price_lem s m price e = elim (side_cases s.side) [
    | inl b ↦
        let (l, best, same) =
          level_price_lem (head? m.order_book.bids) price (rw (own_price, b) at e) in
        (l, inl (b, best), same)
    | inr b ↦
        let (l, best, same) =
          level_price_lem (head? m.order_book.asks) price (rw (own_price, b) at e) in
        (l, inr (b, best), same)
  ]

  abbrev pub Holds : (Order D T → Type 0) → Built D T → Type 0
  Holds P (built o) = P o
  Holds P (unbuildable kind detail) = Unit

  exit_order-Holds :
      (s : Signal D T) (pf : PortfolioState D T) (instruments : InstrumentRegistry D) (now : T)
      (found : Option (OpenPositionSummary D))
      → find? (is_exit_target s) pf.open_positions ≡ found
      → Holds (λ o. IsOf s o × IsExit s pf o) (exit_order s instruments now found)
  unfolding exit_order
  exit_order-Holds s pf instruments now none h = tt
  exit_order-Holds s pf instruments now (some p) h =
      elim (Bool-cases (side_eq s.side (exit_side p))) [
        | inr e ↦ rw e tt
        | inl e ↦ elim (Bool-cases (dec.abs p.quantity <ᵈ dec.one)) [
          | inl q ↦ rw (e, q) tt
          | inr q ↦
              let first =
                find?-IsFirst (IsTarget s) (is_exit_target s) (is_exit_target_iff s)
                  pf.open_positions p h in
              rw (e, q) ((refl, refl, refl), (refl, refl, q, (p, first, refl, exit_side_lem s p e)))
        ]
      ]

  priced_order-Holds :
      (s : Signal D T) (m : MarketSnapshot D T) (instruments : InstrumentRegistry D) (now : T)
      (quantity : D) (price : Option D)
      → own_price s m ≡ price
      → (quantity <ᵈ dec.one) ≡ false
      → (max_contracts_per_order <ᵈ quantity) ≡ false
      → Holds (λ o. IsOf s o × IsEntry s m o) (priced_order s instruments now quantity price)
  unfolding priced_order
  priced_order-Holds s m instruments now quantity none h low high = tt
  priced_order-Holds s m instruments now quantity (some price) h low high =
      elim (Bool-cases (dec.zero <ᵈ price)) [
        | inl e ↦
            let (best, side, same) = own_price_lem s m price h in
            rw e (
              (refl, refl, refl),
              (refl, refl, low, high, (best, side, ap some same, rw same at e)),
            )
        | inr e ↦ rw e tt
      ]

  sized_order-Holds :
      (s : Signal D T) (m : MarketSnapshot D T) (instruments : InstrumentRegistry D) (now : T)
      (notional : Option D)
      → Holds (λ o. IsOf s o × IsEntry s m o) (sized_order s m instruments now notional)
  unfolding sized_order
  sized_order-Holds s m instruments now none = tt
  sized_order-Holds s m instruments now (some notional) =
      let quantity = dec.floor notional in
      elim (Bool-cases (quantity <ᵈ dec.one)) [
        | inl low ↦ rw low tt
        | inr low ↦ elim (Bool-cases (max_contracts_per_order <ᵈ quantity)) [
          | inl high ↦ rw (low, high) tt
          | inr high ↦
              rw (low, high)
                (priced_order-Holds s m instruments now quantity (own_price s m) refl low high)
        ]
      ]

  Holds-mono :
      (P Q : Order D T → Type 0)
      → ((o : Order D T) → P o → Q o)
      → (b : Built D T) → Holds P b
      → Holds Q b
  Holds-mono P Q f (built o) h = f o h
  Holds-mono P Q f (unbuildable kind detail) h = tt

  build-Holds :
      (s : Signal D T) (m : MarketSnapshot D T) (pf : PortfolioState D T)
      (instruments : InstrumentRegistry D) (now : T)
      → Holds (IsBuilt s m pf) (build_kraken_futures_order s m pf instruments now)
  unfolding build_kraken_futures_order build_exit_order
  build-Holds s m pf instruments now = elim (Bool-cases (is_exit s.signal_type)) [
    | inl e ↦ rw e (
        Holds-mono (λ o. IsOf s o × IsExit s pf o) (IsBuilt s m pf)
          (λ o (a, b). (a, inr ((is_exit_iff s.signal_type).0 e, b)))
          (build_exit_order s pf instruments now)
          (exit_order-Holds s pf instruments now (find? (is_exit_target s) pf.open_positions) refl))
    | inr e ↦ elim (Bool-cases (m.fx_quote_per_chf ≤ᵈ dec.zero)) [
      | inl n ↦ rw (e, n) tt
      | inr n ↦
          rw (e, n)
            (Holds-mono (λ o. IsOf s o × IsEntry s m o) (IsBuilt s m pf)
              (λ o (a, b). (a, inl (not_exit s.signal_type e, b)))
              (sized_order s m instruments now (dec.checked_mul s.notional_chf m.fx_quote_per_chf))
              (sized_order-Holds s m instruments now
                (dec.checked_mul s.notional_chf m.fx_quote_per_chf)))
    ]
  ]

  -- An order that is built carries the client id, symbol and side of its signal. For an entry it is
  -- a post-only order of 1 to 10000 contracts at the best price of the own side of the book, which
  -- is positive. For a trend exit it is a reduce-only market order of at least one contract, with
  -- the exact size of the first matching open position and on the side that closes it.
  pub built-IsBuilt :
      (s : Signal D T) (m : MarketSnapshot D T) (pf : PortfolioState D T)
      (instruments : InstrumentRegistry D) (now : T) (o : Order D T)
      → build_kraken_futures_order s m pf instruments now ≡ built o
      → IsBuilt s m pf o
  built-IsBuilt s m pf instruments now o e =
      subst (Holds (IsBuilt s m pf)) e (build-Holds s m pf instruments now)
