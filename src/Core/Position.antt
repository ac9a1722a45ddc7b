-- ===== src/Core/Position.antt =====
-- crates/rt-core/src/position.rs.
use razortrade.Common.{ℕ, Bool, Option, none, some, String, if◌then◌else◌}
use razortrade.Decimal.{DecimalOps, ◌<ᵈ◌}
use razortrade.Core.Instrument.{Broker, Sleeve}

pub record Position (D T : Type 0) : Type 0 where
  pub id : ℕ
  pub instrument_symbol : String
  pub broker : Broker
  pub sleeve : Sleeve
  pub quantity : D
  pub avg_entry_price : D
  pub leverage : D
  pub liquidation_price : Option D
  pub opened_at : T
  pub updated_at : T

module _ {D : Type 0} ⦃dec : DecimalOps D⦄ where
  -- By the liquidation price.
  abbrev pub distance_from : D → D → Option D → Option D
  distance_from mark_price atr_absolute none = none
  distance_from mark_price atr_absolute (some liq) =
      if dec.is_zero atr_absolute
      then none
      else some (dec.div (dec.abs (dec.sub mark_price liq)) atr_absolute)

module _ {D T : Type 0} ⦃dec : DecimalOps D⦄ where
  abbrev pub is_long : Position D T → Bool
  is_long p = dec.zero <ᵈ p.quantity

  abbrev pub is_short : Position D T → Bool
  is_short p = p.quantity <ᵈ dec.zero

  abbrev pub notional : Position D T → D → D
  notional p mark_price = dec.abs (dec.mul p.quantity mark_price)

  abbrev pub unrealized_pnl : Position D T → D → D
  unrealized_pnl p mark_price = dec.mul (dec.sub mark_price p.avg_entry_price) p.quantity

  abbrev pub distance_to_liquidation_atrs : Position D T → D → D → Option D
  distance_to_liquidation_atrs p mark_price atr_absolute =
      distance_from mark_price atr_absolute p.liquidation_price
