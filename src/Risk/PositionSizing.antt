-- ===== src/Risk/PositionSizing.antt =====
-- crates/rt-risk/src/position_sizing.rs.
use razortrade.Common.{◌||◌, Option, none, some, if◌then◌else◌}
use razortrade.Decimal.{DecimalOps}

pub record PositionSizing (D : Type 0) : Type 0 where
  pub quantity : D
  pub stop_distance_quote : D
  pub risk_chf : D

module _ {D : Type 0} ⦃dec : DecimalOps D⦄ where
  unfoldable pub atr_based_size : D → D → D → D → D → Option (PositionSizing D)
  atr_based_size equity risk_fraction atr stop_multiplier price =
      let risk = dec.mul equity risk_fraction in
      let stop_distance = dec.mul atr stop_multiplier in
      let stop_distance_chf = dec.mul stop_distance price in
      if dec.is_zero atr || dec.is_zero price
      then none
      else if dec.is_zero stop_distance_chf
      then none
      else some (record {
        quantity = dec.div risk stop_distance_chf;
        stop_distance_quote = stop_distance;
        risk_chf = risk;
      })
