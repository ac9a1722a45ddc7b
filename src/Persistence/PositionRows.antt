-- ===== src/Persistence/PositionRows.antt =====
-- The rows of the table `positions`, the statements on them and the arithmetic of a fill
-- (crates/rt-persistence/src/repo.rs and models.rs). Rows stand newest first, which is the order
-- of falling ids.
use razortrade.Common.{
  ℕ, Bool, true, false, not, ◌&&◌, ◌||◌, Option, none, some, List, [], ◌∷◌, String, str_eq, ◌==◌,
  if◌then◌else◌, find?,
}
use razortrade.Decimal.{DecimalOps}
use razortrade.Persistence.Columns.{DbResult, ok, and_then, divide}

pub record PositionRow (X : Type 0) : Type 0 where
  pub id : ℕ
  pub instrument_symbol : String
  pub broker : String
  pub sleeve : String
  pub quantity : X
  pub avg_entry_price : X
  pub leverage : X
  pub liquidation_price : Option X
  pub opened_at : String
  pub updated_at : String
  pub closed_at : Option String
  pub realized_pnl_chf : Option X
  pub realized_pnl_btc : Option X

-- `next_id` is the counter of AUTOINCREMENT.
pub record PositionTable (X : Type 0) : Type 0 where
  pub rows : List (PositionRow X)
  pub next_id : ℕ

pub data PositionTransition : Type 0 where
  opened added reduced closed flipped : PositionTransition

pub record PositionFillOutcome (D : Type 0) : Type 0 where
  pub position_id : ℕ
  pub new_quantity : D
  pub new_avg_entry_price : Option D
  pub realized_pnl_btc : D
  pub transition : PositionTransition

-- The arguments of `apply_fill_to_position`.
pub record PositionFill (D : Type 0) : Type 0 where
  pub instrument_symbol : String
  pub broker : String
  pub sleeve : String
  pub is_buy : Bool
  pub fill_qty : D
  pub fill_price : D
  pub now_iso : String

module _ {X : Type 0} where
  abbrev pub is_open : PositionRow X → Bool
  is_open r = elim r.closed_at [ none ↦ true | some _ ↦ false ]

  -- WHERE instrument_symbol = ? AND broker = ? AND closed_at IS NULL
  unfoldable pub matches : String → String → PositionRow X → Bool
  matches s b r = str_eq r.instrument_symbol s && str_eq r.broker b && is_open r

  -- … ORDER BY id DESC LIMIT 1
  abbrev pub find_open : String → String → List (PositionRow X) → Option (PositionRow X)
  find_open s b rows = find? (matches s b) rows

  -- UPDATE … WHERE id = ?
  unfoldable pub update_row :
      ℕ → (PositionRow X → PositionRow X) → List (PositionRow X) → List (PositionRow X)
  update_row id f [] = []
  update_row id f (r ∷ rows) = (if r.id == id then f r else r) ∷ update_row id f rows

-- The parsed columns of the open row.
pub record OldPosition (D : Type 0) : Type 0 where
  pub pos_id : ℕ
  pub qty : D
  pub entry : D
  pub realized_btc : D

abbrev pub Applied : Type 0 → Type 0 → Type 0
Applied D X = PositionTable X × PositionFillOutcome D

module _ {D : Type 0} ⦃dec : DecimalOps D⦄ where
  abbrev pub signed : Bool → D → D
  signed is_buy qty = if is_buy then qty else dec.neg qty

  abbrev pub fill_signed : PositionFill D → D
  fill_signed p = signed p.is_buy p.fill_qty

  -- PnL per contract of an inverse perpetual: 1 / entry - 1 / exit.
  unfoldable pub inverse_pnl_per_contract : D → D → DbResult D
  inverse_pnl_per_contract entry exit =
      and_then (divide dec.one entry) λ a. and_then (divide dec.one exit) λ b. ok (dec.sub a b)

  abbrev pub same_side : Bool → D → Bool
  same_side is_buy qty =
      dec.is_sign_positive qty && is_buy || dec.is_sign_negative qty && not is_buy
