-- ===== src/Persistence/OrderRows.antt =====
-- The rows of the table `orders` and the statements on them
-- (crates/rt-persistence/src/repo.rs and models.rs).
use razortrade.Common.{
  ℕ, Bool, true, false, ◌&&◌, ◌||◌, Option, none, some, List, [], ◌∷◌, String, str_eq, ◌==◌,
  if◌then◌else◌, find?, filter, is_some,
}

pub record OrderRow (X : Type 0) : Type 0 where
  pub id : ℕ
  pub signal_id : Option ℕ
  pub broker : String
  pub broker_order_id : Option String
  pub instrument_symbol : String
  pub side : String
  pub order_type : String
  pub time_in_force : String
  pub quantity : X
  pub limit_price : Option X
  pub stop_price : Option X
  pub status : String
  pub filled_quantity : X
  pub avg_fill_price : Option X
  pub fees_paid : X
  pub created_at : String
  pub updated_at : String
  pub error_message : Option String
  pub cli_ord_id : Option String

pub record OrderFillOutcome (D : Type 0) : Type 0 where
  pub order_id : ℕ
  pub sleeve : Option String
  pub broker : String
  pub instrument_symbol : String
  pub is_buy : Bool
  pub new_filled_quantity : D
  pub new_avg_fill_price : D
  pub new_fees_paid : D
  pub new_status : String
  pub is_fully_filled : Bool

-- The arguments of `apply_fill_to_order`.
pub record OrderFill (D : Type 0) : Type 0 where
  pub broker_order_id : String
  pub fill_qty : D
  pub fill_price : D
  pub fee : D
  pub now_iso : String

-- The parsed columns of the order.
pub record ParsedOrder (D : Type 0) : Type 0 where
  pub is_buy : Bool
  pub quantity : D
  pub old_filled : D
  pub old_fees : D
  pub old_avg : Option D

abbrev pub Filled : Type 0 → Type 0 → Type 0
Filled D X = List (OrderRow X) × Option (OrderFillOutcome D)

-- LEFT JOIN signals s ON s.id = o.signal_id
abbrev pub sleeve_by : ℕ → List (ℕ × String) → Option String
sleeve_by id [] = none
sleeve_by id ((i, sleeve) ∷ signals) = elim (i == id) [
  | true ↦ some sleeve
  | false ↦ sleeve_by id signals
]

abbrev pub sleeve_of : Option ℕ → List (ℕ × String) → Option String
sleeve_of none signals = none
sleeve_of (some id) signals = sleeve_by id signals

abbrev pub is_text : Option String → String → Bool
is_text none s = false
is_text (some t) s = str_eq t s

abbrev pub is_id : Option ℕ → ℕ → Bool
is_id none n = false
is_id (some m) n = m == n

abbrev pub one_of : List String → String → Bool
one_of [] s = false
one_of (t ∷ ts) s = str_eq s t || one_of ts s

module _ {X : Type 0} where
  -- UPDATE orders … WHERE id = ?
  unfoldable pub update_order :
      ℕ → (OrderRow X → OrderRow X) → List (OrderRow X) → List (OrderRow X)
  update_order id f [] = []
  update_order id f (r ∷ rows) = (if r.id == id then f r else r) ∷ update_order id f rows

  unfoldable pub backfill_broker_order_id :
      ℕ → String → String → List (OrderRow X) → List (OrderRow X)
  unfolding update_order
  backfill_broker_order_id id broker_order_id now rows =
      update_order id
        (λ r. if is_some r.broker_order_id then r else record r {
          broker_order_id = some broker_order_id;
          status =
              (if one_of ("pending_submission" ∷ "uncertain" ∷ []) r.status
                then "acknowledged"
                else r.status);
          updated_at = now;
        })
        rows

  unfoldable pub mark_order_submitted :
      ℕ → String → String → String → List (OrderRow X) → List (OrderRow X)
  unfolding update_order
  mark_order_submitted id broker_order_id status now rows =
      update_order id
        (λ r. record r {
          broker_order_id = some broker_order_id;
          status = status;
          updated_at = now;
        })
        rows

  unfoldable pub mark_order_failed : ℕ → String → String → List (OrderRow X) → List (OrderRow X)
  unfolding update_order
  mark_order_failed id message now rows =
      update_order id
        (λ r. record r { status = "failed"; error_message = some message; updated_at = now }) rows

  unfoldable pub mark_order_uncertain : ℕ → String → String → List (OrderRow X) → List (OrderRow X)
  unfolding update_order
  mark_order_uncertain id message now rows =
      update_order id
        (λ r. record r { status = "uncertain"; error_message = some message; updated_at = now })
        rows

  -- `pending_order_for_signal`: rows stand newest first, which is ORDER BY id DESC.
  unfoldable pub pending_order_for_signal : ℕ → List (OrderRow X) → Option (OrderRow X)
  pending_order_for_signal signal_id rows =
      find?
        (λ r.
          is_id r.signal_id signal_id
          && one_of
              ("pending_submission" ∷ "uncertain" ∷ "acknowledged" ∷ "submitted"
                ∷ "partially_filled" ∷ [])
              r.status)
        rows

  unfoldable pub list_live_orders : List (OrderRow X) → List (OrderRow X)
  list_live_orders rows =
      filter
        (λ r.
          one_of
            ("submitted" ∷ "acknowledged" ∷ "partially_filled" ∷ "uncertain" ∷ "pending_submission"
              ∷ [])
            r.status)
        rows

  -- `WHERE o.broker_order_id = ?`, the row that `fetch_optional` yields.
  unfoldable pub find_order : String → List (OrderRow X) → Option (OrderRow X)
  find_order id rows = find? (λ r. is_text r.broker_order_id id) rows
