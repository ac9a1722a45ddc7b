-- ===== src/Persistence/Signals.antt =====
-- The table `signals` (crates/rt-persistence/src/repo.rs and models.rs).
pub mod Settled
pub mod Queue
use razortrade.Common.{
  ℕ, Bool, true, ◌&&◌, Option, none, some, List, [], ◌∷◌, String, str_eq, ◌==◌, if◌then◌else◌,
  filter, take, find?, map,
}

pub record SignalRow (X : Type 0) : Type 0 where
  pub id : ℕ
  pub created_at : String
  pub instrument_symbol : String
  pub side : String
  pub signal_type : String
  pub sleeve : String
  pub notional_chf : X
  pub leverage : X
  pub metadata_json : Option String
  pub status : String
  pub processed_at : Option String
  pub rejection_reason : Option String
  pub expires_at : Option String
  pub retry_after_at : Option String

-- retry_after_at IS NULL OR retry_after_at <= ?
abbrev pub cooled_down : (String → String → Bool) → String → Option String → Bool
cooled_down le now none = true
cooled_down le now (some retry) = le retry now

module _ {X : Type 0} where
  -- UPDATE signals SET … WHERE id = ?
  unfoldable pub update_signal :
      ℕ → (SignalRow X → SignalRow X) → List (SignalRow X) → List (SignalRow X)
  update_signal id f [] = []
  update_signal id f (r ∷ rows) = (if r.id == id then f r else r) ∷ update_signal id f rows

  abbrev pub processed_row : String → SignalRow X → SignalRow X
  processed_row now r = record r { status = "processed"; processed_at = some now }

  unfoldable pub mark_signal_processed : ℕ → String → List (SignalRow X) → List (SignalRow X)
  unfolding update_signal
  mark_signal_processed id now rows = update_signal id (processed_row now) rows

  abbrev pub rejected_row : String → String → SignalRow X → SignalRow X
  rejected_row now reason r = record r {
    status = "rejected";
    processed_at = some now;
    rejection_reason = some reason;
  }

  unfoldable pub mark_signal_rejected :
      ℕ → String → String → List (SignalRow X) → List (SignalRow X)
  unfolding update_signal
  mark_signal_rejected id now reason rows = update_signal id (rejected_row now reason) rows

  abbrev pub retry_row : Option String → SignalRow X → SignalRow X
  retry_row at_iso r = record r { retry_after_at = at_iso }

  unfoldable pub set_signal_retry_after : ℕ → String → List (SignalRow X) → List (SignalRow X)
  unfolding update_signal
  set_signal_retry_after id retry rows = update_signal id (retry_row (some retry)) rows

  unfoldable pub clear_signal_retry_after : ℕ → List (SignalRow X) → List (SignalRow X)
  unfolding update_signal
  clear_signal_retry_after id rows = update_signal id (retry_row none) rows

  -- The WHERE clause of `pending_signals`.
  abbrev pub is_due : (String → String → Bool) → String → SignalRow X → Bool
  is_due le now r = str_eq r.status "pending" && cooled_down le now r.retry_after_at

  -- ORDER BY created_at ASC; of equal times the older row comes first.
  unfoldable pub insert_by_created :
      (String → String → Bool) → SignalRow X → List (SignalRow X) → List (SignalRow X)
  insert_by_created le r [] = r ∷ []
  insert_by_created le r (s ∷ rows) =
      let rest = insert_by_created le r rows in
      if le s.created_at r.created_at then s ∷ rest else r ∷ s ∷ rows

  unfoldable pub order_by_created :
      (String → String → Bool) → List (SignalRow X) → List (SignalRow X)
  unfolding insert_by_created
  order_by_created le [] = []
  order_by_created le (r ∷ rows) = insert_by_created le r (order_by_created le rows)

  -- `le` is the order of texts.
  unfoldable pub pending_signals :
      (String → String → Bool) → ℕ → String → List (SignalRow X) → List (SignalRow X)
  unfolding order_by_created
  pending_signals le limit now rows = take limit (order_by_created le (filter (is_due le now) rows))

  unfoldable pub find_signal : ℕ → List (SignalRow X) → Option (SignalRow X)
  find_signal id rows = find? (λ r. r.id == id) rows

  -- The id and the sleeve of each signal, which the queries on orders join.
  unfoldable pub sleeves_of : List (SignalRow X) → List (ℕ × String)
  sleeves_of rows = map (λ r. (r.id, r.sleeve)) rows
