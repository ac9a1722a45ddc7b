-- ===== src/Persistence/Events.antt =====
-- The tables of kill-switch events, checklist evaluations and dry-run orders
-- (crates/rt-persistence/src/repo.rs and models.rs).
use Prim.Native.String.{len}
use text.Mathlib.Text.{starts_with}
use razortrade.Common.{
  ℕ, ◌+◌, Bool, ◌&&◌, Option, none, List, ◌∷◌, String, is_some, find?, not, ltb,
}

pub record KillSwitchEventRow : Type 0 where
  pub id : ℕ
  pub triggered_at : String
  pub reason_kind : String
  pub reason_detail_json : String
  pub portfolio_snapshot : String
  pub resolved_at : Option String
  pub resolved_by : Option String
  pub resolved_note : Option String

-- `next_event` is the counter of AUTOINCREMENT.
pub record EventTable : Type 0 where
  pub events : List KillSwitchEventRow
  pub next_event : ℕ

-- The id of the new row is the second result.
unfoldable pub record_kill_switch : String → String → String → String → EventTable → EventTable × ℕ
record_kill_switch triggered_at reason_kind detail snapshot t = (
  record {
    events =
        record {
          id = t.next_event;
          triggered_at = triggered_at;
          reason_kind = reason_kind;
          reason_detail_json = detail;
          portfolio_snapshot = snapshot;
          resolved_at = none;
          resolved_by = none;
          resolved_note = none;
        }
        ∷ t.events;
    next_event = t.next_event + 1;
  },
  t.next_event,
)

abbrev pub is_unresolved : KillSwitchEventRow → Bool
is_unresolved e = not (is_some e.resolved_at)

-- WHERE resolved_at IS NULL
unfoldable pub kill_switch_active : EventTable → Bool
kill_switch_active t = is_some (find? is_unresolved t.events)

-- LIKE 'hard_%': the underscore stands for any one character. Kinds are written in lower case.
abbrev pub is_hard : String → Bool
is_hard kind = starts_with kind "hard" && ltb 4 (len kind)

unfoldable pub has_active_hard_trigger : EventTable → Bool
has_active_hard_trigger t = is_some (find? (λ e. is_unresolved e && is_hard e.reason_kind) t.events)

pub record ChecklistEvaluationRow : Type 0 where
  pub signal_id : ℕ
  pub evaluated_at : String
  pub is_approved : Bool
  pub outcomes_json : String

unfoldable pub record_checklist_evaluation :
    ℕ → String → Bool → String → List ChecklistEvaluationRow → List ChecklistEvaluationRow
record_checklist_evaluation signal_id evaluated_at is_approved outcomes rows =
    record {
      signal_id = signal_id;
      evaluated_at = evaluated_at;
      is_approved = is_approved;
      outcomes_json = outcomes;
    }
    ∷ rows

pub record DryRunOrderRow (X : Type 0) : Type 0 where
  pub signal_id : ℕ
  pub recorded_at : String
  pub instrument_symbol : String
  pub side : String
  pub sleeve : String
  pub broker_hint : String
  pub notional_chf : X
  pub estimated_price : Option X
  pub estimated_quantity : Option X
  pub intent_json : String

-- The row is the list of the statement's arguments.
abbrev pub record_dry_run_order :
    {X : Type 0} → DryRunOrderRow X → List (DryRunOrderRow X) → List (DryRunOrderRow X)
record_dry_run_order row rows = row ∷ rows
