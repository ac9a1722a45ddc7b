-- ===== src/Formats.antt =====
-- `chrono`, `serde_json` and the formatting of numbers, third-party code, as instance arguments:
-- the texts that the daemon writes into the tables and reads back.
use razortrade.Common.{ℕ, Bool, Option, String, List}
use razortrade.Core.Portfolio.{PortfolioState}
use razortrade.Risk.Context.{CheckOutcome}
use razortrade.Risk.KillSwitch.{KillSwitchReason}

-- Times as ISO-8601 texts. `text_le` is `<=` of SQLite on texts.
pub record IsoOps (T : Type 0) : Type 0 where
  pub canonical_iso : T → String
  pub parse_from_rfc3339 : String → Option T
  pub plus_seconds : T → ℕ → T
  pub timestamp : T → ℕ
  pub from_millis : ℕ → Option T
  pub text_le : String → String → Bool
  -- `{}` of an integer
  pub show_id : ℕ → String

-- A value of a JSON object: a text, the text of a number, or another value.
pub data JsonValue (X : Type 0) : Type 0 where
  string_value number_value : X → JsonValue X
  other_value : JsonValue X

-- `serde_json`: `is_json` tells whether a text is read, `field` looks up a key of an object.
pub record JsonOps (D T X : Type 0) : Type 0 where
  pub is_json : String → Bool
  pub field : String → String → Option (JsonValue X)
  -- `json!({"kind": kind, …})`, by the kind and the detail
  pub reason_json : String → String → String
  pub outcomes_json : List (String × CheckOutcome D) → String
  pub intent_json : String → Option D → Option D → String
  pub switch_json : KillSwitchReason D → String
  pub portfolio_json : PortfolioState D T → String
