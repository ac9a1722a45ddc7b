-- ===== src/Time.antt =====
-- `chrono::DateTime<Utc>`, a third-party type: the operations that the program calls, as an
-- instance argument. `Utc::now()` is an argument of each function that reads the clock.
use razortrade.Common.{ℕ, Bool}
use razortrade.Common.Int.{ℤ, pos, sub_ℕ, ltb_ℤ}

pub record TimeOps (T : Type 0) : Type 0 where
  pub lt : T → T → Bool
  -- `(a - b).num_milliseconds()`
  pub millis_since : T → T → ℤ

-- Milliseconds since the epoch, to run the examples.
pub data Millis : Type 0 where
  at : ℕ → Millis

abbrev pub millis : Millis → ℕ
millis (at n) = n

instance abbrev pub millis_ops : TimeOps Millis
millis_ops = record {
  lt = λ a b. ltb_ℤ (pos (millis a)) (pos (millis b));
  millis_since = λ a b. sub_ℕ (millis a) (millis b);
}
