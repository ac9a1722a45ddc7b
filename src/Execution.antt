-- ===== src/Execution.antt =====
-- crates/rt-execution/src/lib.rs: the trait `Broker` with its results and errors. An answer may
-- depend on the orders that were submitted before, newest first.
use Prim.Native.String.{◌++◌ as append}
use razortrade.Common.{ℕ, Bool, true, false, Option, String, List}
use razortrade.Core.Order.{Order, OrderStatus}

pub data ExecutionError : Type 0 where
  broker_rejected invalid_response network : String → ExecutionError
  timeout rate_limited : ℕ → ExecutionError
  authentication insufficient_margin unsupported : String → ExecutionError

pub record SubmissionResult (T : Type 0) : Type 0 where
  pub broker_order_id : String
  pub status : OrderStatus
  pub submitted_at : T

pub record OpenOrderSummary (D : Type 0) : Type 0 where
  pub broker_order_id : String
  pub instrument_symbol : String
  pub status : OrderStatus
  pub quantity : D
  pub filled_quantity : D
  pub limit_price : Option D
  pub cli_ord_id : Option String

-- `Result<A, ExecutionError>`.
pub data Answer (A : Type 0) : Type 0 where
  answered : A → Answer A
  failed_with : ExecutionError → Answer A

-- The two methods of the trait that the daemon decides on.
pub record BrokerClient (D T : Type 0) : Type 0 where
  pub submit_order : List (Order D T) → Order D T → Answer (SubmissionResult T)
  pub get_order_by_cli_ord_id : List (Order D T) → String → Answer (Option (OpenOrderSummary D))

-- `matches!(err, ExecutionError::Timeout { .. } | ExecutionError::Network(_))`
abbrev pub is_uncertain : ExecutionError → Bool
is_uncertain (timeout _) = true
is_uncertain (network _) = true
is_uncertain _ = false

-- `Display` of the error; `show` is `{}` of an integer.
abbrev pub error_text : (ℕ → String) → ExecutionError → String
error_text show (broker_rejected m) = append "broker rejected order: " m
error_text show (invalid_response m) = append "broker returned invalid data: " m
error_text show (network m) = append "network error: " m
error_text show (timeout n) = append "timeout after " (append (show n) "s")
error_text show (rate_limited n) =
    append "broker rate-limited us: retry after " (append (show n) " ms")
error_text show (authentication m) = append "authentication failed: " m
error_text show (insufficient_margin m) = append "insufficient margin: " m
error_text show (unsupported m) = append "operation not supported by this broker: " m

-- `broker_error_kind` of crates/rt-daemon/src/signal_processor.rs.
abbrev pub broker_error_kind : ExecutionError → String
broker_error_kind (broker_rejected _) = "broker_rejected"
broker_error_kind (invalid_response _) = "broker_invalid_response"
broker_error_kind (network _) = "broker_network"
broker_error_kind (timeout _) = "broker_timeout"
broker_error_kind (rate_limited _) = "broker_rate_limited"
broker_error_kind (authentication _) = "broker_authentication"
broker_error_kind (insufficient_margin _) = "broker_insufficient_margin"
broker_error_kind (unsupported _) = "broker_unsupported"
