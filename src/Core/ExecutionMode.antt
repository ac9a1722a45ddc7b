-- ===== src/Core/ExecutionMode.antt =====
-- crates/rt-core/src/execution_mode.rs.
use razortrade.Common.{Bool, true, false}

pub data ExecutionMode : Type 0 where
  dry_run paper live : ExecutionMode

-- `impl Default`.
abbrev pub default_mode : ExecutionMode
default_mode = dry_run

abbrev pub submits_orders : ExecutionMode → Bool
submits_orders dry_run = false
submits_orders paper = true
submits_orders live = true
