-- ===== src/Exit/Rows.antt =====
-- The rows of `live_positions`, `exit_candidates`, `live_order_logs` and `live_strategy_sessions`, as the
-- exits of app/live_exit.py and app/live_recovery.py read and write them. Left out are the columns that
-- they only store: the strategy and its names, the signal and payloads for display, and the times, but
-- for those of the creation of a candidate and of a position and of its opening. A position has the statuses of
-- Slots/Rows. Times are in seconds.
use Prim.Native.String.{String}
use text.Mathlib.Text.{find?}
use auto_coin_bot.Common.{ℕ, Bool, true, false, ◌||◌, Option, none, some, List, is_some}
use auto_coin_bot.Common.Table.{str_eq}
use auto_coin_bot.Risk.{Code}
use auto_coin_bot.Slots.{Status}

-- The statuses of the order logs and of the exit candidates, which take over those of their orders.
pub data OrderStatus : Type 0 where
  pending approved completed previewed blocked submitted waiting partially_filled : OrderStatus
  filled canceled failed stale_canceled : OrderStatus

-- `status IN ('SUBMITTED', 'WAITING', 'PARTIALLY_FILLED')`
abbrev pub is_open : OrderStatus → Bool
is_open submitted = true
is_open waiting = true
is_open partially_filled = true
is_open _ = false

-- `status IN ('SUBMITTED', 'WAITING', 'PARTIALLY_FILLED', 'FILLED', 'CANCELED', 'FAILED')`
abbrev pub is_tried : OrderStatus → Bool
is_tried filled = true
is_tried canceled = true
is_tried failed = true
is_tried st = is_open st

-- `status IN ('PENDING', 'APPROVED', 'SUBMITTED')`
abbrev pub is_active_candidate : OrderStatus → Bool
is_active_candidate pending = true
is_active_candidate approved = true
is_active_candidate submitted = true
is_active_candidate _ = false

abbrev pub is_previewed : OrderStatus → Bool
is_previewed previewed = true
is_previewed _ = false

abbrev pub is_approved : OrderStatus → Bool
is_approved approved = true
is_approved _ = false

abbrev pub is_filled : OrderStatus → Bool
is_filled filled = true
is_filled _ = false

abbrev pub is_partially_filled : OrderStatus → Bool
is_partially_filled partially_filled = true
is_partially_filled _ = false

abbrev pub is_canceled : OrderStatus → Bool
is_canceled canceled = true
is_canceled _ = false

-- The statuses in which a position may be sold: `{"OPEN", "EXIT_CANDIDATE", "EXIT_PENDING"}`.
abbrev pub is_exitable : Status → Bool
is_exitable Status.opened = true
is_exitable Status.exit_candidate = true
is_exitable Status.exit_pending = true
is_exitable _ = false

-- The column `risk_result`: "ALLOWED", or another text or code.
pub data RiskResult : Type 0 where
  allowed : RiskResult
  named : Code → RiskResult

abbrev pub is_allowed : RiskResult → Bool
is_allowed allowed = true
is_allowed (named c) = false

pub data Reason : Type 0 where
  stop_loss take_profit trailing_stop max_hold_time : Reason

pub record Position (F : Type 0) : Type 0 where
  pub id : ℕ
  pub session_id : ℕ
  pub exchange : String
  pub market : String
  pub candidate_strategy_id : ℕ
  pub status : Status
  pub exit_order_uuid : Option String
  pub entry_price : F
  pub entry_volume : F
  pub entry_amount_krw : F
  pub current_price : F
  pub unrealized_pnl : F
  pub realized_pnl : F
  pub stop_loss_price : F
  pub take_profit_price : F
  pub highest_price_since_entry : Option F
  pub trailing_stop_price : Option F
  pub trailing_stop_pct : Option F
  pub opened_at : Option ℕ
  pub created_at : ℕ

pub record Candidate (F : Type 0) : Type 0 where
  pub id : ℕ
  pub position_id : ℕ
  pub session_id : ℕ
  pub exchange : String
  pub market : String
  pub candidate_strategy_id : ℕ
  pub reason : Reason
  pub status : OrderStatus
  pub entry_price : F
  pub current_price : F
  pub target_exit_price : F
  pub volume : F
  pub expected_amount_krw : F
  pub expected_fee : F
  pub expected_pnl : F
  pub risk_result : RiskResult
  pub candle_time_utc : Option ℕ
  pub created_at : ℕ

-- `order_purpose`, in upper case, and `side` as it decides whether an order is a sale.
pub data Purpose : Type 0 where
  entry exit_order : Purpose

abbrev pub is_exit : Purpose → Bool
is_exit exit_order = true
is_exit entry = false

pub record Log (F : Type 0) : Type 0 where
  pub request_id : String
  pub exchange : String
  pub market : String
  pub session_id : Option ℕ
  pub position_id : Option ℕ
  pub exit_candidate_id : Option ℕ
  pub purpose : Purpose
  pub is_sale : Bool
  pub status : OrderStatus
  pub risk_result : RiskResult
  pub order_uuid : Option String
  pub price : F
  pub volume : F
  pub amount_krw : F
  pub executed_volume : F
  pub remaining_volume : F
  pub filled_amount_krw : F
  pub paid_fee : F
  pub actual_pnl : Option F
  pub is_auto_exit : Bool
  pub aggregate_exit_position_ids : List ℕ

-- The columns of a session that point to its position and its order.
pub record Session : Type 0 where
  pub id : ℕ
  pub current_position_id : Option ℕ
  pub current_open_order_uuid : Option String

pub record Store (F : Type 0) : Type 0 where
  pub positions : List (Position F)
  pub candidates : List (Candidate F)
  pub logs : List (Log F)
  pub sessions : List Session
  pub next_candidate_id : ℕ

-- `part in text`
abbrev pub contains : String → String → Bool
contains text part = is_some (find? text part)

-- A request id of the events that a log's changes of status leave behind, as SQL tells them apart.
unfoldable pub is_event_row : String → Bool
is_event_row id =
    contains id "-submitted"
    || contains id "-waiting-"
    || contains id "-partial"
    || contains id "-canceled-"
    || contains id "-filled-"
    || contains id "-failed-"

-- `_is_live_order_status_event_request`
unfoldable pub is_status_event : String → Bool
is_status_event id =
    contains id "-submitted-"
    || contains id "-waiting-"
    || contains id "-partial"
    || contains id "-canceled-"
    || contains id "-filled-"
    || contains id "-failed-"

-- The text of an optional column, where "" is none.
abbrev pub has_text : Option String → String → Bool
has_text o t = elim o [ none ↦ false | some u ↦ str_eq u t ]
