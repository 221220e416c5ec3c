-- ===== src/Risk.antt =====
-- app/risk_manager.py: the risk state of a market and the check of one order. What the module reads
-- from the database is an argument: the results of the aggregating queries are numbers, and the tables
-- that its own loops and filters go through are lists. Counts and limits are natural numbers, since a
-- negative limit acts as 0, which switches the check off. Times are in seconds, and the clock of a
-- cooldown in microseconds.
use Prim.Native.String.{String}
use auto_coin_bot.Common.{ℕ, Bool, true, false, Option, List}
pub mod State
pub mod Market
pub mod Duplicate
pub mod Check
pub mod Example

-- `RiskConfig`, without the fields that only its dashboard shows.
pub record RiskConfig (F : Type 0) : Type 0 where
  pub max_daily_loss_percent : F
  pub max_daily_loss_krw : F
  pub account_equity_krw : F
  pub max_orders_per_day : ℕ
  pub max_entry_orders_per_day : ℕ
  pub max_exit_orders_per_day : ℕ
  pub max_open_positions : ℕ
  pub stop_after_consecutive_losses : ℕ
  pub consecutive_loss_min_krw : F
  pub min_cooldown_seconds : ℕ
  pub loss_cooldown_seconds : ℕ
  pub block_on_balance_mismatch : Bool
  pub block_on_partial_fill : Bool
  pub block_on_open_order : Bool
  pub block_on_open_position : Bool
  pub max_position_ratio_percent : F
  pub max_order_krw : F
  pub volatility_block_percent : F
  pub min_volume_krw : F
  pub min_current_1m_volume_krw : F
  pub min_avg_5m_volume_krw : F
  pub require_completed_candle : Bool

pub data Purpose : Type 0 where
  entry exit_order other_purpose : Purpose

abbrev pub is_entry : Purpose → Bool
is_entry entry = true
is_entry _ = false

abbrev pub is_exit : Purpose → Bool
is_exit exit_order = true
is_exit _ = false

-- The order's side, in upper case.
pub data Side : Type 0 where
  buy bid sell ask : Side
  other_side : String → Side

abbrev pub side_text : Side → String
side_text buy = "BUY"
side_text bid = "BID"
side_text sell = "SELL"
side_text ask = "ASK"
side_text (other_side text) = text

-- `side in {"BUY", "BID"}`
abbrev pub is_buy : Side → Bool
is_buy buy = true
is_buy bid = true
is_buy _ = false

pub data Code : Type 0 where
  base : String → Code
  emergency_stop invalid_mode exchange_not_allowed market_not_allowed : Code
  order_type_not_allowed market_order_disabled max_order_amount : Code
  policy_auto_trading_disabled policy_max_exposure_invalid policy_max_total_exposure : Code
  policy_krw_balance_insufficient policy_daily_loss_limit : Code
  open_position_exists max_open_positions max_symbol_allocation open_order_exists : Code
  partial_fill_unsupported balance_mismatch max_orders_per_day max_entry_orders_per_day : Code
  max_exit_orders_per_day daily_loss_limit consecutive_loss_limit cooldown : Code
  cooldown_after_loss duplicate_request duplicate_candle volatility_filter : Code
  volume_data_unavailable low_1m_volume low_5m_avg_volume incomplete_candle low_volume : Code
