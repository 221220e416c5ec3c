-- ===== src/Risk/Example.antt =====
-- Settings of the risk manager and a quiet database, for the tests.
use Prim.Native.Nat.{◌*◌}
use auto_coin_bot.Common.{true, false, none, some, [], ℤ}
use auto_coin_bot.Common.Fixed.{fixed}
use auto_coin_bot.Risk.{RiskConfig}
use auto_coin_bot.Risk.Check.{Facts}

abbrev pub config : RiskConfig ℤ
config = record {
  max_daily_loss_percent = fixed.lit 20 0;
  max_daily_loss_krw = fixed.lit 10000 0;
  account_equity_krw = fixed.lit 300000 0;
  max_orders_per_day = 3;
  max_entry_orders_per_day = 2;
  max_exit_orders_per_day = 3;
  max_open_positions = 5;
  stop_after_consecutive_losses = 4;
  consecutive_loss_min_krw = fixed.lit 500 0;
  min_cooldown_seconds = 1800;
  loss_cooldown_seconds = 0;
  block_on_balance_mismatch = true;
  block_on_partial_fill = true;
  block_on_open_order = true;
  block_on_open_position = true;
  max_position_ratio_percent = fixed.lit 20 0;
  max_order_krw = fixed.lit 30000 0;
  volatility_block_percent = fixed.lit 2 0;
  min_volume_krw = fixed.lit 0 0;
  min_current_1m_volume_krw = fixed.lit 30000000 0;
  min_avg_5m_volume_krw = fixed.lit 50000000 0;
  require_completed_candle = true;
}

abbrev pub facts : Facts ℤ
facts = record {
  queries = record {
    daily_order_count = 1;
    daily_entry_count = 1;
    daily_exit_count = 0;
    last_order_time_utc = some 1000;
    realized_pnl = none;
    unrealized_pnl = none;
    last_loss_time_utc = none;
    partial_fill = false;
    closed_pnls = [];
    open_order_count = 0;
    open_position_count = 0;
    latest_balance_mismatch = false;
    emergency_stopped = false;
  };
  candidate = none;
  market_is_live_allowed = false;
  policy = record {
    auto_trading_enabled = true;
    max_total_exposure_krw = some (fixed.lit 200000 0);
    daily_loss_limit_pct = some (fixed.lit 5 0);
  };
  positions = [];
  open_for_strategy = false;
  exchange_open_positions = 0;
  order_logs = [];
  now_us = 3000 * 1000000;
}
