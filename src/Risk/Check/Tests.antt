-- ===== src/Risk/Check/Tests.antt =====
-- One automatic purchase through the check, and the theorems on it.
use Prim.Native.Nat.{◌*◌}
use auto_coin_bot.Common.{◌≡◌, refl, true, false, none, some, ℤ}
use auto_coin_bot.Common.Float.{lt}
use auto_coin_bot.Common.Fixed.{fixed, fixed-IsOrdered}
use auto_coin_bot.Risk
use auto_coin_bot.Risk.{RiskConfig}
use auto_coin_bot.Risk.Example.{config, facts}
use auto_coin_bot.Risk.State
use auto_coin_bot.Risk.State.{Queries}
use auto_coin_bot.Risk.Duplicate.{duplicate_order_exists}
use auto_coin_bot.Risk.Market.{market_condition_block}
use auto_coin_bot.Risk.Check
use auto_coin_bot.Risk.Check.{Order, Call, Facts, Policy, Base}
use auto_coin_bot.Risk.Check.Outcome.{
  verdict_logged, base_refusal_stands, first_guard_wins, all_allowed, first_code, is_none, state_of,
}
use auto_coin_bot.Risk.Check.Safety.{room_left, max_allowed_order_bounds}

abbrev base : Base ℤ
base = record { allowed = true; block_code = none; risk_level = none; max_allowed_order_krw = none }

abbrev refused : Base ℤ
refused = record base { allowed = false; block_code = some (Risk.base "BLOCKED_EXIT_DISABLED") }

abbrev order : Order ℤ
order = record {
  request_id = "auto-1";
  exchange = "bithumb";
  market = "KRW-BTC";
  side = Risk.Side.buy;
  order_type = some Check.OrderType.limit;
  ord_type = none;
  amount_krw = some (fixed.lit 20000 0);
  price = none;
  volume = none;
  scale_in = false;
}

abbrev call : Call ℤ
call = record {
  purpose = Risk.Purpose.entry;
  mode = Check.Mode.auto_strategy_running;
  session_id = none;
  candidate_strategy_id = some 7;
  candle_time_utc = some 2400;
  is_auto = true;
  profit_engine_entry = false;
  balance_mismatch = none;
  account_equity_krw = none;
  snapshot = none;
  balances = Check.krw (fixed.lit 25000 0);
}

abbrev early : Facts ℤ
early = record facts { now_us = 2000 * 1000000 }

cools_down : (Check.check_order_risk config base order call early).0.block_code ≡ some Risk.cooldown
unfolding Check.check_order_risk Check.mode_check Check.exchange_check Check.order_type_check
    Check.amount_check Check.operation_policy_check Check.position_check
    Check.max_open_positions_check Check.symbol_allocation_check Check.daily_limit_check
    Check.loss_streak_check Check.cooldown_check Check.loss_cooldown_check State.compute_risk_state
    State.cooldown_remaining_seconds State.current_bot_position_value_krw duplicate_order_exists
    market_condition_block Check.bot_value Check.query_of
cools_down = refl

max_allowed_order_bounds_example :
    let amount = (Check.check_order_risk config base order call facts).1 in
    (lt (fixed.lit 30000 0) amount ≡ false)
    × (true ≡ true → lt (room_left call facts) amount ≡ false)
max_allowed_order_bounds_example =
    max_allowed_order_bounds fixed-IsOrdered config base order call facts refl

verdict_logged_example :
    let v = (Check.check_order_risk config base order call early).0 in
    v.allowed ≡ all_allowed v.checks
verdict_logged_example = verdict_logged config base order call early

base_refusal_stands_example :
    let v = (Check.check_order_risk config refused order call facts).0 in
    (v.allowed ≡ false) × (v.block_code ≡ some (Risk.base "BLOCKED_EXIT_DISABLED"))
base_refusal_stands_example = base_refusal_stands config refused order call facts refl

first_guard_wins_example :
    let v = (Check.check_order_risk config base order call early).0 in
    let first = first_code (Check.guards config order call early (state_of config call early)) in
    (v.allowed ≡ is_none first) × (v.block_code ≡ first)
first_guard_wins_example = first_guard_wins config base order call early refl refl
