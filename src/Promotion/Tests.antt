-- ===== src/Promotion/Tests.antt =====
-- A candidate that passes in one run from SHADOW_RUNNING to LIVE_ELIGIBLE, one that the kill switch
-- pauses, and the theorem on them.
use auto_coin_bot.Common.{
  ℕ, ◌≡◌, refl, true, false, Option, none, some, List, [], ◌∷◌, ℤ, map, if◌then◌else◌, ◌==◌,
  select_first, update_where,
}
use auto_coin_bot.Common.Float.{missing, value, ◌-◌, nought}
use auto_coin_bot.Common.Fixed.{fixed}
use auto_coin_bot.KillSwitch
use auto_coin_bot.Promotion
use auto_coin_bot.Promotion.{
  Status, Candidate, Tables, Config, Session, shadow_running, shadow_passed, live_eligible, paused,
}
use auto_coin_bot.Promotion.Justified.{Grows, promotions_justified}

abbrev config : Config ℤ
config = record {
  exchange = "bithumb";
  enabled = true;
  min_forward_trades = 2;
  min_forward_runtime_hours = fixed.lit 168 0;
  min_forward_return_percent = fixed.lit 1 0;
  max_forward_mdd = fixed.lit 8 2;
  min_forward_win_rate = fixed.lit 42 2;
  min_profit_factor = fixed.lit 12 1;
  min_expectancy_after_fee = nought;
  max_single_trade_profit_share = fixed.lit 5 1;
  kill_switch = record {
    enabled = true;
    expectancy_window = 3;
    max_consecutive_losses = 2;
    market_cooldown_hours = 6;
    max_cancel_rate = fixed.lit 6 1;
    max_average_slippage_pct = fixed.lit 5 1;
  };
}

abbrev sale : ℕ → Promotion.Order ℤ
sale n = record { is_sell = true; realized_pnl = some (fixed.lit n 0) }

abbrev lost : KillSwitch.Order ℤ
lost = record {
  actual_pnl = missing;
  realized_pnl = value (nought - fixed.lit 9 0);
  stop_loss = false;
}

abbrev session : List (KillSwitch.Order ℤ) → Session ℤ
session orders = record {
  trade_counts = (some 2, none);
  total_return_percents = (none, some (fixed.lit 3 0));
  mdds = (some (fixed.lit 2 2), none);
  win_rates = (some (fixed.lit 6 1), none);
  profit_factors = (some (fixed.lit 2 0), none);
  average_trade_pnl = none;
  started_at = some 0;
  ended_at = some 720000;
  orders = sale 10 ∷ sale 10 ∷ [];
  kill_switch_orders = orders;
}

abbrev sessions : ℕ → Option (Session ℤ)
sessions id =
    if id == 1
    then some (session [])
    else if id == 2
    then some (session (lost ∷ lost ∷ []))
    else none

abbrev tables : Tables
tables = record {
  candidates =
      record { id = 1; market = "KRW-BTC"; status = shadow_running }
      ∷ record { id = 2; market = "KRW-ETH"; status = shadow_passed }
      ∷ record { id = 3; market = "KRW-XRP"; status = shadow_running }
      ∷ [];
  promotions = [];
  markets = [];
}

abbrev status_of : Candidate → Status
status_of c = c.status

statuses_after :
    map status_of (Promotion.promote_shadow_candidates config 800000 sessions tables).candidates
    ≡ live_eligible ∷ paused ∷ shadow_running ∷ []
unfolding Promotion.promote_shadow_candidates Promotion.promote_all Promotion.promote_with_session
    Promotion.promote_steps Promotion.promote_passed Promotion.promote_candidate_strategy
    Promotion.promote_row Promotion.mark_market_live_allowed Promotion.session_blockers
    Promotion.forward_runtime_hours Promotion.expectancy_after_fee
    Promotion.single_trade_profit_share KillSwitch.evaluate_strategy_kill_switch
    KillSwitch.evaluate_recent KillSwitch.verdict_of KillSwitch.blockers_of KillSwitch.found
    KillSwitch.summarize_execution_quality KillSwitch.average KillSwitch.expectancy
    KillSwitch.last_rows KillSwitch.reversed KillSwitch.is_loss select_first update_where
statuses_after = refl

promotions_justified_example :
    Grows config 800000 sessions tables
      (Promotion.promote_shadow_candidates config 800000 sessions tables)
promotions_justified_example = promotions_justified config 800000 sessions tables
