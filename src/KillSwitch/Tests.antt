-- ===== src/KillSwitch/Tests.antt =====
-- A strategy that lost three times, and the theorems on it.
use auto_coin_bot.Common.{ℕ, ◌≡◌, refl, true, false, [], ◌∷◌, ℤ, arith}
use auto_coin_bot.Common.Float.{missing, value, ◌-◌, nought}
use auto_coin_bot.Common.Fixed.{fixed}
use auto_coin_bot.KillSwitch
use auto_coin_bot.KillSwitch.{Config, Order}
use auto_coin_bot.KillSwitch.Window.{IsPaused, old_orders_ignored, losing_run_pauses}

abbrev config : Config ℤ
config = record {
  enabled = true;
  expectancy_window = 3;
  max_consecutive_losses = 2;
  market_cooldown_hours = 6;
  max_cancel_rate = fixed.lit 6 1;
  max_average_slippage_pct = fixed.lit 5 1;
}

abbrev won : ℕ → Order ℤ
won n = record { actual_pnl = missing; realized_pnl = value (fixed.lit n 0); stop_loss = false }

abbrev lost : ℕ → Order ℤ
lost n = record {
  actual_pnl = value (nought - fixed.lit n 0);
  realized_pnl = missing;
  stop_loss = false;
}

old_orders_ignored_sample :
    KillSwitch.evaluate_strategy_kill_switch config
      (lost 900 ∷ lost 4 ∷ won 7 ∷ won 2 ∷ [])
      []
      false
      false
    ≡ KillSwitch.evaluate_strategy_kill_switch config (lost 4 ∷ won 7 ∷ won 2 ∷ []) [] false false
old_orders_ignored_sample =
    old_orders_ignored config (lost 900 ∷ []) (lost 4 ∷ won 7 ∷ won 2 ∷ []) [] false false refl
      (omega arith)

losing_run_pauses_example : IsPaused (
    KillSwitch.evaluate_strategy_kill_switch config (won 900 ∷ lost 4 ∷ lost 7 ∷ []) [] false false)
losing_run_pauses_example =
    losing_run_pauses config (won 900 ∷ []) (lost 4 ∷ lost 7 ∷ []) [] false false refl
      (unfold KillSwitch.is_loss in (refl, (refl, tt))) (omega arith) (omega arith)
