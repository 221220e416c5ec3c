-- ===== src/Backtest/Tests.antt =====
-- A backtest of a purchase and a sale, and the theorems on it.
use Prim.Native.Nat.{◌+◌ as plus, ◌*◌ as times}
use auto_coin_bot.Common.{
  ℕ, zero, suc, ◌≡◌, refl, true, Option, none, some, List, [], ◌∷◌, ℤ, All, length,
}
use auto_coin_bot.Common.Float.{sum, le, nought}
use auto_coin_bot.Common.Fixed.{fixed, fixed-IsOrdered, fixed-IsMonotone}
use auto_coin_bot.Backtest
use auto_coin_bot.Backtest.{Row, State, Signal, Metrics}
use auto_coin_bot.Backtest.Trades.{IsPaired, Holds, open_orders, orders_in_pairs}
use auto_coin_bot.Backtest.Solvency.{IsSolvent, curve-IsSolvent}

abbrev risk : Backtest.Risk ℤ
risk = record {
  initial_cash = some (fixed.lit 1000 0);
  initial_balance_krw = none;
  position_size = some (fixed.lit 5 1);
  fee_rate = none;
  slippage_rate = none;
}

abbrev row : ℕ → ℕ → Signal → Row ℤ
row time price signal = record {
  time = time;
  open_price = fixed.lit price 0;
  close = fixed.lit price 0;
  signal = signal;
}

abbrev quiet : ℕ → List (Row ℤ)
quiet zero = []
quiet (suc n) = row 240 120 Signal.hold ∷ quiet n

abbrev rows : List (Row ℤ)
rows =
    row 60 100 Signal.buy
    ∷ row 120 100 Signal.buy
    ∷ row 180 110 Signal.sell
    ∷ row 240 120 Signal.buy
    ∷ quiet 27

prices_nonneg : (n : ℕ) → All (λ (r : Row ℤ). le nought r.close ≡ true) (quiet n)
prices_nonneg zero = tt
prices_nonneg (suc n) = (refl, prices_nonneg n)

-- Bought, sold and bought again: the last candles have no signal.
three_orders :
    length
      (Backtest.steps
        (Backtest.config_of risk)
        rows
        (Backtest.start (Backtest.config_of risk))).orders
    ≡ 3
unfolding Backtest.steps Backtest.step Backtest.start Backtest.config_of Backtest.trade
    Backtest.mark Backtest.open_position Backtest.close_position
three_orders = refl

orders_in_pairs_example :
    (s : State ℤ) × (m : Metrics ℤ) × (Backtest.run_backtest risk rows ≡ some (s, m))
    × (held : Option ℤ) × IsPaired (length s.closed_pnls) held s.orders
    × Holds held s.quantity
    × (m.trade_count ≡ plus (times 2 (length s.closed_pnls)) (open_orders held))
    × (m.realized_pnl ≡ sum s.closed_pnls)
orders_in_pairs_example = orders_in_pairs fixed-IsOrdered risk rows refl

curve-IsSolvent_example :
    (s : State ℤ) × (m : Metrics ℤ) × (Backtest.run_backtest risk rows ≡ some (s, m))
    × All IsSolvent s.equity_curve
unfolding Backtest.config_of
curve-IsSolvent_example =
    curve-IsSolvent fixed-IsOrdered fixed-IsMonotone risk rows refl refl
      (refl, (refl, (refl, (refl, prices_nonneg 27))))
