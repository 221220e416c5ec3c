-- ===== src/Paper/Tests.antt =====
-- A short simulation, and the theorems on it.
use auto_coin_bot.Common.{
  ℕ, zero, suc, ◌≡◌, refl, true, false, none, some, List, [], ◌∷◌, ◌++◌, arith, ℤ, length,
}
use auto_coin_bot.Common.Fixed.{fixed, fixed-IsOrdered, fixed-IsMonotone}
use auto_coin_bot.Paper
use auto_coin_bot.Paper.{Risk, Row, Account, State, Signal}
use auto_coin_bot.Paper.Solvency.{IsSolvent, run-IsSolvent}
use auto_coin_bot.Paper.Halt.{halt_forever}
use auto_coin_bot.Paper.Guards.{answered, signals_answered, buy_executed_iff}

abbrev risk : Risk ℤ
risk = record {
  initial_cash = fixed.lit 1000000 0;
  max_order_amount = fixed.lit 100000 0;
  daily_max_loss_rate = fixed.lit 3 2;
  max_position_ratio = fixed.lit 5 1;
  consecutive_loss_limit = 1;
  volatility_block_rate = fixed.lit 3 2;
  fee_rate = fixed.lit 5 4;
  slippage_rate = fixed.lit 5 4;
}

abbrev row : ℕ → ℕ → Signal → Row ℤ
row time price signal = record {
  time = time;
  price = fixed.lit price 0;
  high = fixed.lit price 0;
  low = fixed.lit price 0;
  signal = signal;
}

-- A purchase, a sale at a loss, and a purchase that the limit of one loss blocks.
abbrev rows : List (Row ℤ)
rows = row 60 1000 Signal.buy ∷ row 120 900 Signal.sell ∷ row 180 900 Signal.buy ∷ []

abbrev quiet : ℕ → List (Row ℤ)
quiet zero = []
quiet (suc n) = row 240 900 Signal.hold ∷ quiet n

after_loss :
    let s = Paper.steps risk rows (Paper.start risk) in
    (length s.orders ≡ 2)
    × (s.blocked_signals ≡ (180, Paper.Block.consecutive_loss_limit) ∷ [])
    × (s.account.consecutive_losses ≡ 1)
unfolding Paper.steps Paper.step Paper.start
after_loss = (refl, refl, refl)

too_short : Paper.run_paper_trading risk rows ≡ none
unfolding Paper.run_paper_trading
too_short = refl

run-IsSolvent_example :
    (s : State ℤ) × (Paper.run_paper_trading risk (rows ++ quiet 27) ≡ some s) × IsSolvent s.account
run-IsSolvent_example =
    run-IsSolvent fixed-IsOrdered fixed-IsMonotone risk (rows ++ quiet 27)
      (record { cash = refl; fee = refl; slippage = refl }) (ground arith) refl

halt_forever_example :
    let s = Paper.steps risk rows (Paper.start risk) in
    ((Paper.steps risk (rows ++ quiet 5) s).account ≡ s.account)
    × ((Paper.steps risk (rows ++ quiet 5) s).orders ≡ s.orders)
halt_forever_example =
    halt_forever risk (rows ++ quiet 5) (Paper.steps risk rows (Paper.start risk))
      (unfold Paper.steps Paper.step Paper.start in record { no_coins = refl; losses = refl })

signals_answered_sample : answered (Paper.steps risk rows (Paper.start risk)) ≡ 2
unfolding Paper.start
signals_answered_sample = signals_answered risk rows (Paper.start risk)

abbrev Bought : Type 0
Bought =
    let s = Paper.start risk in
    let r = row 60 1000 Signal.buy in
    let s' = Paper.on_signal Signal.buy risk r (fixed.lit 0 0) s in
    (false ≡ false
      → (s'.orders
          ≡ s.orders ++ Paper.buy_order risk r (Paper.order_amount risk s.account r.price) ∷ [])
        × (s'.account
            ≡ Paper.execute_buy risk s.account r.price (Paper.order_amount risk s.account r.price))
        × (s'.blocked_signals ≡ s.blocked_signals))
    × (false ≡ true → (s'.orders ≡ s.orders) × (s'.account ≡ s.account))

buy_executed_iff_sample : Bought
unfolding Paper.start Paper.order_amount Paper.range_rate
buy_executed_iff_sample =
    buy_executed_iff risk (row 60 1000 Signal.buy) (fixed.lit 0 0) (Paper.start risk)
