-- ===== src/Backtest/Solvency.antt =====
-- The account of a backtest never goes below zero, at any candle.
use auto_coin_bot.Common.{
  ◌≡◌, refl, true, false, Option, none, some, List, [], ◌∷◌, arith, Bool-cases, inl, inr, All,
  All-append, length, ltb, ◌&&◌,
}
use auto_coin_bot.Common.Float.{Float, IsOrdered, IsMonotone, le, gt, nought, max}
use auto_coin_bot.Backtest
use auto_coin_bot.Backtest.{Row, Config, State, Signal, Point}

module _ {F : Type 0} ⦃num : Float F⦄ where
  pub record IsSolvent (p : Point F) : Type 0 where
    pub cash : le nought p.cash_krw ≡ true
    pub quantity : le nought p.btc_quantity ≡ true
    pub equity : le nought p.equity ≡ true

  record IsSound (s : State F) : Type 0 where
    cash : le nought s.cash ≡ true
    quantity : le nought s.quantity ≡ true
    curve : All IsSolvent s.equity_curve

module _ {F : Type 0} ⦃num : Float F⦄ (laws : IsOrdered F) (mono : IsMonotone F) where
  max_nonneg : (x : F) → le nought (max x nought) ≡ true
  max_nonneg x = ground (arith, mono.le_refl nought, mono.not-lt-le x nought)

  open_position-IsSound :
      (config : Config F) (row next : Row F) (s : State F)
      → IsSound s
      → IsSound (Backtest.open_position config row next s)
  unfolding Backtest.open_position
  open_position-IsSound config row next s b =
      let budget = num.mul s.cash config.position_size in
      let quantity = Backtest.bought_quantity config next.open_price budget in
      elim (Bool-cases (le budget s.cash && gt quantity nought)) [
        | inr e ↦ rw e b
        | inl e ↦ rw e (record {
          cash = max_nonneg _;
          quantity = laws.lt-le _ _ (ground arith);
          curve = b.curve;
        })
      ]

  close_position-IsSound :
      (config : Config F) (row next : Row F) (s : State F)
      → IsSound s
      → IsSound (Backtest.close_position config row next s)
  unfolding Backtest.close_position Backtest.sold_net
  close_position-IsSound config row next s b = record {
    cash = mono.add_nonneg _ _ b.cash (max_nonneg _);
    quantity = mono.le_refl nought;
    curve = b.curve;
  }

  trade-IsSound :
      (config : Config F) (sig : Signal) (row : Row F) (next : Option (Row F)) (s : State F)
      → IsSound s
      → IsSound (Backtest.trade config sig row next s)
  unfolding Backtest.trade
  trade-IsSound config sig row none s b = b
  trade-IsSound config Signal.buy row (some next) s b =
      elim (Bool-cases (num.eq s.quantity nought && gt s.cash nought)) [
        | inl e ↦ rw e (open_position-IsSound config row next s b)
        | inr e ↦ rw e b
      ]
  trade-IsSound config Signal.sell row (some next) s b = elim (Bool-cases (gt s.quantity nought)) [
    | inl e ↦ rw e (close_position-IsSound config row next s b)
    | inr e ↦ rw e b
  ]
  trade-IsSound config Signal.hold row (some next) s b = b

  mark-IsSound :
      (row : Row F) (s : State F)
      → le nought row.close ≡ true
      → IsSound s
      → IsSound (Backtest.mark row s)
  unfolding Backtest.mark
  mark-IsSound row s c b = record {
    cash = b.cash;
    quantity = b.quantity;
    curve = All-append IsSolvent s.equity_curve _ b.curve (
      record {
        cash = b.cash;
        quantity = b.quantity;
        equity = mono.add_nonneg _ _ b.cash (mono.mul_nonneg _ _ b.quantity c);
      },
      tt,
    );
  }

  steps-IsSound :
      (config : Config F) (rows : List (Row F)) (s : State F)
      → All (λ (row : Row F). le nought row.close ≡ true) rows
      → IsSound s
      → IsSound (Backtest.steps config rows s)
  unfolding Backtest.steps Backtest.step
  steps-IsSound config [] s _ b = b
  steps-IsSound config (row ∷ rows) s (c, cs) b = steps-IsSound config rows _ cs (
      mark-IsSound row _ c (
        trade-IsSound config row.signal row (Backtest.head? rows) _
          (record { cash = b.cash; quantity = b.quantity; curve = b.curve })))

  -- A backtest of 30 candles or more that starts with cash, on prices that are not negative, returns,
  -- and at every point of its equity curve cash, coins and equity are at least 0, whatever the fee, the
  -- slippage and the share of the cash that it is told to use.
  pub curve-IsSolvent :
      (risk : Backtest.Risk F) (rows : List (Row F))
      → ltb (length rows) 30 ≡ false
      → le nought (Backtest.config_of risk).initial_cash ≡ true
      → All (λ (row : Row F). le nought row.close ≡ true) rows
      → (s : State F) × (m : Backtest.Metrics F) × (Backtest.run_backtest risk rows ≡ some (s, m))
        × All IsSolvent s.equity_curve
  unfolding Backtest.run_backtest Backtest.start
  curve-IsSolvent risk rows h cash prices =
      let config = Backtest.config_of risk in
      let s = Backtest.steps config rows (Backtest.start config) in
      let b =
        steps-IsSound config rows (Backtest.start config) prices
          (record { cash = cash; quantity = mono.le_refl nought; curve = tt }) in
      (s, Backtest.metrics config s, rw h refl, b.curve)
