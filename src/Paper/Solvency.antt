-- ===== src/Paper/Solvency.antt =====
-- The simulated account never goes below zero.
use auto_coin_bot.Common.{
  ◌≡◌, true, Option, none, some, List, [], ◌∷◌, arith, Bool-cases, inl, inr, All, leb, length,
}
use auto_coin_bot.Common.Float.{Float, IsOrdered, IsMonotone, ◌+◌, le, gt, int, nought, max, min}
use auto_coin_bot.Paper
use auto_coin_bot.Paper.{Risk, Row, Account, State, Signal, Block}

module _ {F : Type 0} ⦃num : Float F⦄ where
  -- No part of the account is negative.
  pub record IsSolvent (a : Account F) : Type 0 where
    pub cash : le nought a.cash ≡ true
    pub quantity : le nought a.btc_quantity ≡ true
    pub price : le nought a.avg_buy_price ≡ true

  -- The run starts with cash, and neither the fee nor the slippage takes more than the whole.
  pub record IsSane (risk : Risk F) : Type 0 where
    pub cash : le nought risk.initial_cash ≡ true
    pub fee : le risk.fee_rate (int 1) ≡ true
    pub slippage : le risk.slippage_rate (int 1) ≡ true

module _ {F : Type 0} ⦃num : Float F⦄ (laws : IsOrdered F) (mono : IsMonotone F) where
  open mono use {
    le_refl, not-lt-le, add_nonneg, sub_nonneg, mul_nonneg, div_nonneg, mul_le, one_nonneg,
  }

  max_nonneg : (x : F) → le nought (max x nought) ≡ true
  max_nonneg x = ground (arith, le_refl nought, not-lt-le x nought)

  max_le_one : (x : F) → le x (int 1) ≡ true → le (max x nought) (int 1) ≡ true
  max_le_one x h = ground (arith, h, one_nonneg)

  min_le_right : (x y : F) → le (min x y) y ≡ true
  min_le_right x y = ground (arith, le_refl y, not-lt-le y x)

  min_le_left : (x y : F) → le (min x y) x ≡ true
  min_le_left x y = ground (arith, le_refl x, laws.lt-le y x)

  order_amount_le_cash :
      (risk : Risk F) (a : Account F) (price : F)
      → le (Paper.order_amount risk a price) a.cash ≡ true
  unfolding Paper.order_amount
  order_amount_le_cash risk a price =
      laws.le_trans _ _ _ (min_le_left _ _) (min_le_right risk.max_order_amount a.cash)

  bought_price_nonneg :
      (risk : Risk F) (price : F)
      → le nought price ≡ true
      → le nought (Paper.bought_price risk price) ≡ true
  unfolding Paper.bought_price
  bought_price_nonneg risk price h =
      mul_nonneg _ _ h (add_nonneg _ _ one_nonneg (max_nonneg risk.slippage_rate))

  bought_quantity_nonneg :
      (risk : Risk F) (price amount : F)
      → le nought (Paper.bought_quantity risk price amount) ≡ true
  unfolding Paper.bought_quantity
  bought_quantity_nonneg risk price amount =
      elim (Bool-cases (gt (Paper.bought_price risk price) nought)) [
        | inl e ↦ rw e (div_nonneg _ _ (max_nonneg _) e)
        | inr e ↦ rw e (le_refl nought)
      ]

  execute_buy-IsSolvent :
      (risk : Risk F) (a : Account F) (price : F)
      → le nought price ≡ true
      → IsSolvent a
      → IsSolvent (Paper.execute_buy risk a price (Paper.order_amount risk a price))
  unfolding Paper.execute_buy
  execute_buy-IsSolvent risk a price p s =
      let amount = Paper.order_amount risk a price in
      let bought = bought_quantity_nonneg risk price amount in
      let total = add_nonneg _ _ s.quantity bought in
      let cost =
        add_nonneg _ _ (mul_nonneg _ _ s.quantity s.price)
          (mul_nonneg _ _ bought (bought_price_nonneg risk price p)) in
      record {
        cash = sub_nonneg _ _ (order_amount_le_cash risk a price);
        quantity = total;
        price =
            elim (Bool-cases
              (gt (a.btc_quantity + Paper.bought_quantity risk price amount) nought)) [
                | inl e ↦ rw e (div_nonneg _ _ cost e)
                | inr e ↦ rw e s.price
              ];
      }

  execute_sell-IsSolvent :
      (risk : Risk F) (a : Account F) (price : F)
      → IsSane risk
      → le nought price ≡ true
      → IsSolvent a
      → IsSolvent (Paper.execute_sell risk a price)
  unfolding Paper.execute_sell
  execute_sell-IsSolvent risk a price sane p s =
      let sold = mul_nonneg _ _ p (sub_nonneg _ _ (max_le_one risk.slippage_rate sane.slippage)) in
      let gross = mul_nonneg _ _ s.quantity sold in
      record {
        cash = add_nonneg _ _ s.cash (sub_nonneg _ _ (mul_le _ _ gross sane.fee));
        quantity = le_refl nought;
        price = le_refl nought;
      }

  on_buy-IsSolvent :
      (risk : Risk F) (r : Row F) (s : State F) (reason : Option Block)
      → le nought r.price ≡ true
      → IsSolvent s.account
      → IsSolvent (Paper.on_buy risk r (Paper.order_amount risk s.account r.price) s reason).account
  unfolding Paper.on_buy
  on_buy-IsSolvent risk r s none p h = execute_buy-IsSolvent risk s.account r.price p h
  on_buy-IsSolvent risk r s (some reason) p h = h

  on_signal-IsSolvent :
      (signal : Signal) (risk : Risk F) (r : Row F) (loss : F) (s : State F)
      → IsSane risk
      → le nought r.price ≡ true
      → IsSolvent s.account
      → IsSolvent (Paper.on_signal signal risk r loss s).account
  unfolding Paper.on_signal
  on_signal-IsSolvent Signal.buy risk r loss s sane p h = on_buy-IsSolvent risk r s _ p h
  on_signal-IsSolvent Signal.sell risk r loss s sane p h =
      elim (Bool-cases (gt s.account.btc_quantity nought)) [
        | inl e ↦ rw e (execute_sell-IsSolvent risk s.account r.price sane p h)
        | inr e ↦ rw e h
      ]
  on_signal-IsSolvent Signal.hold risk r loss s sane p h = h

  step-IsSolvent :
      (risk : Risk F) (r : Row F) (s : State F)
      → IsSane risk
      → le nought r.price ≡ true
      → IsSolvent s.account
      → IsSolvent (Paper.step risk r s).account
  unfolding Paper.step
  step-IsSolvent risk r s sane p h = on_signal-IsSolvent r.signal risk r _ _ sane p h

  steps-IsSolvent :
      (risk : Risk F) (rs : List (Row F)) (s : State F)
      → IsSane risk
      → All (λ (r : Row F). le nought r.price ≡ true) rs
      → IsSolvent s.account
      → IsSolvent (Paper.steps risk rs s).account
  unfolding Paper.steps
  steps-IsSolvent risk [] s sane ps h = h
  steps-IsSolvent risk (r ∷ rs) s sane (p, ps) h =
      steps-IsSolvent risk rs (Paper.step risk r s) sane ps (step-IsSolvent risk r s sane p h)

  -- With prices that are not negative, a fee and a slippage of at most the whole, and no debt at the
  -- start, a run of 30 or more candles returns, and neither the cash, nor the coins, nor their average
  -- price is ever negative, whatever the signals and the limits.
  pub run-IsSolvent :
      (risk : Risk F) (rows : List (Row F))
      → IsSane risk
      → All (λ (r : Row F). le nought r.price ≡ true) rows
      → leb 30 (length rows) ≡ true
      → (s : State F) × (Paper.run_paper_trading risk rows ≡ some s) × IsSolvent s.account
  unfolding Paper.run_paper_trading
  run-IsSolvent risk rows sane ps enough = (
    Paper.steps risk rows (Paper.start risk),
    rw enough,
    steps-IsSolvent risk rows (Paper.start risk) sane ps
        (record { cash = sane.cash; quantity = le_refl nought; price = le_refl nought }),
  )
