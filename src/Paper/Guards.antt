-- ===== src/Paper/Guards.antt =====
-- What becomes of the signals of a run.
use Prim.Native.Nat.{◌+◌}
use auto_coin_bot.Common.{
  ℕ, ◌≡◌, refl, Bool, true, false, ◌||◌, Option, none, some, List, [], ◌∷◌, ◌++◌, arith, Bool-cases,
  inl, inr, leb, length, length-append, if◌then◌else◌,
}
use auto_coin_bot.Common.Float.{Float, le, ge, neg, abs, gt, nought}
use auto_coin_bot.Paper
use auto_coin_bot.Paper.{Risk, Row, Order, Account, State, Signal, Block, Side}

abbrev pub count_buys {ℓ} : {A : Type ℓ} → (A → Bool) → List A → ℕ
count_buys p [] = 0
count_buys p (x ∷ xs) = (if p x then 1 else 0) + count_buys p xs

pub count_buys-append {ℓ} :
    {A : Type ℓ} (p : A → Bool) (xs ys : List A)
    → count_buys p (xs ++ ys) ≡ count_buys p xs + count_buys p ys
count_buys-append p [] ys = omega arith
count_buys-append p (x ∷ xs) ys = omega (arith, count_buys-append p xs ys)

abbrev pub is_buy_side : Side → Bool
is_buy_side Side.buy_side = true
is_buy_side Side.sell_side = false

abbrev pub is_buy : Signal → Bool
is_buy Signal.buy = true
is_buy _ = false

module _ {F : Type 0} ⦃num : Float F⦄ where
  -- The executed purchases together with the blocked signals.
  abbrev pub answered : State F → ℕ
  answered s = count_buys (λ (o : Order F). is_buy_side o.side) s.orders + length s.blocked_signals

  on_buy-answered :
      (risk : Risk F) (r : Row F) (amount : F) (s : State F) (reason : Option Block)
      → answered (Paper.on_buy risk r amount s reason) ≡ answered s + 1
  unfolding Paper.on_buy Paper.buy_order
  on_buy-answered risk r amount s none = omega (
    arith,
    count_buys-append (λ (o : Order F). is_buy_side o.side) s.orders
        (Paper.buy_order risk r amount ∷ []),
  )
  on_buy-answered risk r amount s (some reason) =
      omega (arith, length-append s.blocked_signals ((r.time, reason) ∷ []))

  on_sell-answered :
      (risk : Risk F) (r : Row F) (s : State F) → answered (Paper.on_sell risk r s) ≡ answered s
  unfolding Paper.on_sell Paper.sell_order
  on_sell-answered risk r s = elim (Bool-cases (gt s.account.btc_quantity nought)) [
    | inl e ↦ rw e (
        omega (
          arith,
          count_buys-append (λ (o : Order F). is_buy_side o.side) s.orders
              (Paper.sell_order risk s.account r ∷ []),
        ))
    | inr e ↦ rw e
  ]

  on_signal-answered :
      (signal : Signal) (risk : Risk F) (r : Row F) (loss : F) (s : State F)
      → answered (Paper.on_signal signal risk r loss s)
        ≡ answered s + (if is_buy signal then 1 else 0)
  unfolding Paper.on_signal
  on_signal-answered Signal.buy risk r loss s = on_buy-answered risk r _ s _
  on_signal-answered Signal.sell risk r loss s = omega (arith, on_sell-answered risk r s)
  on_signal-answered Signal.hold risk r loss s = omega arith

  step-answered :
      (risk : Risk F) (r : Row F) (s : State F)
      → answered (Paper.step risk r s) ≡ answered s + (if is_buy r.signal then 1 else 0)
  unfolding Paper.step
  step-answered risk r s = on_signal-answered r.signal risk r _ _

  -- Every BUY signal of a run is answered exactly once, by an executed purchase or by an entry among
  -- the blocked signals, and nothing else is.
  pub signals_answered :
      (risk : Risk F) (rows : List (Row F)) (s : State F)
      → answered (Paper.steps risk rows s)
        ≡ answered s + count_buys (λ (r : Row F). is_buy r.signal) rows
  unfolding Paper.steps
  signals_answered risk [] s = omega arith
  signals_answered risk (r ∷ rows) s =
      omega (arith, step-answered risk r s, signals_answered risk rows (Paper.step risk r s))

  -- A BUY signal buys exactly when the day's loss rate is above the negative limit, the losses in a row
  -- are below theirs, the candle's range is below the volatility limit, and the amount that the order
  -- limit, the cash and the position limit leave is positive, in the sense of the code's comparisons.
  -- Otherwise the account and the orders are as before.
  pub buy_executed_iff :
      (risk : Risk F) (r : Row F) (loss : F) (s : State F)
      → let amount = Paper.order_amount risk s.account r.price in
        let s' = Paper.on_signal Signal.buy risk r loss s in
        let refused =
          le loss (neg (abs risk.daily_max_loss_rate))
          || leb risk.consecutive_loss_limit s.account.consecutive_losses
          || ge (Paper.range_rate r) risk.volatility_block_rate
          || le amount nought in
        (refused ≡ false
          → (s'.orders ≡ s.orders ++ Paper.buy_order risk r amount ∷ [])
            × (s'.account ≡ Paper.execute_buy risk s.account r.price amount)
            × (s'.blocked_signals ≡ s.blocked_signals))
        × (refused ≡ true → (s'.orders ≡ s.orders) × (s'.account ≡ s.account))
  unfolding Paper.on_signal
  buy_executed_iff risk r loss s =
      let amount = Paper.order_amount risk s.account r.price in
      elim (Bool-cases (le loss (neg (abs risk.daily_max_loss_rate)))) [
        | inl e ↦ rw e (λ h. cc, λ h. (refl, refl))
        | inr e ↦
            rw e (elim (Bool-cases (leb risk.consecutive_loss_limit s.account.consecutive_losses)) [
              | inl f ↦ rw f (λ h. cc, λ h. (refl, refl))
              | inr f ↦
                  rw f (elim (Bool-cases (ge (Paper.range_rate r) risk.volatility_block_rate)) [
                    | inl g ↦ rw g (λ h. cc, λ h. (refl, refl))
                    | inr g ↦ rw g (elim (Bool-cases (le amount nought)) [
                      | inl k ↦ rw k (λ h. cc, λ h. (refl, refl))
                      | inr k ↦ rw k (λ h. (refl, refl, refl), λ h. cc)
                    ])
                  ])
            ])
      ]
