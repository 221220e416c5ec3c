-- ===== src/Paper/Halt.antt =====
-- The limit of consecutive losses is never lifted within a run.
use auto_coin_bot.Common.{
  ◌≡◌, refl, true, false, Option, none, some, List, [], ◌∷◌, arith, leb, is_some, ◌∙◌,
}
use auto_coin_bot.Common.Float.{Float, gt, nought}
use auto_coin_bot.Paper
use auto_coin_bot.Paper.{Risk, Row, Account, State, Signal, Block}

module _ {F : Type 0} ⦃num : Float F⦄ where
  -- No coins are held, and the losses in a row have reached the limit.
  pub record IsHalted (risk : Risk F) (a : Account F) : Type 0 where
    pub no_coins : gt a.btc_quantity nought ≡ false
    pub losses : leb risk.consecutive_loss_limit a.consecutive_losses ≡ true

  block_reason_halted :
      (risk : Risk F) (a : Account F) (loss range amount : F)
      → IsHalted risk a
      → is_some (Paper.block_reason risk a loss range amount) ≡ true
  unfolding Paper.block_reason
  block_reason_halted risk a loss range amount h = rw h.losses (ground arith)

  on_buy_halted :
      (risk : Risk F) (r : Row F) (amount : F) (s : State F) (reason : Option Block)
      → is_some reason ≡ true
      → ((Paper.on_buy risk r amount s reason).account ≡ s.account)
        × ((Paper.on_buy risk r amount s reason).orders ≡ s.orders)
  unfolding Paper.on_buy
  on_buy_halted risk r amount s none h = cc
  on_buy_halted risk r amount s (some reason) h = (refl, refl)

  on_signal_halted :
      (signal : Signal) (risk : Risk F) (r : Row F) (loss : F) (s : State F)
      → IsHalted risk s.account
      → ((Paper.on_signal signal risk r loss s).account ≡ s.account)
        × ((Paper.on_signal signal risk r loss s).orders ≡ s.orders)
  unfolding Paper.on_signal
  on_signal_halted Signal.buy risk r loss s h =
      on_buy_halted risk r _ s _ (block_reason_halted risk s.account loss _ _ h)
  on_signal_halted Signal.sell risk r loss s h = rw h.no_coins (refl, refl)
  on_signal_halted Signal.hold risk r loss s h = (refl, refl)

  step_halted :
      (risk : Risk F) (r : Row F) (s : State F)
      → IsHalted risk s.account
      → ((Paper.step risk r s).account ≡ s.account) × ((Paper.step risk r s).orders ≡ s.orders)
  unfolding Paper.step
  step_halted risk r s h = on_signal_halted r.signal risk r _ _ h

  -- Once the losses in a row reach the limit while no coins are held, no later candle, whatever its
  -- signal, changes the account or adds an order: the run never trades again.
  pub halt_forever :
      (risk : Risk F) (rows : List (Row F)) (s : State F)
      → IsHalted risk s.account
      → ((Paper.steps risk rows s).account ≡ s.account)
        × ((Paper.steps risk rows s).orders ≡ s.orders)
  unfolding Paper.steps
  halt_forever risk [] s h = (refl, refl)
  halt_forever risk (r ∷ rows) s h =
      let (same, orders) = step_halted risk r s h in
      let (same', orders') = halt_forever risk rows (Paper.step risk r s) (rw same h) in
      (same' ∙ same, orders' ∙ orders)
