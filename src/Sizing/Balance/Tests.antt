-- ===== src/Sizing/Balance/Tests.antt =====
-- The balance cap on concrete requests.
use auto_coin_bot.Common.{ℕ, ◌≡◌, refl, some, none, ℤ}
use auto_coin_bot.Common.Fixed.{fixed, fixed-IsOrdered}
use auto_coin_bot.Sizing.Balance
use auto_coin_bot.Sizing.Balance.{Request}
use auto_coin_bot.Sizing.Balance.Bounds.{Answers, capped_order_bounds}

abbrev request : ℕ → ℕ → Request ℤ
request amount balance = record {
  requested_order_krw = some (fixed.lit amount 0);
  available_krw = some (fixed.lit balance 0);
  min_order_krw = some (fixed.lit 5000 0);
  fee_rate = some (fixed.lit 5 4);
  extra_fee_buffer_rate = none;
}

-- A request of 30000 KRW on a balance of 20014 KRW is cut to what the fees leave.
cut :
    (Balance.calculate_available_balance_capped_order (request 30000 20014) none).actual_order_krw
    ≡ fixed.lit 20000 0
unfolding Balance.calculate_available_balance_capped_order
cut = refl

too_small :
    (Balance.calculate_available_balance_capped_order (request 30000 4000) none).block_code
    ≡ some Balance.order_below_minimum
unfolding Balance.calculate_available_balance_capped_order
too_small = refl

capped_order_bounds_example :
    Answers
      (request 30000 20014)
      none
      (Balance.calculate_available_balance_capped_order (request 30000 20014) none)
capped_order_bounds_example = capped_order_bounds fixed-IsOrdered (request 30000 20014) none
