-- ===== src/Exposure/Tests.antt =====
-- A blocked request whose target is rounded above the current exposure, and the theorem on it.
use auto_coin_bot.Common.{◌≡◌, ◌≢◌, ◌⊎◌, refl, true, false, none, some, [], ◌∷◌, ℤ}
use auto_coin_bot.Common.Float.{lt, int, nought, round}
use auto_coin_bot.Common.Fixed.{fixed, fixed-IsOrdered}
use auto_coin_bot.Exposure
use auto_coin_bot.Exposure.{Request, Factors, is_panic, exact_target, calculate_target_exposure}
use auto_coin_bot.Exposure.Capped.{target_capped}

abbrev neutral : Factors ℤ
neutral = record {
  has_notice_block = false;
  news_sentiment = none;
  btc_momentum = none;
  kimchi_premium = none;
  fear_greed = none;
}

abbrev request : Request ℤ
request = record {
  current_exposure_pct = fixed.lit 3333337 5;
  risk_score = fixed.lit 20 0;
  market_regime = Exposure.breakout;
  internal_signals =
      record { score = some (fixed.lit 40 0); confidence = some (fixed.lit 80 0) } ∷ [];
  risk_status = Exposure.some_status;
  daily_total_pnl = none;
  auto_trading_enabled = false;
  daily_loss_limit_pct = none;
  max_total_exposure_krw = fixed.lit 100000 0;
  current_position_value_krw = fixed.lit 33333 0;
  external_factors = neutral;
}

rounded_up : (calculate_target_exposure request).target_exposure_pct ≡ fixed.lit 333334 4
unfolding calculate_target_exposure exact_target Exposure.wanted_exposure Exposure.base_exposure
    Exposure.aggregate_signal_score Exposure.external_factor_adjustment Exposure.blockers_of
rounded_up = refl

target_capped_example :
    let x = exact_target request in
    ((calculate_target_exposure request).target_exposure_pct ≡ round x 4)
    × ((x ≡ nought)
        ⊎ ((lt x nought ≡ false)
            × (lt (int 100) x ≡ false)
            × ((calculate_target_exposure request).blockers ≢ []
                → lt request.current_exposure_pct x ≡ false)))
    × (is_panic request.market_regime ≡ true → x ≡ nought)
target_capped_example = target_capped fixed-IsOrdered request
