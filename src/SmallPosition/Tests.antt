-- ===== src/SmallPosition/Tests.antt =====
-- A small position that is held long enough, and the theorems on it.
use Prim.Native.Nat.{◌≤◌}
use auto_coin_bot.Common.{◌≡◌, refl, true, false, none, some, ℤ, ◌↔◌}
use auto_coin_bot.Common.Float.{missing}
use auto_coin_bot.Common.Fixed.{fixed, fixed-IsOrdered}
use auto_coin_bot.SmallPosition
use auto_coin_bot.SmallPosition.{Thresholds, Request, Hint, Regime}
use auto_coin_bot.SmallPosition.Allowed.{IsResolvable, full_exit_iff, rank, classify_monotone}

abbrev thresholds : Thresholds ℤ
thresholds = record {
  dust_position = fixed.lit 5000 0;
  small_position = fixed.lit 15000 0;
  min_hold_minutes = fixed.lit 30 0;
  positive_edge = fixed.lit 0 0;
  max_recovery_pnl_pct = fixed.lit 0 0;
}

abbrev request : Request ℤ
request = record {
  position = some (record {
    entry_volume = some (fixed.lit 10 0);
    entry_amount_krw = some (fixed.lit 10000 0);
    opened_at = some 1000;
  });
  current_price = fixed.lit 900 0;
  min_order_krw = fixed.lit 5000 0;
  action_hint = Hint.exit;
  market_regime = Regime.other_regime;
  adaptive_edge_score = missing;
  policy_edge_score = missing;
  snapshot_edge_score = none;
  balance_mismatch = false;
  open_order_mismatch = false;
  sellable_value_krw = none;
  now = 4000;
}

allowed :
    (SmallPosition.evaluate_small_position_resolution true thresholds request).full_exit_allowed
    ≡ true
unfolding SmallPosition.evaluate_small_position_resolution SmallPosition.tests SmallPosition.size_of
    SmallPosition.classify_position_size SmallPosition.sellable_value SmallPosition.edge_score
    SmallPosition.position_pnl_pct SmallPosition.holding_minutes SmallPosition.collect
    SmallPosition.dust_threshold SmallPosition.small_threshold SmallPosition.position_value
allowed = refl

full_exit_iff_example :
    ((SmallPosition.evaluate_small_position_resolution true thresholds request).full_exit_allowed
      ≡ true)
    ↔ IsResolvable true thresholds request
full_exit_iff_example = full_exit_iff true thresholds request

classify_monotone_sample :
    rank (SmallPosition.classify_position_size thresholds (fixed.lit 6000 0) (fixed.lit 5500 0))
    ≤ rank (SmallPosition.classify_position_size thresholds (fixed.lit 6000 0) (fixed.lit 9000 0))
classify_monotone_sample =
    classify_monotone fixed-IsOrdered thresholds (fixed.lit 6000 0) (fixed.lit 5500 0)
      (fixed.lit 9000 0) refl
