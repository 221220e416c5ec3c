-- ===== src/Sizing/Dynamic/Tests.antt =====
-- The dynamic sizing on concrete orders.
use auto_coin_bot.Common.{◌≡◌, refl, true, false, not, ◌&&◌, ◌||◌, some, none, ℤ}
use auto_coin_bot.Common.Float.{lt}
use auto_coin_bot.Common.Fixed.{fixed, fixed-IsOrdered}
use auto_coin_bot.Sizing.Dynamic
use auto_coin_bot.Sizing.Dynamic.{Settings, Order, Edge, Mode, ModeText}
use auto_coin_bot.Sizing.Dynamic.Limits.{
  shadow_harmless, blocked_iff, adjusted_within_limit, multiplier_within,
}

abbrev settings : Mode → Settings ℤ
settings mode = record {
  enabled = true;
  mode = ModeText.named mode;
  min_multiplier = fixed.lit 5 1;
  max_multiplier = fixed.lit 15 1;
  min_confidence = fixed.lit 30 0;
  require_positive_net_edge = true;
}

abbrev edge : Edge ℤ
edge = record {
  adaptive_edge_score = some (fixed.lit 4 0);
  edge_confidence = some (fixed.lit 60 0);
  expected_edge_pct = none;
  avg_slippage_pct = none;
  avg_adverse_selection_pct = some (fixed.lit 1 1);
  avg_post_fill_return_5m = some (fixed.lit 2 0);
  avg_post_fill_return_15m = none;
  avg_realized_return_pct = none;
}

abbrev order : Order ℤ
order = record {
  original_amount_krw = fixed.lit 20000 0;
  fee_pct = fixed.lit 1 1;
  estimated_slippage_pct = none;
  adverse_selection_pct = none;
  max_allowed_amount_krw = some (fixed.lit 25000 0);
  min_order_krw = fixed.lit 5000 0;
  recent_failure_penalty_pct = fixed.lit 0 0;
}

-- The edge of 2.3 % less the costs earns the largest multiplier, and the limit cuts the amount.
applied :
    (Dynamic.build_dynamic_sizing_preview (settings Mode.apply) order edge).applied_amount_krw
    ≡ fixed.lit 25000 0
unfolding Dynamic.build_dynamic_sizing_preview
applied = refl

shadow_harmless_sample :
    let p = Dynamic.build_dynamic_sizing_preview (settings Mode.shadow) order edge in
    (p.allowed ≡ true) × (p.blocker ≡ none) × (p.applied_amount_krw ≡ fixed.lit 20000 0)
unfolding Dynamic.build_dynamic_sizing_preview
shadow_harmless_sample = shadow_harmless (settings Mode.shadow) order edge refl

adjusted_within_limit_sample :
    lt (fixed.lit 25000 0) (Dynamic.adjusted_amount order (fixed.lit 15 1)) ≡ false
adjusted_within_limit_sample =
    adjusted_within_limit fixed-IsOrdered order (fixed.lit 15 1) (fixed.lit 25000 0) refl refl

multiplier_within_example :
    let chosen =
      (Dynamic.choose (settings Mode.block) Mode.block true (fixed.lit 1 0)).multiplier in
    (lt chosen (Dynamic.min_multiplier (settings Mode.block)) ≡ false)
    × (lt (Dynamic.max_multiplier (settings Mode.block)) chosen ≡ false)
multiplier_within_example =
    multiplier_within fixed-IsOrdered (settings Mode.block) Mode.block true (fixed.lit 1 0)
      (unfold Dynamic.min_multiplier in refl) (unfold Dynamic.max_multiplier in refl)
      (unfold Dynamic.max_multiplier in refl) (unfold Dynamic.min_multiplier in refl)

blocked_iff_sample :
    let p = Dynamic.build_dynamic_sizing_preview (settings Mode.block) order edge in
    p.allowed ≡ not (true && (false || p.dust_hold))
unfolding Dynamic.build_dynamic_sizing_preview
blocked_iff_sample = blocked_iff (settings Mode.block) order edge
