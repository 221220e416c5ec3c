-- ===== src/Sizing/Dynamic.antt =====
-- `build_dynamic_sizing_preview` of app/dynamic_sizing.py, with its helpers. The settings that it reads
-- (environment, presets) are a record, and the statistics of the adaptive edge are another.
use auto_coin_bot.Common.{
  Bool, true, false, not, ◌&&◌, ◌||◌, Option, none, some, List, [], ◌∷◌, if◌then◌else◌, is_some,
}
use auto_coin_bot.Common.Float.{
  Float, ◌+◌, ◌-◌, ◌*◌, lt, le, ge, dec, int, nought, max, min, float, sum, round,
}
pub mod Limits
mod Tests

pub data Mode : Type 0 where
  shadow apply block : Mode

-- `dynamic_sizing_mode`: the setting's text, where any other text means shadow.
pub data ModeText : Type 0 where
  named : Mode → ModeText
  unknown : ModeText

pub dynamic_sizing_mode : ModeText → Mode
dynamic_sizing_mode (named m) = m
dynamic_sizing_mode unknown = shadow

pub record Settings (F : Type 0) : Type 0 where
  pub enabled : Bool
  pub mode : ModeText
  pub min_multiplier : F
  pub max_multiplier : F
  pub min_confidence : F
  pub require_positive_net_edge : Bool

pub record Edge (F : Type 0) : Type 0 where
  pub adaptive_edge_score : Option F
  pub edge_confidence : Option F
  pub expected_edge_pct : Option F
  pub avg_slippage_pct : Option F
  pub avg_adverse_selection_pct : Option F
  pub avg_post_fill_return_5m : Option F
  pub avg_post_fill_return_15m : Option F
  pub avg_realized_return_pct : Option F

pub record Order (F : Type 0) : Type 0 where
  pub original_amount_krw : F
  pub fee_pct : F
  pub estimated_slippage_pct : Option F
  pub adverse_selection_pct : Option F
  pub max_allowed_amount_krw : Option F
  pub min_order_krw : F
  pub recent_failure_penalty_pct : F

pub data Reason : Type 0 where
  dynamic_sizing_disabled low_confidence_default_multiplier negative_net_edge_reduced : Reason
  low_positive_edge_reduced moderate_edge_base_size positive_edge_increased : Reason
  high_positive_edge_max_increase : Reason

pub data Blocker : Type 0 where
  net_edge_non_positive adjusted_below_min : Blocker

-- The multiplier with its reason, whether the order is allowed, and the blocker.
pub record Choice (F : Type 0) : Type 0 where
  pub multiplier : F
  pub reason : Reason
  pub allowed : Bool
  pub blocker : Option Blocker

pub record Preview (F : Type 0) : Type 0 where
  pub enabled : Bool
  pub mode : Mode
  pub shadow_only : Bool
  pub expected_edge_pct : F
  pub net_edge_pct : F
  pub confidence_ok : Bool
  pub sizing_multiplier : F
  pub original_amount_krw : F
  pub adjusted_amount_krw : F
  pub applied_amount_krw : F
  pub dust_hold : Bool
  pub allowed : Bool
  pub blocker : Option Blocker
  pub sizing_reason : Reason

abbrev pub is_block : Mode → Bool
is_block block = true
is_block _ = false

abbrev pub is_shadow : Mode → Bool
is_shadow shadow = true
is_shadow _ = false

module _ {F : Type 0} ⦃num : Float F⦄ where
  pub expected_edge_pct : Edge F → F
  expected_edge_pct edge = elim edge.expected_edge_pct [
    | some explicit ↦ explicit
    | none ↦ sum (
        float edge.adaptive_edge_score * dec 45 2
        ∷ float edge.avg_post_fill_return_5m * dec 25 2
        ∷ float edge.avg_post_fill_return_15m * dec 20 2
        ∷ float edge.avg_realized_return_pct * dec 10 2
        ∷ [])
  ]

  -- `_first_number(a, b, 0.0)`
  pub first_number : Option F → Option F → F
  first_number (some a) b = a
  first_number none b = float b

  pub net_edge_pct : Order F → Edge F → F
  unfolding expected_edge_pct first_number
  net_edge_pct o edge =
      expected_edge_pct edge
      - max o.fee_pct nought
      - max (first_number o.estimated_slippage_pct edge.avg_slippage_pct) nought
      - max (first_number o.adverse_selection_pct edge.avg_adverse_selection_pct) nought
      - max o.recent_failure_penalty_pct nought

  -- The two settings as the function corrects them.
  pub min_multiplier : Settings F → F
  min_multiplier s = if le s.min_multiplier nought then dec 5 1 else s.min_multiplier

  pub max_multiplier : Settings F → F
  unfolding min_multiplier
  max_multiplier s =
      if lt s.max_multiplier (min_multiplier s) then min_multiplier s else s.max_multiplier

  -- The ladder of the multiplier by the net edge, where sizing is enabled and the confidence suffices.
  pub by_edge : Settings F → Mode → F → Choice F
  unfolding min_multiplier max_multiplier
  by_edge s mode net =
      let low = min_multiplier s in
      let high = max_multiplier s in
      if s.require_positive_net_edge && le net nought
      then record {
        multiplier = low;
        reason = negative_net_edge_reduced;
        allowed = not (is_block mode);
        blocker = if is_block mode then some net_edge_non_positive else none;
      }
      else if le net nought
      then record {
        multiplier = low;
        reason = negative_net_edge_reduced;
        allowed = true;
        blocker = none;
      }
      else if lt net (dec 25 2)
      then record {
        multiplier = max low (dec 75 2);
        reason = low_positive_edge_reduced;
        allowed = true;
        blocker = none;
      }
      else if lt net (dec 75 2)
      then record {
        multiplier = int 1;
        reason = moderate_edge_base_size;
        allowed = true;
        blocker = none;
      }
      else if lt net (dec 15 1)
      then record {
        multiplier = min high (dec 12 1);
        reason = positive_edge_increased;
        allowed = true;
        blocker = none;
      }
      else record {
        multiplier = high;
        reason = high_positive_edge_max_increase;
        allowed = true;
        blocker = none;
      }

  pub choose : Settings F → Mode → Bool → F → Choice F
  unfolding by_edge
  choose s mode confidence_ok net =
      if s.enabled && confidence_ok then by_edge s mode net else record {
        multiplier = int 1;
        reason = if s.enabled then low_confidence_default_multiplier else dynamic_sizing_disabled;
        allowed = true;
        blocker = none;
      }

  -- `if max_allowed is not None and max_allowed >= 0: adjusted = min(adjusted, max_allowed)`
  pub limit_amount : F → Option F → F
  limit_amount adjusted none = adjusted
  limit_amount adjusted (some allowed) =
      if ge allowed nought then min adjusted allowed else adjusted

  pub adjusted_amount : Order F → F → F
  unfolding limit_amount
  adjusted_amount o multiplier =
      limit_amount (max (o.original_amount_krw * multiplier) nought) o.max_allowed_amount_krw

  -- The choice after the test for dust, which can block it.
  pub after_dust : Bool → Bool → Mode → Choice F → Choice F
  after_dust dust enabled mode c =
      if dust && enabled && is_block mode
      then record c {
        allowed = false;
        blocker = if is_some c.blocker then c.blocker else some adjusted_below_min;
      }
      else c

  pub applied_amount : Bool → Mode → Bool → F → F → F
  applied_amount enabled mode allowed original adjusted =
      if enabled && not (is_shadow mode) && allowed then adjusted else original

  -- The preview for a corrected choice of the multiplier.
  pub preview : Settings F → Order F → Edge F → F → Bool → Choice F → Preview F
  unfolding adjusted_amount after_dust applied_amount dynamic_sizing_mode
  preview s o edge net confidence_ok c =
      let mode = dynamic_sizing_mode s.mode in
      let adjusted = adjusted_amount o c.multiplier in
      let dust = lt nought adjusted && lt adjusted o.min_order_krw in
      let c' = after_dust dust s.enabled mode c in
      record {
        enabled = s.enabled;
        mode = mode;
        shadow_only = not s.enabled || is_shadow mode;
        expected_edge_pct = round (expected_edge_pct edge) 6;
        net_edge_pct = round net 6;
        confidence_ok = confidence_ok;
        sizing_multiplier = round c.multiplier 6;
        original_amount_krw = round (max o.original_amount_krw nought) 6;
        adjusted_amount_krw = round adjusted 6;
        applied_amount_krw =
            round
              (max (applied_amount s.enabled mode c'.allowed o.original_amount_krw adjusted) nought)
              6;
        dust_hold = dust;
        allowed = c'.allowed;
        blocker = c'.blocker;
        sizing_reason = c.reason;
      }

  pub build_dynamic_sizing_preview : Settings F → Order F → Edge F → Preview F
  unfolding preview choose net_edge_pct
  build_dynamic_sizing_preview s o edge =
      let net = net_edge_pct o edge in
      let confidence_ok = ge (float edge.edge_confidence) s.min_confidence in
      preview s o edge net confidence_ok (choose s (dynamic_sizing_mode s.mode) confidence_ok net)
