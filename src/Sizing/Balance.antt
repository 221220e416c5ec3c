-- ===== src/Sizing/Balance.antt =====
-- `calculate_available_balance_capped_order` of app/order_sizing.py. The default of the fee buffer is
-- an environment variable, an argument here.
use auto_coin_bot.Common.{Bool, true, false, Option, none, some, if◌then◌else◌}
use auto_coin_bot.Common.Float.{
  Float, ◌+◌, ◌-◌, ◌/◌, lt, le, gt, dec, int, nought, max, min, float, float_or,
}
pub mod Bounds
mod Tests

pub data Code : Type 0 where
  order_amount_zero balance_unavailable insufficient_balance order_below_minimum : Code

pub data Reason : Type 0 where
  blocked : Code → Reason
  request_exceeds_available_balance_capped request_within_available_balance : Reason

pub record Request (F : Type 0) : Type 0 where
  pub requested_order_krw : Option F
  pub available_krw : Option F
  pub min_order_krw : Option F
  pub fee_rate : Option F
  pub extra_fee_buffer_rate : Option F

pub record Sizing (F : Type 0) : Type 0 where
  pub requested_order_krw : F
  pub available_krw : Option F
  pub min_order_krw : F
  pub fee_buffer_rate : F
  pub actual_order_krw : F
  pub cap_applied : Bool
  pub allowed : Bool
  pub block_code : Option Code
  pub sizing_reason : Reason
  pub max_affordable_krw : Option F  -- the key is missing where nothing was computed

module _ {F : Type 0} ⦃num : Float F⦄ where
  pub profit_engine_extra_fee_buffer_rate : Option F → F
  profit_engine_extra_fee_buffer_rate env = float_or env (dec 2 4)

  abbrev floor_zero : Option F → F
  floor_zero o = max (float o) nought

  abbrev floor_zero? : Option F → Option F
  floor_zero? none = none
  floor_zero? (some x) = some (max x nought)

  pub fee_buffer : Request F → Option F → F
  unfolding profit_engine_extra_fee_buffer_rate
  fee_buffer r env =
      max
        (float r.fee_rate
          + float_or r.extra_fee_buffer_rate (profit_engine_extra_fee_buffer_rate env))
        nought

  -- `{**base, "allowed": False, "block_code": code, "sizing_reason": code}`
  pub refuse : Request F → Option F → Code → Sizing F
  unfolding fee_buffer
  refuse r env code = record {
    requested_order_krw = floor_zero r.requested_order_krw;
    available_krw = floor_zero? r.available_krw;
    min_order_krw = floor_zero r.min_order_krw;
    fee_buffer_rate = fee_buffer r env;
    actual_order_krw = nought;
    cap_applied = false;
    allowed = false;
    block_code = some code;
    sizing_reason = blocked code;
    max_affordable_krw = none;
  }

  pub max_affordable : F → F → F
  max_affordable available rate =
      if gt rate (nought - int 1) then available / (int 1 + rate) else available

  -- The answer for a computed `max_affordable`, over the base of a refusal.
  pub settle : Sizing F → F → F → Sizing F
  settle base requested affordable =
      let actual = min requested affordable in
      let capped = lt (actual + dec 1 9) requested in
      if lt actual base.min_order_krw
      then record base { max_affordable_krw = some affordable; cap_applied = capped }
      else record base {
        allowed = true;
        block_code = none;
        sizing_reason =
            if capped
            then request_exceeds_available_balance_capped
            else request_within_available_balance;
        max_affordable_krw = some affordable;
        actual_order_krw = actual;
        cap_applied = capped;
      }

  -- The function behind its first early return, by the balance.
  pub cap : Request F → Option F → F → Option F → Sizing F
  unfolding refuse max_affordable settle
  cap r env requested none = refuse r env balance_unavailable
  cap r env requested (some available) =
      if le available nought
      then refuse r env insufficient_balance
      else settle (refuse r env order_below_minimum) requested
          (max_affordable available (fee_buffer r env))

  pub calculate_available_balance_capped_order : Request F → Option F → Sizing F
  unfolding cap
  calculate_available_balance_capped_order r env =
      let requested = floor_zero r.requested_order_krw in
      if le requested nought
      then refuse r env order_amount_zero
      else cap r env requested (floor_zero? r.available_krw)
