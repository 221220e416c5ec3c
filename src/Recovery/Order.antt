-- ===== src/Recovery/Order.antt =====
-- `normalize_exchange_order` of app/live_recovery.py: the status of an order from what the exchange says
-- of it.
use Prim.Native.String.{String}
use auto_coin_bot.Common.{◌&&◌, ◌||◌, Option, List, [], ◌∷◌, if◌then◌else◌}
use auto_coin_bot.Common.Float.{Float, ◌+◌, ◌-◌, ◌*◌, le, gt, nought, max, float, or_else}
use auto_coin_bot.Common.Table.{str_mem}
use auto_coin_bot.Risk
use auto_coin_bot.Exit.Rows
use auto_coin_bot.Exit.Rows.{OrderStatus, RiskResult}

pub record Trade (F : Type 0) : Type 0 where
  pub price : Option F
  pub volume : Option F

-- The keys of an order of the exchange that are read, `state` in lower case, and its id, "" if it has
-- none. `trades` is empty where it is no list.
pub record RawOrder (F : Type 0) : Type 0 where
  pub uuid : String
  pub state : String
  pub executed_volume : Option F
  pub remaining_volume : Option F
  pub volume : Option F
  pub price : Option F
  pub paid_fee : Option F
  pub reserved_fee : Option F
  pub paid_amount : Option F
  pub executed_funds : Option F
  pub trades : List (Trade F)

pub record ReconciledOrderStatus (F : Type 0) : Type 0 where
  pub status : OrderStatus
  pub executed_volume : F
  pub remaining_volume : F
  pub filled_amount_krw : F
  pub paid_fee : F
  pub raw : RawOrder F

abbrev pub done_states : List String
done_states = "done" ∷ "filled" ∷ "completed" ∷ []

abbrev pub cancel_states : List String
cancel_states = "cancel" ∷ "canceled" ∷ "cancelled" ∷ []

abbrev pub wait_states : List String
wait_states = "wait" ∷ "waiting" ∷ "watch" ∷ []

unfoldable pub risk_result_for_status : OrderStatus → RiskResult → RiskResult
risk_result_for_status OrderStatus.partially_filled fallback =
    Rows.named (Risk.base "PARTIAL_FILL_REQUIRES_RECOVERY")
risk_result_for_status OrderStatus.filled fallback = Rows.named (Risk.base "EXCHANGE_FILLED_SYNCED")
risk_result_for_status OrderStatus.canceled fallback =
    Rows.named (Risk.base "EXCHANGE_CANCELED_SYNCED")
risk_result_for_status OrderStatus.waiting fallback = Rows.allowed
risk_result_for_status _ fallback = fallback

module _ {F : Type 0} ⦃num : Float F⦄ where
  unfoldable pub traded_from : F → List (Trade F) → F
  traded_from total [] = total
  traded_from total (t ∷ ts) = traded_from (total + float t.price * float t.volume) ts

  unfoldable pub filled_amount_krw : RawOrder F → F → F → F
  unfolding traded_from
  filled_amount_krw o executed price =
      let explicit = or_else (float o.paid_amount) (float o.executed_funds) in
      let total = traded_from nought o.trades in
      if gt explicit nought then explicit else if gt total nought then total else executed * price

  unfoldable pub status_of : String → F → F → OrderStatus
  status_of state executed remaining =
      if gt executed nought && gt remaining nought
      then OrderStatus.partially_filled
      else if str_mem state done_states || (gt executed nought && le remaining nought)
      then OrderStatus.filled
      else if str_mem state cancel_states
      then OrderStatus.canceled
      else if str_mem state wait_states || gt remaining nought
      then OrderStatus.waiting
      else OrderStatus.submitted

  unfoldable pub remaining_of : RawOrder F → F
  remaining_of o =
      let executed = float o.executed_volume in
      let remaining = float o.remaining_volume in
      let requested = float o.volume in
      if le remaining nought && gt requested nought && gt executed nought
      then max (requested - executed) nought
      else remaining

  unfoldable pub normalize_exchange_order : RawOrder F → ReconciledOrderStatus F
  unfolding status_of filled_amount_krw remaining_of
  normalize_exchange_order o =
      let executed = float o.executed_volume in
      let remaining = remaining_of o in
      record {
        status = status_of o.state executed remaining;
        executed_volume = executed;
        remaining_volume = remaining;
        filled_amount_krw = filled_amount_krw o executed (float o.price);
        paid_fee = or_else (float o.paid_fee) (float o.reserved_fee);
        raw = o;
      }
