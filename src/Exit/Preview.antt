-- ===== src/Exit/Preview.antt =====
-- `create_exit_order_preview` of app/live_exit.py.
use Prim.Native.String.{String}
use auto_coin_bot.Common.{ℕ, Bool, true, false, Option, none, some, if◌then◌else◌}
use auto_coin_bot.Common.Float.{Float, nought}
use auto_coin_bot.Exit.Rows
use auto_coin_bot.Exit.Rows.{
  Position, Candidate, Log, Store, RiskResult, OrderStatus, is_exit, is_exitable, is_previewed,
  is_allowed, is_filled,
}
use auto_coin_bot.Exit.Store.{load_live_position, load_exit_candidate, insert_live_order_log}
use auto_coin_bot.Exit.Trigger.{Config}
use auto_coin_bot.Exit.Check.{World, ExitRisk, evaluate_exit_order}
use auto_coin_bot.Exit.Reconcile.{mark_candidate}

module _ {F : Type 0} ⦃num : Float F⦄ where
  -- A position that may not be sold is treated as none.
  abbrev pub only_exitable : Option (Position F) → Option (Position F)
  only_exitable none = none
  only_exitable (some p) = if is_exitable p.status then some p else none

  abbrev pub position_of : Option ℕ → Store F → Option (Position F)
  position_of none s = none
  position_of (some id) s = only_exitable (load_live_position id s)

  -- `_exit_log_payload`
  unfoldable pub exit_log_payload : Candidate F → ExitRisk F → String → Bool → Log F
  exit_log_payload c risk request_id is_auto_exit = record {
    request_id = request_id;
    exchange = c.exchange;
    market = c.market;
    session_id = some c.session_id;
    position_id = some c.position_id;
    exit_candidate_id = some c.id;
    purpose = Rows.exit_order;
    is_sale = true;
    status = if risk.allowed then OrderStatus.previewed else OrderStatus.blocked;
    risk_result = risk.risk_result;
    order_uuid = none;
    price = risk.price;
    volume = risk.volume;
    amount_krw = risk.amount_krw;
    executed_volume = nought;
    remaining_volume = nought;
    filled_amount_krw = nought;
    paid_fee = nought;
    actual_pnl = none;
    is_auto_exit = is_auto_exit;
    aggregate_exit_position_ids = risk.aggregate_exit_position_ids;
  }

  -- The insert raises where the request id, a new random one, were taken.
  abbrev after_insert : Candidate F → ExitRisk F → Option (Store F) → Store F → Store F × Bool
  after_insert c risk none s = (s, false)
  after_insert c risk (some s') s = (
    mark_candidate c.id (if risk.allowed then OrderStatus.approved else OrderStatus.blocked)
        risk.risk_result s',
    risk.allowed,
  )

  unfoldable pub preview_found :
      Config F → World F → Option (Candidate F) → Bool → Bool → String → Store F → Store F × Bool
  preview_found config w none manual_confirmed is_auto_exit request_id s = (s, false)
  preview_found config w (some c) manual_confirmed is_auto_exit request_id s =
      let p = position_of (some c.position_id) s in
      let risk = evaluate_exit_order config w s c p manual_confirmed is_auto_exit request_id in
      after_insert c risk
        (insert_live_order_log (exit_log_payload c risk request_id is_auto_exit) s) s

  -- With the request id that it draws.
  unfoldable pub create_exit_order_preview :
      Config F → World F → ℕ → Bool → Bool → String → Store F → Store F × Bool
  create_exit_order_preview config w id manual_confirmed is_auto_exit request_id s =
      preview_found config w (load_exit_candidate id s) manual_confirmed is_auto_exit request_id s
