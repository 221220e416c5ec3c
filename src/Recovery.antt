-- ===== src/Recovery.antt =====
-- app/live_recovery.py: what an exchange says of an order, and what an exit order's fills do to the
-- positions that it sells, on the tables of Exit/Rows. The trade outcomes that app/trade_outcomes.py
-- derives for its reports, and the events, are left out.
use Prim.Native.String.{String}
use auto_coin_bot.Common.{
  ℕ, Bool, true, false, not, ◌&&◌, ◌||◌, Option, none, some, List, [], ◌∷◌, ◌++◌, if◌then◌else◌,
  ltb, ◌==◌, length,
}
use auto_coin_bot.Common.Float.{
  Float, ◌+◌, ◌-◌, ◌*◌, ◌/◌, lt, le, gt, dec, int, nought, max, min, float, or_else,
}
use auto_coin_bot.Common.Table.{str_eq, str_mem}
use auto_coin_bot.Risk
use auto_coin_bot.Slots.{Status}
use auto_coin_bot.Exit.Rows
use auto_coin_bot.Exit.Rows.{
  Position, Log, Session, Store, OrderStatus, RiskResult, is_exit, is_filled, is_partially_filled,
  is_canceled, has_text,
}
use auto_coin_bot.Exit.Store.{
  load_live_position, first_open_live_position, update_live_position, update_live_order_log,
  update_live_strategy_session,
}
pub mod Order
pub mod Fills
unfoldable pub use Order.*
unfoldable pub use Fills.*
pub mod Lifecycle
pub mod Refines
pub mod Classified
mod Tests

abbrev pub is_id_among : ℕ → List ℕ → Bool
is_id_among n [] = false
is_id_among n (m ∷ ms) = (m == n) || is_id_among n ms

-- The ids without repetitions, in order.
unfoldable pub distinct_onto : List ℕ → List ℕ → List ℕ
distinct_onto ids [] = ids
distinct_onto ids (n ∷ ns) = distinct_onto (if is_id_among n ids then ids else ids ++ n ∷ []) ns

-- The fields `_previous_…` of a log; they read as 0 where the caller sets none.
pub record Previous (F : Type 0) : Type 0 where
  pub executed_volume : F
  pub filled_amount_krw : F
  pub paid_fee : F

abbrev pub has_fill : OrderStatus → Bool
has_fill st = is_filled st || is_partially_filled st

abbrev pub or_uuid : String → Option String → Option String
or_uuid uuid other = if str_eq uuid "" then other else some uuid

module _ {F : Type 0} ⦃num : Float F⦄ where
  unfoldable pub position_by_uuid : Log F → Option String → Store F → Option (Position F)
  position_by_uuid l none s = none
  position_by_uuid l (some uuid) s =
      if str_eq uuid ""
      then none
      else first_open_live_position l.exchange l.market (λ p. has_text p.exit_order_uuid uuid) s

  abbrev pub or_else_position : Option (Position F) → Option (Position F) → Option (Position F)
  or_else_position none q = q
  or_else_position (some p) q = some p

  abbrev by_id : Option ℕ → Store F → Option (Position F)
  by_id none s = none
  by_id (some id) s = load_live_position id s

  unfoldable pub position_for_exit_order : Log F → Store F → Option (Position F)
  unfolding position_by_uuid
  position_for_exit_order l s =
      or_else_position (by_id l.position_id s) (position_by_uuid l l.order_uuid s)

  unfoldable pub aggregate_exit_position_ids : Log F → List ℕ
  unfolding distinct_onto
  aggregate_exit_position_ids l =
      let ids = distinct_onto [] l.aggregate_exit_position_ids in
      if ltb 1 (length ids) then ids else []

  abbrev pub no_previous : Previous F
  no_previous = record { executed_volume = nought; filled_amount_krw = nought; paid_fee = nought }

  unfoldable pub new_fill : Previous F → ReconciledOrderStatus F → Fill F
  new_fill prev st = record {
    volume = max (st.executed_volume - prev.executed_volume) nought;
    amount = max (st.filled_amount_krw - prev.filled_amount_krw) nought;
    fee = max (st.paid_fee - prev.paid_fee) nought;
  }

  unfoldable pub is_still_waiting : ReconciledOrderStatus F → Bool
  is_still_waiting st = is_partially_filled st.status && not (str_mem st.raw.state cancel_states)

  unfoldable pub reopen_all : List ℕ → Store F → Store F
  reopen_all [] s = s
  reopen_all (id ∷ ids) s =
      reopen_all ids (
        update_live_position id (λ p. record p { status = Status.opened; exit_order_uuid = none })
          s)

  unfoldable pub sync_single :
      Log F → ReconciledOrderStatus F → Fill F → Position F → Store F → Store F
  sync_single l st fill p s =
      if le fill.volume nought && has_fill st.status
      then s
      else if has_fill st.status
      then settle (is_still_waiting st) l.order_uuid fill p
          (update_live_order_log l.request_id (with_pnl (actual_pnl fill p)) s)
      else if is_canceled st.status
      then update_live_position p.id
          (λ q. record q { status = Status.opened; exit_order_uuid = none }) s
      else s

  unfoldable pub sync_position :
      Log F → Previous F → ReconciledOrderStatus F → List ℕ → Position F → Store F → Store F
  sync_position l prev st [] p s = sync_single l st (new_fill prev st) p s
  sync_position l prev st (id ∷ ids) p s =
      if has_fill st.status
      then sync_aggregate_exit_order_positions (is_still_waiting st) l (id ∷ ids) (new_fill prev st)
          s
      else if is_canceled st.status
      then reopen_all (id ∷ ids) s
      else sync_single l st (new_fill prev st) p s

  unfoldable pub sync_found :
      Log F → Previous F → ReconciledOrderStatus F → Option (Position F) → Store F → Store F
  sync_found l prev st none s = s
  sync_found l prev st (some p) s = sync_position l prev st (aggregate_exit_position_ids l) p s

  unfoldable pub sync_exit_order_position :
      Log F → Previous F → ReconciledOrderStatus F → Store F → Store F
  sync_exit_order_position l prev st s = sync_found l prev st (position_for_exit_order l s) s

  -- The columns that a reconciliation writes to the log.
  unfoldable pub reconciled_log : ReconciledOrderStatus F → Log F → Log F
  reconciled_log st l = record l {
    status = st.status;
    risk_result = risk_result_for_status st.status l.risk_result;
    order_uuid = or_uuid st.raw.uuid l.order_uuid;
    executed_volume = st.executed_volume;
    remaining_volume = st.remaining_volume;
    filled_amount_krw = st.filled_amount_krw;
    paid_fee = st.paid_fee;
  }

  abbrev pub previous_of : Log F → Previous F
  previous_of l = record {
    executed_volume = l.executed_volume;
    filled_amount_krw = l.filled_amount_krw;
    paid_fee = l.paid_fee;
  }

  -- `apply_reconciled_order_status` on the log of an exit order.
  unfoldable pub apply_reconciled_exit_status : Log F → ReconciledOrderStatus F → Store F → Store F
  apply_reconciled_exit_status l st s =
      sync_exit_order_position (reconciled_log st l) (previous_of l) st
        (update_live_order_log l.request_id (reconciled_log st) s)
