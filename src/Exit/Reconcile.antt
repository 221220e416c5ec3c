-- ===== src/Exit/Reconcile.antt =====
-- `reconcile_exit_order` of app/live_exit.py, and the exchange, which is an argument.
use Prim.Native.String.{String}
use auto_coin_bot.Common.{ℕ, Bool, Option, none, some, if◌then◌else◌}
use auto_coin_bot.Common.Float.{Float, ◌-◌, ◌*◌, nought}
use auto_coin_bot.Common.Table.{str_eq}
use auto_coin_bot.Risk
use auto_coin_bot.Exit.Rows
use auto_coin_bot.Exit.Rows.{
  Position, Candidate, Log, Store, RiskResult, OrderStatus, is_exit, is_exitable, is_previewed,
  is_allowed, is_filled,
}
use auto_coin_bot.Exit.Store.{
  load_live_position, get_live_order_log, update_live_order_log, update_exit_candidate,
}
use auto_coin_bot.Recovery.{
  RawOrder, normalize_exchange_order, sync_exit_order_position, no_previous,
}

-- The answers of a request: the exchange took the order, with the id it gave, or the request raised, by a
-- timeout or in another way.
pub data Placed : Type 0 where
  accepted : String → Placed
  timed_out failed : Placed

pub data Fetched (F : Type 0) : Type 0 where
  found : RawOrder F → Fetched F
  fetch_timed_out fetch_failed : Fetched F

pub record Sent (F : Type 0) : Type 0 where
  pub request_id : String
  pub market : String
  pub price : F
  pub volume : F

pub record Exchange (F : Type 0) : Type 0 where
  pub place_order : Sent F → Placed
  pub get_order : String → Fetched F
  pub cancel_succeeds : String → Bool

-- Whether a call raised, and how.
pub data Raised : Type 0 where
  no timeout other : Raised

abbrev pub named : String → RiskResult
named text = Rows.named (Risk.base text)

abbrev pub status_text : OrderStatus → String
status_text OrderStatus.pending = "PENDING"
status_text OrderStatus.approved = "APPROVED"
status_text OrderStatus.completed = "COMPLETED"
status_text OrderStatus.previewed = "PREVIEWED"
status_text OrderStatus.blocked = "BLOCKED"
status_text OrderStatus.submitted = "SUBMITTED"
status_text OrderStatus.waiting = "WAITING"
status_text OrderStatus.partially_filled = "PARTIALLY_FILLED"
status_text OrderStatus.filled = "FILLED"
status_text OrderStatus.canceled = "CANCELED"
status_text OrderStatus.failed = "FAILED"
status_text OrderStatus.stale_canceled = "STALE_CANCELED"

unfoldable pub candidate_status_for_order : OrderStatus → OrderStatus
candidate_status_for_order OrderStatus.filled = OrderStatus.completed
candidate_status_for_order OrderStatus.canceled = OrderStatus.canceled
candidate_status_for_order OrderStatus.partially_filled = OrderStatus.submitted
candidate_status_for_order st = st

abbrev pub uuid_of : Option String → Option String
uuid_of none = none
uuid_of (some u) = if str_eq u "" then none else some u

module _ {F : Type 0} ⦃num : Float F⦄ where
  abbrev pub mark_candidate : ℕ → OrderStatus → RiskResult → Store F → Store F
  mark_candidate id status result s =
      update_exit_candidate id (λ c. record c { status = status; risk_result = result }) s

  abbrev entry_cost : Option (Position F) → F → F
  entry_cost none volume = nought
  entry_cost (some p) volume = p.entry_price * volume

  -- `load_live_position`, also of a position that is closed.
  abbrev any_position_of : Option ℕ → Store F → Option (Position F)
  any_position_of none s = none
  any_position_of (some id) s = load_live_position id s

  abbrev pub mark_candidate_of : Option ℕ → OrderStatus → RiskResult → Store F → Store F
  mark_candidate_of none status result s = s
  mark_candidate_of (some id) status result s = mark_candidate id status result s

  -- `reconcile_exit_order` once the exchange has answered.
  unfoldable pub reconcile_with : Log F → RawOrder F → Store F → Store F
  unfolding candidate_status_for_order
  reconcile_with l raw s =
      let st = normalize_exchange_order raw in
      let cost = entry_cost (any_position_of l.position_id s) st.executed_volume in
      let pnl = st.filled_amount_krw - cost - st.paid_fee in
      let s' =
        update_live_order_log l.request_id
          (λ x. record x {
            status = st.status;
            executed_volume = st.executed_volume;
            remaining_volume = st.remaining_volume;
            filled_amount_krw = st.filled_amount_krw;
            paid_fee = st.paid_fee;
            actual_pnl = if is_filled st.status then some pnl else l.actual_pnl;
          })
          s in
      let s'' =
        mark_candidate_of l.exit_candidate_id (candidate_status_for_order st.status)
          (named (status_text st.status)) s' in
      sync_exit_order_position l no_previous st s''

  unfoldable pub after_fetch : Log F → Fetched F → Store F → Store F × Raised
  after_fetch l (found raw) s = (reconcile_with l raw s, no)
  after_fetch l fetch_timed_out s = (s, timeout)
  after_fetch l fetch_failed s = (s, other)

  unfoldable pub reconcile_by_uuid : Exchange F → Log F → Option String → Store F → Store F × Raised
  reconcile_by_uuid e l none s = (s, no)
  reconcile_by_uuid e l (some uuid) s =
      if is_exit l.purpose then after_fetch l (e.get_order uuid) s else (s, no)

  unfoldable pub reconcile_found : Exchange F → Option (Log F) → Store F → Store F × Raised
  reconcile_found e none s = (s, no)
  reconcile_found e (some l) s = reconcile_by_uuid e l (uuid_of l.order_uuid) s

  unfoldable pub reconcile_exit_order : Exchange F → String → Store F → Store F × Raised
  reconcile_exit_order e request_id s = reconcile_found e (get_live_order_log request_id s) s
