-- ===== src/Exit/Submit.antt =====
-- The exit orders of app/live_exit.py: their submission. The orders that a submission
-- asks the exchange to place are in its result.
use Prim.Native.String.{String}
use auto_coin_bot.Common.{
  ℕ, Bool, true, false, ◌&&◌, Option, none, some, List, [], ◌∷◌, if◌then◌else◌, ◌==◌,
}
use auto_coin_bot.Common.Float.{Float}
use auto_coin_bot.Common.Table.{str_eq}
use auto_coin_bot.Slots.{Status}
use auto_coin_bot.Exit.Rows
use auto_coin_bot.Exit.Rows.{
  Position, Candidate, Log, Store, RiskResult, OrderStatus, is_exit, is_exitable, is_previewed,
  is_allowed, is_filled,
}
use auto_coin_bot.Exit.Store.{
  load_exit_candidate, get_live_order_log, update_live_order_log, update_live_position,
}
use auto_coin_bot.Exit.Trigger.{Config}
use auto_coin_bot.Exit.Check.{World, evaluate_found}
use auto_coin_bot.Exit.Reconcile.{
  Exchange, Placed, Raised, Sent, accepted, timed_out, failed, no, timeout, other, named,
  mark_candidate_of, reconcile_exit_order,
}
use auto_coin_bot.Exit.Preview.{position_of}

-- What `submit_exit_order` returns.
pub record Answer : Type 0 where
  pub ok : Bool
  pub status : OrderStatus
  pub risk_result : Option RiskResult

pub record Submitted (F : Type 0) : Type 0 where
  pub store : Store F
  pub answer : Answer
  pub sent : List (Sent F)  -- the orders that the exchange was asked to place

abbrev blocked_answer : RiskResult → Answer
blocked_answer result = record {
  ok = false;
  status = OrderStatus.blocked;
  risk_result = some result;
}

module _ {F : Type 0} ⦃num : Float F⦄ where
  abbrev pub candidate_of : Option ℕ → Store F → Option (Candidate F)
  candidate_of none s = none
  candidate_of (some id) s = load_exit_candidate id s

  abbrev pub mark_position : Option (Position F) → Status → Store F → Store F
  mark_position none status s = s
  mark_position (some p) status s = update_live_position p.id (λ q. record q { status = status }) s

  abbrev closing : String → Position F → Position F
  closing uuid q = record q { status = Status.closing; exit_order_uuid = some uuid }

  -- The other positions of an aggregate exit.
  unfoldable pub close_others : String → ℕ → List ℕ → Store F → Store F
  close_others uuid own [] s = s
  close_others uuid own (id ∷ ids) s =
      close_others uuid own ids (if id == own then s else update_live_position id (closing uuid) s)

  unfoldable pub close_positions : String → List ℕ → Option (Position F) → Store F → Store F
  close_positions uuid ids none s = s
  close_positions uuid ids (some p) s =
      close_others uuid p.id ids (update_live_position p.id (closing uuid) s)

  abbrev pub mark_log : String → OrderStatus → RiskResult → Store F → Store F
  mark_log id status result s =
      update_live_order_log id (λ l. record l { status = status; risk_result = result }) s

  -- The `except` branch.
  unfoldable pub on_timeout : Log F → Store F → Store F
  on_timeout l s =
      mark_candidate_of l.exit_candidate_id OrderStatus.submitted
        (named "ORDER_STATUS_UNKNOWN_TIMEOUT")
        (mark_log l.request_id OrderStatus.submitted (named "ORDER_STATUS_UNKNOWN_TIMEOUT") s)

  unfoldable pub on_failure : Log F → Option (Position F) → Store F → Store F
  on_failure l p s =
      mark_position p Status.error
        (mark_log l.request_id OrderStatus.failed (named "BLOCKED_API_RESPONSE_ERROR") s)

  abbrev latest_status : Option (Log F) → OrderStatus
  latest_status none = OrderStatus.submitted
  latest_status (some l) = l.status

  -- The end of the `try` block, and what the two kinds of exceptions lead to.
  unfoldable pub conclude : Log F → Option (Position F) → Store F → Raised → Store F × Answer
  conclude l p s no = (
    s,
    record {
      ok = true;
      status = latest_status (get_live_order_log l.request_id s);
      risk_result = none;
    },
  )
  conclude l p s timeout = (
    on_timeout l s,
    record {
      ok = false;
      status = OrderStatus.submitted;
      risk_result = some (named "ORDER_STATUS_UNKNOWN_TIMEOUT");
    },
  )
  conclude l p s other = (
    on_failure l p s,
    record {
      ok = false;
      status = OrderStatus.failed;
      risk_result = some (named "BLOCKED_API_RESPONSE_ERROR");
    },
  )

  -- What is written once the exchange has taken the order, before its status is read.
  unfoldable pub record_accepted : Log F → Option (Position F) → String → Store F → Store F
  unfolding close_positions
  record_accepted l p uuid s =
      let s' =
        update_live_order_log l.request_id
          (λ x. record x {
            status = OrderStatus.submitted;
            risk_result = Rows.allowed;
            order_uuid = some uuid;
          })
          s in
      let s'' = mark_candidate_of l.exit_candidate_id OrderStatus.submitted Rows.allowed s' in
      close_positions uuid l.aggregate_exit_position_ids p s''

  abbrev pub read_status : Exchange F → String → String → Store F → Store F × Raised
  read_status e uuid request_id s =
      if str_eq uuid "" then (s, no) else reconcile_exit_order e request_id s

  unfoldable pub after_place :
      Exchange F → Log F → Option (Position F) → Placed → Store F → Store F × Answer
  after_place e l p (accepted uuid) s =
      let (s', raised) = read_status e uuid l.request_id (record_accepted l p uuid s) in
      conclude l p s' raised
  after_place e l p timed_out s = conclude l p s timeout
  after_place e l p failed s = conclude l p s other

  abbrev pub sent_of : Log F → Sent F
  sent_of l = record {
    request_id = l.request_id;
    market = l.market;
    price = l.price;
    volume = l.volume;
  }

  unfoldable pub refuse : Log F → RiskResult → Store F → Submitted F
  refuse l result s = record {
    store =
        mark_candidate_of l.exit_candidate_id OrderStatus.blocked result
          (mark_log l.request_id OrderStatus.blocked result s);
    answer = blocked_answer result;
    sent = [];
  }

  unfoldable pub place : Exchange F → Log F → Option (Position F) → Store F → Submitted F
  place e l p s =
      let (s', answer) = after_place e l p (e.place_order (sent_of l)) s in
      record { store = s'; answer = answer; sent = sent_of l ∷ [] }

  unfoldable pub submit_previewed : Config F → World F → Exchange F → Log F → Store F → Submitted F
  submit_previewed config w e l s =
      let p = position_of l.position_id s in
      let risk =
        evaluate_found config w s (candidate_of l.exit_candidate_id s) p true l.is_auto_exit
          l.request_id in
      if risk.allowed then place e l p s else refuse l risk.risk_result s

  unfoldable pub submit_found :
      Config F → World F → Exchange F → Option (Log F) → Store F → Submitted F
  submit_found config w e none s = record {
    store = s;
    answer = blocked_answer (named "PREVIEW_NOT_FOUND");
    sent = [];
  }
  submit_found config w e (some l) s =
      if is_previewed l.status && is_allowed l.risk_result
      then submit_previewed config w e l s
      else record { store = s; answer = blocked_answer l.risk_result; sent = [] }

  -- The preview is one of an exit: `int(preview["exit_candidate_id"])` raises on any other.
  unfoldable pub submit_exit_order :
      Config F → World F → Exchange F → String → String → Store F → Submitted F
  submit_exit_order config w e request_id final_confirmation s =
      if str_eq final_confirmation "SUBMIT LIMIT EXIT ORDER"
      then submit_found config w e (get_live_order_log request_id s) s
      else record {
        store = s;
        answer = blocked_answer (named "BLOCKED_MANUAL_CONFIRM_REQUIRED");
        sent = [];
      }
