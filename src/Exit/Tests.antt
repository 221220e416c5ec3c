-- ===== src/Exit/Tests.antt =====
-- One position that is sold, and the theorems on its exit.
use Prim.Native.String.{String}
use auto_coin_bot.Common.{
  ◌≡◌, ◌⊎◌, refl, true, false, none, some, List, [], ◌∷◌, ℤ, arith, All, map, update_where,
  select_first,
}
use auto_coin_bot.Common.Float.{le}
use auto_coin_bot.Common.Fixed.{fixed, fixed-IsOrdered, fixed-IsMonotone}
use auto_coin_bot.Slots.{Status}
use auto_coin_bot.Risk
use auto_coin_bot.Risk.Check as RiskCheck
use auto_coin_bot.Risk.State as RiskState
use auto_coin_bot.Risk.Duplicate.{duplicate_order_exists}
use auto_coin_bot.Risk.Example
use auto_coin_bot.Exit.Rows
use auto_coin_bot.Exit.Rows.{Position, Candidate, Log, Store, OrderStatus}
use auto_coin_bot.Exit.Store
use auto_coin_bot.Exit.Trigger
use auto_coin_bot.Exit.Trigger.{Config}
use auto_coin_bot.Exit.Check
use auto_coin_bot.Exit.Check.{World}
use auto_coin_bot.Exit.Reconcile
use auto_coin_bot.Exit.Reconcile.{Exchange}
use auto_coin_bot.Exit.Preview
use auto_coin_bot.Exit.Submit
use auto_coin_bot.Exit.Trailing.{track, highest, highest_price_holds}
use auto_coin_bot.Exit.Active.{IsUnique, maybe_create-IsUnique}
use auto_coin_bot.Exit.Single.{IsSingle, submit-IsSingle, as_ℕ_le}
use auto_coin_bot.Exit.Sent.{IsClearedSend, submit_sends_cleared}
use auto_coin_bot.Exit.Kept.{Act, submission, preview, act, acts}
use auto_coin_bot.Exit.Held.{timeout_holds_position}

abbrev config : Config ℤ
config = record {
  exit_enabled = true;
  exit_order_is_limit = true;
  market_order_enabled = false;
  max_hold_minutes = fixed.lit 90 0;
  exit_price_offset_percent = fixed.lit 2 1;
  cancel_exit_order_after_seconds = 45;
  max_exit_retry_count = 2;
  require_manual_confirm = false;
  fee_rate = fixed.lit 5 4;
  trailing_stop_percent = fixed.lit 7 1;
}

abbrev bought : Position ℤ
bought = record {
  id = 9;
  session_id = 3;
  exchange = "bithumb";
  market = "KRW-BTC";
  candidate_strategy_id = 4;
  status = Status.opened;
  exit_order_uuid = none;
  entry_price = fixed.lit 2000 0;
  entry_volume = fixed.lit 10 0;
  entry_amount_krw = fixed.lit 20000 0;
  current_price = fixed.lit 2000 0;
  unrealized_pnl = fixed.lit 0 0;
  realized_pnl = fixed.lit 0 0;
  stop_loss_price = fixed.lit 1984 0;
  take_profit_price = fixed.lit 2024 0;
  highest_price_since_entry = none;
  trailing_stop_price = none;
  trailing_stop_pct = none;
  opened_at = some 100;
  created_at = 100;
}

abbrev start : Store ℤ
start = record {
  positions = bought ∷ [];
  candidates = [];
  logs = [];
  sessions = record { id = 3; current_position_id = none; current_open_order_uuid = none } ∷ [];
  next_candidate_id = 1;
}

-- The price reaches the take-profit.
abbrev triggered : Store ℤ
triggered =
    (Trigger.maybe_create_price_exit_candidate config bought (fixed.lit 2030 0) none 200 start).0

abbrev world : World ℤ
world = record {
  min_order_krw = fixed.lit 5000 0;
  emergency_stopped = false;
  balance_blocking = false;
  broker_fails = false;
  snapshot = record {
    is_fresh = true;
    available = fixed.lit 10 0;
    balance = fixed.lit 10 0;
    positions = bought ∷ [];
  };
  balances = RiskCheck.absent;
  account_equity_krw = none;
  risk_config = Risk.Example.config;
  risk_facts = Risk.Example.facts;
}

abbrev statuses : Store ℤ → List Status
statuses s = map (λ (p : Position ℤ). p.status) s.positions

abbrev log_statuses : Store ℤ → List OrderStatus
log_statuses s = map (λ (l : Log ℤ). l.status) s.logs

triggers : statuses triggered ≡ Status.exit_candidate ∷ []
unfolding Trigger.maybe_create_price_exit_candidate Trigger.create_for Trigger.exit_reason
    Trigger.create_exit_candidate_for_position Trigger.create_unless_active Trigger.create_new
    Store.load_active_exit_candidate Store.update_live_position Store.create_exit_candidate
    Store.update_live_strategy_session Store.load_exit_candidate
    Trigger.update_live_position_metrics update_where
triggers = refl

abbrev previewed : Store ℤ
previewed = (Preview.create_exit_order_preview config world 1 false true "exit-1" triggered).0

previews : log_statuses previewed ≡ OrderStatus.previewed ∷ []
unfolding Preview.create_exit_order_preview Preview.preview_found Store.load_exit_candidate
    select_first Trigger.maybe_create_price_exit_candidate Trigger.create_for Trigger.exit_reason
    Trigger.create_exit_candidate_for_position Trigger.create_unless_active
    Store.load_active_exit_candidate Trigger.update_live_position_metrics Store.update_live_position
    Trigger.create_new Store.update_live_strategy_session Store.create_exit_candidate
    Store.insert_live_order_log Store.update_exit_candidate update_where
    Check.aggregate_same_market_exit_candidate Check.asked_basis Check.base_of Check.basis_of
    Check.by_age Check.call_of Check.check_exchange Check.early_refusal Check.evaluate_exit_order
    Check.fit_sale Check.insert_earliest Check.order_of Check.plain_sale
    Check.sellable_volume_for_position Check.verdict_of Preview.exit_log_payload Rows.is_event_row
    Store.count_exit_retries Store.has_open_exit_order Store.load_live_position Store.newest
    Trigger.holding_minutes Trigger.metrics_of Trigger.new_candidate Trigger.round_krw_price
    Trigger.seconds_since Trigger.with_metrics RiskCheck.check_order_risk RiskCheck.guards
    RiskCheck.mode_check RiskCheck.exchange_check RiskCheck.order_type_check RiskCheck.amount_check
    RiskCheck.operation_policy_check RiskCheck.position_check RiskCheck.max_open_positions_check
    RiskCheck.symbol_allocation_check RiskCheck.daily_limit_check RiskCheck.loss_streak_check
    RiskCheck.cooldown_check RiskCheck.loss_cooldown_check RiskState.compute_risk_state
    RiskState.cooldown_remaining_seconds RiskState.current_bot_position_value_krw
    duplicate_order_exists RiskCheck.bot_value RiskCheck.query_of
previews = refl

abbrev candidate : Candidate ℤ
candidate = record {
  id = 1;
  position_id = 9;
  session_id = 3;
  exchange = "bithumb";
  market = "KRW-BTC";
  candidate_strategy_id = 4;
  reason = Rows.take_profit;
  status = OrderStatus.approved;
  entry_price = fixed.lit 2000 0;
  current_price = fixed.lit 2030 0;
  target_exit_price = fixed.lit 2025 0;
  volume = fixed.lit 10 0;
  expected_amount_krw = fixed.lit 20250 0;
  expected_fee = fixed.lit 10125 3;
  expected_pnl = fixed.lit 239875 3;
  risk_result = Rows.allowed;
  candle_time_utc = none;
  created_at = 200;
}

abbrev exit_log : Log ℤ
exit_log = record {
  request_id = "exit-1";
  exchange = "bithumb";
  market = "KRW-BTC";
  session_id = some 3;
  position_id = some 9;
  exit_candidate_id = some 1;
  purpose = Rows.exit_order;
  is_sale = true;
  status = OrderStatus.previewed;
  risk_result = Rows.allowed;
  order_uuid = none;
  price = fixed.lit 2025 0;
  volume = fixed.lit 10 0;
  amount_krw = fixed.lit 20250 0;
  executed_volume = fixed.lit 0 0;
  remaining_volume = fixed.lit 0 0;
  filled_amount_krw = fixed.lit 0 0;
  paid_fee = fixed.lit 0 0;
  actual_pnl = none;
  is_auto_exit = true;
  aggregate_exit_position_ids = [];
}

-- A second preview of the same exit.
abbrev second_log : Log ℤ
second_log = record exit_log { request_id = "exit-2" }

abbrev ready : Store ℤ
ready = record start { candidates = candidate ∷ []; logs = exit_log ∷ second_log ∷ [] }

abbrev text : String
text = "SUBMIT LIMIT EXIT ORDER"

-- An exchange that does not answer in time.
abbrev slow : Exchange ℤ
slow = record {
  place_order = λ o. Reconcile.timed_out;
  get_order = λ uuid. Reconcile.fetch_timed_out;
  cancel_succeeds = λ uuid. false;
}

abbrev late : Store ℤ
late = (Submit.submit_exit_order config world slow "exit-1" text ready).store

sends :
    (Submit.submit_exit_order config world slow "exit-1" text ready).sent
    ≡ Submit.sent_of exit_log ∷ []
unfolding Submit.submit_exit_order Submit.submit_found Submit.submit_previewed Submit.place
    Submit.after_place Submit.conclude Submit.on_timeout Submit.refuse Store.get_live_order_log
    Store.update_live_order_log Store.merged Store.is_duplicate_uuid Check.evaluate_found
    Preview.create_exit_order_preview Preview.preview_found Store.load_exit_candidate select_first
    Trigger.maybe_create_price_exit_candidate Trigger.create_for Trigger.exit_reason
    Trigger.create_exit_candidate_for_position Trigger.create_unless_active
    Store.load_active_exit_candidate Trigger.update_live_position_metrics Store.update_live_position
    Trigger.create_new Store.update_live_strategy_session Store.create_exit_candidate
    Store.insert_live_order_log Store.update_exit_candidate update_where
    Check.aggregate_same_market_exit_candidate Check.asked_basis Check.base_of Check.basis_of
    Check.by_age Check.call_of Check.check_exchange Check.early_refusal Check.evaluate_exit_order
    Check.fit_sale Check.insert_earliest Check.order_of Check.plain_sale
    Check.sellable_volume_for_position Check.verdict_of Preview.exit_log_payload Rows.is_event_row
    Store.count_exit_retries Store.has_open_exit_order Store.load_live_position Store.newest
    Trigger.holding_minutes Trigger.metrics_of Trigger.new_candidate Trigger.round_krw_price
    Trigger.seconds_since Trigger.with_metrics RiskCheck.check_order_risk RiskCheck.guards
    RiskCheck.mode_check RiskCheck.exchange_check RiskCheck.order_type_check RiskCheck.amount_check
    RiskCheck.operation_policy_check RiskCheck.position_check RiskCheck.max_open_positions_check
    RiskCheck.symbol_allocation_check RiskCheck.daily_limit_check RiskCheck.loss_streak_check
    RiskCheck.cooldown_check RiskCheck.loss_cooldown_check RiskState.compute_risk_state
    RiskState.cooldown_remaining_seconds RiskState.current_bot_position_value_krw
    duplicate_order_exists RiskCheck.bot_value RiskCheck.query_of
sends = refl

abbrev one_order : Store ℤ
one_order = record ready { logs = exit_log ∷ [] }

one_order-IsSingle : IsSingle one_order
one_order-IsSingle = record {
  keyed = λ id. omega (arith, as_ℕ_le (Store.has_request id exit_log));
  single = λ p. omega (arith, as_ℕ_le (Store.is_open_exit_of p exit_log));
}

submit-IsSingle_example :
    IsSingle (Submit.submit_exit_order config world slow "exit-1" text one_order).store
submit-IsSingle_example =
    submit-IsSingle config world slow "exit-1" text one_order one_order-IsSingle

submit_sends_cleared_example :
    let r = Submit.submit_exit_order config world slow "exit-1" text ready in
    (r.sent ≡ []) ⊎ IsClearedSend config world slow "exit-1" text ready r
submit_sends_cleared_example = submit_sends_cleared config world slow "exit-1" text ready

abbrev between : List (Act ℤ)
between =
    submission config world slow "exit-1" text
    ∷ preview config world 1 true false "exit-3"
    ∷ submission config world slow "exit-9" text
    ∷ []

first_found : Store.get_live_order_log "exit-1" ready ≡ some exit_log
unfolding Store.get_live_order_log select_first
first_found = refl

still_found : Store.get_live_order_log "exit-2" (acts between late) ≡ some second_log
unfolding act acts Submit.submit_exit_order Submit.submit_found Submit.submit_previewed Submit.place
    Submit.after_place Submit.conclude Submit.on_timeout Submit.refuse Store.get_live_order_log
    Store.update_live_order_log Store.merged Store.is_duplicate_uuid Check.evaluate_found
    Preview.create_exit_order_preview Preview.preview_found Store.load_exit_candidate select_first
    Trigger.maybe_create_price_exit_candidate Trigger.create_for Trigger.exit_reason
    Trigger.create_exit_candidate_for_position Trigger.create_unless_active
    Store.load_active_exit_candidate Trigger.update_live_position_metrics Store.update_live_position
    Trigger.create_new Store.update_live_strategy_session Store.create_exit_candidate
    Store.insert_live_order_log Store.update_exit_candidate update_where
    Check.aggregate_same_market_exit_candidate Check.asked_basis Check.base_of Check.basis_of
    Check.by_age Check.call_of Check.check_exchange Check.early_refusal Check.evaluate_exit_order
    Check.fit_sale Check.insert_earliest Check.order_of Check.plain_sale
    Check.sellable_volume_for_position Check.verdict_of Preview.exit_log_payload Rows.is_event_row
    Store.count_exit_retries Store.has_open_exit_order Store.load_live_position Store.newest
    Trigger.holding_minutes Trigger.metrics_of Trigger.new_candidate Trigger.round_krw_price
    Trigger.seconds_since Trigger.with_metrics RiskCheck.check_order_risk RiskCheck.guards
    RiskCheck.mode_check RiskCheck.exchange_check RiskCheck.order_type_check RiskCheck.amount_check
    RiskCheck.operation_policy_check RiskCheck.position_check RiskCheck.max_open_positions_check
    RiskCheck.symbol_allocation_check RiskCheck.daily_limit_check RiskCheck.loss_streak_check
    RiskCheck.cooldown_check RiskCheck.loss_cooldown_check RiskState.compute_risk_state
    RiskState.cooldown_remaining_seconds RiskState.current_bot_position_value_krw
    duplicate_order_exists RiskCheck.bot_value RiskCheck.query_of
still_found = refl

timeout_holds_position_example :
    (Submit.submit_exit_order config world slow "exit-2" text (acts between late)).sent ≡ []
unfolding Rows.is_event_row
timeout_holds_position_example =
    timeout_holds_position config world slow "exit-1" text ready exit_log first_found
      (refl, refl, refl) refl sends between config world slow "exit-2" text second_log still_found
      refl

highest_price_holds_example :
    let q = track config (fixed.lit 2010 0 ∷ fixed.lit 2005 0 ∷ []) bought in
    (le (highest bought) (highest q) ≡ true)
    × All (λ x. le x (highest q) ≡ true) (fixed.lit 2010 0 ∷ fixed.lit 2005 0 ∷ [])
highest_price_holds_example =
    highest_price_holds fixed-IsOrdered fixed-IsMonotone config
      (fixed.lit 2010 0 ∷ fixed.lit 2005 0 ∷ []) bought

maybe_create-IsUnique_example : IsUnique triggered
maybe_create-IsUnique_example =
    maybe_create-IsUnique config bought (fixed.lit 2030 0) none 200 start (λ p. omega arith)
