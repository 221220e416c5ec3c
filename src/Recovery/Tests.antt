-- ===== src/Recovery/Tests.antt =====
-- An exit order of which a part is filled, and the theorems on it.
use auto_coin_bot.Common.{◌≡◌, refl, true, none, some, [], ◌∷◌, ℤ, map, update_where, select_first}
use auto_coin_bot.Common.Fixed.{fixed, fixed-IsMonotone}
use auto_coin_bot.Slots.{Status}
use auto_coin_bot.Exit.Rows
use auto_coin_bot.Exit.Rows.{Position, Log, Store, OrderStatus}
use auto_coin_bot.Exit.Store
use auto_coin_bot.Recovery
use auto_coin_bot.Recovery.{RawOrder}
use auto_coin_bot.Recovery.Classified.{IsClassified, normalize-IsClassified}

abbrev position : Position ℤ
position = record {
  id = 9;
  session_id = 3;
  exchange = "bithumb";
  market = "KRW-BTC";
  candidate_strategy_id = 4;
  status = Status.closing;
  exit_order_uuid = some "u";
  entry_price = fixed.lit 2000 0;
  entry_volume = fixed.lit 10 0;
  entry_amount_krw = fixed.lit 20000 0;
  current_price = fixed.lit 2000 0;
  unrealized_pnl = fixed.lit 0 0;
  realized_pnl = fixed.lit 0 0;
  stop_loss_price = fixed.lit 1984 0;
  take_profit_price = fixed.lit 2024 0;
  highest_price_since_entry = none;
  trailing_stop_price = none;
  trailing_stop_pct = none;
  opened_at = some 100;
  created_at = 100;
}

abbrev log : Log ℤ
log = record {
  request_id = "exit-1";
  exchange = "bithumb";
  market = "KRW-BTC";
  session_id = some 3;
  position_id = some 9;
  exit_candidate_id = some 1;
  purpose = Rows.exit_order;
  is_sale = true;
  status = OrderStatus.submitted;
  risk_result = Rows.allowed;
  order_uuid = some "u";
  price = fixed.lit 2025 0;
  volume = fixed.lit 10 0;
  amount_krw = fixed.lit 20250 0;
  executed_volume = fixed.lit 0 0;
  remaining_volume = fixed.lit 0 0;
  filled_amount_krw = fixed.lit 0 0;
  paid_fee = fixed.lit 0 0;
  actual_pnl = none;
  is_auto_exit = true;
  aggregate_exit_position_ids = [];
}

abbrev store : Store ℤ
store = record {
  positions = position ∷ [];
  candidates = [];
  logs = log ∷ [];
  sessions = [];
  next_candidate_id = 2;
}

-- Canceled, after 4 of the 10 were sold.
abbrev canceled_partly : RawOrder ℤ
canceled_partly = record {
  uuid = "u";
  state = "cancel";
  executed_volume = some (fixed.lit 4 0);
  remaining_volume = some (fixed.lit 6 0);
  volume = some (fixed.lit 10 0);
  price = some (fixed.lit 2025 0);
  paid_fee = some (fixed.lit 4 0);
  reserved_fee = none;
  paid_amount = none;
  executed_funds = none;
  trades = [];
}

abbrev after : Store ℤ
after =
    Recovery.apply_reconciled_exit_status log (Recovery.normalize_exchange_order canceled_partly)
      store

-- The position is open again, with what is left, but its log still counts as an open order.
stays_open :
    (Store.has_open_exit_order 9 after ≡ true)
    × (map (λ (p : Position ℤ). p.status) after.positions ≡ Status.opened ∷ [])
    × (map (λ (p : Position ℤ). p.entry_volume) after.positions ≡ fixed.lit 6 0 ∷ [])
    × (map (λ (p : Position ℤ). p.realized_pnl) after.positions ≡ fixed.lit 96 0 ∷ [])
unfolding Store.has_open_exit_order Recovery.apply_reconciled_exit_status
    Recovery.sync_exit_order_position Recovery.sync_found Recovery.position_for_exit_order
    Recovery.reconciled_log Store.load_live_position select_first Store.update_live_order_log
    Recovery.sync_position Recovery.aggregate_exit_position_ids Recovery.sync_single
    Recovery.new_fill Recovery.normalize_exchange_order Recovery.settle Recovery.is_sold_out
    Store.update_live_position update_where Rows.is_event_row Rows.is_status_event
    Store.is_canonical_for Store.is_duplicate_uuid Store.merged Recovery.actual_pnl
    Recovery.entry_basis Recovery.remaining_volume Recovery.settled Recovery.filled_amount_krw
    Recovery.remaining_of Recovery.risk_result_for_status Recovery.status_of Recovery.traded_from
    Recovery.distinct_onto Recovery.is_still_waiting
stays_open = (refl, refl, refl, refl)

normalize-IsClassified_example :
    let st = Recovery.normalize_exchange_order canceled_partly in
    IsClassified "cancel" st.executed_volume st.remaining_volume st.status
normalize-IsClassified_example = normalize-IsClassified fixed-IsMonotone canceled_partly
