-- ===== src/Capital/Tests.antt =====
-- A snapshot on which a run of the allocator grants an order, and the theorems on it.
use auto_coin_bot.Common.{ℕ, ◌≡◌, ◌≢◌, ◌⊎◌, refl, true, false, none, some, List, [], ◌∷◌, ℤ}
use auto_coin_bot.Common.Fixed.{fixed, fixed-IsOrdered}
use auto_coin_bot.Common.Float.{lt, nought, ◌-◌}
use auto_coin_bot.Common.Table.{insert, lookup}
use auto_coin_bot.Slots
use auto_coin_bot.Allocator
use auto_coin_bot.Allocator.Run
use auto_coin_bot.Allocator.Example.{config, candidates, facts, slots, tables}
use auto_coin_bot.Capital
use auto_coin_bot.Capital.{
  Inputs, Position, Holding, Order, OrderRow, build_capital_snapshot, for_allocator,
}
use auto_coin_bot.Capital.Sound.{Agrees, granted-Agrees, budget_bounds}

abbrev position : Position ℤ
position = record {
  market = "KRW-BTC";
  symbol = "BTC";
  current_value_krw = none;
  current_price = some (fixed.lit 100 0);
  entry_price = some (fixed.lit 90 0);
  entry_volume = some (fixed.lit 200 0);
}

abbrev holding : ℕ → Holding ℤ
holding amount = record { balance = some (fixed.lit amount 0); locked = none }

abbrev order : Order ℤ
order = record {
  uuid = "u-1";
  identifier = "";
  client_order_id = "";
  side = "ask";
  remaining_fee = Capital.missing;
  reserved_fee = Capital.missing;
  locked = Capital.missing;
  amount_krw = Capital.missing;
  price = Capital.text (some (fixed.lit 110 0));
  remaining_volume = Capital.missing;
  volume = Capital.text (some (fixed.lit 50 0));
}

abbrev inputs : List OrderRow → Inputs ℤ
inputs rows = record {
  max_total_exposure_krw = some (fixed.lit 100000 0);
  cash_reserve_pct = fixed.lit 5 0;
  positions = position ∷ [];
  reservations = some (fixed.lit 10000 0) ∷ [];
  db_orders = rows;
  slots = slots;
  markets = "KRW-BTC" ∷ [];
  balances = some (("KRW", holding 90000) ∷ ("BTC", holding 201) ∷ []);
  open_orders = λ market. some (order ∷ []);
}

abbrev rows : List OrderRow
rows = record { order_uuid = "u-1"; request_id = "r" } ∷ []

budget_computed : (build_capital_snapshot (inputs rows)).available_budget_krw ≡ fixed.lit 70000 0
unfolding build_capital_snapshot Capital.blockers_of Capital.remaining_exposure_of
    Capital.exchange_orders Capital.fetch_orders Capital.add_orders Capital.add_order
    Capital.order_krw Capital.position_value Capital.balance_mismatch_of Capital.db_volumes
    Capital.add_volume Capital.db_prices Capital.add_price Capital.open_order_mismatch_of insert
    lookup
budget_computed = refl

-- An order that only one side has.
mismatch_found : (build_capital_snapshot (inputs [])).open_order_mismatch_detected ≡ true
unfolding build_capital_snapshot Capital.blockers_of Capital.remaining_exposure_of
    Capital.exchange_orders Capital.fetch_orders Capital.add_orders Capital.add_order
    Capital.order_krw Capital.position_value Capital.balance_mismatch_of Capital.db_volumes
    Capital.add_volume Capital.db_prices Capital.add_price Capital.open_order_mismatch_of insert
    lookup
mismatch_found = refl

something_granted :
    (Run.allocate config
      (for_allocator (inputs rows) (build_capital_snapshot (inputs rows)))
      facts
      candidates
      1
      tables).accepted
    ≢ []
unfolding Run.allocate Run.allocate_all Run.allocate_one Run.allocate_by Run.allocate_entry
    Run.allocate_replacement Run.or_refuse Run.accept_entry Run.accept_replacement Run.best_first
    Run.insert_candidate Run.start Run.refuse Allocator.allocation_score
    Allocator.same_market_reserved_slot Allocator.judge_slot Allocator.candidate_block_reason
    Allocator.final_block Allocator.approved_order Allocator.replacement_budget Slots.reserve
    Slots.new_slot for_allocator build_capital_snapshot Capital.blockers_of
    Capital.remaining_exposure_of Capital.exchange_orders Capital.fetch_orders Capital.add_orders
    Capital.add_order Capital.order_krw Capital.position_value Capital.balance_mismatch_of
    Capital.db_volumes Capital.add_volume Capital.db_prices Capital.add_price
    Capital.open_order_mismatch_of insert lookup
something_granted = λ h. cc h

granted-Agrees_example : Agrees (inputs rows)
granted-Agrees_example =
    granted-Agrees fixed-IsOrdered (inputs rows) config facts candidates 1 tables something_granted

budget_bounds_example :
    let s = build_capital_snapshot (inputs rows) in
    (lt s.available_budget_krw nought ≡ false)
    × (lt s.remaining_exposure_krw s.available_budget_krw ≡ false)
    × ((available : ℤ)
        → s.available_krw_balance ≡ some available
        → (s.available_budget_krw ≡ nought)
          ⊎ (lt (available - s.cash_reserve_krw) s.available_budget_krw ≡ false))
    × (s.available_krw_balance ≡ none → s.available_budget_krw ≡ nought)
budget_bounds_example = budget_bounds fixed-IsOrdered (inputs rows)
