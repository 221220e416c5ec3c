-- ===== src/Capital.antt =====
-- app/capital_snapshot.py: the snapshot of the capital that an allocation starts from. What the tables
-- and the exchange answer is an argument, `Inputs`. The warnings, which are for display, are left out.
use Prim.Native.String.{String}
use auto_coin_bot.Common.{
  ℕ, Bool, true, false, not, ◌&&◌, ◌||◌, Option, none, some, List, [], ◌∷◌, ◌++◌, map,
  if◌then◌else◌, is_some, get_or_else, length, ◌==◌, any, is_empty, filter,
}
use auto_coin_bot.Common.Float.{
  Float, ◌+◌, ◌-◌, ◌*◌, ◌/◌, lt, le, gt, dec, int, nought, max, min, abs, float, truthy, or_else,
  sum,
}
use auto_coin_bot.Common.Table.{str_eq, str_mem, insert, lookup}
use auto_coin_bot.Slots.{Slot}
use auto_coin_bot.Allocator
mod Rows
mod Sound
mod Tests
unfoldable pub use Rows.*

module _ {F : Type 0} ⦃num : Float F⦄ where
  unfoldable pub add_order : String → Order F → Found F → Found F
  add_order market o found =
      let id = order_id market (length found.exchange_orders) o in
      if any (same_id id) found.seen_order_ids then found else record {
        seen_order_ids = id ∷ found.seen_order_ids;
        exchange_orders = found.exchange_orders ++ o ∷ [];
      }

  unfoldable pub add_orders : String → List (Order F) → Found F → Found F
  add_orders market [] found = found
  add_orders market (o ∷ orders) found = add_orders market orders (add_order market o found)

  -- A market whose request raises adds none.
  abbrev add_answer : String → Option (List (Order F)) → Found F → Found F
  add_answer market none found = found
  add_answer market (some orders) found = add_orders market orders found

  unfoldable pub fetch_orders : (String → Option (List (Order F))) → List String → Found F → Found F
  fetch_orders open_orders [] found = found
  fetch_orders open_orders (market ∷ markets) found =
      fetch_orders open_orders markets (add_answer market (open_orders market) found)

  -- The orders of the answers that came: a request that fails, for one of the markets asked for, is only a
  -- warning and adds none. Without the balances, no orders are asked for.
  unfoldable pub exchange_orders : Inputs F → List (Order F)
  exchange_orders i =
      if is_some i.balances
      then (fetch_orders i.open_orders i.markets
          (record { seen_order_ids = []; exchange_orders = [] })).exchange_orders
      else []

  -- `volumes[symbol] = volumes.get(symbol, 0.0) + volume`
  unfoldable pub add_volume : Position F → List (String × F) → List (String × F)
  add_volume p volumes =
      if str_eq p.symbol ""
      then volumes
      else insert p.symbol (float (lookup p.symbol volumes) + float p.entry_volume) volumes

  unfoldable pub db_volumes : List (Position F) → List (String × F) → List (String × F)
  db_volumes [] volumes = volumes
  db_volumes (p ∷ positions) volumes = db_volumes positions (add_volume p volumes)

  unfoldable pub add_price : Position F → List (String × F) → List (String × F)
  add_price p prices =
      if str_eq p.symbol "" || not (gt (price_of p) nought)
      then prices
      else insert p.symbol (price_of p) prices

  unfoldable pub db_prices : List (Position F) → List (String × F) → List (String × F)
  db_prices [] prices = prices
  db_prices (p ∷ positions) prices = db_prices positions (add_price p prices)

  abbrev pub tolerance_for : F → F
  tolerance_for volume = max (dec 1 6) (abs volume * dec 1 2)

  abbrev pub is_mismatch : Option (List (String × Holding F)) → String × F → Bool
  is_mismatch balances (symbol, volume) =
      is_some balances && gt (abs (balance_total balances symbol - volume)) (tolerance_for volume)

  abbrev pub volumes_of : Inputs F → List (String × F)
  volumes_of i = db_volumes i.positions []

  unfoldable pub balance_mismatch_of : Inputs F → Bool
  balance_mismatch_of i = any (is_mismatch i.balances) (volumes_of i)

  abbrev symbol_value : Inputs F → String × F → F
  symbol_value i (symbol, volume) =
      balance_total i.balances symbol * float (lookup symbol (db_prices i.positions []))

  abbrev pub db_order_ids : Inputs F → List String
  db_order_ids i = map row_id i.db_orders

  abbrev pub exchange_order_ids : Inputs F → List String
  exchange_order_ids i = map order_text (exchange_orders i)

  unfoldable pub open_order_mismatch_of : Inputs F → Bool
  open_order_mismatch_of i =
      not (is_empty (exchange_orders i) && is_empty i.db_orders)
      && differ (db_order_ids i) (exchange_order_ids i)

  abbrev pub budget_from : F → F → Option F → F
  budget_from remaining reserve none = nought
  budget_from remaining reserve (some available) = max (min remaining (available - reserve)) nought

  abbrev at_most : Option F → F → Bool
  at_most none y = false
  at_most (some x) y = le x y

  abbrev pub cash_reserve_of : Inputs F → F
  cash_reserve_of i = float i.max_total_exposure_krw * i.cash_reserve_pct / int 100

  unfoldable pub remaining_exposure_of : Inputs F → F
  remaining_exposure_of i =
      let position_values = sum (map position_value i.positions) in
      let reserved = sum (map float i.reservations) in
      let buys = sum (map order_krw (filter is_buy_order (exchange_orders i))) in
      max (float i.max_total_exposure_krw - position_values - reserved - buys) nought

  unfoldable pub blockers_of : Inputs F → List Blocker
  blockers_of i =
      let krw = krw_of i.balances in
      list_if (not (is_some i.balances)) exchange_balance_unavailable
      ++ list_if (at_most krw nought) insufficient_krw_balance
      ++ list_if (le (remaining_exposure_of i) nought) remaining_exposure_too_small
      ++ list_if (at_most krw (cash_reserve_of i)) cash_reserve_required
      ++ list_if (balance_mismatch_of i) balance_mismatch
      ++ list_if (open_order_mismatch_of i) open_order_mismatch

  unfoldable pub build_capital_snapshot : Inputs F → Snapshot F
  build_capital_snapshot i = record {
    snapshot_error = not (is_some i.balances);
    blockers = blockers_of i;
    max_total_exposure_krw = float i.max_total_exposure_krw;
    available_krw_balance = krw_of i.balances;
    cash_reserve_krw = cash_reserve_of i;
    db_open_position_value_krw = sum (map position_value i.positions);
    exchange_position_value_krw = sum (map (symbol_value i) (volumes_of i));
    pending_buy_reserved_krw = sum (map float i.reservations);
    pending_exchange_buy_order_krw = sum (map order_krw (filter is_buy_order (exchange_orders i)));
    remaining_exposure_krw = remaining_exposure_of i;
    available_budget_krw =
        budget_from (remaining_exposure_of i) (cash_reserve_of i) (krw_of i.balances);
    balance_mismatch_detected = balance_mismatch_of i;
    open_order_mismatch_detected = open_order_mismatch_of i;
  }

  -- What the allocator reads of it.
  unfoldable pub for_allocator : Inputs F → Snapshot F → Allocator.Snapshot F
  for_allocator i s = record {
    snapshot_error = s.snapshot_error;
    balance_mismatch_detected = s.balance_mismatch_detected;
    open_order_mismatch_detected = s.open_order_mismatch_detected;
    max_total_exposure_krw = s.max_total_exposure_krw;
    available_krw_balance = s.available_krw_balance;
    cash_reserve_krw = s.cash_reserve_krw;
    remaining_exposure_krw = s.remaining_exposure_krw;
    available_budget_krw = s.available_budget_krw;
    slots = i.slots;
    open_markets = map (λ (p : Position F). p.market) i.positions;
  }
