-- ===== src/Allocator/Example.antt =====
-- A configuration, candidates, and one empty slot with one reservation, to run the allocator on.
use Prim.Native.String.{String}
use auto_coin_bot.Common.{ℕ, true, false, Option, none, some, List, [], ◌∷◌, ℤ}
use auto_coin_bot.Common.Fixed.{fixed}
use auto_coin_bot.Common.Table.{str_eq}
use auto_coin_bot.Slots
use auto_coin_bot.Slots.{Slot, Status, Tables}
use auto_coin_bot.Allocator.{Config, Candidate, Snapshot, Facts}

abbrev pub config : Config ℤ
config = record {
  max_new_entries_per_run = 2;
  single_position_max_exposure_pct = fixed.lit 45 0;
  min_expected_edge_pct = fixed.lit 45 2;
  fee_rate = fixed.lit 5 4;
  slippage_rate = fixed.lit 5 4;
  edge_safety_margin_pct = fixed.lit 15 2;
  max_order_krw = fixed.lit 30000 0;
  min_order_krw = fixed.lit 5000 0;
  reservation_ttl_minutes = 30;
  same_market_replace_min_score_delta = fixed.lit 10 0;
}

abbrev pub candidate : ℕ → String → ℕ → Candidate ℤ
candidate id market score = record {
  id = id;
  market = market;
  score = some (fixed.lit score 0);
  backtest_total_return = some (fixed.lit 2 2);
  backtest_mdd = some (fixed.lit 5 2);
  backtest_trade_count = some (fixed.lit 20 0);
  market_opportunity_score = none;
}

abbrev pub candidates : List (Candidate ℤ)
candidates =
    candidate 3 "KRW-ETH" 80
    ∷ candidate 4 "KRW-XRP" 90
    ∷ candidate 5 "KRW-XRP" 85
    ∷ candidate 6 "KRW-ADA" 40
    ∷ []

abbrev pub slots : List (Slot ℤ)
slots =
    Slots.reserve "bithumb" "KRW-ETH" 7 none (fixed.lit 10000 0) "score" 100
      (Slots.new_slot 1 1 "bithumb" 50)
    ∷ Slots.new_slot 2 2 "bithumb" 50
    ∷ []

abbrev pub tables : Tables ℤ
tables = record { slots = slots; next_slot_id = 3; reservations = [] }

abbrev pub snapshot : Snapshot ℤ
snapshot = record {
  snapshot_error = false;
  balance_mismatch_detected = false;
  open_order_mismatch_detected = false;
  max_total_exposure_krw = fixed.lit 100000 0;
  available_krw_balance = some (fixed.lit 90000 0);
  cash_reserve_krw = fixed.lit 5000 0;
  remaining_exposure_krw = fixed.lit 30000 0;
  available_budget_krw = fixed.lit 30000 0;
  slots = slots;
  open_markets = "KRW-BTC" ∷ [];
}

abbrev pub score_of : ℕ → Option ℤ
score_of id = some (fixed.lit 60 0)

abbrev pub facts : Facts ℤ
facts = record {
  exchange = "bithumb";
  reason = "SCHEDULED";
  now = 1000;
  auto_trading_enabled = true;
  has_open_position = λ market. str_eq market "KRW-BTC";
  has_unresolved_order = λ market. false;
  exchange_has_unresolved_order = false;
  market_is_live_allowed = λ market. true;
  candidate_score = score_of;
}
