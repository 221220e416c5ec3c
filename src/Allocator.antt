-- ===== src/Allocator.antt =====
-- app/capital_allocator.py: how much capital a candidate strategy gets, and why it gets none. What the
-- database and the exchange answer is an argument, `Facts` and `Snapshot`; the candidates come as
-- app/market_opportunity.py ranks them.
use Prim.Native.String.{String}
use auto_coin_bot.Common.{
  ℕ, Bool, true, false, not, ◌&&◌, ◌||◌, Option, none, some, List, [], ◌∷◌, if◌then◌else◌, is_some,
  get_or_else,
}
use auto_coin_bot.Common.Float.{
  Float, ◌+◌, ◌-◌, ◌*◌, ◌/◌, lt, gt, dec, int, nought, max, min, float, truthy,
}
use auto_coin_bot.Common.Table.{str_eq, str_mem}
use auto_coin_bot.Slots.{Slot, is_reserved, has_id}
pub mod Run
pub mod Account
pub mod Bounds
pub mod Funds
pub mod Example
mod Tests

pub record Config (F : Type 0) : Type 0 where
  pub max_new_entries_per_run : ℕ
  pub single_position_max_exposure_pct : F
  pub min_expected_edge_pct : F
  pub fee_rate : F
  pub slippage_rate : F
  pub edge_safety_margin_pct : F
  pub max_order_krw : F
  pub min_order_krw : F
  pub reservation_ttl_minutes : ℕ
  pub same_market_replace_min_score_delta : F

pub record Candidate (F : Type 0) : Type 0 where
  pub id : ℕ
  pub market : String
  pub score : Option F
  pub backtest_total_return : Option F
  pub backtest_mdd : Option F
  pub backtest_trade_count : Option F
  pub market_opportunity_score : Option F

-- The keys of the capital snapshot that the allocator reads.
pub record Snapshot (F : Type 0) : Type 0 where
  pub snapshot_error : Bool
  pub balance_mismatch_detected : Bool
  pub open_order_mismatch_detected : Bool
  pub max_total_exposure_krw : F  -- the snapshot's, or else the policy's
  pub available_krw_balance : Option F
  pub cash_reserve_krw : F
  pub remaining_exposure_krw : F
  pub available_budget_krw : F
  pub slots : List (Slot F)
  pub open_markets : List String  -- of the open positions

pub record Facts (F : Type 0) : Type 0 where
  pub exchange : String
  pub reason : String
  pub now : ℕ
  pub auto_trading_enabled : Bool
  pub has_open_position : String → Bool
  pub has_unresolved_order : String → Bool
  pub exchange_has_unresolved_order : Bool
  pub market_is_live_allowed : String → Bool
  pub candidate_score : ℕ → Option F  -- of a candidate that exists

pub data Block : Type 0 where
  duplicate_market_position unresolved_open_order market_not_live_allowed : Block
  expected_edge_below_cost same_market_candidate_already_reserved : Block
  same_market_replace_score_delta_too_small no_empty_slot snapshot_failed balance_mismatch : Block
  open_order_mismatch exchange_balance_unavailable insufficient_krw_balance : Block
  remaining_exposure_too_small capital_too_small policy_auto_trading_disabled : Block

-- What `_same_market_reserved_slot` finds.
pub data SameMarket (F : Type 0) : Type 0 where
  no_slot : SameMarket F
  taken : Block → SameMarket F
  replaceable : Slot F → SameMarket F

abbrev pub text_or_empty : Option String → String
text_or_empty o = get_or_else o ""

abbrev pub or_block : Option Block → Option Block → Option Block
or_block none b = b
or_block (some a) b = some a

abbrev pub when : Bool → Block → Option Block
when test b = if test then some b else none

module _ {F : Type 0} ⦃num : Float F⦄ where
  unfoldable pub expected_edge_pct : Candidate F → F
  expected_edge_pct c =
      let total = float c.backtest_total_return in
      if truthy total then total * int 100 else max (float c.score / int 100) nought

  unfoldable pub required_edge_pct : Config F → F
  required_edge_pct config =
      let fee = config.fee_rate * int 2 * int 100 in
      let slippage = config.slippage_rate * int 2 * int 100 in
      max config.min_expected_edge_pct (fee + slippage + config.edge_safety_margin_pct)

  abbrev opportunity_adjustment : Option F → F
  opportunity_adjustment none = nought
  opportunity_adjustment (some x) = (x - int 50) * dec 5 1

  unfoldable pub allocation_score : Config F → Candidate F → F
  unfolding expected_edge_pct required_edge_pct
  allocation_score config c =
      let mdd = float c.backtest_mdd * int 100 in
      let trades = min (float c.backtest_trade_count) (int 50) in
      let edge_bonus = max (expected_edge_pct c - required_edge_pct config) nought * dec 15 1 in
      let mdd_penalty = max (mdd - int 10) nought * dec 12 1 in
      let trade_bonus = trades * dec 2 1 in
      max nought (
        float c.score
        + edge_bonus
        + trade_bonus
        + opportunity_adjustment c.market_opportunity_score
        - mdd_penalty)

  unfoldable pub candidate_block_reason :
      Config F → Facts F → List String → Candidate F → Option Block
  candidate_block_reason config f open_markets c =
      if str_mem c.market open_markets
      then some duplicate_market_position
      else if f.has_open_position c.market
      then some duplicate_market_position
      else if f.has_unresolved_order c.market || f.exchange_has_unresolved_order
      then some unresolved_open_order
      else if not (f.market_is_live_allowed c.market)
      then some market_not_live_allowed
      else if lt (expected_edge_pct c) (required_edge_pct config)
      then some expected_edge_below_cost
      else none

  -- The score of the candidate in the slot, if there still is one.
  abbrev score_in : Facts F → Option ℕ → Option F
  score_in f none = none
  score_in f (some id) = f.candidate_score id

  abbrev beats : Config F → Candidate F → Option F → Bool
  beats config c none = true
  beats config c (some score) =
      not (lt (float c.score - score) config.same_market_replace_min_score_delta)

  -- The first slot of the market decides.
  unfoldable pub judge_slot : Config F → Facts F → Candidate F → Slot F → SameMarket F
  judge_slot config f c s =
      if not (is_reserved s.status) || is_some s.live_position_id
      then taken duplicate_market_position
      else if has_id s.candidate_strategy_id c.id
      then taken same_market_candidate_already_reserved
      else if beats config c (score_in f s.candidate_strategy_id)
      then replaceable s
      else taken same_market_replace_score_delta_too_small

  unfoldable pub same_market_reserved_slot :
      Config F → Facts F → Candidate F → List (Slot F) → SameMarket F
  unfolding judge_slot
  same_market_reserved_slot config f c [] = no_slot
  same_market_reserved_slot config f c (s ∷ slots) =
      if str_eq (text_or_empty s.market) c.market
      then judge_slot config f c s
      else same_market_reserved_slot config f c slots

  abbrev pub max_single : Config F → Snapshot F → F
  max_single config w = w.max_total_exposure_krw * config.single_position_max_exposure_pct / int 100

  unfoldable pub desired_order : Config F → Snapshot F → Candidate F → F
  desired_order config w c = min (max_single config w) (
      max config.min_order_krw
        (max_single config w * min (allocation_score config c) (int 100) / int 100))

  unfoldable pub replacement_budget : Snapshot F → F → F
  replacement_budget w released =
      let cash = max (float w.available_krw_balance - w.cash_reserve_krw) nought in
      min (max (w.remaining_exposure_krw + released) nought) cash

  -- From the budget for the candidate.
  unfoldable pub approved_order : Config F → Snapshot F → Candidate F → F → F
  unfolding desired_order
  approved_order config w c budget =
      min (min (min budget (desired_order config w c)) (max_single config w)) config.max_order_krw

  abbrev pub snapshot_block : Snapshot F → Option Block
  snapshot_block w = or_block (when w.snapshot_error snapshot_failed) (
      or_block (when w.balance_mismatch_detected balance_mismatch)
        (when w.open_order_mismatch_detected open_order_mismatch))

  -- Why an order is too small. `room` is the exposure that remains, with what a replacement releases.
  unfoldable pub shortage : Config F → Snapshot F → F → Block
  shortage config w room =
      if not (is_some w.available_krw_balance)
      then exchange_balance_unavailable
      else if lt (float w.available_krw_balance) config.min_order_krw
      then insufficient_krw_balance
      else if lt room config.min_order_krw
      then remaining_exposure_too_small
      else capital_too_small

  unfoldable pub final_block : Config F → Snapshot F → Option Block → F → F → Option Block
  unfolding shortage
  final_block config w before amount room =
      or_block (or_block before (snapshot_block w))
        (when (lt amount config.min_order_krw) (shortage config w room))
