-- ===== src/Promotion.antt =====
-- app/strategy_promotion_pipeline.py: promote_shadow_candidates, and promote_candidate_strategy of
-- app/database.py, on the tables of the candidates, of their promotions and of the markets. The order
-- and the limit of the query for the candidates are left out.
use Prim.Native.String.{String}
use auto_coin_bot.Common.{
  ℕ, zero, suc, Bool, true, false, not, ◌&&◌, Option, none, some, List, [], ◌∷◌, ◌++◌,
  if◌then◌else◌, length, get_or_else, is_some, ltb, ◌==◌, any, map, is_empty, filter, select_first,
  update_where,
}
use auto_coin_bot.Common.Float.{
  Float, ◌+◌, ◌-◌, ◌/◌, lt, le, gt, int, nought, max, float, or_else, sum,
}
use auto_coin_bot.Common.Table.{str_eq}
use auto_coin_bot.KillSwitch
mod Justified
mod Tests

pub data Status : Type 0 where
  discovered backtest_running backtest_passed backtest_failed shadow_running : Status
  shadow_passed live_eligible live_active paused rejected active inactive : Status

pub record Candidate : Type 0 where
  pub id : ℕ
  pub market : String
  pub status : Status

-- A row of `record_candidate_promotion`.
pub record Promotion : Type 0 where
  pub candidate_strategy_id : ℕ
  pub from_status : Status
  pub to_status : Status

pub record MarketRow : Type 0 where
  pub exchange : String
  pub market : String
  pub is_enabled : Bool
  pub is_live_allowed : Bool

pub record Tables : Type 0 where
  pub candidates : List Candidate
  pub promotions : List Promotion
  pub markets : List MarketRow

pub record Config (F : Type 0) : Type 0 where
  pub exchange : String  -- AUTO_ALLOWED_EXCHANGE
  pub enabled : Bool
  pub min_forward_trades : ℕ
  pub min_forward_runtime_hours : F
  pub min_forward_return_percent : F
  pub max_forward_mdd : F
  pub min_forward_win_rate : F
  pub min_profit_factor : F
  pub min_expectancy_after_fee : F
  pub max_single_trade_profit_share : F
  pub kill_switch : KillSwitch.Config F

pub record Order (F : Type 0) : Type 0 where
  pub is_sell : Bool
  pub realized_pnl : Option F

-- The values of a forward session, the ones of its metrics and its balance first.
pub record Session (F : Type 0) : Type 0 where
  pub trade_counts : Option ℕ × Option ℕ
  pub total_return_percents : Option F × Option F
  pub mdds : Option F × Option F
  pub win_rates : Option F × Option F
  pub profit_factors : Option F × Option F
  pub average_trade_pnl : Option F
  pub started_at : Option ℕ  -- or created_at
  pub ended_at : Option ℕ  -- the last tick, or updated_at, or stopped_at
  pub orders : List (Order F)
  pub kill_switch_orders : List (KillSwitch.Order F)  -- the same, as the kill switch reads them

pub data Blocker : Type 0 where
  trade_count_too_low runtime_too_short return_too_low mdd_too_high win_rate_too_low : Blocker
  profit_factor_too_low expectancy_too_low single_trade_profit_share_too_high : Blocker

abbrev first_count : Option ℕ × Option ℕ → ℕ
first_count (some (suc n), other) = suc n
first_count (some zero, other) = get_or_else other 0
first_count (none, other) = get_or_else other 0

abbrev pub found : Bool → Blocker → List Blocker → List Blocker
found test b bs = if test then b ∷ bs else bs

abbrev is_shadow : Status → Bool
is_shadow shadow_running = true
is_shadow shadow_passed = true
is_shadow _ = false

abbrev is_shadow_running : Status → Bool
is_shadow_running shadow_running = true
is_shadow_running _ = false

abbrev is_shadow_passed : Status → Bool
is_shadow_passed shadow_passed = true
is_shadow_passed _ = false

abbrev is_live : Status → Bool
is_live live_eligible = true
is_live live_active = true
is_live _ = false

abbrev is_row_of : String → String → MarketRow → Bool
is_row_of exchange market row =
    str_eq row.exchange exchange && str_eq row.market market && row.is_enabled

abbrev is_row_of_market : String → MarketRow → Bool
is_row_of_market market row = str_eq row.market market && row.is_enabled

abbrev allow : MarketRow → MarketRow
allow row = record row { is_live_allowed = true }

-- Without a row of the exchange, the rows of the market on all exchanges.
unfoldable pub mark_market_live_allowed : String → String → List MarketRow → List MarketRow
mark_market_live_allowed exchange market rows =
    if any (is_row_of exchange market) rows
    then update_where (is_row_of exchange market) allow rows
    else update_where (is_row_of_market market) allow rows

unfoldable pub promote_row : String → Candidate → Status → Tables → Tables
promote_row exchange row to t = record {
  candidates =
      update_where (λ (c : Candidate). c.id == row.id) (λ (c : Candidate). record c { status = to })
        t.candidates;
  promotions =
      t.promotions
      ++ record { candidate_strategy_id = row.id; from_status = row.status; to_status = to } ∷ [];
  markets =
      if is_live to then mark_market_live_allowed exchange row.market t.markets else t.markets;
}

-- The row as it is after the promotion, if there is one.
abbrev promote_found : String → Option Candidate → Status → Tables → Option Candidate × Tables
promote_found exchange none to t = (none, t)
promote_found exchange (some row) to t =
    (some (record row { status = to }), promote_row exchange row to t)

unfoldable pub promote_candidate_strategy : String → ℕ → Status → Tables → Option Candidate × Tables
promote_candidate_strategy exchange id to t =
    promote_found exchange (select_first (λ (c : Candidate). c.id == id) t.candidates) to t

abbrev is_pause : KillSwitch.Action → Bool
is_pause KillSwitch.no_action = false
is_pause KillSwitch.pause_strategy = true

module _ {F : Type 0} ⦃num : Float F⦄ where
  abbrev first_number : Option F × Option F → F
  first_number (a, b) = or_else (float a) (float b)

  abbrev hours_between : Option ℕ → ℕ → F
  hours_between none end = nought
  hours_between (some start) end = max ((int end - int start) / int 3600) nought

  unfoldable pub forward_runtime_hours : ℕ → Session F → F
  forward_runtime_hours now s = hours_between s.started_at (get_or_else s.ended_at now)

  abbrev pnl_values : List (Order F) → List F
  pnl_values [] = []
  pnl_values (o ∷ orders) =
      let rest = pnl_values orders in
      if o.is_sell && is_some o.realized_pnl then float o.realized_pnl ∷ rest else rest

  unfoldable pub expectancy_after_fee : Session F → F
  expectancy_after_fee s =
      let values = pnl_values s.orders in
      if is_empty values then float s.average_trade_pnl else sum values / int (length values)

  abbrev profits_of : List (Order F) → List F
  profits_of [] = []
  profits_of (o ∷ orders) =
      let rest = profits_of orders in
      if o.is_sell then max (float o.realized_pnl) nought ∷ rest else rest

  -- `max(profits)`, from its first element.
  abbrev largest : F → List F → F
  largest x [] = x
  largest x (y ∷ ys) = largest (max x y) ys

  abbrev largest_of : List F → F
  largest_of [] = nought
  largest_of (x ∷ xs) = largest x xs

  unfoldable pub single_trade_profit_share : Session F → F
  single_trade_profit_share s =
      let profits = profits_of s.orders in
      if le (sum profits) nought then nought else largest_of profits / sum profits

  unfoldable pub session_blockers : Config F → ℕ → Session F → List Blocker
  session_blockers config now s =
      found (ltb (first_count s.trade_counts) config.min_forward_trades) trade_count_too_low (
        found (lt (forward_runtime_hours now s) config.min_forward_runtime_hours) runtime_too_short
          (found (lt (first_number s.total_return_percents) config.min_forward_return_percent)
            return_too_low
            (found (gt (first_number s.mdds) config.max_forward_mdd) mdd_too_high (
              found (lt (first_number s.win_rates) config.min_forward_win_rate) win_rate_too_low (
                found (lt (first_number s.profit_factors) config.min_profit_factor)
                  profit_factor_too_low
                  (found (le (expectancy_after_fee s) config.min_expectancy_after_fee)
                    expectancy_too_low
                    (found (gt (single_trade_profit_share s) config.max_single_trade_profit_share)
                      single_trade_profit_share_too_high [])))))))

  abbrev pauses : Option (KillSwitch.Verdict F) → Bool
  pauses none = false
  pauses (some v) = is_pause v.action

  abbrev pub kill_switch_pauses : Config F → Session F → Bool
  kill_switch_pauses config s = pauses (
      KillSwitch.evaluate_strategy_kill_switch config.kill_switch s.kill_switch_orders [] false
        false)

  -- The second step, from the row that the first one gives.
  unfoldable pub promote_passed : Config F → Candidate → Tables → Tables
  promote_passed config c t =
      if is_shadow_passed c.status
      then (promote_candidate_strategy config.exchange c.id live_eligible t).1
      else t

  abbrev after_first : Config F → Candidate → Option Candidate × Tables → Tables
  after_first config c (row, t) = promote_passed config (get_or_else row c) t

  unfoldable pub promote_steps : Config F → Candidate → Tables → Tables
  promote_steps config c t =
      if is_shadow_running c.status
      then after_first config c (promote_candidate_strategy config.exchange c.id shadow_passed t)
      else promote_passed config c t

  unfoldable pub promote_with_session :
      Config F → ℕ → Candidate → Option (Session F) → Tables → Tables
  promote_with_session config now c none t = t
  promote_with_session config now c (some s) t =
      if kill_switch_pauses config s
      then (promote_candidate_strategy config.exchange c.id paused t).1
      else if is_empty (session_blockers config now s)
      then promote_steps config c t
      else t

  unfoldable pub promote_all :
      Config F → ℕ → (ℕ → Option (Session F)) → List Candidate → Tables → Tables
  promote_all config now sessions [] t = t
  promote_all config now sessions (c ∷ cs) t =
      promote_all config now sessions cs (promote_with_session config now c (sessions c.id) t)

  unfoldable pub promote_shadow_candidates :
      Config F → ℕ → (ℕ → Option (Session F)) → Tables → Tables
  promote_shadow_candidates config now sessions t =
      if config.enabled
      then promote_all config now sessions
          (filter (λ (c : Candidate). is_shadow c.status) t.candidates) t
      else t
