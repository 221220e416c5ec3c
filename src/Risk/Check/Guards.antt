-- ===== src/Risk/Check/Guards.antt =====
-- The guards of `check_order_risk` of app/risk_manager.py, each of which gives the code for which it blocks,
-- if any, and what they read. The details that only the log shows are left out.
use Prim.Native.String.{String}
use auto_coin_bot.Common.{
  ℕ, Bool, true, false, not, ◌&&◌, ◌||◌, Option, none, some, List, [], ◌∷◌, ◌++◌, if◌then◌else◌,
  ltb, is_some,
}
use auto_coin_bot.Common.Float.{
  Float, ◌+◌, ◌*◌, ◌/◌, lt, le, gt, ge, int, nought, abs, min, float, or_else,
}
use auto_coin_bot.Common.Table.{str_eq}
use auto_coin_bot.Risk
use auto_coin_bot.Risk.{RiskConfig, Purpose, Side, Code, is_entry, is_exit, is_buy, side_text}
use auto_coin_bot.Risk.State
use auto_coin_bot.Risk.State.{RiskState, Position, Queries, reached}
use auto_coin_bot.Risk.Market.{Snapshot, market_condition_block}
use auto_coin_bot.Risk.Duplicate.{Query, LogRow, duplicate_order_exists}

pub data Mode : Type 0 where
  live_manual_only auto_strategy_running other_mode : Mode

abbrev pub is_live_mode : Mode → Bool
is_live_mode other_mode = false
is_live_mode _ = true

-- A type of order, as both `order_type` and `ord_type` are compared without case.
pub data OrderType : Type 0 where
  limit market other_type : OrderType

abbrev pub is_limit : OrderType → Bool
is_limit limit = true
is_limit _ = false

abbrev pub is_market : OrderType → Bool
is_market market = true
is_market _ = false

pub record Order (F : Type 0) : Type 0 where
  pub request_id : String
  pub exchange : String
  pub market : String
  pub side : Side
  pub order_type : Option OrderType
  pub ord_type : Option OrderType
  pub amount_krw : Option F
  pub price : Option F
  pub volume : Option F
  pub scale_in : Bool

pub record Policy (F : Type 0) : Type 0 where
  pub auto_trading_enabled : Bool
  pub max_total_exposure_krw : Option F
  pub daily_loss_limit_pct : Option F

-- A candidate strategy: its market, and whether its status is LIVE_ELIGIBLE or LIVE_ACTIVE.
pub record Candidate : Type 0 where
  pub market : String
  pub is_live_status : Bool

-- The argument `balances`: None, an empty dictionary, or the KRW that `_available_balance_total` finds.
pub data Balances (F : Type 0) : Type 0 where
  absent empty : Balances F
  krw : F → Balances F

-- The arguments of the call, but the order.
pub record Call (F : Type 0) : Type 0 where
  pub purpose : Purpose
  pub mode : Mode
  pub session_id : Option ℕ
  pub candidate_strategy_id : Option ℕ
  pub candle_time_utc : Option ℕ
  pub is_auto : Bool
  pub profit_engine_entry : Bool
  pub balance_mismatch : Option Bool
  pub account_equity_krw : Option F  -- the effective one: given, or estimated from the balances
  pub snapshot : Option (Snapshot F)
  pub balances : Balances F

-- What the call reads from the database and from the clock.
pub record Facts (F : Type 0) : Type 0 where
  pub queries : Queries F
  pub candidate : Option Candidate
  pub market_is_live_allowed : Bool
  pub policy : Policy F
  pub positions : List (Position F)  -- open, of the exchange and the market
  pub open_for_strategy : Bool
  pub exchange_open_positions : ℕ
  pub order_logs : List LogRow
  pub now_us : ℕ

abbrev pub guard : Bool → Code → Option Code
guard test code = if test then some code else none

unfoldable pub candidate_allows : Option Candidate → String → Bool → Bool
candidate_allows none symbol live_allowed = false
candidate_allows (some k) symbol live_allowed =
    k.is_live_status && str_eq k.market symbol && live_allowed

abbrev pub type_or : Option OrderType → OrderType → OrderType
type_or none d = d
type_or (some t) d = t

abbrev pub entry_checks : Bool → List (String × Option Code) → List (String × Option Code)
entry_checks test cs = if test then cs else []

module _ {F : Type 0} ⦃num : Float F⦄ where
  unfoldable pub mode_check : Call F → Facts F → Option Code
  mode_check c f =
      if f.queries.emergency_stopped
      then some Risk.emergency_stop
      else guard (not (is_live_mode c.mode) && not c.is_auto) Risk.invalid_mode

  unfoldable pub exchange_check : Order F → Facts F → Option Code
  unfolding candidate_allows
  exchange_check o f =
      let live =
        str_eq o.market "KRW-BTC"
        || candidate_allows f.candidate o.market f.market_is_live_allowed in
      if not (str_eq o.exchange "bithumb")
      then some Risk.exchange_not_allowed
      else guard (not live) Risk.market_not_allowed

  -- `order.get("ord_type", "")` is no limit where the key is missing.
  unfoldable pub order_type_check : Order F → Option Code
  order_type_check o =
      let kind = type_or o.order_type (type_or o.ord_type limit) in
      if not (is_limit kind) && not (is_limit (type_or o.ord_type other_type))
      then some Risk.order_type_not_allowed
      else guard (is_market kind) Risk.market_order_disabled

  unfoldable pub order_amount : Order F → F
  order_amount o = or_else (float o.amount_krw) (float o.price * float o.volume)

  unfoldable pub amount_check : RiskConfig F → Order F → Call F → Option Code
  unfolding order_amount
  amount_check config o c =
      guard
        (gt (order_amount o) config.max_order_krw
          && not (c.profit_engine_entry && is_entry c.purpose && is_buy o.side))
        Risk.max_order_amount

  abbrev pub snapshot_price : Option (Snapshot F) → F
  snapshot_price none = nought
  snapshot_price (some s) = or_else (float s.price) (float s.trade_price)

  unfoldable pub bot_value : Call F → Facts F → F
  bot_value c f = State.current_bot_position_value_krw (snapshot_price c.snapshot) f.positions

  -- `balances is not None and available_krw < amount`
  abbrev pub below : Balances F → F → Bool
  below absent amount = false
  below empty amount = lt nought amount
  below (krw available) amount = lt available amount

  unfoldable pub operation_policy_check : Order F → Call F → Facts F → RiskState F → Option Code
  unfolding order_amount bot_value
  operation_policy_check o c f state =
      let amount = order_amount o in
      let limit = float f.policy.max_total_exposure_krw in
      let value = bot_value c f in
      let loss_limit = limit * float f.policy.daily_loss_limit_pct / int 100 in
      if not (is_entry c.purpose && is_buy o.side && c.is_auto)
      then none
      else if not f.policy.auto_trading_enabled
      then some Risk.policy_auto_trading_disabled
      else if le limit nought
      then some Risk.policy_max_exposure_invalid
      else if ge value limit && not c.profit_engine_entry
      then some Risk.policy_max_total_exposure
      else if gt (value + amount) limit && not c.profit_engine_entry
      then some Risk.policy_max_total_exposure
      else if below c.balances amount
      then some Risk.policy_krw_balance_insufficient
      else guard (gt loss_limit nought && ge (abs (min state.daily_total_pnl nought)) loss_limit)
          Risk.policy_daily_loss_limit

  unfoldable pub position_check : RiskConfig F → Order F → Call F → Facts F → Option Code
  position_check config o c f =
      let same = is_some c.candidate_strategy_id && f.open_for_strategy in
      guard (config.block_on_open_position && same && not o.scale_in) Risk.open_position_exists

  unfoldable pub max_open_positions_check : RiskConfig F → Order F → Facts F → Option Code
  max_open_positions_check config o f =
      guard (reached config.max_open_positions f.exchange_open_positions && not o.scale_in)
        Risk.max_open_positions

  unfoldable pub symbol_allocation_check : RiskConfig F → Order F → Call F → Facts F → Option Code
  unfolding order_amount bot_value
  symbol_allocation_check config o c f =
      let limit = float f.policy.max_total_exposure_krw in
      let cap =
        if gt limit nought then limit * (config.max_position_ratio_percent / int 100) else nought in
      guard (gt cap nought && gt (bot_value c f + order_amount o) cap && not c.profit_engine_entry)
        Risk.max_symbol_allocation

  unfoldable pub daily_limit_check : RiskConfig F → Call F → RiskState F → Option Code
  daily_limit_check config c state =
      if reached config.max_orders_per_day state.daily_order_count
      then some Risk.max_orders_per_day
      else if is_entry c.purpose && reached config.max_entry_orders_per_day state.daily_entry_count
      then some Risk.max_entry_orders_per_day
      else if is_exit c.purpose && reached config.max_exit_orders_per_day state.daily_exit_count
      then some Risk.max_exit_orders_per_day
      else guard
          (is_entry c.purpose
            && (ge (abs (min state.daily_total_pnl nought)) config.max_daily_loss_krw
                || ge state.daily_loss_percent config.max_daily_loss_percent))
          Risk.daily_loss_limit

  unfoldable pub loss_streak_check : RiskConfig F → Call F → RiskState F → Option Code
  loss_streak_check config c state =
      guard
        (is_entry c.purpose
          && reached config.stop_after_consecutive_losses state.consecutive_loss_count)
        Risk.consecutive_loss_limit

  unfoldable pub cooldown_check : RiskConfig F → Facts F → RiskState F → Option Code
  cooldown_check config f state =
      guard
        (ltb 0 (
          State.cooldown_remaining_seconds state.last_order_time_utc config.min_cooldown_seconds
            f.now_us))
        Risk.cooldown

  unfoldable pub loss_cooldown_check : RiskConfig F → Call F → Facts F → RiskState F → Option Code
  loss_cooldown_check config c f state =
      guard
        (is_entry c.purpose
          && ltb 0 (
              State.cooldown_remaining_seconds state.last_loss_time_utc config.loss_cooldown_seconds
                f.now_us))
        Risk.cooldown_after_loss

  unfoldable pub query_of : Order F → Call F → Query
  query_of o c = record {
    exchange = o.exchange;
    market = o.market;
    side = side_text o.side;
    request_id = o.request_id;
    session_id = c.session_id;
    candidate_strategy_id = c.candidate_strategy_id;
    candle_time_utc = c.candle_time_utc;
  }

  -- The guards behind `base_check`, in the order of the code.
  unfoldable pub guards :
      RiskConfig F → Order F → Call F → Facts F → RiskState F → List (String × Option Code)
  guards config o c f state =
      ("mode_check", mode_check c f)
        ∷ ("exchange_check", exchange_check o f)
        ∷ ("order_type_check", order_type_check o)
        ∷ ("amount_check", amount_check config o c)
        ∷ ("operation_policy_check", operation_policy_check o c f state)
        ∷ entry_checks (is_entry c.purpose) (("position_check", position_check config o c f) ∷ [])
      ++ entry_checks (is_entry c.purpose && is_buy o.side) (
          ("max_open_positions_check", max_open_positions_check config o f)
          ∷ ("symbol_allocation_check", symbol_allocation_check config o c f)
          ∷ [])
      ++ (
        "open_order_check",
        guard (config.block_on_open_order && ltb 0 state.open_order_count) Risk.open_order_exists,
      )
        ∷ (
          "partial_fill_check",
          guard (config.block_on_partial_fill && state.partial_fill_detected)
              Risk.partial_fill_unsupported,
        )
        ∷ (
          "balance_reconciliation_check",
          guard (config.block_on_balance_mismatch && state.balance_mismatch_detected)
              Risk.balance_mismatch,
        )
        ∷ ("daily_limit_check", daily_limit_check config c state)
        ∷ ("loss_streak_check", loss_streak_check config c state)
        ∷ ("cooldown_check", cooldown_check config f state)
        ∷ ("loss_cooldown_check", loss_cooldown_check config c f state)
        ∷ ("duplicate_check", duplicate_order_exists (query_of o c) f.order_logs)
        ∷ entry_checks (is_entry c.purpose)
            (("market_condition_check", market_condition_block c.snapshot config) ∷ [])
