-- ===== src/Risk/Check/Passed.antt =====
-- The guards that an allowed purchase has passed, and what each means.
use Prim.Native.String.{String}
use auto_coin_bot.Common.{
  ◌≡◌, refl, Bool, true, false, ◌&&◌, ◌||◌, Option, none, List, arith, Bool-cases, inl, inr, All,
  ltb, is_some, any,
}
use auto_coin_bot.Common.Float.{Float, ◌+◌, ◌*◌, ◌/◌, le, gt, ge, int, nought, abs, min, float}
use auto_coin_bot.Common.Table.{str_eq}
use auto_coin_bot.Risk.{RiskConfig, Code, is_entry, is_buy}
use auto_coin_bot.Risk.State
use auto_coin_bot.Risk.State.{RiskState, reached}
use auto_coin_bot.Risk.Check
use auto_coin_bot.Risk.Check.{Base, Order, Call, Facts}
use auto_coin_bot.Risk.Duplicate.{
  Query, LogRow, duplicate_order_exists, duplicate_request, same_candle,
}
use auto_coin_bot.Risk.Market.{market_condition_block}

pub guard_open : (test : Bool) (code : Code) → Check.guard test code ≡ none → test ≡ false
guard_open true code e = cc e
guard_open false code e = refl

pub request_safe :
    (q : Query) (rows : List LogRow)
    → duplicate_order_exists q rows ≡ none
    → str_eq q.request_id "" ≡ false
    → duplicate_request q.request_id rows ≡ false
unfolding duplicate_order_exists
request_safe q rows e h = ground arith

pub candle_safe :
    (q : Query) (rows : List LogRow)
    → duplicate_order_exists q rows ≡ none
    → any (same_candle q) rows ≡ false
unfolding duplicate_order_exists
candle_safe q rows e = ground arith

module _ {F : Type 0} ⦃num : Float F⦄ where
  -- The guards of a purchase by name, all of which are passed.
  pub record Passed (config : RiskConfig F) (o : Order F) (c : Call F) (f : Facts F)
      (state : RiskState F) : Type 0 where
    pub mode : Check.mode_check c f ≡ none
    pub exchange : Check.exchange_check o f ≡ none
    pub order_type : Check.order_type_check o ≡ none
    pub amount : Check.amount_check config o c ≡ none
    pub policy : Check.operation_policy_check o c f state ≡ none
    pub position : Check.position_check config o c f ≡ none
    pub slots : Check.max_open_positions_check config o f ≡ none
    pub allocation : Check.symbol_allocation_check config o c f ≡ none
    pub open_order : config.block_on_open_order && ltb 0 state.open_order_count ≡ false
    pub partial_fill : config.block_on_partial_fill && state.partial_fill_detected ≡ false
    pub balance : config.block_on_balance_mismatch && state.balance_mismatch_detected ≡ false
    pub daily : Check.daily_limit_check config c state ≡ none
    pub streak : Check.loss_streak_check config c state ≡ none
    pub cooldown : Check.cooldown_check config f state ≡ none
    pub loss_cooldown : Check.loss_cooldown_check config c f state ≡ none
    pub duplicate : duplicate_order_exists (Check.query_of o c) f.order_logs ≡ none
    pub market : market_condition_block c.snapshot config ≡ none

  pub guards-Passed :
      (config : RiskConfig F) (o : Order F) (c : Call F) (f : Facts F) (state : RiskState F)
      → is_entry c.purpose ≡ true
      → is_buy o.side ≡ true
      → All (λ (g : String × Option Code). g.1 ≡ none) (Check.guards config o c f state)
      → Passed config o c f state
  unfolding Check.guards
  guards-Passed config o c f state h k all =
      let g = rw (h, k) at all in
      record {
        mode = g.0;
        exchange = g.1.0;
        order_type = g.1.1.0;
        amount = g.1.1.1.0;
        policy = g.1.1.1.1.0;
        position = g.1.1.1.1.1.0;
        slots = g.1.1.1.1.1.1.0;
        allocation = g.1.1.1.1.1.1.1.0;
        open_order = guard_open _ _ (g.1.1.1.1.1.1.1.1.0);
        partial_fill = guard_open _ _ (g.1.1.1.1.1.1.1.1.1.0);
        balance = guard_open _ _ (g.1.1.1.1.1.1.1.1.1.1.0);
        daily = g.1.1.1.1.1.1.1.1.1.1.1.0;
        streak = g.1.1.1.1.1.1.1.1.1.1.1.1.0;
        cooldown = g.1.1.1.1.1.1.1.1.1.1.1.1.1.0;
        loss_cooldown = g.1.1.1.1.1.1.1.1.1.1.1.1.1.1.0;
        duplicate = g.1.1.1.1.1.1.1.1.1.1.1.1.1.1.1.0;
        market = g.1.1.1.1.1.1.1.1.1.1.1.1.1.1.1.1.0;
      }

  pub mode_safe :
      (c : Call F) (f : Facts F) → Check.mode_check c f ≡ none → f.queries.emergency_stopped ≡ false
  unfolding Check.mode_check
  mode_safe c f e = ground arith

  pub exchange_safe :
      (o : Order F) (f : Facts F)
      → Check.exchange_check o f ≡ none
      → str_eq o.exchange "bithumb" ≡ true
  unfolding Check.exchange_check
  exchange_safe o f e = ground arith

  pub amount_safe :
      (config : RiskConfig F) (o : Order F) (c : Call F)
      → Check.amount_check config o c ≡ none
      → c.profit_engine_entry ≡ false
      → gt (Check.order_amount o) config.max_order_krw ≡ false
  unfolding Check.amount_check
  amount_safe config o c e p = ground arith

  -- What `operation_policy_check` has passed.
  pub record Admitted (o : Order F) (c : Call F) (f : Facts F) (state : RiskState F) : Type 0 where
    pub auto : f.policy.auto_trading_enabled ≡ true
    pub limit_set : le (float f.policy.max_total_exposure_krw) nought ≡ false
    pub room :
        c.profit_engine_entry ≡ false
        → ge (Check.bot_value c f) (float f.policy.max_total_exposure_krw) ≡ false
    pub exposure :
        c.profit_engine_entry ≡ false
        → gt (Check.bot_value c f + Check.order_amount o) (float f.policy.max_total_exposure_krw)
          ≡ false
    pub affordable : Check.below c.balances (Check.order_amount o) ≡ false
    pub loss :
        let limit =
          float f.policy.max_total_exposure_krw * float f.policy.daily_loss_limit_pct / int 100 in
        gt limit nought ≡ true → ge (abs (min state.daily_total_pnl nought)) limit ≡ false

  pub policy_safe :
      (o : Order F) (c : Call F) (f : Facts F) (state : RiskState F)
      → Check.operation_policy_check o c f state ≡ none
      → is_entry c.purpose && is_buy o.side && c.is_auto ≡ true
      → Admitted o c f state
  unfolding Check.operation_policy_check
  policy_safe o c f state e a = record {
    auto = ground arith;
    limit_set = ground arith;
    room = λ p. ground arith;
    exposure = λ p. ground arith;
    affordable = ground arith;
    loss = λ t. ground arith;
  }

  pub live_safe :
      (o : Order F) (f : Facts F)
      → Check.exchange_check o f ≡ none
      → str_eq o.market "KRW-BTC"
          || Check.candidate_allows f.candidate o.market f.market_is_live_allowed
        ≡ true
  unfolding Check.exchange_check
  live_safe o f e = ground arith

  pub type_safe :
      (o : Order F)
      → Check.order_type_check o ≡ none
      → Check.is_market
          (Check.type_or o.order_type (Check.type_or o.ord_type Check.OrderType.limit))
        ≡ false
  unfolding Check.order_type_check
  type_safe o e = ground arith

  pub position_safe :
      (config : RiskConfig F) (o : Order F) (c : Call F) (f : Facts F)
      → Check.position_check config o c f ≡ none
      → config.block_on_open_position ≡ true
      → o.scale_in ≡ false
      → is_some c.candidate_strategy_id && f.open_for_strategy ≡ false
  unfolding Check.position_check
  position_safe config o c f e b s = ground arith

  pub allocation_safe :
      (config : RiskConfig F) (o : Order F) (c : Call F) (f : Facts F)
      → Check.symbol_allocation_check config o c f ≡ none
      → let limit = float f.policy.max_total_exposure_krw in
        let cap = limit * (config.max_position_ratio_percent / int 100) in
        c.profit_engine_entry ≡ false
        → gt limit nought ≡ true
        → gt cap nought ≡ true
        → gt (Check.bot_value c f + Check.order_amount o) cap ≡ false
  unfolding Check.symbol_allocation_check
  allocation_safe config o c f e p l k = ground arith

  pub loss_cooldown_safe :
      (config : RiskConfig F) (c : Call F) (f : Facts F) (state : RiskState F)
      → Check.loss_cooldown_check config c f state ≡ none
      → is_entry c.purpose ≡ true
      → State.cooldown_remaining_seconds state.last_loss_time_utc config.loss_cooldown_seconds
          f.now_us
        ≡ 0
  unfolding Check.loss_cooldown_check
  loss_cooldown_safe config c f state e h = ground arith

  pub slots_safe :
      (config : RiskConfig F) (o : Order F) (f : Facts F)
      → Check.max_open_positions_check config o f ≡ none
      → o.scale_in ≡ false
      → reached config.max_open_positions f.exchange_open_positions ≡ false
  unfolding Check.max_open_positions_check
  slots_safe config o f e s = ground arith

  pub daily_safe :
      (config : RiskConfig F) (c : Call F) (state : RiskState F)
      → Check.daily_limit_check config c state ≡ none
      → is_entry c.purpose ≡ true
      → (reached config.max_orders_per_day state.daily_order_count ≡ false)
        × (reached config.max_entry_orders_per_day state.daily_entry_count ≡ false)
        × (ge (abs (min state.daily_total_pnl nought)) config.max_daily_loss_krw ≡ false)
        × (ge state.daily_loss_percent config.max_daily_loss_percent ≡ false)
  unfolding Check.daily_limit_check
  daily_safe config c state e h =
      elim (Bool-cases (reached config.max_orders_per_day state.daily_order_count)) [
        | inl a ↦ absurd (ground arith)
        | inr a ↦ (a, ground arith, ground arith, ground arith)
      ]

  pub streak_safe :
      (config : RiskConfig F) (c : Call F) (state : RiskState F)
      → Check.loss_streak_check config c state ≡ none
      → is_entry c.purpose ≡ true
      → reached config.stop_after_consecutive_losses state.consecutive_loss_count ≡ false
  unfolding Check.loss_streak_check
  streak_safe config c state e h = ground arith

  pub cooldown_safe :
      (config : RiskConfig F) (f : Facts F) (state : RiskState F)
      → Check.cooldown_check config f state ≡ none
      → State.cooldown_remaining_seconds state.last_order_time_utc config.min_cooldown_seconds
          f.now_us
        ≡ 0
  unfolding Check.cooldown_check
  cooldown_safe config f state e = ground arith
