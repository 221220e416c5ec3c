-- ===== src/Risk/Check/Safety.antt =====
-- What an allowed order has passed.
use auto_coin_bot.Common.{
  if◌then◌else◌, ◌≡◌, true, false, ◌&&◌, ◌||◌, none, arith, Bool-cases, inl, inr, is_some, any,
}
use auto_coin_bot.Common.Float.{
  Float, IsOrdered, ◌+◌, ◌-◌, ◌*◌, ◌/◌, lt, le, gt, ge, int, nought, abs, max, min, float,
}
use auto_coin_bot.Common.Table.{str_eq}
use auto_coin_bot.Risk.{RiskConfig, is_entry, is_buy, side_text}
use auto_coin_bot.Risk.State
use auto_coin_bot.Risk.State.{RiskState, reached}
use auto_coin_bot.Risk.Check
use auto_coin_bot.Risk.Check.{Base, Order, Call, Facts}
use auto_coin_bot.Risk.Duplicate.{duplicate_request, same_candle}
use auto_coin_bot.Risk.Market.{market_condition_block}

module _ {F : Type 0} ⦃num : Float F⦄ where
  -- An automatic purchase that the operator's policy and the limits of the market admit. The tests
  -- are those of the code's comparisons, so `gt x y ≡ false` is "not above".
  pub record IsSafeEntry (config : RiskConfig F) (o : Order F) (c : Call F) (f : Facts F)
      (state : RiskState F) : Type 0 where
    pub running : f.queries.emergency_stopped ≡ false
    pub exchange : str_eq o.exchange "bithumb" ≡ true
    pub live :
        str_eq o.market "KRW-BTC"
          || Check.candidate_allows f.candidate o.market f.market_is_live_allowed
        ≡ true
    pub no_market_order :
        Check.is_market
          (Check.type_or o.order_type (Check.type_or o.ord_type Check.OrderType.limit))
        ≡ false
    pub auto_trading : f.policy.auto_trading_enabled ≡ true
    pub limit_set : le (float f.policy.max_total_exposure_krw) nought ≡ false
    pub room :
        c.profit_engine_entry ≡ false
        → ge (Check.bot_value c f) (float f.policy.max_total_exposure_krw) ≡ false
    pub exposure :
        c.profit_engine_entry ≡ false
        → gt (Check.bot_value c f + Check.order_amount o) (float f.policy.max_total_exposure_krw)
          ≡ false
    pub amount :
        c.profit_engine_entry ≡ false → gt (Check.order_amount o) config.max_order_krw ≡ false
    pub affordable : Check.below c.balances (Check.order_amount o) ≡ false
    pub policy_loss :
        let limit =
          float f.policy.max_total_exposure_krw * float f.policy.daily_loss_limit_pct / int 100 in
        gt limit nought ≡ true → ge (abs (min state.daily_total_pnl nought)) limit ≡ false
    pub position :
        config.block_on_open_position ≡ true
        → o.scale_in ≡ false
        → is_some c.candidate_strategy_id && f.open_for_strategy ≡ false
    pub slots :
        o.scale_in ≡ false → reached config.max_open_positions f.exchange_open_positions ≡ false
    pub allocation :
        let limit = float f.policy.max_total_exposure_krw in
        let cap = limit * (config.max_position_ratio_percent / int 100) in
        c.profit_engine_entry ≡ false
        → gt limit nought ≡ true
        → gt cap nought ≡ true
        → gt (Check.bot_value c f + Check.order_amount o) cap ≡ false
    pub no_open_order : config.block_on_open_order ≡ true → state.open_order_count ≡ 0
    pub no_partial_fill : config.block_on_partial_fill ≡ true → state.partial_fill_detected ≡ false
    pub balanced : config.block_on_balance_mismatch ≡ true → state.balance_mismatch_detected ≡ false
    pub orders : reached config.max_orders_per_day state.daily_order_count ≡ false
    pub entries : reached config.max_entry_orders_per_day state.daily_entry_count ≡ false
    pub daily_loss : ge (abs (min state.daily_total_pnl nought)) config.max_daily_loss_krw ≡ false
    pub daily_loss_rate : ge state.daily_loss_percent config.max_daily_loss_percent ≡ false
    pub streak : reached config.stop_after_consecutive_losses state.consecutive_loss_count ≡ false
    pub cooled :
        State.cooldown_remaining_seconds state.last_order_time_utc config.min_cooldown_seconds
          f.now_us
        ≡ 0
    pub recovered :
        State.cooldown_remaining_seconds state.last_loss_time_utc config.loss_cooldown_seconds
          f.now_us
        ≡ 0
    pub new_request :
        str_eq o.request_id "" ≡ false → duplicate_request o.request_id f.order_logs ≡ false
    pub new_candle :
        any
          (same_candle (record {
            exchange = o.exchange;
            market = o.market;
            side = side_text o.side;
            request_id = o.request_id;
            session_id = c.session_id;
            candidate_strategy_id = c.candidate_strategy_id;
            candle_time_utc = c.candle_time_utc;
          }))
          f.order_logs
        ≡ false
    pub market : market_condition_block c.snapshot config ≡ none

module _ {F : Type 0} ⦃num : Float F⦄ where
  -- What the policy's limit of exposure leaves beside the position, at least 0, and where the balance is
  -- known no more than it.
  abbrev pub room_left : Call F → Facts F → F
  room_left c f =
      let limit = float f.policy.max_total_exposure_krw in
      let left = if gt limit nought then max (limit - Check.bot_value c f) nought else nought in
      elim c.balances [
        | Check.absent ↦ left
        | Check.empty ↦ left
        | Check.krw available ↦ min left available
      ]

  within_both :
      (laws : IsOrdered F) (asked limit room : F) → lt limit (min (min asked limit) room) ≡ false
  within_both laws asked limit room =
      let inner : lt limit (min asked limit) ≡ false =
        ground (arith, laws.lt_irrefl limit, laws.lt_asym limit asked) in
      elim (Bool-cases (lt room (min asked limit))) [
        | inl e ↦ elim (Bool-cases (lt limit room)) [
          | inl k ↦ absurd (cc (laws.lt_trans limit room (min asked limit) k e, inner))
          | inr k ↦ rw e k
        ]
        | inr e ↦ rw e inner
      ]

  -- The amount that an answer allows is never above the order limit, and for a purchase never above
  -- what the policy's exposure and the balance leave, unless it is the profit engine's purchase.
  pub max_allowed_order_bounds :
      (laws : IsOrdered F) (config : RiskConfig F) (b : Base F) (o : Order F) (c : Call F)
      (f : Facts F)
      → c.profit_engine_entry ≡ false
      → let amount = (Check.check_order_risk config b o c f).1 in
        (lt config.max_order_krw amount ≡ false)
        × (is_entry c.purpose && is_buy o.side ≡ true → lt (room_left c f) amount ≡ false)
  unfolding Check.check_order_risk Check.max_allowed_entry
  max_allowed_order_bounds laws config b o c f p =
      let limit = config.max_order_krw in
      let asked = Check.amount_or b.max_allowed_order_krw limit in
      let room = room_left c f in
      elim (Bool-cases (is_entry c.purpose && is_buy o.side)) [
        | inl e ↦
            rw (p, e)
              (
                within_both laws asked limit room,
                λ _. ground (arith, laws.lt_irrefl room, laws.lt_asym room (min asked limit)),
              )
        | inr e ↦
            rw (p, e) (ground (arith, laws.lt_irrefl limit, laws.lt_asym limit asked), λ k. cc)
      ]
