-- ===== src/Exit/Trigger.antt =====
-- The exit candidates of app/live_exit.py: the trailing stop and the other triggers, and the creation,
-- approval and rejection of a candidate.
use auto_coin_bot.Common.{
  ℕ, Bool, true, false, ◌&&◌, Option, none, some, if◌then◌else◌, leb, get_or_else, ◌==◌,
}
use auto_coin_bot.Common.Float.{
  Float, ◌-◌, ◌*◌, ◌/◌, le, gt, ge, int, nought, max, float, or_else, floor_div, trunc, neg,
}
use auto_coin_bot.Risk
use auto_coin_bot.Slots.{Status}
use auto_coin_bot.Exit.Rows
use auto_coin_bot.Exit.Rows.{Position, Candidate, Session, Store, Reason, RiskResult, OrderStatus}
use auto_coin_bot.Exit.Store.{
  load_active_exit_candidate, create_exit_candidate, load_exit_candidate, update_exit_candidate,
  update_live_position, first_open_live_position, update_live_strategy_session,
}

-- `LiveExitConfig`, with the setting AUTO_TRAILING_STOP_PERCENT, and `max_hold_minutes` as a float.
pub record Config (F : Type 0) : Type 0 where
  pub exit_enabled : Bool
  pub exit_order_is_limit : Bool  -- `exit_order_type == "limit"`
  pub market_order_enabled : Bool
  pub max_hold_minutes : F
  pub exit_price_offset_percent : F
  pub cancel_exit_order_after_seconds : ℕ
  pub max_exit_retry_count : ℕ
  pub require_manual_confirm : Bool
  pub fee_rate : F
  pub trailing_stop_percent : F

-- The updates of `update_live_position_metrics`, but the status.
pub record Metrics (F : Type 0) : Type 0 where
  pub current_price : F
  pub unrealized_pnl : F
  pub highest_price_since_entry : F
  pub trailing_stop_price : F
  pub trailing_stop_pct : F

-- `{"CLOSED", "CLOSING", "ERROR", "MANUAL_REVIEW_REQUIRED"}`
abbrev pub is_past_exit : Status → Bool
is_past_exit Status.closed = true
is_past_exit Status.closing = true
is_past_exit Status.error = true
is_past_exit Status.manual_review_required = true
is_past_exit _ = false

module _ {F : Type 0} ⦃num : Float F⦄ where
  unfoldable pub metrics_of : Config F → Position F → F → Metrics F
  metrics_of config p price =
      let highest = max (max (float p.highest_price_since_entry) p.entry_price) price in
      let pct = or_else (float p.trailing_stop_pct) config.trailing_stop_percent in
      record {
        current_price = price;
        unrealized_pnl = (price - p.entry_price) * p.entry_volume;
        highest_price_since_entry = highest;
        trailing_stop_price =
            if gt highest nought && gt pct nought
            then highest * (int 1 - pct / int 100)
            else nought;
        trailing_stop_pct = pct;
      }

  unfoldable pub with_metrics : Metrics F → Option Status → Position F → Position F
  with_metrics m status p = record p {
    status = get_or_else status p.status;
    current_price = m.current_price;
    unrealized_pnl = m.unrealized_pnl;
    highest_price_since_entry = some m.highest_price_since_entry;
    trailing_stop_price = some m.trailing_stop_price;
    trailing_stop_pct = some m.trailing_stop_pct;
  }

  unfoldable pub update_live_position_metrics :
      Config F → Position F → F → Option Status → Store F → Store F
  unfolding metrics_of with_metrics
  update_live_position_metrics config p price status s =
      update_live_position p.id (with_metrics (metrics_of config p price) status) s

  unfoldable pub seconds_since : ℕ → ℕ → F
  seconds_since t now =
      if leb t now then int (Prim.Native.Nat.◌-◌ now t) else neg (int (Prim.Native.Nat.◌-◌ t now))

  unfoldable pub holding_minutes : Option ℕ → ℕ → F
  holding_minutes none now = nought
  holding_minutes (some t) now = seconds_since t now / int 60

  -- The first trigger that fires.
  unfoldable pub exit_reason : Config F → Position F → F → ℕ → Option Reason
  unfolding metrics_of holding_minutes
  exit_reason config p price now =
      let m = metrics_of config p price in
      let stop = or_else m.trailing_stop_price (float p.trailing_stop_price) in
      let highest = or_else m.highest_price_since_entry (float p.highest_price_since_entry) in
      if le price p.stop_loss_price
      then some Rows.stop_loss
      else if ge price p.take_profit_price
      then some Rows.take_profit
      else if gt stop nought && gt highest p.entry_price && le price stop
      then some Rows.trailing_stop
      else if gt (holding_minutes p.opened_at now) config.max_hold_minutes
      then some Rows.max_hold_time
      else none

  unfoldable pub round_krw_price : F → F
  round_krw_price price =
      if ge price (int 1000000)
      then trunc (floor_div price (int 1000)) * int 1000
      else if ge price (int 100000)
      then trunc (floor_div price (int 100)) * int 100
      else if ge price (int 10000)
      then trunc (floor_div price (int 10)) * int 10
      else trunc price

  unfoldable pub new_candidate : Config F → Position F → Reason → F → Option ℕ → ℕ → ℕ → Candidate F
  unfolding round_krw_price
  new_candidate config p reason price candle now id =
      let target = round_krw_price (price * (int 1 - config.exit_price_offset_percent / int 100)) in
      let amount = target * p.entry_volume in
      let fee = amount * config.fee_rate in
      record {
        id = id;
        position_id = p.id;
        session_id = p.session_id;
        exchange = p.exchange;
        market = p.market;
        candidate_strategy_id = p.candidate_strategy_id;
        reason = reason;
        status = OrderStatus.pending;
        entry_price = p.entry_price;
        current_price = price;
        target_exit_price = target;
        volume = p.entry_volume;
        expected_amount_krw = amount;
        expected_fee = fee;
        expected_pnl = (target - p.entry_price) * p.entry_volume - fee;
        risk_result = Rows.named (Risk.base "EXIT_CANDIDATE");
        candle_time_utc = candle;
        created_at = now;
      }

  -- The branch without an active candidate.
  unfoldable pub create_new :
      Config F → Position F → Reason → F → Option ℕ → ℕ → Store F → Store F × Option (Candidate F)
  unfolding new_candidate
  create_new config p reason price candle now s =
      let id = s.next_candidate_id in
      let s' = create_exit_candidate (new_candidate config p reason price candle now) s in
      let s'' = update_live_position_metrics config p price (some Status.exit_candidate) s' in
      let s''' =
        update_live_strategy_session p.session_id
          (λ x. record x { current_position_id = some p.id }) s'' in
      (s''', load_exit_candidate id s''')

  unfoldable pub create_unless_active :
      Option (Candidate F)
      → Config F
      → Position F
      → Reason
      → F
      → Option ℕ
      → ℕ
      → Store F
      → Store F × Option (Candidate F)
  create_unless_active none config p reason price candle now s =
      create_new config p reason price candle now s
  create_unless_active (some active) config p reason price candle now s =
      (update_live_position_metrics config p price none s, some active)

  unfoldable pub create_exit_candidate_for_position :
      Config F → Position F → Reason → F → Option ℕ → ℕ → Store F → Store F × Option (Candidate F)
  create_exit_candidate_for_position config p reason price candle now s =
      if is_past_exit p.status
      then (s, none)
      else create_unless_active (load_active_exit_candidate p.id s) config p reason price candle now
          s

  unfoldable pub create_for :
      Option Reason
      → Config F
      → Position F
      → F
      → Option ℕ
      → ℕ
      → Store F
      → Store F × Option (Candidate F)
  create_for none config p price candle now s = (s, none)
  create_for (some reason) config p price candle now s =
      create_exit_candidate_for_position config p reason price candle now s

  unfoldable pub maybe_create_price_exit_candidate :
      Config F → Position F → F → Option ℕ → ℕ → Store F → Store F × Option (Candidate F)
  maybe_create_price_exit_candidate config p price candle now s =
      create_for (exit_reason config p price now) config p price candle now
        (update_live_position_metrics config p price none s)

-- The answer of the two actions is whether the candidate was found.
module _ {F : Type 0} where
  unfoldable pub approve_exit_candidate : ℕ → Store F → Store F × Bool
  approve_exit_candidate id s = elim (load_exit_candidate id s) [
    | none ↦ (s, false)
    | some c ↦ (
      update_exit_candidate id
          (λ x. record x {
            status = OrderStatus.approved;
            risk_result = Rows.named (Risk.base "MANUAL_APPROVED");
          })
          s,
      true,
    )
  ]

  unfoldable pub reopen : Candidate F → Option (Position F) → Store F → Store F
  reopen c none s = s
  reopen c (some p) s =
      if p.id == c.position_id
      then update_live_position p.id (λ q. record q { status = Status.opened }) s
      else s

  unfoldable pub reject_found : ℕ → Option (Candidate F) → Store F → Store F × Bool
  unfolding reopen
  reject_found id none s = (s, false)
  reject_found id (some c) s =
      let s' =
        update_exit_candidate id
          (λ x. record x {
            status = OrderStatus.canceled;
            risk_result = Rows.named (Risk.base "REJECTED_BY_USER");
          })
          s in
      let p = first_open_live_position c.exchange c.market (λ q. q.session_id == c.session_id) s' in
      (reopen c p s', true)

  unfoldable pub reject_exit_candidate : ℕ → Store F → Store F × Bool
  unfolding reject_found
  reject_exit_candidate id s = reject_found id (load_exit_candidate id s) s
