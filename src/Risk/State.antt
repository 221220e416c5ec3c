-- ===== src/Risk/State.antt =====
-- `compute_risk_state`, `consecutive_loss_count`, `cooldown_remaining_seconds`, `_daily_loss_basis_krw`
-- and `_current_bot_position_value_krw`.
use Prim.Native.Nat.{◌+◌ as plus, ◌-◌ as minus, ◌*◌ as times, ◌/◌ as div}
use auto_coin_bot.Common.{
  ℕ, Bool, true, false, not, ◌&&◌, ◌||◌, Option, none, some, List, [], ◌∷◌, if◌then◌else◌, ltb, leb,
}
use auto_coin_bot.Common.Float.{
  Float, ◌+◌, ◌*◌, ◌/◌, lt, le, gt, ge, int, nought, neg, abs, max, min, float, or_else,
}
use auto_coin_bot.Risk.{RiskConfig}
pub mod Streak
mod Tests

pub data Status : Type 0 where
  ok emergency_stopped manual_review_required blocked warning : Status

-- What the queries of `compute_risk_state` return.
pub record Queries (F : Type 0) : Type 0 where
  pub daily_order_count : ℕ
  pub daily_entry_count : ℕ
  pub daily_exit_count : ℕ
  pub last_order_time_utc : Option ℕ
  pub realized_pnl : Option F
  pub unrealized_pnl : Option F
  pub last_loss_time_utc : Option ℕ
  pub partial_fill : Bool
  pub closed_pnls : List (Option F)  -- of the closed positions, newest first, at most 20
  pub open_order_count : ℕ
  pub open_position_count : ℕ
  pub latest_balance_mismatch : Bool
  pub emergency_stopped : Bool

pub record RiskState (F : Type 0) : Type 0 where
  pub status : Status
  pub daily_total_pnl : F
  pub daily_loss_percent : F
  pub daily_order_count : ℕ
  pub daily_entry_count : ℕ
  pub daily_exit_count : ℕ
  pub consecutive_loss_count : ℕ
  pub open_order_count : ℕ
  pub open_position_count : ℕ
  pub last_order_time_utc : Option ℕ
  pub last_loss_time_utc : Option ℕ
  pub balance_mismatch_detected : Bool
  pub partial_fill_detected : Bool

pub record Position (F : Type 0) : Type 0 where
  pub entry_volume : Option F
  pub current_price : Option F
  pub entry_price : Option F

-- The seconds that are left, cut to a whole number and at least 0.
unfoldable pub cooldown_remaining_seconds : Option ℕ → ℕ → ℕ → ℕ
cooldown_remaining_seconds none cooldown now_us = 0
cooldown_remaining_seconds (some last) cooldown now_us =
    div (minus (times (plus cooldown last) 1000000) now_us) 1000000

-- `limit > 0 and count >= limit`
abbrev pub reached : ℕ → ℕ → Bool
reached limit count = ltb 0 limit && leb limit count

-- The argument of the call, or else what the last risk state recorded.
abbrev pub mismatch_of : Option Bool → Bool → Bool
mismatch_of none latest = latest
mismatch_of (some given) latest = given

module _ {F : Type 0} ⦃num : Float F⦄ where
  unfoldable pub is_loss : F → F → Bool
  is_loss threshold pnl =
      (lt pnl nought && le threshold nought) || (gt threshold nought && le pnl (neg threshold))

  -- The loop of `consecutive_loss_count`, which breaks at the first row that is no loss.
  unfoldable pub count_losses : F → List (Option F) → ℕ
  unfolding is_loss
  count_losses threshold [] = 0
  count_losses threshold (pnl ∷ rows) =
      let rest = count_losses threshold rows in
      if is_loss threshold (float pnl) then plus 1 rest else 0

  unfoldable pub consecutive_loss_count : F → List (Option F) → ℕ
  unfolding count_losses
  consecutive_loss_count min_loss rows = count_losses (abs min_loss) rows

  unfoldable pub daily_loss_basis_krw : Option F → RiskConfig F → F
  daily_loss_basis_krw account_equity config =
      let equity = float account_equity in
      max (if le equity nought then config.account_equity_krw else equity) (int 1)

  -- The loop's sum; `fallback` is the price of the market snapshot.
  unfoldable pub position_value_from : F → F → List (Position F) → F
  position_value_from fallback total [] = total
  position_value_from fallback total (p ∷ ps) =
      let price = or_else (or_else (float p.current_price) fallback) (float p.entry_price) in
      position_value_from fallback (total + float p.entry_volume * price) ps

  unfoldable pub current_bot_position_value_krw : F → List (Position F) → F
  unfolding position_value_from
  current_bot_position_value_krw fallback positions = position_value_from fallback nought positions

  unfoldable pub risk_status : RiskConfig F → Queries F → Bool → F → F → Status
  risk_status config q mismatch loss percent =
      if q.emergency_stopped
      then emergency_stopped
      else if mismatch || q.partial_fill
      then manual_review_required
      else if reached config.max_orders_per_day q.daily_order_count
          || reached config.max_entry_orders_per_day q.daily_entry_count
          || reached config.max_exit_orders_per_day q.daily_exit_count
          || ge loss config.max_daily_loss_krw
          || ge percent config.max_daily_loss_percent
      then blocked
      else if ltb 0 q.open_order_count || ltb 0 q.open_position_count
      then warning
      else ok

  unfoldable pub compute_risk_state :
      RiskConfig F → Queries F → Option Bool → Option F → RiskState F
  unfolding risk_status consecutive_loss_count daily_loss_basis_krw
  compute_risk_state config q given_mismatch account_equity =
      let total = float q.realized_pnl + float q.unrealized_pnl in
      let loss = abs (min total nought) in
      let percent = loss / daily_loss_basis_krw account_equity config * int 100 in
      let mismatch = mismatch_of given_mismatch q.latest_balance_mismatch in
      record {
        status = risk_status config q mismatch loss percent;
        daily_total_pnl = total;
        daily_loss_percent = percent;
        daily_order_count = q.daily_order_count;
        daily_entry_count = q.daily_entry_count;
        daily_exit_count = q.daily_exit_count;
        consecutive_loss_count =
            consecutive_loss_count config.consecutive_loss_min_krw q.closed_pnls;
        open_order_count = q.open_order_count;
        open_position_count = q.open_position_count;
        last_order_time_utc = q.last_order_time_utc;
        last_loss_time_utc = q.last_loss_time_utc;
        balance_mismatch_detected = mismatch;
        partial_fill_detected = q.partial_fill;
      }
