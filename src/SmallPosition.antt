-- ===== src/SmallPosition.antt =====
-- app/small_position_resolver.py: `classify_position_size` and `evaluate_small_position_resolution`, which
-- decides whether a small position may be sold as a whole. Times are in seconds. The thresholds and
-- the switch, which come from the environment, are arguments.
use Prim.Native.Nat.{◌-◌ as minus}
use auto_coin_bot.Common.{
  ℕ, Bool, true, false, not, ◌&&◌, Option, none, some, List, [], ◌∷◌, if◌then◌else◌, is_empty,
}
use auto_coin_bot.Common.Float.{
  Float, Field, get_field, field_or, ◌-◌, ◌*◌, ◌/◌, lt, le, gt, int, nought, max, float, float_or,
}
pub mod Allowed
mod Tests

pub record Thresholds (F : Type 0) : Type 0 where
  pub dust_position : F
  pub small_position : F
  pub min_hold_minutes : F
  pub positive_edge : F
  pub max_recovery_pnl_pct : F

pub data Size : Type 0 where
  dust_position small_position normal_position : Size

pub data Action : Type 0 where
  full_exit_candidate dust_hold hold : Action

-- The action hints, and any other text.
pub data Hint : Type 0 where
  reduce exit hold_position take_profit_partial cut_loss : Hint
  buy_more increase_exposure scale_in : Hint
  other_hint : Hint

abbrev pub is_buy_hint : Hint → Bool
is_buy_hint buy_more = true
is_buy_hint increase_exposure = true
is_buy_hint scale_in = true
is_buy_hint _ = false

abbrev pub is_exit_hint : Hint → Bool
is_exit_hint reduce = true
is_exit_hint exit = true
is_exit_hint hold_position = true
is_exit_hint take_profit_partial = true
is_exit_hint cut_loss = true
is_exit_hint _ = false

pub data Regime : Type 0 where
  trend_up breakout other_regime : Regime

abbrev pub is_trend : Regime → Bool
is_trend other_regime = false
is_trend _ = true

pub record Position (F : Type 0) : Type 0 where
  pub entry_volume : Option F
  pub entry_amount_krw : Option F
  pub opened_at : Option ℕ

pub record Request (F : Type 0) : Type 0 where
  pub position : Option (Position F)
  pub current_price : F
  pub min_order_krw : F
  pub action_hint : Hint
  pub market_regime : Regime
  pub adaptive_edge_score : Field F
  pub policy_edge_score : Field F
  pub snapshot_edge_score : Option F
  pub balance_mismatch : Bool
  pub open_order_mismatch : Bool
  pub sellable_value_krw : Option F
  pub now : ℕ

pub data Blocker : Type 0 where
  resolver_disabled dust_below_min_order normal_size sellable_below_min_order : Blocker
  buy_more_context hint_not_exit_or_hold trend_regime edge_positive pnl_recovering : Blocker
  min_hold_time_not_met has_balance_mismatch has_open_order_mismatch : Blocker

pub record Resolution : Type 0 where
  pub classification : Size
  pub recommended_action : Action
  pub full_exit_allowed : Bool
  pub blockers : List Blocker

abbrev pub is_dust : Size → Bool
is_dust dust_position = true
is_dust _ = false

abbrev pub is_small : Size → Bool
is_small small_position = true
is_small _ = false

abbrev pub is_normal : Size → Bool
is_normal normal_position = true
is_normal _ = false

-- The blockers whose tests hold, in order.
pub collect : List (Bool × Blocker) → List Blocker
collect [] = []
collect ((test, b) ∷ rest) = if test then b ∷ collect rest else collect rest

abbrev pub action_of : Bool → Size → Action
action_of true size = full_exit_candidate
action_of false dust_position = dust_hold
action_of false small_position = hold
action_of false normal_position = hold

module _ {F : Type 0} ⦃num : Float F⦄ where
  pub dust_threshold : Thresholds F → F → F
  dust_threshold t min_order = max min_order t.dust_position

  pub small_threshold : Thresholds F → F → F
  unfolding dust_threshold
  small_threshold t min_order = max t.small_position (dust_threshold t min_order)

  pub classify_position_size : Thresholds F → F → F → Size
  classify_position_size t min_order position_value =
      if lt position_value (dust_threshold t min_order)
      then dust_position
      else if lt position_value (small_threshold t min_order)
      then small_position
      else normal_position

  pub position_value : Option (Position F) → F → F
  position_value none price = nought
  position_value (some p) price = max (float p.entry_volume) nought * max price nought

  pub position_pnl_pct : Option (Position F) → F → F
  position_pnl_pct none price = nought
  position_pnl_pct (some p) price =
      let amount = float p.entry_amount_krw in
      let volume = float p.entry_volume in
      if le amount nought
      then nought
      else if le volume nought
      then nought
      else (volume * price - amount) / amount * int 100

  -- Seconds from a later opening than now count as 0.
  abbrev minutes_since : Option ℕ → ℕ → F
  minutes_since none now = nought
  minutes_since (some opened) now = int (minus now opened) / int 60

  pub holding_minutes : Option (Position F) → ℕ → F
  holding_minutes none now = nought
  holding_minutes (some p) now = minutes_since p.opened_at now

  pub edge_score : Request F → F
  edge_score r =
      field_or (get_field r.adaptive_edge_score r.policy_edge_score) (float r.snapshot_edge_score)

  pub sellable_value : Request F → F
  unfolding position_value
  sellable_value r = float_or r.sellable_value_krw (position_value r.position r.current_price)

  pub size_of : Thresholds F → Request F → Size
  unfolding position_value
  size_of t r = classify_position_size t r.min_order_krw (position_value r.position r.current_price)

  -- The tests of the blockers, in the order of the code.
  pub tests : Bool → Thresholds F → Request F → List (Bool × Blocker)
  tests enabled t r =
      (not enabled, resolver_disabled)
      ∷ (is_dust (size_of t r), dust_below_min_order)
      ∷ (is_normal (size_of t r), normal_size)
      ∷ (lt (sellable_value r) r.min_order_krw, sellable_below_min_order)
      ∷ (is_buy_hint r.action_hint, buy_more_context)
      ∷ (not (is_buy_hint r.action_hint) && not (is_exit_hint r.action_hint), hint_not_exit_or_hold)
      ∷ (is_trend r.market_regime, trend_regime)
      ∷ (gt (edge_score r) t.positive_edge, edge_positive)
      ∷ (gt (position_pnl_pct r.position r.current_price) t.max_recovery_pnl_pct, pnl_recovering)
      ∷ (lt (holding_minutes r.position r.now) t.min_hold_minutes, min_hold_time_not_met)
      ∷ (r.balance_mismatch, has_balance_mismatch)
      ∷ (r.open_order_mismatch, has_open_order_mismatch)
      ∷ []

  pub evaluate_small_position_resolution : Bool → Thresholds F → Request F → Resolution
  evaluate_small_position_resolution enabled t r =
      let size = size_of t r in
      let blockers = collect (tests enabled t r) in
      let allowed = is_small size && is_empty blockers in
      record {
        classification = size;
        recommended_action = action_of allowed size;
        full_exit_allowed = allowed;
        blockers = blockers;
      }
