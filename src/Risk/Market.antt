-- ===== src/Risk/Market.antt =====
-- `market_condition_block`: volatility, liquidity and completeness of the candle.
use auto_coin_bot.Common.{ℕ, Bool, true, false, ◌&&◌, ◌||◌, Option, none, some, if◌then◌else◌, ltb}
use auto_coin_bot.Common.Float.{
  Field, missing, null, value, field_or, Float, ◌*◌, lt, le, gt, ge, int, nought, float, or_else,
}
use auto_coin_bot.Risk
use auto_coin_bot.Risk.{RiskConfig, Code}

pub record Snapshot (F : Type 0) : Type 0 where
  pub range_rate : Option F
  pub liquidity_check_required : Bool
  pub current_1m_trade_price_volume : Field F
  pub recent_5m_avg_trade_price_volume : Field F
  pub recent_5m_volume_count : ℕ
  pub complete_is_false : Bool  -- `snapshot.get("complete") is False`
  pub trade_price_volume : Option F
  pub volume_krw : Option F
  pub price : Option F
  pub trade_price : Option F
  pub volume : Option F

-- `key in snapshot`, which a key whose value is None is.
abbrev is_present : {F : Type 0} → Field F → Bool
is_present missing = false
is_present null = true
is_present (value x) = true

module _ {F : Type 0} ⦃num : Float F⦄ where
  unfoldable pub incomplete : Snapshot F → RiskConfig F → Option Code
  incomplete s config =
      if config.require_completed_candle && s.complete_is_false
      then some Risk.incomplete_candle
      else none

  -- The branch with one-minute liquidity data.
  unfoldable pub liquidity_block : Snapshot F → RiskConfig F → Option Code
  unfolding incomplete
  liquidity_block s config =
      let current = field_or s.current_1m_trade_price_volume nought in
      let average = field_or s.recent_5m_avg_trade_price_volume nought in
      let want_1m = gt config.min_current_1m_volume_krw nought in
      let want_5m = gt config.min_avg_5m_volume_krw nought in
      if want_1m && le current nought
      then some Risk.volume_data_unavailable
      else if want_5m && (le average nought || ltb s.recent_5m_volume_count 5)
      then some Risk.volume_data_unavailable
      else if want_1m && lt current config.min_current_1m_volume_krw
      then some Risk.low_1m_volume
      else if want_5m && lt average config.min_avg_5m_volume_krw
      then some Risk.low_5m_avg_volume
      else incomplete s config

  unfoldable pub candle_volume : Snapshot F → F
  candle_volume s =
      let v = or_else (or_else (float s.trade_price_volume) (float s.volume_krw)) nought in
      if le v nought then float s.price * float s.volume else v

  unfoldable pub candle_block : Snapshot F → RiskConfig F → Option Code
  unfolding candle_volume incomplete
  candle_block s config =
      if lt (candle_volume s) config.min_volume_krw
      then some Risk.low_volume
      else incomplete s config

  unfoldable pub market_condition_block : Option (Snapshot F) → RiskConfig F → Option Code
  unfolding liquidity_block candle_block
  market_condition_block none config = none
  market_condition_block (some s) config =
      if ge (float s.range_rate * int 100) config.volatility_block_percent
      then some Risk.volatility_filter
      else if s.liquidity_check_required
          || is_present s.current_1m_trade_price_volume
          || is_present s.recent_5m_avg_trade_price_volume
      then liquidity_block s config
      else candle_block s config
