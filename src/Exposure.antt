-- ===== src/Exposure.antt =====
-- app/smart_target_exposure.py: the share of the capital that the smart engine aims at, with
-- `aggregate_signal_score` of app/smart_signal_engine.py. The texts of the reasons are left out.
use auto_coin_bot.Common.{
  ℕ, Bool, true, false, not, ◌&&◌, ◌||◌, Option, none, some, List, [], ◌∷◌, if◌then◌else◌, is_empty,
}
use auto_coin_bot.Common.Float.{
  Float, ◌+◌, ◌-◌, ◌*◌, ◌/◌, lt, le, gt, ge, dec, int, nought, max, min, round, neg, abs, float,
  float_or,
}
mod Capped
mod Tests

-- Only the base exposure is looked up without case: "panic" has that of "PANIC", but is not "PANIC" where
-- the regime is compared.
pub data Regime : Type 0 where
  breakout trend_up range trend_down overheated panic unknown other : Regime
  panic_in_other_case unknown_in_other_case : Regime  -- as "panic"

pub data RiskStatus : Type 0 where
  emergency_stopped risk_blocked some_status : RiskStatus

pub data Blocker : Type 0 where
  exchange_notice_risk policy_auto_trading_disabled max_total_exposure_reached : Blocker
  risk_status_blocked risk_score_high market_regime_unknown daily_loss_limit_reached : Blocker

pub record Signal (F : Type 0) : Type 0 where
  pub score : Option F
  pub confidence : Option F

-- The values of the providers, none if one is missing, stale or no number.
pub record Factors (F : Type 0) : Type 0 where
  pub has_notice_block : Bool
  pub news_sentiment : Option F
  pub btc_momentum : Option F
  pub kimchi_premium : Option F
  pub fear_greed : Option F

pub record Request (F : Type 0) : Type 0 where
  pub current_exposure_pct : F
  pub risk_score : F
  pub market_regime : Regime
  pub internal_signals : List (Signal F)
  pub risk_status : RiskStatus
  pub daily_total_pnl : Option F
  pub auto_trading_enabled : Bool
  pub daily_loss_limit_pct : Option F
  pub max_total_exposure_krw : F
  pub current_position_value_krw : F
  pub external_factors : Factors F

pub record Answer (F : Type 0) : Type 0 where
  pub target_exposure_pct : F
  pub aggregate_signal_score : F
  pub external_factor_adjustment_pct : F
  pub blockers : List Blocker

abbrev pub found : Bool → Blocker → List Blocker → List Blocker
found test b bs = if test then b ∷ bs else bs

abbrev is_unknown : Regime → Bool
is_unknown unknown = true
is_unknown _ = false

abbrev pub is_panic : Regime → Bool
is_panic panic = true
is_panic _ = false

abbrev is_blocked : RiskStatus → Bool
is_blocked some_status = false
is_blocked _ = true

module _ {F : Type 0} ⦃num : Float F⦄ where
  -- The sums of the weighted scores and of the weights.
  abbrev weigh : List (Signal F) → F → F → F × F
  weigh [] weighted total = (weighted, total)
  weigh (s ∷ signals) weighted total =
      let confidence = max (float s.confidence) nought in
      weigh signals (weighted + float s.score * confidence) (total + confidence)

  abbrev mean_of : F × F → F
  mean_of (weighted, total) = if gt total nought then round (weighted / total) 2 else nought

  unfoldable pub aggregate_signal_score : List (Signal F) → F
  aggregate_signal_score signals = mean_of (weigh signals nought nought)

  unfoldable pub base_exposure : Regime → F
  base_exposure breakout = int 45
  base_exposure trend_up = int 35
  base_exposure range = int 18
  base_exposure trend_down = int 8
  base_exposure overheated = int 5
  base_exposure panic = nought
  base_exposure unknown = nought
  base_exposure panic_in_other_case = nought
  base_exposure unknown_in_other_case = nought
  base_exposure other = int 10

  abbrev notice_step : Bool → F → F
  notice_step block a = if block then a - int 15 else a

  abbrev news_step : Option F → F → F
  news_step none a = a
  news_step (some x) a =
      if le x (neg (int 60))
      then a - int 6
      else if le x (neg (int 30))
      then a - int 3
      else if ge x (int 50)
      then a + int 1
      else a

  abbrev momentum_step : Option F → F → F
  momentum_step none a = a
  momentum_step (some x) a = a + max (min (x * dec 6 1) (int 3)) (neg (int 5))

  abbrev premium_step : Option F → F → F
  premium_step none a = a
  premium_step (some x) a =
      if ge x (int 5)
      then a - int 4
      else if ge x (int 3)
      then a - int 2
      else if le x (neg (int 2))
      then a + int 1
      else a

  abbrev greed_step : Option F → F → F
  greed_step none a = a
  greed_step (some x) a =
      if ge x (int 80)
      then a - int 6
      else if ge x (int 70)
      then a - int 3
      else if le x (int 20)
      then a - int 1
      else a

  unfoldable pub external_factor_adjustment : Factors F → F
  external_factor_adjustment f =
      let a = greed_step f.fear_greed (
        premium_step f.kimchi_premium (
          momentum_step f.btc_momentum
            (news_step f.news_sentiment (notice_step f.has_notice_block nought)))) in
      round (max (min a (int 5)) (neg (int 15))) 4

  abbrev daily_loss_reached : Request F → Bool
  daily_loss_reached r =
      let limit = r.max_total_exposure_krw * float_or r.daily_loss_limit_pct (int 3) / int 100 in
      gt limit nought && ge (abs (min (float r.daily_total_pnl) nought)) limit

  unfoldable pub blockers_of : Request F → List Blocker
  blockers_of r = found r.external_factors.has_notice_block exchange_notice_risk (
      found (not r.auto_trading_enabled) policy_auto_trading_disabled (
        found (ge r.current_position_value_krw r.max_total_exposure_krw) max_total_exposure_reached
          (found (is_blocked r.risk_status) risk_status_blocked (
            found (ge r.risk_score (int 80)) risk_score_high (
              found (is_unknown r.market_regime) market_regime_unknown
                (found (daily_loss_reached r) daily_loss_limit_reached []))))))

  -- What the signals, the risk and the factors aim at.
  unfoldable pub wanted_exposure : Request F → F
  wanted_exposure r =
      base_exposure r.market_regime
      + aggregate_signal_score r.internal_signals * dec 35 2
      - max (r.risk_score - int 45) nought * dec 45 2
      + external_factor_adjustment r.external_factors

  abbrev pub cap_blocked : List Blocker → F → F → F
  cap_blocked [] current target = target
  cap_blocked (b ∷ blockers) current target = min target current

  abbrev pub zero_in_panic : Bool → F → F
  zero_in_panic p target = if p then nought else target

  abbrev pub clip : F → F
  clip target = max (min target (int 100)) nought

  -- The target before it is rounded to four places.
  unfoldable pub exact_target : Request F → F
  exact_target r = clip (
      zero_in_panic (is_panic r.market_regime)
        (cap_blocked (blockers_of r) r.current_exposure_pct (wanted_exposure r)))

  unfoldable pub calculate_target_exposure : Request F → Answer F
  calculate_target_exposure r = record {
    target_exposure_pct = round (exact_target r) 4;
    aggregate_signal_score = aggregate_signal_score r.internal_signals;
    external_factor_adjustment_pct = external_factor_adjustment r.external_factors;
    blockers = blockers_of r;
  }
