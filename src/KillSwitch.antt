-- ===== src/KillSwitch.antt =====
-- `evaluate_strategy_kill_switch` of app/strategy_kill_switch.py, with `summarize_execution_quality` of
-- app/execution_quality.py. An order is what the switch reads of its row.
use Prim.Native.Nat.{◌-◌ as minus}
use auto_coin_bot.Common.{
  ℕ, zero, suc, Bool, true, false, not, ◌&&◌, ◌||◌, Option, none, some, List, [], ◌∷◌, ◌++◌,
  if◌then◌else◌, length, ltb, leb, ◌==◌, map, is_empty, is_some,
}
use auto_coin_bot.Common.Float.{
  Float, Field, get_field, field_or, ◌-◌, ◌*◌, ◌/◌, lt, gt, int, nought, max, sum, round, float,
}
pub mod Window
mod Tests

pub record Config (F : Type 0) : Type 0 where
  pub enabled : Bool
  pub expectancy_window : ℕ
  pub max_consecutive_losses : ℕ
  pub market_cooldown_hours : ℕ
  pub max_cancel_rate : F
  pub max_average_slippage_pct : F

pub record Order (F : Type 0) : Type 0 where
  pub actual_pnl : Field F
  pub realized_pnl : Field F
  pub stop_loss : Bool  -- "STOP_LOSS" is in the exit reason, or in the risk result

pub record Execution (F : Type 0) : Type 0 where
  pub filled_volume : Option F
  pub has_filled_at : Bool
  pub has_cancel_reason : Bool
  pub spread_pct : Option F
  pub estimated_slippage_pct : Option F
  pub adverse_selection_pct : Option F
  pub fill_time_seconds : Option F

pub record Quality (F : Type 0) : Type 0 where
  pub order_count : ℕ
  pub fill_rate : F
  pub cancel_rate : F
  pub average_spread_pct : F
  pub average_slippage_pct : F
  pub average_adverse_selection_pct : F
  pub average_fill_time_seconds : F
  pub execution_score : F

pub data Blocker : Type 0 where
  expectancy_negative consecutive_losses repeated_stop_loss cancel_rate_high : Blocker
  slippage_high exit_failed balance_mismatch : Blocker

pub data Action : Type 0 where
  no_action pause_strategy : Action

pub record Verdict (F : Type 0) : Type 0 where
  pub action : Action
  pub blockers : List Blocker
  pub expectancy_after_fee : F
  pub consecutive_losses : ℕ
  pub stop_loss_streak : ℕ
  pub market_cooldown_hours : ℕ

abbrev pub drop {ℓ} : {A : Type ℓ} → ℕ → List A → List A
drop zero xs = xs
drop (suc n) [] = []
drop (suc n) (x ∷ xs) = drop n xs

-- `rows[-n:]`, which is the whole list for 0.
unfoldable pub last_rows {ℓ} : {A : Type ℓ} → ℕ → List A → List A
last_rows n xs = if n == 0 then xs else drop (minus (length xs) n) xs

unfoldable pub reversed {ℓ} : {A : Type ℓ} → List A → List A
reversed [] = []
reversed (x ∷ xs) = reversed xs ++ x ∷ []

-- The rows before the first one that fails the test.
abbrev pub streak {ℓ} : {A : Type ℓ} → (A → Bool) → List A → ℕ
streak p [] = 0
streak p (x ∷ xs) = if p x then suc (streak p xs) else 0

abbrev pub count {ℓ} : {A : Type ℓ} → (A → Bool) → List A → ℕ
count p [] = 0
count p (x ∷ xs) = if p x then suc (count p xs) else count p xs

unfoldable pub found : Bool → Blocker → List Blocker → List Blocker
found test b bs = if test then b ∷ bs else bs

abbrev pub action_of : List Blocker → Action
action_of [] = no_action
action_of (b ∷ bs) = pause_strategy

module _ {F : Type 0} ⦃num : Float F⦄ where
  abbrev pub pnl_of : Order F → F
  pnl_of o = field_or (get_field o.actual_pnl o.realized_pnl) nought

  unfoldable pub is_loss : Order F → Bool
  is_loss o = lt (pnl_of o) nought

  abbrev numbers : List (Option F) → List F
  numbers [] = []
  numbers (none ∷ os) = numbers os
  numbers (some x ∷ os) = x ∷ numbers os

  -- `_avg`
  unfoldable pub average : List (Option F) → F
  average values =
      let nums = numbers values in
      if is_empty nums then nought else round (sum nums / int (length nums)) 6

  unfoldable pub summarize_execution_quality : List (Execution F) → Quality F
  unfolding average
  summarize_execution_quality rows =
      let total = int (length rows) in
      let canceled = int (count (λ (r : Execution F). r.has_cancel_reason) rows) in
      let filled =
        int (
          count (λ (r : Execution F). gt (float r.filled_volume) nought || r.has_filled_at) rows) in
      let spread = average (map (λ (r : Execution F). r.spread_pct) rows) in
      let slippage = average (map (λ (r : Execution F). r.estimated_slippage_pct) rows) in
      let adverse = average (map (λ (r : Execution F). r.adverse_selection_pct) rows) in
      let time = average (map (λ (r : Execution F). r.fill_time_seconds) rows) in
      let score = max nought (
        int 100
        - spread * int 10
        - max slippage nought * int 20
        - max adverse nought * int 15
        - canceled / total * int 30) in
      if is_empty rows
      then record {
        order_count = 0;
        fill_rate = nought;
        cancel_rate = nought;
        average_spread_pct = nought;
        average_slippage_pct = nought;
        average_adverse_selection_pct = nought;
        average_fill_time_seconds = nought;
        execution_score = nought;
      }
      else record {
        order_count = length rows;
        fill_rate = filled / total;
        cancel_rate = canceled / total;
        average_spread_pct = spread;
        average_slippage_pct = slippage;
        average_adverse_selection_pct = adverse;
        average_fill_time_seconds = time;
        execution_score = round score 4;
      }

  unfoldable pub expectancy : List (Order F) → F
  expectancy recent =
      if is_empty recent then nought else sum (map pnl_of recent) / int (length recent)

  unfoldable pub blockers_of : Config F → List (Order F) → Quality F → Bool → Bool → List Blocker
  unfolding expectancy is_loss reversed
  blockers_of cfg recent quality mismatch failed =
      let traded = ltb 0 quality.order_count in
      found (leb cfg.expectancy_window (length recent) && lt (expectancy recent) nought)
        expectancy_negative
        (found (leb cfg.max_consecutive_losses (streak is_loss (reversed recent)))
          consecutive_losses
          (found (leb 2 (streak (λ (o : Order F). o.stop_loss) (reversed recent)))
            repeated_stop_loss
            (found (traded && gt quality.cancel_rate cfg.max_cancel_rate) cancel_rate_high (
              found (traded && gt quality.average_slippage_pct cfg.max_average_slippage_pct)
                slippage_high (found failed exit_failed (found mismatch balance_mismatch []))))))

  unfoldable pub verdict_of : Config F → List (Order F) → List Blocker → Verdict F
  verdict_of cfg recent blockers = record {
    action = action_of blockers;
    blockers = blockers;
    expectancy_after_fee = expectancy recent;
    consecutive_losses = streak is_loss (reversed recent);
    stop_loss_streak = streak (λ (o : Order F). o.stop_loss) (reversed recent);
    market_cooldown_hours = if is_empty blockers then 0 else cfg.market_cooldown_hours;
  }

  -- What follows from the window of orders; `none` is the answer of a switch that is not enabled, which
  -- blocks nothing.
  unfoldable pub evaluate_recent :
      Bool → Config F → List (Order F) → List (Execution F) → Bool → Bool → Option (Verdict F)
  evaluate_recent false cfg recent executions mismatch failed = none
  evaluate_recent true cfg recent executions mismatch failed = some (
      verdict_of cfg recent
        (blockers_of cfg recent (summarize_execution_quality executions) mismatch failed))

  unfoldable pub evaluate_strategy_kill_switch :
      Config F → List (Order F) → List (Execution F) → Bool → Bool → Option (Verdict F)
  evaluate_strategy_kill_switch cfg orders executions mismatch failed =
      evaluate_recent cfg.enabled cfg (last_rows cfg.expectancy_window orders) executions mismatch
        failed
