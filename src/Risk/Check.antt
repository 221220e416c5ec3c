-- ===== src/Risk/Check.antt =====
-- `check_order_risk` of app/risk_manager.py: one order against every guard of Risk/Check/Guards, each a name with
-- the code for which it blocks, if any. `record_check` is what the closures `block` and `ok` do to the
-- result.
use Prim.Native.Nat.{◌+◌ as plus}
use Prim.Native.String.{String}
use auto_coin_bot.Common.{
  ℕ, Bool, true, false, not, ◌&&◌, ◌||◌, Option, none, some, List, [], ◌∷◌, ◌++◌, if◌then◌else◌,
  ltb, leb, is_some,
}
use auto_coin_bot.Common.Float.{
  Float, ◌+◌, ◌-◌, ◌*◌, ◌/◌, lt, le, gt, ge, int, nought, abs, max, min, float, or_else,
}
use auto_coin_bot.Common.Table.{str_eq, insert, set_default}
use auto_coin_bot.Risk
use auto_coin_bot.Risk.{RiskConfig, Purpose, Side, Code, is_entry, is_exit, is_buy}
use auto_coin_bot.Risk.State
use auto_coin_bot.Risk.State.{RiskState, Position, Queries, reached}
use auto_coin_bot.Risk.Market.{Snapshot, market_condition_block}
use auto_coin_bot.Risk.Duplicate.{Query, LogRow, duplicate_order_exists}
pub mod Guards
unfoldable pub use Guards.*
pub mod Outcome
pub mod Passed
pub mod Safety
mod Tests

pub record Entry : Type 0 where
  pub allowed : Bool
  pub code : Option Code

pub data Level : Type 0 where
  low medium blocked : Level

-- The keys of the result that the guards change.
pub record Verdict : Type 0 where
  pub allowed : Bool
  pub risk_level : Level
  pub block_code : Option Code
  pub checks : List (String × Entry)

-- `block(code, check_name)`: the first code stays.
unfoldable pub block : String → Code → Verdict → Verdict
block name code v = record v {
  allowed = false;
  risk_level = if v.allowed then blocked else v.risk_level;
  block_code = if v.allowed then some code else v.block_code;
  checks = insert name (record { allowed = false; code = some code }) v.checks;
}

-- `ok(check_name)`
unfoldable pub ok : String → Verdict → Verdict
ok name v = record v { checks = set_default name (record { allowed = true; code = none }) v.checks }

unfoldable pub record_check : String × Option Code → Verdict → Verdict
unfolding block ok
record_check (name, none) v = ok name v
record_check (name, some code) v = block name code v

unfoldable pub record_checks : List (String × Option Code) → Verdict → Verdict
record_checks [] v = v
record_checks (c ∷ cs) v = record_checks cs (record_check c v)

-- The caller's result. Its code is the `block_code`, or else, where it refuses, the `risk_result` or
-- the `blocked_reason`.
pub record Base (F : Type 0) : Type 0 where
  pub allowed : Bool
  pub block_code : Option Code
  pub risk_level : Option Level
  pub max_allowed_order_krw : Option F

-- The code of `_standard_result`: a refusal with no code of its own is "BLOCKED".
abbrev pub code_of : Bool → Option Code → Option Code
code_of allowed (some c) = some c
code_of true none = none
code_of false none = some (Risk.base "BLOCKED")

abbrev pub level_of : Bool → Option Level → Level
level_of allowed (some l) = l
level_of true none = low
level_of false none = blocked

module _ {F : Type 0} ⦃num : Float F⦄ where
  -- `_standard_result`, with the entry `base_check` that follows it.
  unfoldable pub standard_result : Base F → Verdict
  standard_result b = record {
    allowed = b.allowed;
    risk_level = level_of b.allowed b.risk_level;
    block_code = code_of b.allowed b.block_code;
    checks =
        (
          "base_check",
          record {
            allowed = b.allowed;
            code = if b.allowed then none else code_of b.allowed b.block_code;
          },
        )
        ∷ [];
  }

  -- LOW rises to MEDIUM where the risk state asks for care.
  unfoldable pub raise_level : RiskState F → Verdict → Verdict
  raise_level state v = record v {
    risk_level = elim v.risk_level [
      | low ↦ elim state.status [
        | State.Status.warning ↦ if v.allowed then medium else low
        | State.Status.manual_review_required ↦ if v.allowed then medium else low
        | _ ↦ low
      ]
      | medium ↦ medium
      | blocked ↦ blocked
    ];
  }

  abbrev amount_or : Option F → F → F
  amount_or none d = d
  amount_or (some x) d = x

  -- `policy_check_detail["max_allowed_entry_krw"]`
  unfoldable pub max_allowed_entry : Call F → Facts F → F
  unfolding bot_value
  max_allowed_entry c f =
      let limit = float f.policy.max_total_exposure_krw in
      let room = if gt limit nought then max (limit - bot_value c f) nought else nought in
      elim c.balances [ absent ↦ room | empty ↦ room | krw available ↦ min room available ]

  -- `result["max_allowed_order_krw"]` at the end.
  unfoldable pub max_allowed_order : RiskConfig F → Base F → Order F → Call F → Facts F → F
  unfolding max_allowed_entry order_amount
  max_allowed_order config b o c f =
      let buying = is_entry c.purpose && is_buy o.side in
      if c.profit_engine_entry && buying
      then or_else (amount_or b.max_allowed_order_krw config.max_order_krw) (order_amount o)
      else let capped =
          min (amount_or b.max_allowed_order_krw config.max_order_krw) config.max_order_krw in
        if buying then min capped (max_allowed_entry c f) else capped

  unfoldable pub check_order_risk : RiskConfig F → Base F → Order F → Call F → Facts F → Verdict × F
  unfolding guards standard_result record_checks record_check raise_level max_allowed_order
  check_order_risk config b o c f =
      let state =
        State.compute_risk_state config f.queries c.balance_mismatch c.account_equity_krw in
      let v = record_checks (guards config o c f state) (standard_result b) in
      (raise_level state v, max_allowed_order config b o c f)
