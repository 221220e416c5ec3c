-- ===== src/Risk/Check/Outcome.antt =====
-- How the guards make up the verdict.
use Prim.Native.String.{String}
use auto_coin_bot.Common.{
  ◌≡◌, refl, Bool, true, false, ◌&&◌, Option, none, some, List, [], ◌∷◌, arith, ◌∙◌, All,
}
use auto_coin_bot.Common.Float.{Float}
use auto_coin_bot.Common.Table.{insert, set_default}
use auto_coin_bot.Risk.{RiskConfig, Code}
use auto_coin_bot.Risk.State
use auto_coin_bot.Risk.Check
use auto_coin_bot.Risk.Check.{Verdict, Entry, Base, Order, Call, Facts}

-- Every logged check is allowed.
abbrev pub all_allowed : List (String × Entry) → Bool
all_allowed [] = true
all_allowed ((_, e) ∷ es) = e.allowed && all_allowed es

-- The code of the first guard that blocks.
abbrev pub first_code : List (String × Option Code) → Option Code
first_code [] = none
first_code ((_, none) ∷ cs) = first_code cs
first_code ((_, some code) ∷ cs) = some code

all_allowed-insert :
    (name : String) (e : Entry) (m : List (String × Entry))
    → e.allowed ≡ false
    → all_allowed (insert name e m) ≡ false
unfolding insert
all_allowed-insert name e [] h = rw h
all_allowed-insert name e ((j, w) ∷ m) h = ground (arith, all_allowed-insert name e m h)

all_allowed-set_default :
    (name : String) (e : Entry) (m : List (String × Entry))
    → e.allowed ≡ true
    → all_allowed (set_default name e m) ≡ all_allowed m
unfolding set_default
all_allowed-set_default name e [] h = rw h
all_allowed-set_default name e ((j, w) ∷ m) h = ground (arith, all_allowed-set_default name e m h)

-- The flag of a verdict is what its log says.
abbrev IsLogged : Verdict → Type 0
IsLogged v = v.allowed ≡ all_allowed v.checks

record_check-IsLogged :
    (c : String × Option Code) (v : Verdict) → IsLogged v → IsLogged (Check.record_check c v)
unfolding Check.record_check Check.ok Check.block
record_check-IsLogged (name, none) v h =
    ground
      (arith, all_allowed-set_default name (record { allowed = true; code = none }) v.checks refl)
record_check-IsLogged (name, some code) v h =
    ground
      (arith, all_allowed-insert name (record { allowed = false; code = some code }) v.checks refl)

record_checks-IsLogged :
    (cs : List (String × Option Code)) (v : Verdict)
    → IsLogged v
    → IsLogged (Check.record_checks cs v)
unfolding Check.record_checks
record_checks-IsLogged [] v h = h
record_checks-IsLogged (c ∷ cs) v h =
    record_checks-IsLogged cs (Check.record_check c v) (record_check-IsLogged c v h)

-- A blocked verdict stays blocked, with its code.
record_check_blocked :
    (c : String × Option Code) (v : Verdict)
    → v.allowed ≡ false
    → ((Check.record_check c v).allowed ≡ false)
      × ((Check.record_check c v).block_code ≡ v.block_code)
unfolding Check.record_check Check.ok Check.block
record_check_blocked (name, none) v h = (h, refl)
record_check_blocked (name, some code) v h = (refl, rw h)

record_checks_blocked :
    (cs : List (String × Option Code)) (v : Verdict)
    → v.allowed ≡ false
    → ((Check.record_checks cs v).allowed ≡ false)
      × ((Check.record_checks cs v).block_code ≡ v.block_code)
unfolding Check.record_checks
record_checks_blocked [] v h = (h, refl)
record_checks_blocked (c ∷ cs) v h =
    let (blocked, code) = record_check_blocked c v h in
    let (blocked', code') = record_checks_blocked cs (Check.record_check c v) blocked in
    (blocked', code' ∙ code)

abbrev pub is_none : Option Code → Bool
is_none none = true
is_none (some _) = false

-- From an allowed verdict, the guards allow exactly if none of them blocks, and otherwise the code is
-- the first one's.
pub record_checks_first :
    (cs : List (String × Option Code)) (v : Verdict)
    → v.allowed ≡ true
    → v.block_code ≡ none
    → ((Check.record_checks cs v).allowed ≡ is_none (first_code cs))
      × ((Check.record_checks cs v).block_code ≡ first_code cs)
unfolding Check.record_checks Check.record_check Check.ok Check.block
record_checks_first [] v h k = (h, k)
record_checks_first ((name, none) ∷ cs) v h k =
    record_checks_first cs (Check.record_check (name, none) v) h k
record_checks_first ((name, some code) ∷ cs) v h k =
    let (blocked, same) = record_checks_blocked cs (Check.record_check (name, some code) v) refl in
    (blocked, same ∙ rw h)

-- An allowed verdict went through every guard.
pub record_checks_allowed :
    (cs : List (String × Option Code)) (v : Verdict)
    → (Check.record_checks cs v).allowed ≡ true
    → All (λ (c : String × Option Code). c.1 ≡ none) cs
unfolding Check.record_checks Check.record_check Check.ok Check.block
record_checks_allowed [] v h = tt
record_checks_allowed ((name, none) ∷ cs) v h =
    (refl, record_checks_allowed cs (Check.record_check (name, none) v) h)
record_checks_allowed ((name, some code) ∷ cs) v h =
    let (blocked, _) = record_checks_blocked cs (Check.record_check (name, some code) v) refl in
    absurd (cc (h, blocked))

module _ {F : Type 0} ⦃num : Float F⦄ where
  abbrev pub state_of : RiskConfig F → Call F → Facts F → State.RiskState F
  state_of config c f =
      State.compute_risk_state config f.queries c.balance_mismatch c.account_equity_krw

  -- The verdict allows an order exactly if every check in its log is allowed.
  pub verdict_logged :
      (config : RiskConfig F) (b : Base F) (o : Order F) (c : Call F) (f : Facts F)
      → let v = (Check.check_order_risk config b o c f).0 in v.allowed ≡ all_allowed v.checks
  unfolding Check.check_order_risk Check.raise_level
  verdict_logged config b o c f =
      record_checks-IsLogged (Check.guards config o c f (state_of config c f)) _ (ground arith)

  -- A refusal by the caller stands, with its code, whatever the guards say.
  pub base_refusal_stands :
      (config : RiskConfig F) (b : Base F) (o : Order F) (c : Call F) (f : Facts F)
      → b.allowed ≡ false
      → let v = (Check.check_order_risk config b o c f).0 in
        (v.allowed ≡ false) × (v.block_code ≡ Check.code_of b.allowed b.block_code)
  unfolding Check.check_order_risk Check.raise_level
  base_refusal_stands config b o c f h =
      record_checks_blocked (Check.guards config o c f (state_of config c f))
        (Check.standard_result b) h

  -- Where the caller allows the order, the verdict allows it exactly if no guard blocks, and otherwise
  -- its code is that of the first guard, in the order of the code, that does.
  pub first_guard_wins :
      (config : RiskConfig F) (b : Base F) (o : Order F) (c : Call F) (f : Facts F)
      → b.allowed ≡ true
      → b.block_code ≡ none
      → let v = (Check.check_order_risk config b o c f).0 in
        let first = first_code (Check.guards config o c f (state_of config c f)) in
        (v.allowed ≡ is_none first) × (v.block_code ≡ first)
  unfolding Check.check_order_risk Check.raise_level
  first_guard_wins config b o c f h k =
      record_checks_first (Check.guards config o c f (state_of config c f))
        (Check.standard_result b) h (rw (h, k))
