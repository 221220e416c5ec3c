-- ===== src/Exit/Cleared.antt =====
-- What an exit order that `evaluate_exit_order` allows has passed.
use Prim.Native.String.{String}
use auto_coin_bot.Common.{
  ◌≡◌, refl, Bool, true, false, ◌&&◌, Option, none, some, arith, inl, inr, Option-cases, leb,
  Bool-cases, if◌then◌else◌, All,
}
use auto_coin_bot.Common.Float.{Float, le, lt, max, min, nought, or_else}
use auto_coin_bot.Common.Table.{str_eq}
use auto_coin_bot.Risk.{Code}
use auto_coin_bot.Risk.Check as RiskCheck
use auto_coin_bot.Risk.Check.Outcome.{base_refusal_stands, record_checks_allowed, state_of}
use auto_coin_bot.Exit.Rows.{Position, Candidate, Store, is_exitable, is_approved}
use auto_coin_bot.Exit.Store.{has_open_exit_order, count_exit_retries}
use auto_coin_bot.Exit.Trigger.{Config}
use auto_coin_bot.Exit.Check
use auto_coin_bot.Exit.Check.{World, Basis, Sale}

module _ {F : Type 0} ⦃num : Float F⦄ where
  -- What the exchange's answers have passed: they agree with the books, none failed, they are fresh, some
  -- of the coin can be sold, and the sale is not worth less than the least order.
  pub record IsAsked (config : Config F) (w : World F) (s : Store F) (c : Candidate F)
      (p : Position F) : Type 0 where
    pub balanced : w.balance_blocking ≡ false
    pub answered : w.broker_fails ≡ false
    pub fresh : w.snapshot.is_fresh ≡ true
    pub sellable :
        let sale = Check.aggregate_same_market_exit_candidate config w s c p in
        let own = max (min p.entry_volume w.snapshot.available) nought in
        le (if Check.some_ids sale.position_ids then or_else sale.volume own else own) nought
        ≡ false
    pub worth :
        lt (Check.check_exchange config w s c p).1.expected_amount_krw w.min_order_krw ≡ false

  -- The guards that the position and the candidate have passed.
  pub record IsCleared (config : Config F) (w : World F) (s : Store F) (c : Candidate F)
      (p : Position F) (manual_confirmed is_auto_exit : Bool) : Type 0 where
    pub exchange : str_eq c.exchange "bithumb" ≡ true
    pub market : str_eq c.market p.market ≡ true
    pub limit_order : config.exit_order_is_limit ≡ true
    pub running : is_auto_exit ≡ true → w.emergency_stopped ≡ false
    pub enabled : is_auto_exit ≡ true → config.exit_enabled ≡ true
    pub exitable : is_exitable p.status ≡ true
    pub unsold : has_open_exit_order p.id s ≡ false
    pub tries : leb config.max_exit_retry_count (count_exit_retries c.id s) ≡ false
    pub confirmed :
        is_auto_exit ≡ false
        → config.require_manual_confirm ≡ true
        → manual_confirmed && is_approved c.status ≡ true
    pub no_market_orders : config.market_order_enabled ≡ false
    pub at_exchange : IsAsked config w s c p

  early_refusal-IsCleared :
      (config : Config F) (w : World F) (s : Store F) (c : Candidate F) (p : Position F)
      (manual auto : Bool)
      → Check.early_refusal config w s c p manual auto ≡ none
      → IsAsked config w s c p
      → IsCleared config w s c p manual auto
  unfolding Check.early_refusal
  early_refusal-IsCleared config w s c p manual auto h asked = record {
    exchange = ground arith;
    market = ground arith;
    limit_order = ground arith;
    running = ground arith;
    enabled = ground arith;
    exitable = ground arith;
    unsold = ground arith;
    tries = ground arith;
    confirmed = ground arith;
    no_market_orders = ground arith;
    at_exchange = asked;
  }

  fit_sale-none :
      (w : World F) (c : Candidate F) (p : Position F) (sale : Sale F)
      → (Check.fit_sale w c p sale).0 ≡ none
      → let own = max (min p.entry_volume w.snapshot.available) nought in
        (le (if Check.some_ids sale.position_ids then or_else sale.volume own else own) nought
          ≡ false)
        × (lt (Check.fit_sale w c p sale).1.expected_amount_krw w.min_order_krw ≡ false)
  unfolding Check.fit_sale Check.sellable_volume_for_position
  fit_sale-none w c p sale h = (ground arith, ground arith)

  check_exchange-none :
      (config : Config F) (w : World F) (s : Store F) (c : Candidate F) (p : Position F)
      → (Check.check_exchange config w s c p).0 ≡ none
      → IsAsked config w s c p
  unfolding Check.check_exchange Check.aggregate_same_market_exit_candidate Check.fit_sale
  check_exchange-none config w s c p h =
      let sale = Check.aggregate_same_market_exit_candidate config w s c p in
      let fit = fit_sale-none w c p sale in
      elim (Bool-cases w.balance_blocking) [
        | inl e ↦ absurd (ground arith)
        | inr balanced ↦ elim (Bool-cases w.broker_fails) [
          | inl e ↦ absurd (ground arith)
          | inr answered ↦ elim (Bool-cases w.snapshot.is_fresh) [
            | inr e ↦ absurd (ground arith)
            | inl fresh ↦
                let (sellable, worth) = fit (rw (balanced, answered, fresh) at h) in
                record {
                  balanced = balanced;
                  answered = answered;
                  fresh = fresh;
                  sellable = sellable;
                  worth = rw (balanced, answered, fresh) worth;
                }
          ]
        ]
      ]

  asked_basis-none :
      (r : Option Code) (config : Config F) (w : World F) (s : Store F) (c : Candidate F)
      (p : Position F)
      → (Check.asked_basis r config w s c p).refusal ≡ none
      → (r ≡ none) × IsAsked config w s c p
  unfolding Check.asked_basis
  asked_basis-none none config w s c p h = (refl, check_exchange-none config w s c p h)
  asked_basis-none (some code) config w s c p h = cc h

  basis_of-IsCleared :
      (config : Config F) (w : World F) (s : Store F) (c : Candidate F) (p : Option (Position F))
      (manual auto : Bool)
      → (Check.basis_of config w s c p manual auto).refusal ≡ none
      → (q : Position F) × (p ≡ some q) × IsCleared config w s c q manual auto
  unfolding Check.basis_of
  basis_of-IsCleared config w s c none manual auto h = cc h
  basis_of-IsCleared config w s c (some p) manual auto h =
      let (early, asked) =
        asked_basis-none (Check.early_refusal config w s c p manual auto) config w s c p h in
      (p, refl, early_refusal-IsCleared config w s c p manual auto early asked)

  verdict-refusal :
      (w : World F) (c : Candidate F) (b : Basis F) (id : String) (auto : Bool)
      → (Check.verdict_of w c b id auto).allowed ≡ true
      → b.refusal ≡ none
  unfolding Check.verdict_of Check.base_of
  verdict-refusal w c b id auto h = elim (Option-cases b.refusal) [
    | inl e ↦ e
    | inr (code, e) ↦
        let (stands, _) =
          base_refusal_stands w.risk_config (Check.base_of b) (Check.order_of c b.sale id)
            (Check.call_of w c b auto) w.risk_facts (rw e refl) in
        cc (h, stands)
  ]

  -- An exit order that is allowed has a position, which has passed every guard.
  pub evaluate-IsCleared :
      (config : Config F) (w : World F) (s : Store F) (c : Candidate F) (p : Option (Position F))
      (manual auto : Bool) (id : String)
      → (Check.evaluate_exit_order config w s c p manual auto id).allowed ≡ true
      → (q : Position F) × (p ≡ some q) × IsCleared config w s c q manual auto
  unfolding Check.evaluate_exit_order
  evaluate-IsCleared config w s c p manual auto id h =
      basis_of-IsCleared config w s c p manual auto
        (verdict-refusal w c (Check.basis_of config w s c p manual auto) id auto h)

  -- The risk manager's guards for the sale that the exit check proposes, none of which blocks it.
  abbrev pub PassesRisk :
      (config : Config F) (w : World F) (s : Store F) (c : Candidate F) (p : Position F)
      (manual auto : Bool) (id : String)
      → Type 0
  PassesRisk config w s c p manual auto id =
      let b = Check.basis_of config w s c (some p) manual auto in
      let call = Check.call_of w c b auto in
      All (λ (g : String × Option Code). g.1 ≡ none)
        (RiskCheck.guards w.risk_config (Check.order_of c b.sale id) call w.risk_facts
          (state_of w.risk_config call w.risk_facts))

  pub evaluate-PassesRisk :
      (config : Config F) (w : World F) (s : Store F) (c : Candidate F) (p : Position F)
      (manual auto : Bool) (id : String)
      → (Check.evaluate_exit_order config w s c (some p) manual auto id).allowed ≡ true
      → PassesRisk config w s c p manual auto id
  unfolding Check.evaluate_exit_order Check.verdict_of RiskCheck.check_order_risk
      RiskCheck.raise_level
  evaluate-PassesRisk config w s c p manual auto id h =
      let b = Check.basis_of config w s c (some p) manual auto in
      let call = Check.call_of w c b auto in
      record_checks_allowed
        (RiskCheck.guards w.risk_config (Check.order_of c b.sale id) call w.risk_facts
          (state_of w.risk_config call w.risk_facts))
        (RiskCheck.standard_result (Check.base_of b)) h
