-- ===== src/Exit/Check.antt =====
-- `evaluate_exit_order` of app/live_exit.py: whether an exit candidate may be sold, and how much of it.
-- What the exchange, the clock and the risk manager's tables answer is an argument, `World`.
use Prim.Native.String.{String}
use auto_coin_bot.Common.{
  ℕ, Bool, true, false, not, ◌&&◌, ◌||◌, Option, none, some, List, [], ◌∷◌, if◌then◌else◌, leb, ltb,
  ◌==◌, any, map, length, filter, get_or_else,
}
use auto_coin_bot.Common.Float.{
  Float, missing, ◌+◌, ◌*◌, lt, le, ge, dec, nought, max, min, or_else, sum,
}
use auto_coin_bot.Common.Table.{str_eq}
use auto_coin_bot.Risk
use auto_coin_bot.Risk.{RiskConfig, Code}
use auto_coin_bot.Risk.Check.{Order, OrderType, Call, Facts, Base, Mode, Verdict, Balances}
use auto_coin_bot.Risk.Check as RiskCheck
use auto_coin_bot.Risk.Market
use auto_coin_bot.Slots.{is_active}
use auto_coin_bot.Exit.Rows
use auto_coin_bot.Exit.Rows.{Position, Candidate, Store, RiskResult, is_exitable, is_approved}
use auto_coin_bot.Exit.Store.{has_open_exit_order, count_exit_retries}
use auto_coin_bot.Exit.Trigger.{Config}

-- What the capital snapshot holds: `available` is the coin of the market as app/capital_snapshot.py reads
-- the balances, `balance` as `_balance_available_from_snapshot` does. The positions are the snapshot's,
-- or where it has none, those of the market that are open.
pub record Snapshot (F : Type 0) : Type 0 where
  pub is_fresh : Bool
  pub available : F
  pub balance : F
  pub positions : List (Position F)

pub record World (F : Type 0) : Type 0 where
  pub min_order_krw : F
  pub emergency_stopped : Bool
  pub balance_blocking : Bool  -- of `reconcile_balances`
  pub broker_fails : Bool  -- a request for the balances, the chance or the snapshot raises
  pub snapshot : Snapshot F
  pub balances : Balances F  -- as far as they were read
  pub account_equity_krw : Option F  -- the effective one
  pub risk_config : RiskConfig F
  pub risk_facts : Facts F

-- The parts of the candidate that a sale of several positions, or a cut of the volume, replaces.
pub record Sale (F : Type 0) : Type 0 where
  pub volume : F
  pub expected_amount_krw : F
  pub expected_fee : F
  pub position_ids : List ℕ  -- `aggregate_exit_position_ids`, and `aggregate_exit` if there are any

pub record ExitRisk (F : Type 0) : Type 0 where
  pub allowed : Bool
  pub risk_result : RiskResult
  pub price : F
  pub volume : F
  pub amount_krw : F
  pub fee_estimate : F
  pub expected_pnl : F
  pub aggregate_exit_position_ids : List ℕ

-- What the chain of tests leaves: the refusal, if any, the sale, and what was asked of the exchange.
pub record Basis (F : Type 0) : Type 0 where
  pub refusal : Option Code
  pub sale : Sale F
  pub balance_mismatch : Option Bool
  pub balances : Balances F

abbrev pub some_ids : List ℕ → Bool
some_ids [] = false
some_ids (_ ∷ _) = true

-- The order of `(str(opened_at or ""), id)`.
abbrev opened_before : Option ℕ → Option ℕ → Bool
opened_before none none = false
opened_before none (some b) = true
opened_before (some a) none = false
opened_before (some a) (some b) = ltb a b

abbrev pub is_none : Option Code → Bool
is_none none = true
is_none (some _) = false

-- "ALLOWED", or the block code, which a refusal always has.
abbrev pub result_of : Bool → Option Code → RiskResult
result_of true code = Rows.allowed
result_of false code = Rows.named (get_or_else code (Risk.base ""))

abbrev pub refused : String → Option Code
refused text = some (Risk.base text)

module _ {F : Type 0} ⦃num : Float F⦄ where
  -- `sellable_volume_for_position` of app/capital_snapshot.py.
  unfoldable pub sellable_volume_for_position : Snapshot F → Position F → F
  sellable_volume_for_position snapshot p = max (min p.entry_volume snapshot.available) nought

  unfoldable pub plain_sale : Candidate F → Sale F
  plain_sale c = record {
    volume = c.volume;
    expected_amount_krw = c.expected_amount_krw;
    expected_fee = c.expected_fee;
    position_ids = [];
  }

  abbrev is_same_market : Candidate F → Position F → Bool
  is_same_market c p =
      (str_eq p.exchange "" || str_eq p.exchange c.exchange)
      && str_eq p.market c.market
      && is_active p.status

  abbrev pub is_earlier : Position F → Position F → Bool
  is_earlier p q =
      opened_before p.opened_at q.opened_at
      || (not (opened_before q.opened_at p.opened_at) && ltb p.id q.id)

  unfoldable pub insert_earliest : Position F → List (Position F) → List (Position F)
  insert_earliest p [] = p ∷ []
  insert_earliest p (q ∷ qs) = if is_earlier p q then p ∷ q ∷ qs else q ∷ insert_earliest p qs

  unfoldable pub by_age : List (Position F) → List (Position F)
  unfolding insert_earliest
  by_age [] = []
  by_age (p ∷ ps) = insert_earliest p (by_age ps)

  abbrev other_exits : Position F → Store F → Position F → Bool
  other_exits p s q = not (q.id == p.id) && has_open_exit_order q.id s

  abbrev is_dust : F → F → Position F → Bool
  is_dust target least p =
      let amount = p.entry_volume * target in lt nought amount && lt amount least

  unfoldable pub aggregate_same_market_exit_candidate :
      Config F → World F → Store F → Candidate F → Position F → Sale F
  unfolding by_age plain_sale sellable_volume_for_position
  aggregate_same_market_exit_candidate config w s c p =
      let target = c.target_exit_price in
      let positions = filter (is_same_market c) w.snapshot.positions in
      let current = sellable_volume_for_position w.snapshot p * target in
      let dust = any (is_dust target w.min_order_krw) positions in
      let volume = min (sum (map (λ q. q.entry_volume) positions)) w.snapshot.balance in
      let amount = volume * target in
      if le target nought
        || leb (length positions) 1
        || any (other_exits p s) positions
        || (ge current w.min_order_krw && not dust)
        || le volume nought
        || lt amount w.min_order_krw
      then plain_sale c
      else record {
        volume = volume;
        expected_amount_krw = amount;
        expected_fee = amount * config.fee_rate;
        position_ids = map (λ q. q.id) (by_age positions);
      }

  -- The guards before the exchange is asked.
  unfoldable pub early_refusal :
      Config F → World F → Store F → Candidate F → Position F → Bool → Bool → Option Code
  early_refusal config w s c p manual_confirmed is_auto_exit =
      if not (str_eq c.exchange "bithumb")
      then refused "BLOCKED_EXCHANGE_NOT_ALLOWED"
      else if not (str_eq c.market p.market)
      then refused "BLOCKED_SELL_POSITION_NOT_FOUND"
      else if not config.exit_order_is_limit
      then refused "BLOCKED_MARKET_ORDER_DISABLED"
      else if config.market_order_enabled
      then refused "BLOCKED_MARKET_ORDER_DISABLED"
      else if is_auto_exit && w.emergency_stopped
      then refused "BLOCKED_EMERGENCY_STOP"
      else if is_auto_exit && not config.exit_enabled
      then refused "BLOCKED_EXIT_DISABLED"
      else if not (is_exitable p.status)
      then refused "BLOCKED_POSITION_NOT_OPEN"
      else if has_open_exit_order p.id s
      then refused "BLOCKED_OPEN_EXIT_ORDER_EXISTS"
      else if leb config.max_exit_retry_count (count_exit_retries c.id s)
      then refused "BLOCKED_MAX_EXIT_RETRY"
      else if not is_auto_exit
          && config.require_manual_confirm
          && (not manual_confirmed || not (is_approved c.status))
      then refused "BLOCKED_MANUAL_CONFIRM_REQUIRED"
      else none

  -- The sale that the balance admits, or the reason that it admits none.
  unfoldable pub fit_sale : World F → Candidate F → Position F → Sale F → Option Code × Sale F
  unfolding sellable_volume_for_position
  fit_sale w c p sale =
      let own = sellable_volume_for_position w.snapshot p in
      let sellable = if some_ids sale.position_ids then or_else sale.volume own else own in
      let adjusted = sellable * c.target_exit_price in
      if le sellable nought
      then (refused "BLOCKED_SELL_BALANCE_ZERO", sale)
      else if lt (sellable + dec 1 12) sale.volume
      then if lt adjusted w.min_order_krw
        then (refused "BLOCKED_SELL_VOLUME_BELOW_MIN", sale)
        else (none, record sale { volume = sellable; expected_amount_krw = adjusted })
      else if lt sale.expected_amount_krw w.min_order_krw
      then (refused "BLOCKED_SELL_VOLUME_BELOW_MIN", sale)
      else (none, sale)

  unfoldable pub check_exchange :
      Config F → World F → Store F → Candidate F → Position F → Option Code × Sale F
  check_exchange config w s c p =
      if w.balance_blocking
      then (refused "BLOCKED_BALANCE_MISMATCH", plain_sale c)
      else if w.broker_fails
      then (refused "BLOCKED_ORDER_CHANCE_FAILED", plain_sale c)
      else if not w.snapshot.is_fresh
      then (refused "BLOCKED_SNAPSHOT_STALE", plain_sale c)
      else fit_sale w c p (aggregate_same_market_exit_candidate config w s c p)

  -- No balances are known where the code refuses before it asks for them.
  unfoldable pub asked_basis :
      Option Code → Config F → World F → Store F → Candidate F → Position F → Basis F
  asked_basis (some code) config w s c p = record {
    refusal = some code;
    sale = plain_sale c;
    balance_mismatch = none;
    balances = RiskCheck.absent;
  }
  asked_basis none config w s c p =
      let (refusal, sale) = check_exchange config w s c p in
      record {
        refusal = refusal;
        sale = sale;
        balance_mismatch = some w.balance_blocking;
        balances = if w.balance_blocking then RiskCheck.absent else w.balances;
      }

  unfoldable pub basis_of :
      Config F → World F → Store F → Candidate F → Option (Position F) → Bool → Bool → Basis F
  basis_of config w s c none manual_confirmed is_auto_exit = record {
    refusal = refused "BLOCKED_POSITION_NOT_OPEN";
    sale = plain_sale c;
    balance_mismatch = none;
    balances = RiskCheck.absent;
  }
  basis_of config w s c (some p) manual_confirmed is_auto_exit =
      asked_basis (early_refusal config w s c p manual_confirmed is_auto_exit) config w s c p

  unfoldable pub base_of : Basis F → Base F
  base_of b = record {
    allowed = is_none b.refusal;
    block_code = b.refusal;
    risk_level = none;
    max_allowed_order_krw = none;
  }

  unfoldable pub order_of : Candidate F → Sale F → String → Order F
  order_of c sale request_id = record {
    request_id = request_id;
    exchange = c.exchange;
    market = c.market;
    side = Risk.Side.sell;
    order_type = some OrderType.limit;
    ord_type = none;
    amount_krw = some sale.expected_amount_krw;
    price = some c.target_exit_price;
    volume = some sale.volume;
    scale_in = false;
  }

  abbrev price_snapshot : F → Market.Snapshot F
  price_snapshot price = record {
    range_rate = none;
    liquidity_check_required = false;
    current_1m_trade_price_volume = missing;
    recent_5m_avg_trade_price_volume = missing;
    recent_5m_volume_count = 0;
    complete_is_false = false;
    trade_price_volume = none;
    volume_krw = none;
    price = some price;
    trade_price = none;
    volume = none;
  }

  unfoldable pub call_of : World F → Candidate F → Basis F → Bool → Call F
  call_of w c b is_auto_exit = record {
    purpose = Risk.Purpose.exit_order;
    mode = if is_auto_exit then Mode.auto_strategy_running else Mode.live_manual_only;
    session_id = some c.session_id;
    candidate_strategy_id = some c.candidate_strategy_id;
    candle_time_utc = c.candle_time_utc;
    is_auto = is_auto_exit;
    profit_engine_entry = false;
    balance_mismatch = b.balance_mismatch;
    account_equity_krw = w.account_equity_krw;
    snapshot = some (price_snapshot c.target_exit_price);
    balances = b.balances;
  }

  unfoldable pub verdict_of : World F → Candidate F → Basis F → String → Bool → Verdict
  verdict_of w c b request_id is_auto_exit =
      (RiskCheck.check_order_risk w.risk_config (base_of b) (order_of c b.sale request_id)
        (call_of w c b is_auto_exit) w.risk_facts).0

  -- The result where there is a candidate.
  unfoldable pub evaluate_exit_order :
      Config F
      → World F
      → Store F
      → Candidate F
      → Option (Position F)
      → Bool
      → Bool
      → String
      → ExitRisk F
  evaluate_exit_order config w s c p manual_confirmed is_auto_exit request_id =
      let b = basis_of config w s c p manual_confirmed is_auto_exit in
      let v = verdict_of w c b request_id is_auto_exit in
      record {
        allowed = v.allowed;
        risk_result = result_of v.allowed v.block_code;
        price = c.target_exit_price;
        volume = b.sale.volume;
        amount_krw = b.sale.expected_amount_krw;
        fee_estimate = b.sale.expected_fee;
        expected_pnl = c.expected_pnl;
        aggregate_exit_position_ids = b.sale.position_ids;
      }

  unfoldable pub evaluate_found :
      Config F
      → World F
      → Store F
      → Option (Candidate F)
      → Option (Position F)
      → Bool
      → Bool
      → String
      → ExitRisk F
  evaluate_found config w s none p manual_confirmed is_auto_exit request_id = record {
    allowed = false;
    risk_result = Rows.named (Risk.base "EXIT_CANDIDATE_NOT_FOUND");
    price = nought;
    volume = nought;
    amount_krw = nought;
    fee_estimate = nought;
    expected_pnl = nought;
    aggregate_exit_position_ids = [];
  }
  evaluate_found config w s (some c) p manual_confirmed is_auto_exit request_id =
      evaluate_exit_order config w s c p manual_confirmed is_auto_exit request_id
