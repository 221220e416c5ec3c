-- ===== src/Paper.antt =====
-- The simulation `run_paper_trading` of app/paper_trading.py. The candles come with the signals that
-- `apply_strategy` put on them, and with times in seconds of UTC; the report at the end, which only
-- repeats the last state, is left out.
use Prim.Native.Nat.{◌/◌ as div, ◌+◌ as plus}
use auto_coin_bot.Common.{
  ℕ, Bool, true, false, not, ◌&&◌, Option, none, some, List, [], ◌∷◌, ◌++◌, if◌then◌else◌, leb,
  ◌==◌, length,
}
use auto_coin_bot.Common.Float.{
  Float, ◌+◌, ◌-◌, ◌*◌, ◌/◌, lt, le, gt, ge, int, nought, neg, abs, max, min,
}
pub mod Solvency
pub mod Halt
pub mod Guards
mod Tests

pub data Signal : Type 0 where
  buy sell hold : Signal

pub record Row (F : Type 0) : Type 0 where
  pub time : ℕ
  pub price : F
  pub high : F
  pub low : F
  pub signal : Signal

pub record Risk (F : Type 0) : Type 0 where
  pub initial_cash : F
  pub max_order_amount : F
  pub daily_max_loss_rate : F
  pub max_position_ratio : F
  pub consecutive_loss_limit : ℕ  -- a negative one acts as 0
  pub volatility_block_rate : F
  pub fee_rate : F
  pub slippage_rate : F

pub data Side : Type 0 where
  buy_side sell_side : Side

pub record Order (F : Type 0) : Type 0 where
  pub time : ℕ
  pub side : Side
  pub signal_price : F
  pub execution_price : F
  pub quantity : F
  pub fee : F
  pub realized_pnl : Option F

pub data Block : Type 0 where
  daily_loss_limit consecutive_loss_limit volatility_block position_or_cash_limit : Block

pub record Account (F : Type 0) : Type 0 where
  pub cash : F
  pub btc_quantity : F
  pub avg_buy_price : F
  pub realized_pnl : F
  pub consecutive_losses : ℕ

pub record Equity (F : Type 0) : Type 0 where
  pub time : ℕ
  pub equity : F
  pub unrealized_pnl : F

pub record State (F : Type 0) : Type 0 where
  pub account : Account F
  pub day_start_equity : List (ℕ × F)
  pub signals : List (ℕ × Signal)
  pub orders : List (Order F)
  pub blocked_signals : List (ℕ × Block)
  pub equity_curve : List (Equity F)

-- `_kst_date_key`: the day in Korea, nine hours ahead of UTC.
pub kst_date_key : ℕ → ℕ
kst_date_key time = div (plus time 32400) 86400

module _ {F : Type 0} where
  abbrev pub find_day : ℕ → List (ℕ × F) → Option F
  find_day day [] = none
  find_day day ((d, e) ∷ rest) = if d == day then some e else find_day day rest

  -- `setdefault`, and the value that then stands under the key.
  pub set_default : ℕ → F → List (ℕ × F) → List (ℕ × F) × F
  set_default day e days = elim (find_day day days) [
    | some old ↦ (days, old)
    | none ↦ (days ++ (day, e) ∷ [], e)
  ]

module _ {F : Type 0} ⦃num : Float F⦄ where
  pub day_loss_rate : F → F → F
  day_loss_rate equity start = if gt start nought then (equity - start) / start else nought

  pub range_rate : Row F → F
  range_rate r = if gt r.price nought then (r.high - r.low) / r.price else nought

  pub order_amount : Risk F → Account F → F → F
  order_amount risk a price =
      let equity = a.cash + a.btc_quantity * price in
      let room = equity * max risk.max_position_ratio nought - a.btc_quantity * price in
      min (min risk.max_order_amount a.cash) room

  -- The ladder of `block_reason` for a BUY signal.
  pub block_reason : Risk F → Account F → F → F → F → Option Block
  block_reason risk a loss range amount =
      if le loss (neg (abs risk.daily_max_loss_rate))
      then some daily_loss_limit
      else if leb risk.consecutive_loss_limit a.consecutive_losses
      then some consecutive_loss_limit
      else if ge range risk.volatility_block_rate
      then some volatility_block
      else if le amount nought
      then some position_or_cash_limit
      else none

  pub bought_price : Risk F → F → F
  bought_price risk price = price * (int 1 + max risk.slippage_rate nought)

  pub bought_quantity : Risk F → F → F → F
  unfolding bought_price
  bought_quantity risk price amount =
      let spend = max (amount - amount * risk.fee_rate) nought in
      if gt (bought_price risk price) nought then spend / bought_price risk price else nought

  pub execute_buy : Risk F → Account F → F → F → Account F
  unfolding bought_quantity
  execute_buy risk a price amount =
      let bought = bought_quantity risk price amount in
      let quantity = a.btc_quantity + bought in
      record a {
        avg_buy_price =
            if gt quantity nought
            then (a.btc_quantity * a.avg_buy_price + bought * bought_price risk price) / quantity
            else a.avg_buy_price;
        btc_quantity = quantity;
        cash = a.cash - amount;
      }

  pub buy_order : Risk F → Row F → F → Order F
  unfolding bought_quantity
  buy_order risk r amount = record {
    time = r.time;
    side = buy_side;
    signal_price = r.price;
    execution_price = bought_price risk r.price;
    quantity = bought_quantity risk r.price amount;
    fee = amount * risk.fee_rate;
    realized_pnl = none;
  }

  pub sold_price : Risk F → F → F
  sold_price risk price = price * (int 1 - max risk.slippage_rate nought)

  pub sold_net : Risk F → Account F → F → F
  unfolding sold_price
  sold_net risk a price =
      let gross = a.btc_quantity * sold_price risk price in gross - gross * risk.fee_rate

  pub sold_pnl : Risk F → Account F → F → F
  unfolding sold_net
  sold_pnl risk a price = sold_net risk a price - a.btc_quantity * a.avg_buy_price

  pub execute_sell : Risk F → Account F → F → Account F
  unfolding sold_pnl
  execute_sell risk a price = record {
    cash = a.cash + sold_net risk a price;
    btc_quantity = nought;
    avg_buy_price = nought;
    realized_pnl = a.realized_pnl + sold_pnl risk a price;
    consecutive_losses =
        if lt (sold_pnl risk a price) nought then plus a.consecutive_losses 1 else 0;
  }

  pub sell_order : Risk F → Account F → Row F → Order F
  unfolding sold_pnl
  sell_order risk a r =
      let gross = a.btc_quantity * sold_price risk r.price in
      record {
        time = r.time;
        side = sell_side;
        signal_price = r.price;
        execution_price = sold_price risk r.price;
        quantity = a.btc_quantity;
        fee = gross * risk.fee_rate;
        realized_pnl = some (sold_pnl risk a r.price);
      }

  -- The branch of a BUY signal, once its block reason is known.
  pub on_buy : Risk F → Row F → F → State F → Option Block → State F
  unfolding execute_buy buy_order
  on_buy risk r amount s (some reason) = record s {
    blocked_signals = s.blocked_signals ++ (r.time, reason) ∷ [];
  }
  on_buy risk r amount s none = record s {
    account = execute_buy risk s.account r.price amount;
    orders = s.orders ++ buy_order risk r amount ∷ [];
  }

  pub on_sell : Risk F → Row F → State F → State F
  unfolding execute_sell sell_order
  on_sell risk r s =
      if gt s.account.btc_quantity nought
      then record s {
        account = execute_sell risk s.account r.price;
        orders = s.orders ++ sell_order risk s.account r ∷ [];
      }
      else s

  pub on_signal : Signal → Risk F → Row F → F → State F → State F
  unfolding on_buy on_sell order_amount block_reason range_rate
  on_signal buy risk r loss s =
      let amount = order_amount risk s.account r.price in
      on_buy risk r amount s (block_reason risk s.account loss (range_rate r) amount)
  on_signal sell risk r loss s = on_sell risk r s
  on_signal hold risk r loss s = s

  -- The end of the loop's body: a point of the equity curve.
  pub mark : Row F → State F → State F
  mark r s = record s {
    equity_curve =
        s.equity_curve
        ++ record {
          time = r.time;
          equity = s.account.cash + s.account.btc_quantity * r.price;
          unrealized_pnl =
              if gt s.account.btc_quantity nought
              then (r.price - s.account.avg_buy_price) * s.account.btc_quantity
              else nought;
        }
          ∷ [];
  }

  pub log_signal : Row F → List (ℕ × Signal) → List (ℕ × Signal)
  log_signal r signals = elim r.signal [
    | buy ↦ signals ++ (r.time, buy) ∷ []
    | sell ↦ signals ++ (r.time, sell) ∷ []
    | hold ↦ signals
  ]

  -- The body of the loop over the candles.
  pub step : Risk F → Row F → State F → State F
  unfolding set_default day_loss_rate on_signal mark kst_date_key log_signal
  step risk r s =
      let equity = s.account.cash + s.account.btc_quantity * r.price in
      let (days, start) = set_default (kst_date_key r.time) equity s.day_start_equity in
      mark r (
        on_signal r.signal risk r (day_loss_rate equity start)
          (record s { day_start_equity = days; signals = log_signal r s.signals }))

  pub steps : Risk F → List (Row F) → State F → State F
  steps risk [] s = s
  steps risk (r ∷ rs) s = steps risk rs (step risk r s)

  pub start : Risk F → State F
  start risk = record {
    account = record {
      cash = risk.initial_cash;
      btc_quantity = nought;
      avg_buy_price = nought;
      realized_pnl = nought;
      consecutive_losses = 0;
    };
    day_start_equity = [];
    signals = [];
    orders = [];
    blocked_signals = [];
    equity_curve = [];
  }

  -- With fewer than 30 candles the function raises.
  pub run_paper_trading : Risk F → List (Row F) → Option (State F)
  unfolding steps start
  run_paper_trading risk rows =
      if leb 30 (length rows) then some (steps risk rows (start risk)) else none
