-- ===== src/Backtest.antt =====
-- `run_backtest` of app/backtest.py: the loop over the candles, which fills a signal at the next candle's
-- open, and the metrics. The rows are the candles with the strategy's signals; a time is in seconds.
-- The averages that numpy takes, `_score` and the texts that the result copies are left out.
use Prim.Native.Nat.{◌-◌ as minus}
use auto_coin_bot.Common.{
  ℕ, Bool, true, false, not, ◌&&◌, Option, none, some, List, [], ◌∷◌, ◌++◌, if◌then◌else◌, length,
  ltb, map, get_or_else,
}
use auto_coin_bot.Common.Float.{
  Float, ◌+◌, ◌-◌, ◌*◌, ◌/◌, lt, le, gt, dec, int, nought, max, min, abs, sum, truthy,
}
pub mod Rows
unfoldable pub use Rows.*
pub mod Trades
pub mod Solvency
mod Tests

module _ {F : Type 0} ⦃num : Float F⦄ where
  pub config_of : Risk F → Config F
  config_of risk = record {
    initial_cash =
        get_or_else risk.initial_cash (get_or_else risk.initial_balance_krw (int 10000000));
    position_size = min (max (get_or_else risk.position_size (int 1)) nought) (int 1);
    fee_rate = max (get_or_else risk.fee_rate (dec 5 4)) nought;
    slippage_rate = max (get_or_else risk.slippage_rate nought) nought;
  }

  pub bought_price : Config F → F → F
  bought_price config price = price * (int 1 + config.slippage_rate)

  pub bought_quantity : Config F → F → F → F
  unfolding bought_price
  bought_quantity config price budget =
      let spend = max (budget - budget * config.fee_rate) nought in
      if gt (bought_price config price) nought then spend / bought_price config price else nought

  pub open_position : Config F → Row F → Row F → State F → State F
  unfolding bought_quantity
  open_position config row next s =
      let budget = s.cash * config.position_size in
      let bought = bought_quantity config next.open_price budget in
      if le budget s.cash && gt bought nought
      then record s {
        cash = max (s.cash - budget) nought;
        quantity = bought;
        entry_price = bought_price config next.open_price;
        entry_time = some next.time;
        entry_cost = budget;
        orders =
            s.orders
            ++ record {
              time = next.time;
              side = buy_side;
              price = bought_price config next.open_price;
              quantity = bought;
              amount_krw = budget;
              fee = budget * config.fee_rate;
              pnl = none;
              signal_time = row.time;
            }
              ∷ [];
      }
      else s

  pub sold_gross : Config F → F → F → F
  sold_gross config price quantity = quantity * (price * (int 1 - config.slippage_rate))

  pub sold_net : Config F → F → F → F
  unfolding sold_gross
  sold_net config price quantity =
      let gross = sold_gross config price quantity in max (gross - gross * config.fee_rate) nought

  abbrev held_minutes : Option ℕ → ℕ → List F → List F
  held_minutes none end minutes = minutes
  held_minutes (some start) end minutes = minutes ++ int (minus end start) / int 60 ∷ []

  pub close_position : Config F → Row F → Row F → State F → State F
  unfolding sold_net
  close_position config row next s =
      let gross = sold_gross config next.open_price s.quantity in
      let net = sold_net config next.open_price s.quantity in
      let pnl = net - s.entry_cost in
      record s {
        cash = s.cash + net;
        quantity = nought;
        entry_price = nought;
        entry_time = none;
        entry_cost = nought;
        realized_pnl_total = s.realized_pnl_total + pnl;
        closed_pnls = s.closed_pnls ++ pnl ∷ [];
        closed_returns =
            if gt s.entry_cost nought
            then s.closed_returns ++ pnl / s.entry_cost ∷ []
            else s.closed_returns;
        holding_minutes = held_minutes s.entry_time next.time s.holding_minutes;
        orders =
            s.orders
            ++ record {
              time = next.time;
              side = sell_side;
              price = next.open_price * (int 1 - config.slippage_rate);
              quantity = s.quantity;
              amount_krw = gross;
              fee = gross * config.fee_rate;
              pnl = some pnl;
              signal_time = row.time;
            }
              ∷ [];
      }

  -- The two branches, which need a next row.
  pub trade : Config F → Signal → Row F → Option (Row F) → State F → State F
  trade config sig row none s = s
  trade config buy row (some next) s =
      if num.eq s.quantity nought && gt s.cash nought then open_position config row next s else s
  trade config sell row (some next) s =
      if gt s.quantity nought then close_position config row next s else s
  trade config hold row (some next) s = s

  pub mark : Row F → State F → State F
  mark row s =
      let equity = s.cash + s.quantity * row.close in
      let peak = max s.peak equity in
      record s {
        peak = peak;
        equity_curve =
            s.equity_curve
            ++ record {
              time = row.time;
              equity = equity;
              cash_krw = s.cash;
              btc_quantity = s.quantity;
              price = row.close;
              drawdown = if truthy peak then (equity - peak) / peak else nought;
            }
              ∷ [];
      }

  -- The body of the loop.
  pub step : Config F → Row F → Option (Row F) → State F → State F
  unfolding log_signal
  step config row next s = mark row (
      trade config row.signal row next
        (record s { signals = log_signal row.time row.signal s.signals }))

  pub steps : Config F → List (Row F) → State F → State F
  steps config [] s = s
  steps config (row ∷ rows) s = steps config rows (step config row (head? rows) s)

  pub start : Config F → State F
  start config = record {
    cash = config.initial_cash;
    quantity = nought;
    entry_price = nought;
    entry_time = none;
    entry_cost = nought;
    realized_pnl_total = nought;
    signals = [];
    orders = [];
    closed_returns = [];
    closed_pnls = [];
    holding_minutes = [];
    equity_curve = [];
    peak = config.initial_cash;
  }

  abbrev count : (F → Bool) → List F → ℕ
  count p [] = 0
  count p (x ∷ xs) = if p x then ℕ.suc (count p xs) else count p xs

  abbrev last_equity : F → List (Point F) → F
  last_equity e [] = e
  last_equity e (p ∷ ps) = last_equity p.equity ps

  -- Python's `min` of the drawdowns.
  abbrev least : F → List (Point F) → F
  least d [] = d
  least d (p ∷ ps) = least (min d p.drawdown) ps

  abbrev mdd_of : List (Point F) → F
  mdd_of [] = nought
  mdd_of (p ∷ ps) = abs (least p.drawdown ps)

-- A quotient that Python gives as `math.inf` where nothing was lost.
pub data Ratio (F : Type 0) : Type 0 where
  finite : F → Ratio F
  infinite : Ratio F

pub record Metrics (F : Type 0) : Type 0 where
  pub total_return : F
  pub mdd : F
  pub win_rate : F
  pub trade_count : ℕ
  pub profit_factor : Ratio F
  pub final_equity : F
  pub realized_pnl : F

module _ {F : Type 0} ⦃num : Float F⦄ where
  abbrev pub select : (F → Bool) → List F → List F
  select p [] = []
  select p (x ∷ xs) = if p x then x ∷ select p xs else select p xs

  pub profit_factor : F → F → Ratio F
  profit_factor gross_profit gross_loss =
      if gt gross_loss nought
      then finite (gross_profit / gross_loss)
      else if gt gross_profit nought
      then infinite
      else finite nought

  pub metrics : Config F → State F → Metrics F
  unfolding profit_factor
  metrics config s =
      let wins = select (λ pnl. gt pnl nought) s.closed_pnls in
      let losses = select (λ pnl. le pnl nought) s.closed_pnls in
      let final = last_equity nought s.equity_curve in
      record {
        total_return =
            if gt config.initial_cash nought
            then (final - config.initial_cash) / config.initial_cash
            else nought;
        mdd = mdd_of s.equity_curve;
        win_rate =
            if ltb 0 (length s.closed_pnls)
            then int (length wins) / int (length s.closed_pnls)
            else nought;
        trade_count = length s.orders;
        profit_factor = profit_factor (sum wins) (abs (sum losses));
        final_equity = final;
        realized_pnl = s.realized_pnl_total;
      }

  -- `none` is the ValueError for fewer than 30 candles.
  pub run_backtest : Risk F → List (Row F) → Option (State F × Metrics F)
  unfolding config_of steps step trade mark start metrics open_position close_position
  run_backtest risk rows =
      if ltb (length rows) 30
      then none
      else let config = config_of risk in
        let s = steps config rows (start config) in some (s, metrics config s)
