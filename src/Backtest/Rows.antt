-- ===== src/Backtest/Rows.antt =====
-- The rows, the settings, the orders and the state of a backtest of app/backtest.py.
use auto_coin_bot.Common.{ℕ, Option, none, some, List, [], ◌∷◌, ◌++◌}

pub data Signal : Type 0 where
  buy sell hold : Signal

pub record Row (F : Type 0) : Type 0 where
  pub time : ℕ
  pub open_price : F
  pub close : F
  pub signal : Signal

-- The values that the caller gives, and those that the run uses.
pub record Risk (F : Type 0) : Type 0 where
  pub initial_cash : Option F
  pub initial_balance_krw : Option F
  pub position_size : Option F
  pub fee_rate : Option F
  pub slippage_rate : Option F

pub record Config (F : Type 0) : Type 0 where
  pub initial_cash : F
  pub position_size : F
  pub fee_rate : F
  pub slippage_rate : F

pub data Side : Type 0 where
  buy_side sell_side : Side

pub record Order (F : Type 0) : Type 0 where
  pub time : ℕ
  pub side : Side
  pub price : F
  pub quantity : F
  pub amount_krw : F
  pub fee : F
  pub pnl : Option F
  pub signal_time : ℕ

pub record Point (F : Type 0) : Type 0 where
  pub time : ℕ
  pub equity : F
  pub cash_krw : F
  pub btc_quantity : F
  pub price : F
  pub drawdown : F

pub record State (F : Type 0) : Type 0 where
  pub cash : F
  pub quantity : F
  pub entry_price : F
  pub entry_time : Option ℕ
  pub entry_cost : F
  pub realized_pnl_total : F
  pub signals : List (ℕ × Signal)
  pub orders : List (Order F)
  pub closed_returns : List F
  pub closed_pnls : List F
  pub holding_minutes : List F
  pub equity_curve : List (Point F)
  pub peak : F

unfoldable pub log_signal : ℕ → Signal → List (ℕ × Signal) → List (ℕ × Signal)
log_signal time hold signals = signals
log_signal time s signals = signals ++ (time, s) ∷ []

abbrev pub head? {ℓ} : {A : Type ℓ} → List A → Option A
head? [] = none
head? (a ∷ rest) = some a
