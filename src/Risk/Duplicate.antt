-- ===== src/Risk/Duplicate.antt =====
-- `duplicate_order_exists`: its two queries on `live_order_logs`.
use Prim.Native.String.{String}
use auto_coin_bot.Common.{
  ℕ, Bool, true, false, not, ◌&&◌, Option, none, some, List, [], ◌∷◌, if◌then◌else◌, any, ◌==◌,
}
use auto_coin_bot.Common.Table.{str_eq}
use auto_coin_bot.Risk
use auto_coin_bot.Risk.{Code}

pub data LogStatus : Type 0 where
  previewed submitted waiting partially_filled filled canceled failed blocked : LogStatus

pub record LogRow : Type 0 where
  pub request_id : String
  pub exchange : String
  pub market : String
  pub side : String
  pub session_id : Option ℕ
  pub candidate_strategy_id : Option ℕ
  pub candle_time_utc : Option ℕ
  pub status : LogStatus

abbrev pub is_previewed : LogStatus → Bool
is_previewed previewed = true
is_previewed _ = false

-- The statuses of the second query: all but BLOCKED.
abbrev pub counts_for_candle : LogStatus → Bool
counts_for_candle blocked = false
counts_for_candle _ = true

abbrev pub same_id : Option ℕ → Option ℕ → Bool
same_id none b = false
same_id (some a) none = false
same_id (some a) (some b) = a == b

-- `(? IS NULL OR column = ?)`
abbrev pub matches : Option ℕ → Option ℕ → Bool
matches none column = true
matches (some a) column = same_id (some a) column

pub record Query : Type 0 where
  pub exchange : String
  pub market : String
  pub side : String
  pub request_id : String
  pub session_id : Option ℕ
  pub candidate_strategy_id : Option ℕ
  pub candle_time_utc : Option ℕ

-- The first row with the request's id; a row that is only PREVIEWED is the order itself.
pub duplicate_request : String → List LogRow → Bool
duplicate_request id [] = false
duplicate_request id (r ∷ rows) =
    if str_eq r.request_id id then not (is_previewed r.status) else duplicate_request id rows

pub same_candle : Query → LogRow → Bool
same_candle q r =
    str_eq r.exchange q.exchange
    && str_eq r.market q.market
    && str_eq r.side q.side
    && not (str_eq r.request_id q.request_id)
    && same_id q.candle_time_utc r.candle_time_utc
    && matches q.session_id r.session_id
    && matches q.candidate_strategy_id r.candidate_strategy_id
    && counts_for_candle r.status

unfoldable pub duplicate_order_exists : Query → List LogRow → Option Code
unfolding duplicate_request same_candle
duplicate_order_exists q rows =
    if not (str_eq q.request_id "") && duplicate_request q.request_id rows
    then some Risk.duplicate_request
    else if any (same_candle q) rows
    then some Risk.duplicate_candle
    else none
