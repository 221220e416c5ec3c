-- ===== src/Capital/Rows.antt =====
-- The rows and the answers that app/capital_snapshot.py reads, and what a single one is worth.
use Prim.Native.String.{String}
use auto_coin_bot.Common.{
  ℕ, Bool, true, false, not, ◌&&◌, ◌||◌, Option, none, some, List, [], ◌∷◌, if◌then◌else◌,
  get_or_else, ◌==◌, any,
}
use auto_coin_bot.Common.Float.{Float, ◌+◌, ◌*◌, gt, nought, max, float, truthy, or_else}
use auto_coin_bot.Common.Table.{str_eq, str_mem, lookup}
use auto_coin_bot.Slots.{Slot}

-- A value of an exchange's answer. A text that is not empty comes with the number that it spells.
pub data Value (F : Type 0) : Type 0 where
  missing : Value F
  number : F → Value F
  text : Option F → Value F

pub record Order (F : Type 0) : Type 0 where
  pub uuid : String  -- a missing text is empty
  pub identifier : String
  pub client_order_id : String
  pub side : String  -- in lower case
  pub remaining_fee : Value F
  pub reserved_fee : Value F
  pub locked : Value F
  pub amount_krw : Value F
  pub price : Value F
  pub remaining_volume : Value F
  pub volume : Value F

pub record Position (F : Type 0) : Type 0 where
  pub market : String
  pub symbol : String  -- `_market_symbol` of the market, or empty
  pub current_value_krw : Option F
  pub current_price : Option F
  pub entry_price : Option F
  pub entry_volume : Option F

pub record Holding (F : Type 0) : Type 0 where
  pub balance : Option F
  pub locked : Option F

-- A row of an order that is not settled.
pub record OrderRow : Type 0 where
  pub order_uuid : String
  pub request_id : String

pub record Inputs (F : Type 0) : Type 0 where
  pub max_total_exposure_krw : Option F
  pub cash_reserve_pct : F
  pub positions : List (Position F)
  pub reservations : List (Option F)  -- the amounts
  pub db_orders : List OrderRow
  pub slots : List (Slot F)
  pub markets : List String  -- `_open_order_markets`
  pub balances : Option (List (String × Holding F))  -- none if the request raises
  pub open_orders : String → Option (List (Order F))  -- likewise

pub data Blocker : Type 0 where
  exchange_balance_unavailable insufficient_krw_balance remaining_exposure_too_small : Blocker
  cash_reserve_required balance_mismatch open_order_mismatch : Blocker

pub record Snapshot (F : Type 0) : Type 0 where
  pub snapshot_error : Bool
  pub blockers : List Blocker
  pub max_total_exposure_krw : F
  pub available_krw_balance : Option F
  pub cash_reserve_krw : F
  pub db_open_position_value_krw : F
  pub exchange_position_value_krw : F
  pub pending_buy_reserved_krw : F
  pub pending_exchange_buy_order_krw : F
  pub remaining_exposure_krw : F
  pub available_budget_krw : F
  pub balance_mismatch_detected : Bool
  pub open_order_mismatch_detected : Bool

-- The name under which an order is kept: its own, or else the market and a number.
pub data OrderId : Type 0 where
  named : String → OrderId
  numbered : String → ℕ → OrderId

abbrev pub same_id : OrderId → OrderId → Bool
same_id (named a) (named b) = str_eq a b
same_id (named a) (numbered m k) = false
same_id (numbered m k) (named b) = false
same_id (numbered m k) (numbered n l) = str_eq m n && (k == l)

pub record Found (F : Type 0) : Type 0 where
  pub seen_order_ids : List OrderId
  pub exchange_orders : List (Order F)

-- `a or b` of two texts.
abbrev pub or_text : String → String → String
or_text a b = if str_eq a "" then b else a

abbrev pub row_id : OrderRow → String
row_id r = or_text r.order_uuid r.request_id

-- Whether two lists differ as sets.
abbrev pub differ : List String → List String → Bool
differ xs ys = any (λ x. not (str_mem x ys)) xs || any (λ y. not (str_mem y xs)) ys

abbrev pub list_if : Bool → Blocker → List Blocker
list_if test b = if test then b ∷ [] else []

module _ {F : Type 0} ⦃num : Float F⦄ where
  abbrev pub is_truthy : Value F → Bool
  is_truthy missing = false
  is_truthy (number x) = truthy x
  is_truthy (text o) = true

  -- `a or b`
  abbrev pub or_value : Value F → Value F → Value F
  or_value v w = if is_truthy v then v else w

  -- `float(value)`, if it does not raise.
  abbrev pub reading : Value F → Option F
  reading missing = none
  reading (number x) = some x
  reading (text o) = o

  abbrev pub times : Option F → Option F → F
  times (some price) (some volume) = max (price * volume) nought
  times (some price) none = nought
  times none o = nought

  unfoldable pub order_krw : Order F → F
  order_krw o =
      let explicit =
        get_or_else
          (reading
            (or_value o.remaining_fee (or_value o.reserved_fee (or_value o.locked o.amount_krw))))
          nought in
      if gt explicit nought
      then explicit
      else times (reading (or_value o.price (number nought)))
          (reading (or_value (or_value o.remaining_volume o.volume) (number nought)))

  abbrev pub is_buy_order : Order F → Bool
  is_buy_order o = str_mem o.side ("bid" ∷ "buy" ∷ [])

  abbrev pub price_of : Position F → F
  price_of p = or_else (float p.current_price) (float p.entry_price)

  unfoldable pub position_value : Position F → F
  position_value p =
      if gt (float p.current_value_krw) nought
      then float p.current_value_krw
      else price_of p * float p.entry_volume

  abbrev pub amount_of : Option (Holding F) → F
  amount_of none = nought
  amount_of (some h) = float h.balance + float h.locked

  abbrev pub available_of : Option (Holding F) → F
  available_of none = nought
  available_of (some h) = float h.balance

  abbrev pub balance_total : Option (List (String × Holding F)) → String → F
  balance_total none currency = nought
  balance_total (some balances) currency = amount_of (lookup currency balances)

  abbrev pub krw_of : Option (List (String × Holding F)) → Option F
  krw_of none = none
  krw_of (some balances) = some (available_of (lookup "KRW" balances))

  abbrev pub order_text : Order F → String
  order_text o = or_text o.uuid (or_text o.identifier o.client_order_id)

  abbrev pub order_id : String → ℕ → Order F → OrderId
  order_id market k o = if str_eq (order_text o) "" then numbered market k else named (order_text o)
