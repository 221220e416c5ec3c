-- ===== src/Ledger.antt =====
-- `compute_realized_pnl_from_ledger` of app/exchange_fills_ledger.py: fills are paired first in, first
-- out, into lots for each market. The rows come sorted, as `sorted` leaves them. The trace and the
-- valuation of the open lots at the end, which change nothing, are left out.
use Prim.Native.Nat.{◌+◌ as plus}
use Prim.Native.String.{String}
use auto_coin_bot.Common.{
  ℕ, zero, suc, Bool, true, false, not, ◌&&◌, Option, none, some, List, [], ◌∷◌, ◌++◌,
  if◌then◌else◌, length, get_or_else,
}
use auto_coin_bot.Common.Float.{Float, ◌+◌, ◌-◌, ◌*◌, ◌/◌, le, gt, dec, nought, min, float}
use auto_coin_bot.Common.Table.{str_eq, str_mem, lookup, insert}
pub mod Total
pub mod Lots
pub mod Drains
pub mod Sales
mod Tests

pub data Side : Type 0 where
  buy sell unknown : Side

pub record Fill (F : Type 0) : Type 0 where
  pub market : String
  pub side : Side
  pub quantity : Option F
  pub executed_value : Option F
  pub fee : Option F
  pub fee_currency : String
  pub fill_key : String

pub record Lot (F : Type 0) : Type 0 where
  pub quantity : F
  pub cost : F
  pub fee : F

pub record MatchedLot (F : Type 0) : Type 0 where
  pub quantity : F
  pub cost_basis : F
  pub allocated_buy_fee : F

-- The variables of the loop that takes a sale out of the lots.
pub record Matching (F : Type 0) : Type 0 where
  pub remaining : F
  pub lots : List (Lot F)
  pub basis : F
  pub buy_fee : F
  pub matched : List (MatchedLot F)

pub record Trade (F : Type 0) : Type 0 where
  pub market : String
  pub executed_value : F
  pub basis_before_fee : F
  pub allocated_buy_fee : F
  pub sell_fee : F
  pub unpaired_quantity : F

pub data Warning : Type 0 where
  duplicate_fill_key_reapplied non_krw_fee_not_converted non_positive_quantity : Warning
  unknown_side_ignored sell_exceeds_open_quantity : Warning

pub record Books (F : Type 0) : Type 0 where
  pub lots : List (String × List (Lot F))
  pub gross : F
  pub buy_fee_total : F
  pub sell_fee_total : F
  pub non_krw_fee_total : F
  pub unpaired_sell_value : F
  pub realized_trades : List (Trade F)
  pub warnings : List Warning
  pub fill_keys_seen : List String
  pub buy_count : ℕ
  pub sell_count : ℕ
  pub buy_value : F
  pub sell_value : F

abbrev warn : Bool → Warning → List Warning → List Warning
warn test w ws = if test then ws ++ w ∷ [] else ws

module _ {F : Type 0} ⦃num : Float F⦄ where
  abbrev pub tiny : F
  tiny = dec 1 12

  pub matched_lot : F → F → Lot F → MatchedLot F
  matched_lot used ratio lot = record {
    quantity = used;
    cost_basis = lot.cost * ratio;
    allocated_buy_fee = lot.fee * ratio;
  }

  pub reduced_lot : F → F → Lot F → Lot F
  reduced_lot used ratio lot = record {
    quantity = lot.quantity - used;
    cost = lot.cost - lot.cost * ratio;
    fee = lot.fee - lot.fee * ratio;
  }

  pub ratio_of : F → Lot F → F
  ratio_of used lot = if gt lot.quantity nought then used / lot.quantity else nought

  -- One round: the oldest lot gives what it can, and leaves when almost nothing is left of it.
  pub take_lot : Lot F → List (Lot F) → Matching F → Matching F
  unfolding matched_lot reduced_lot ratio_of
  take_lot lot rest m =
      let used = min m.remaining lot.quantity in
      let ratio = ratio_of used lot in
      let left = reduced_lot used ratio lot in
      record {
        remaining = m.remaining - used;
        lots = if le left.quantity tiny then rest else left ∷ rest;
        basis = m.basis + lot.cost * ratio;
        buy_fee = m.buy_fee + lot.fee * ratio;
        matched = m.matched ++ matched_lot used ratio lot ∷ [];
      }

  -- A round of `while remaining > 0 and lots[market]`, for the first test and the market's lots.
  abbrev pub next_round :
      (Matching F → Option (Matching F)) → Bool → List (Lot F) → Matching F → Option (Matching F)
  next_round again false lots m = some m
  next_round again true [] m = some m
  next_round again true (lot ∷ rest) m = again (take_lot lot rest m)

  -- The loop; `none` is out of fuel.
  pub match_lots : ℕ → Matching F → Option (Matching F)
  match_lots zero m = none
  match_lots (suc fuel) m = next_round (match_lots fuel) (gt m.remaining nought) m.lots m

  abbrev pub start : F → List (Lot F) → Matching F
  start quantity lots = record {
    remaining = quantity;
    lots = lots;
    basis = nought;
    buy_fee = nought;
    matched = [];
  }

  abbrev pub lots_of : String → Books F → List (Lot F)
  lots_of market b = get_or_else (lookup market b.lots) []

  abbrev pub is_krw : Fill F → Bool
  is_krw r = str_eq r.fee_currency "KRW"

  abbrev pub krw_fee : Fill F → F
  krw_fee r = if is_krw r then float r.fee else nought

  -- What is done for every row: the key is counted, and a fee in another currency is set aside.
  pub open_row : Fill F → Books F → Books F
  open_row r b = record b {
    fill_keys_seen = r.fill_key ∷ b.fill_keys_seen;
    non_krw_fee_total = if is_krw r then b.non_krw_fee_total else b.non_krw_fee_total + float r.fee;
    warnings =
        warn (not (is_krw r)) non_krw_fee_not_converted
          (warn (str_mem r.fill_key b.fill_keys_seen) duplicate_fill_key_reapplied b.warnings);
  }

  pub book_buy : Fill F → Books F → Books F
  book_buy r b = record b {
    lots =
        insert r.market
          (lots_of r.market b
            ++ record {
              quantity = float r.quantity;
              cost = float r.executed_value;
              fee = krw_fee r;
            }
              ∷ [])
          b.lots;
    buy_fee_total = b.buy_fee_total + krw_fee r;
    buy_count = plus b.buy_count 1;
    buy_value = b.buy_value + float r.executed_value;
  }

  -- The end of a sale, for the outcome of the loop.
  pub book_sale : Fill F → Matching F → Books F → Books F
  book_sale r m b =
      let value = float r.executed_value in
      let excess = gt m.remaining tiny in
      record b {
        lots = insert r.market m.lots b.lots;
        sell_count = plus b.sell_count 1;
        sell_value = b.sell_value + value;
        unpaired_sell_value =
            if excess
            then b.unpaired_sell_value + value * (m.remaining / float r.quantity)
            else b.unpaired_sell_value;
        warnings = warn excess sell_exceeds_open_quantity b.warnings;
        sell_fee_total = b.sell_fee_total + krw_fee r;
        gross = b.gross + (value - m.basis);
        realized_trades =
            b.realized_trades
            ++ record {
              market = r.market;
              executed_value = value;
              basis_before_fee = m.basis;
              allocated_buy_fee = m.buy_fee;
              sell_fee = krw_fee r;
              unpaired_quantity = m.remaining;
            }
              ∷ [];
      }

  abbrev pub sale_of : Fill F → Books F → Option (Matching F) → Option (Books F)
  sale_of r b none = none
  sale_of r b (some m) = some (book_sale r m b)

  pub book_sell : Fill F → Books F → Option (Books F)
  unfolding match_lots book_sale
  book_sell r b =
      let lots = lots_of r.market b in
      sale_of r b (match_lots (suc (suc (length lots))) (start (float r.quantity) lots))

  pub by_side : Side → Fill F → Books F → Option (Books F)
  unfolding book_buy book_sell
  by_side buy r b = some (book_buy r b)
  by_side sell r b = book_sell r b
  by_side unknown r b = some (record b { warnings = b.warnings ++ unknown_side_ignored ∷ [] })

  abbrev pub and_then : (Books F → Option (Books F)) → Option (Books F) → Option (Books F)
  and_then rest none = none
  and_then rest (some b) = rest b

  -- The body of the loop over the rows.
  pub book : Fill F → Books F → Option (Books F)
  unfolding open_row by_side
  book r b =
      let b' = open_row r b in
      if le (float r.quantity) nought
      then some (record b' { warnings = b'.warnings ++ non_positive_quantity ∷ [] })
      else by_side r.side r b'

  pub book_all : List (Fill F) → Books F → Option (Books F)
  book_all [] b = some b
  book_all (r ∷ rows) b = and_then (book_all rows) (book r b)

  pub empty_books : Books F
  empty_books = record {
    lots = [];
    gross = nought;
    buy_fee_total = nought;
    sell_fee_total = nought;
    non_krw_fee_total = nought;
    unpaired_sell_value = nought;
    realized_trades = [];
    warnings = [];
    fill_keys_seen = [];
    buy_count = 0;
    sell_count = 0;
    buy_value = nought;
    sell_value = nought;
  }

  pub compute_realized_pnl_from_ledger : List (Fill F) → Option (Books F)
  unfolding book_all empty_books
  compute_realized_pnl_from_ledger rows = book_all rows empty_books
