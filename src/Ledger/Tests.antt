-- ===== src/Ledger/Tests.antt =====
-- Two purchases and a sale, and the theorems on them.
use Prim.Native.String.{String}
use auto_coin_bot.Common.{
  ℕ, ◌≡◌, refl, Option, none, some, List, [], ◌∷◌, ℤ, All, map, Bool-cases, inl, inr,
}
use auto_coin_bot.Common.Fixed.{fixed, fixed-IsOrdered, fixed-IsMonotone}
use auto_coin_bot.Common.Table.{lookup, insert, str_eq}
use auto_coin_bot.Ledger
use auto_coin_bot.Ledger.{Fill, Books, Side, Lot}
use auto_coin_bot.Ledger.Total.{ledger_total}
use auto_coin_bot.Ledger.Lots.{IsFill, IsBooks}
use auto_coin_bot.Ledger.Sales.{IsSale, book_sell-IsSale, lots_nonnegative}

abbrev fill : Side → ℕ → ℕ → String → Fill ℤ
fill side quantity executed_value key = record {
  market = "KRW-BTC";
  side = side;
  quantity = some (fixed.lit quantity 0);
  executed_value = some (fixed.lit executed_value 0);
  fee = some (fixed.lit 1 0);
  fee_currency = "KRW";
  fill_key = key;
}

abbrev purchases : List (Fill ℤ)
purchases = fill Side.buy 2 200 "a" ∷ fill Side.buy 4 800 "b" ∷ []

abbrev fills : List (Fill ℤ)
fills =
    fill Side.buy 2 200 "a"
    ∷ fill Side.buy 4 800 "b"
    ∷ fill Side.sell 4 1000 "c"
    ∷ fill Side.sell 3 600 "c"
    ∷ []

abbrev open_quantities : Option (Books ℤ) → List ℤ
open_quantities none = []
open_quantities (some b) = map (λ (l : Lot ℤ). l.quantity) (Ledger.lots_of "KRW-BTC" b)

-- After a sale of four, half of the second purchase is open.
open_lots :
    open_quantities (
      Ledger.compute_realized_pnl_from_ledger
        (fill Side.buy 2 200 "a" ∷ fill Side.buy 4 800 "b" ∷ fill Side.sell 4 1000 "c" ∷ []))
    ≡ fixed.lit 2 0 ∷ []
unfolding Ledger.compute_realized_pnl_from_ledger Ledger.book_all Ledger.book Ledger.match_lots
    Ledger.book_sell Ledger.by_side Ledger.take_lot Ledger.empty_books lookup insert
open_lots = refl

fills-IsFill : All IsFill fills
fills-IsFill = (
  record { value = refl; fee = refl },
  (
    record { value = refl; fee = refl },
    (record { value = refl; fee = refl }, (record { value = refl; fee = refl }, tt)),
  ),
)

ledger_total_example : (b : Books ℤ) × (Ledger.compute_realized_pnl_from_ledger fills ≡ some b)
ledger_total_example = ledger_total fixed-IsOrdered fixed-IsMonotone fills

lots_nonnegative_example :
    (b : Books ℤ) × (Ledger.compute_realized_pnl_from_ledger fills ≡ some b) × IsBooks b
lots_nonnegative_example = lots_nonnegative fixed-IsOrdered fixed-IsMonotone fills fills-IsFill

abbrev bought : Books ℤ
bought = record (Ledger.empty_books) {
  lots =
      (
        "KRW-BTC",
        record { quantity = fixed.lit 2 0; cost = fixed.lit 200 0; fee = fixed.lit 1 0 } ∷ [],
      )
      ∷ [];
}

bought-IsBooks : IsBooks bought
unfolding lookup
bought-IsBooks market = elim (Bool-cases (str_eq "KRW-BTC" market)) [
  | inl e ↦ rw e (record { quantity = refl; cost = refl; fee = refl }, tt)
  | inr e ↦ rw e tt
]

book_sell-IsSale_example :
    (b' : Books ℤ) × (Ledger.book_sell (fill Side.sell 1 150 "c") bought ≡ some b')
    × IsSale (fill Side.sell 1 150 "c") bought b'
    × IsBooks b'
book_sell-IsSale_example =
    book_sell-IsSale fixed-IsOrdered fixed-IsMonotone (fill Side.sell 1 150 "c") bought
      bought-IsBooks
