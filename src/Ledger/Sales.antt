-- ===== src/Ledger/Sales.antt =====
-- What a sale does to the books, and what the books are after any list of fills.
use Prim.Native.String.{String}
use mathlib.Core.Path.{subst}
use auto_coin_bot.Common.{
  suc, ◌≡◌, refl, sym, ap, ◌∙◌, false, some, List, [], ◌∷◌, ◌++◌, Bool-cases, inl, inr, ◌⊎◌, length,
  All, if◌then◌else◌,
}
use auto_coin_bot.Common.Float.{Float, IsOrdered, IsMonotone, le, gt, nought, float}
use auto_coin_bot.Common.Table.{str_eq, str_eq_refl, lookup}
use auto_coin_bot.Ledger
use auto_coin_bot.Ledger.{Lot, Matching, Fill, Books, Side, Trade}
use auto_coin_bot.Ledger.Total.{match_lots-total, match_lots-stops}
use auto_coin_bot.Ledger.Drains.{Drains, DrainsTo, match_lots-DrainsTo}
use auto_coin_bot.Ledger.Lots.{
  IsUsed, IsLot, IsFill, IsBooks, match_lots-IsSold, insert-IsBooks, lots_of-insert,
  positive_quantity, book_buy-IsBooks,
}

module _ {F : Type 0} ⦃num : Float F⦄ where
  -- What the sale `r` does to the books `b`.
  pub record IsSale (r : Fill F) (b b' : Books F) : Type 0 where
    pub used : IsUsed (Ledger.lots_of r.market b) (Ledger.lots_of r.market b')
    pub others :
        (other : String)
        → str_eq r.market other ≡ false
        → Ledger.lots_of other b' ≡ Ledger.lots_of other b
    pub trade : Trade F
    pub recorded : b'.realized_trades ≡ b.realized_trades ++ trade ∷ []
    pub drained :
        Drains
          (float r.quantity)
          nought
          nought
          (Ledger.lots_of r.market b)
          trade.unpaired_quantity
          trade.basis_before_fee
          trade.allocated_buy_fee
          (Ledger.lots_of r.market b')
    pub sold_out : (gt trade.unpaired_quantity nought ≡ false) ⊎ (Ledger.lots_of r.market b' ≡ [])

module _ {F : Type 0} ⦃num : Float F⦄ (ordered : IsOrdered F) (monotone : IsMonotone F) where
  lots_of-sale :
      (r : Fill F) (m : Matching F) (b : Books F) (j : String)
      → Ledger.lots_of j (Ledger.book_sale r m b)
        ≡ (if str_eq r.market j then m.lots else Ledger.lots_of j b)
  unfolding Ledger.book_sale
  lots_of-sale r m b j = lots_of-insert ordered monotone r.market j m.lots b.lots

  lots_of-sale_self :
      (r : Fill F) (m : Matching F) (b : Books F)
      → Ledger.lots_of r.market (Ledger.book_sale r m b) ≡ m.lots
  lots_of-sale_self r m b = lots_of-sale r m b r.market ∙ rw (str_eq_refl r.market) refl

  recorded_sale :
      (r : Fill F) (m : Matching F) (b : Books F)
      → (t : Trade F) × ((Ledger.book_sale r m b).realized_trades ≡ b.realized_trades ++ t ∷ [])
        × (t.unpaired_quantity ≡ m.remaining)
        × (t.basis_before_fee ≡ m.basis)
        × (t.allocated_buy_fee ≡ m.buy_fee)
  unfolding Ledger.book_sale
  recorded_sale r m b = (_, refl, refl, refl, refl)

  book_sale-IsBooks :
      (r : Fill F) (m : Matching F) (b : Books F)
      → All IsLot m.lots
      → IsBooks b
      → IsBooks (Ledger.book_sale r m b)
  unfolding Ledger.book_sale
  book_sale-IsBooks r m b s inv = insert-IsBooks ordered monotone r.market m.lots b s inv

  book_sale-IsSale :
      (r : Fill F) (m : Matching F) (b : Books F)
      → IsUsed (Ledger.lots_of r.market b) m.lots
      → DrainsTo (Ledger.start (float r.quantity) (Ledger.lots_of r.market b)) m
      → (gt m.remaining nought ≡ false) ⊎ (m.lots ≡ [])
      → IsSale r b (Ledger.book_sale r m b)
  book_sale-IsSale r m b u d stop =
      let (t, e, f, cost, fee) = recorded_sale r m b in
      let lots = Ledger.lots_of r.market b in
      let quantity = float r.quantity in
      record {
        used = subst (IsUsed (Ledger.lots_of r.market b)) (sym (lots_of-sale_self r m b)) u;
        others = λ other h. lots_of-sale r m b other ∙ rw h refl;
        trade = t;
        recorded = e;
        drained =
            subst
              (Drains quantity nought nought lots t.unpaired_quantity t.basis_before_fee
                t.allocated_buy_fee)
              (sym (lots_of-sale_self r m b)) (rw (f, cost, fee) d);
        sold_out = elim stop [
          | inl g ↦ inl (ap (λ x. gt x nought) f ∙ g)
          | inr g ↦ inr (lots_of-sale_self r m b ∙ g)
        ];
      }

  -- A sale from lots that are not negative succeeds. It takes its quantity out of the market's lots from
  -- the oldest on, from each the least of what is still to be sold and what the lot has, until all is
  -- sold or no lot is left; a lot of which next to nothing is left goes, and another keeps what it did
  -- not give of its quantity, cost and fee. Newer lots and other markets stay as they were. It records
  -- one trade, with the costs and the fees of what the lots gave, and what was left unsold, which is
  -- above 0 only if the market has no lot left; and again no lot is negative.
  pub book_sell-IsSale :
      (r : Fill F) (b : Books F)
      → IsBooks b
      → (b' : Books F) × (Ledger.book_sell r b ≡ some b') × IsSale r b b' × IsBooks b'
  unfolding Ledger.book_sell
  book_sell-IsSale r b inv =
      let lots = Ledger.lots_of r.market b in
      let start = Ledger.start (float r.quantity) lots in
      let fuel = suc (suc (length lots)) in
      let (m, e) = match_lots-total ordered monotone lots start refl in
      let (s, u) =
        match_lots-IsSold ordered monotone (float r.quantity) lots m fuel (inv r.market) e in
      (
        Ledger.book_sale r m b,
        ap (Ledger.sale_of r b) e,
        book_sale-IsSale r m b u (match_lots-DrainsTo ordered monotone fuel start m e)
            (match_lots-stops ordered monotone fuel start m e),
        book_sale-IsBooks r m b s inv,
      )

  open_row-lots :
      (r : Fill F) (b : Books F) (j : String)
      → Ledger.lots_of j (Ledger.open_row r b) ≡ Ledger.lots_of j b
  unfolding Ledger.open_row
  open_row-lots r b j = refl

  open_row-IsBooks : (r : Fill F) (b : Books F) → IsBooks b → IsBooks (Ledger.open_row r b)
  open_row-IsBooks r b inv j = subst (All IsLot) (sym (open_row-lots r b j)) (inv j)

  by_side-IsBooks :
      (side : Side) (r : Fill F) (b : Books F)
      → IsFill r
      → le (float r.quantity) nought ≡ false
      → IsBooks b
      → (b' : Books F) × (Ledger.by_side side r b ≡ some b') × IsBooks b'
  unfolding Ledger.by_side
  by_side-IsBooks Side.buy r b s q inv = (
    _,
    refl,
    book_buy-IsBooks ordered monotone r b s (positive_quantity ordered monotone r q) inv,
  )
  by_side-IsBooks Side.sell r b s q inv = let (b', e, _, k) = book_sell-IsSale r b inv in (b', e, k)
  by_side-IsBooks Side.unknown r b s q inv = (_, refl, inv)

  book-IsBooks :
      (r : Fill F) (b : Books F)
      → IsFill r
      → IsBooks b
      → (b' : Books F) × (Ledger.book r b ≡ some b') × IsBooks b'
  unfolding Ledger.book
  book-IsBooks r b s inv = elim (Bool-cases (le (float r.quantity) nought)) [
    | inl h ↦ rw h (_, refl, open_row-IsBooks r b inv)
    | inr h ↦ rw h (by_side-IsBooks r.side r (Ledger.open_row r b) s h (open_row-IsBooks r b inv))
  ]

  book_all-IsBooks :
      (rows : List (Fill F)) (b : Books F)
      → All IsFill rows
      → IsBooks b
      → (b' : Books F) × (Ledger.book_all rows b ≡ some b') × IsBooks b'
  unfolding Ledger.book_all
  book_all-IsBooks [] b _ inv = (b, refl, inv)
  book_all-IsBooks (r ∷ rows) b (s, ss) inv =
      let (b1, e, k) = book-IsBooks r b s inv in
      let (b2, f, l) = book_all-IsBooks rows b1 ss k in
      (b2, ap (Ledger.and_then (Ledger.book_all rows)) e ∙ f, l)

  -- For fills whose values and fees are not negative, in any order and with sales of more than was
  -- bought, the open lots of every market end with no quantity, cost or fee below 0.
  pub lots_nonnegative :
      (rows : List (Fill F))
      → All IsFill rows
      → (b : Books F) × (Ledger.compute_realized_pnl_from_ledger rows ≡ some b) × IsBooks b
  unfolding Ledger.compute_realized_pnl_from_ledger Ledger.empty_books lookup
  lots_nonnegative rows s = book_all-IsBooks rows Ledger.empty_books s (λ _. tt)
