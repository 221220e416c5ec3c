-- ===== src/Ledger/Total.antt =====
-- The loop that takes a sale out of the lots ends, whatever the fills are.
use mathlib.Core.Path.{subst}
use auto_coin_bot.Common.{
  zero, List-cases, some-injective, ℕ, suc, ◌≡◌, refl, sym, ap, ◌∙◌, Bool, true, false, Option,
  some, List, [], ◌∷◌, Bool-cases, inl, inr, length, ◌⊎◌,
}
use auto_coin_bot.Common.Float.{Float, IsOrdered, IsMonotone, lt, le, gt, nought, float}
use auto_coin_bot.Ledger
use auto_coin_bot.Ledger.{Lot, Matching, Fill, Books, Side}

module _ {F : Type 0} ⦃num : Float F⦄ (ordered : IsOrdered F) (monotone : IsMonotone F) where
  -- A round removes the oldest lot, or leaves nothing of the sale.
  round-progress :
      (lot : Lot F) (rest : List (Lot F)) (m : Matching F)
      → ((Ledger.take_lot lot rest m).lots ≡ rest)
        ⊎ ((Ledger.take_lot lot rest m).remaining ≡ nought)
  unfolding Ledger.take_lot Ledger.reduced_lot
  round-progress lot rest m = elim (Bool-cases (lt lot.quantity m.remaining)) [
    | inl e ↦ rw e (rw (monotone.sub_self lot.quantity) (rw (monotone.lit_nonneg 1 12) (inl refl)))
    | inr e ↦ rw e (inr (monotone.sub_self m.remaining))
  ]

  sold_out : (n : ℕ) (m : Matching F) → m.remaining ≡ nought → Ledger.match_lots (suc n) m ≡ some m
  unfolding Ledger.match_lots
  sold_out n m e = rw e (rw (ordered.lt_irrefl nought) refl)

  no_lots :
      (again : Matching F → Option (Matching F)) (t : Bool) (m : Matching F)
      → Ledger.next_round again t [] m ≡ some m
  no_lots again true m = refl
  no_lots again false m = refl

  -- What one more round does: the test fails, the lots are out, or the oldest lot is taken.
  pub match_lots-done :
      (n : ℕ) (m : Matching F)
      → gt m.remaining nought ≡ false
      → Ledger.match_lots (suc n) m ≡ some m
  unfolding Ledger.match_lots
  match_lots-done n m g = ap (λ t. Ledger.next_round (Ledger.match_lots n) t m.lots m) g

  pub match_lots-empty :
      (n : ℕ) (m : Matching F) → m.lots ≡ [] → Ledger.match_lots (suc n) m ≡ some m
  unfolding Ledger.match_lots
  match_lots-empty n m e =
      ap (λ ls. Ledger.next_round (Ledger.match_lots n) (gt m.remaining nought) ls m) e
      ∙ no_lots (Ledger.match_lots n) (gt m.remaining nought) m

  pub match_lots-round :
      (n : ℕ) (m : Matching F) (lot : Lot F) (rest : List (Lot F))
      → gt m.remaining nought ≡ true
      → m.lots ≡ lot ∷ rest
      → Ledger.match_lots (suc n) m ≡ Ledger.match_lots n (Ledger.take_lot lot rest m)
  unfolding Ledger.match_lots
  match_lots-round n m lot rest g e =
      ap (λ t. Ledger.next_round (Ledger.match_lots n) t m.lots m) g
      ∙ ap (λ ls. Ledger.next_round (Ledger.match_lots n) true ls m) e

  pub match_lots-total :
      (lots : List (Lot F)) (m : Matching F)
      → m.lots ≡ lots
      → (r : Matching F) × (Ledger.match_lots (suc (suc (length lots))) m ≡ some r)
  match_lots-total [] m e = (m, match_lots-empty 1 m e)
  match_lots-total (lot ∷ rest) m e = elim (Bool-cases (gt m.remaining nought)) [
    | inl g ↦
        rw (match_lots-round (suc (suc (length rest))) m lot rest g e)
          (elim (round-progress lot rest m) [
            | inl popped ↦ match_lots-total rest (Ledger.take_lot lot rest m) popped
            | inr done ↦ (Ledger.take_lot lot rest m, sold_out _ (Ledger.take_lot lot rest m) done)
          ])
    | inr g ↦ (m, match_lots-done _ m g)
  ]

  pub out_of_fuel : (m r : Matching F) → Ledger.match_lots zero m ≡ some r → ⊥
  unfolding Ledger.match_lots
  out_of_fuel m r h = cc h

  -- The loop ends because nothing is left to sell, or no lot is left.
  pub match_lots-stops :
      (n : ℕ) (m r : Matching F)
      → Ledger.match_lots n m ≡ some r
      → (gt r.remaining nought ≡ false) ⊎ (r.lots ≡ [])
  match_lots-stops zero m r h = absurd (out_of_fuel m r h)
  match_lots-stops (suc n) m r h = elim (Bool-cases (gt m.remaining nought)) [
    | inr g ↦ inl (
        subst (λ (x : Matching F). gt x.remaining nought ≡ false)
          (some-injective (sym (match_lots-done n m g) ∙ h)) g)
    | inl g ↦ elim (List-cases m.lots) [
      | inl e ↦ inr (
          subst (λ (x : Matching F). x.lots ≡ [])
            (some-injective (sym (match_lots-empty n m e) ∙ h)) e)
      | inr (lot, rest, e) ↦
          match_lots-stops n (Ledger.take_lot lot rest m) r
            (sym (match_lots-round n m lot rest g e) ∙ h)
    ]
  ]

  -- What every round keeps, the loop keeps.
  pub match_lots-keeps {ℓ} :
      (P : Matching F → Type ℓ)
      → ((m : Matching F) (lot : Lot F) (rest : List (Lot F))
          → gt m.remaining nought ≡ true
          → m.lots ≡ lot ∷ rest
          → P m
          → P (Ledger.take_lot lot rest m))
      → (n : ℕ) (m r : Matching F) → P m
      → Ledger.match_lots n m ≡ some r
      → P r
  match_lots-keeps P step zero m r p h = absurd (out_of_fuel m r h)
  match_lots-keeps P step (suc n) m r p h = elim (Bool-cases (gt m.remaining nought)) [
    | inr g ↦ subst P (some-injective (sym (match_lots-done n m g) ∙ h)) p
    | inl g ↦ elim (List-cases m.lots) [
      | inl e ↦ subst P (some-injective (sym (match_lots-empty n m e) ∙ h)) p
      | inr (lot, rest, e) ↦
          match_lots-keeps P step n (Ledger.take_lot lot rest m) r (step m lot rest g e p)
            (sym (match_lots-round n m lot rest g e) ∙ h)
    ]
  ]

  book_sell-total : (r : Fill F) (b : Books F) → (b' : Books F) × (Ledger.book_sell r b ≡ some b')
  unfolding Ledger.book_sell
  book_sell-total r b =
      let lots = Ledger.lots_of r.market b in
      let (m, e) = match_lots-total lots (Ledger.start (float r.quantity) lots) refl in
      (Ledger.book_sale r m b, ap (Ledger.sale_of r b) e)

  by_side-total :
      (side : Side) (r : Fill F) (b : Books F)
      → (b' : Books F) × (Ledger.by_side side r b ≡ some b')
  unfolding Ledger.by_side
  by_side-total Side.buy r b = (Ledger.book_buy r b, refl)
  by_side-total Side.sell r b = book_sell-total r b
  by_side-total Side.unknown r b = (_, refl)

  book-total : (r : Fill F) (b : Books F) → (b' : Books F) × (Ledger.book r b ≡ some b')
  unfolding Ledger.book
  book-total r b = elim (Bool-cases (le (float r.quantity) nought)) [
    | inl h ↦ rw h (_, refl)
    | inr h ↦ rw h (by_side-total r.side r (Ledger.open_row r b))
  ]

  book_all-total :
      (rows : List (Fill F)) (b : Books F) → (b' : Books F) × (Ledger.book_all rows b ≡ some b')
  unfolding Ledger.book_all
  book_all-total [] b = (b, refl)
  book_all-total (r ∷ rows) b =
      let (b1, e) = book-total r b in
      let (b2, f) = book_all-total rows b1 in
      (b2, ap (Ledger.and_then (Ledger.book_all rows)) e ∙ f)

  -- The pairing of sales with lots ends for every list of fills, well-formed or not: as many rounds as
  -- the market has lots, and two, are enough for the loop of each sale.
  pub ledger_total :
      (rows : List (Fill F))
      → (b : Books F) × (Ledger.compute_realized_pnl_from_ledger rows ≡ some b)
  unfolding Ledger.compute_realized_pnl_from_ledger
  ledger_total rows = book_all-total rows Ledger.empty_books
