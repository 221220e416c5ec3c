-- ===== src/Ledger/Drains.antt =====
-- How much of a sale each lot gives.
use mathlib.Core.Path.{subst}
use auto_coin_bot.Common.{
  zero, suc, ◌≡◌, sym, ◌∙◌, ℕ, true, false, some, List, [], ◌∷◌, Bool-cases, inl, inr, List-cases,
  some-injective, if◌then◌else◌,
}
use auto_coin_bot.Common.Float.{
  Float, IsOrdered, IsMonotone, ◌+◌, ◌-◌, ◌*◌, ◌/◌, le, gt, nought, min,
}
use auto_coin_bot.Ledger
use auto_coin_bot.Ledger.{Lot, Matching}
use auto_coin_bot.Ledger.Total.{match_lots-done, match_lots-empty, match_lots-round, out_of_fuel}

module _ {F : Type 0} ⦃num : Float F⦄ where
  -- What a lot gives to a sale of `quantity`.
  abbrev given : F → Lot F → F
  given quantity lot = min quantity lot.quantity

  abbrev share : F → Lot F → F
  share quantity lot = if gt lot.quantity nought then given quantity lot / lot.quantity else nought

  -- A sale of `quantity` whose cost and fee are `cost` and `fee` so far takes the lots `lots` to the last
  -- list, and leaves the quantity before it unsold, for the cost and the fee before that.
  pub data Drains
      : (quantity cost fee : F) (lots : List (Lot F)) (unsold cost' fee' : F) (lots' : List (Lot F))
        → Type 0 where
    enough :
        {quantity cost fee : F} {lots : List (Lot F)}
        → gt quantity nought ≡ false
        → Drains quantity cost fee lots quantity cost fee lots
    short : {quantity cost fee : F} → Drains quantity cost fee [] quantity cost fee []
    -- Next to nothing is left of the oldest lot, and it goes.
    whole :
        {quantity cost fee unsold cost' fee' : F} {lot : Lot F} {rest lots' : List (Lot F)}
        → gt quantity nought ≡ true
        → le (lot.quantity - given quantity lot) Ledger.tiny ≡ true
        → Drains
            (quantity - given quantity lot)
            (cost + lot.cost * share quantity lot)
            (fee + lot.fee * share quantity lot)
            rest
            unsold
            cost'
            fee'
            lots'
        → Drains quantity cost fee (lot ∷ rest) unsold cost' fee' lots'
    -- The oldest lot keeps what it did not give.
    part :
        {quantity cost fee unsold cost' fee' : F} {lot : Lot F} {rest lots' : List (Lot F)}
        → gt quantity nought ≡ true
        → le (lot.quantity - given quantity lot) Ledger.tiny ≡ false
        → Drains
            (quantity - given quantity lot)
            (cost + lot.cost * share quantity lot)
            (fee + lot.fee * share quantity lot)
            (record {
              quantity = lot.quantity - given quantity lot;
              cost = lot.cost - lot.cost * share quantity lot;
              fee = lot.fee - lot.fee * share quantity lot;
            }
              ∷ rest)
            unsold
            cost'
            fee'
            lots'
        → Drains quantity cost fee (lot ∷ rest) unsold cost' fee' lots'

  -- From one state of the loop to another.
  abbrev pub DrainsTo : Matching F → Matching F → Type 0
  DrainsTo m r = Drains m.remaining m.basis m.buy_fee m.lots r.remaining r.basis r.buy_fee r.lots

module _ {F : Type 0} ⦃num : Float F⦄ (ordered : IsOrdered F) (monotone : IsMonotone F) where
  take_lot-DrainsTo :
      (m r : Matching F) (lot : Lot F) (rest : List (Lot F))
      → gt m.remaining nought ≡ true
      → DrainsTo (Ledger.take_lot lot rest m) r
      → Drains m.remaining m.basis m.buy_fee (lot ∷ rest) r.remaining r.basis r.buy_fee r.lots
  unfolding Ledger.take_lot Ledger.reduced_lot Ledger.ratio_of
  take_lot-DrainsTo m r lot rest g =
      elim (Bool-cases (le (lot.quantity - given m.remaining lot) Ledger.tiny)) [
        | inl e ↦ rw e λ d. whole g e d
        | inr e ↦ rw e λ d. part g e d
      ]

  still : (m r : Matching F) → gt m.remaining nought ≡ false → m ≡ r → DrainsTo m r
  still m r g e = subst (λ x. DrainsTo m x) e (enough g)

  emptied : (m r : Matching F) → m.lots ≡ [] → m ≡ r → DrainsTo m r
  emptied m r e k =
      subst (λ x. DrainsTo m x) k
        (subst (λ ls. Drains m.remaining m.basis m.buy_fee ls m.remaining m.basis m.buy_fee ls)
          (sym e) short)

  -- The loop of a sale drains the lots.
  pub match_lots-DrainsTo :
      (n : ℕ) (m r : Matching F) → Ledger.match_lots n m ≡ some r → DrainsTo m r
  match_lots-DrainsTo zero m r h = absurd (out_of_fuel ordered monotone m r h)
  match_lots-DrainsTo (suc n) m r h = elim (Bool-cases (gt m.remaining nought)) [
    | inr g ↦ still m r g (some-injective (sym (match_lots-done ordered monotone n m g) ∙ h))
    | inl g ↦ elim (List-cases m.lots) [
      | inl e ↦ emptied m r e (some-injective (sym (match_lots-empty ordered monotone n m e) ∙ h))
      | inr (lot, rest, e) ↦
          subst (λ ls. Drains m.remaining m.basis m.buy_fee ls r.remaining r.basis r.buy_fee r.lots)
            (sym e)
            (take_lot-DrainsTo m r lot rest g (
              match_lots-DrainsTo n (Ledger.take_lot lot rest m) r
                (sym (match_lots-round ordered monotone n m lot rest g e) ∙ h)))
    ]
  ]
