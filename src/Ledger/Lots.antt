-- ===== src/Ledger/Lots.antt =====
-- The lots that the fills leave open: they are never negative, and they are used in order.
use Prim.Native.String.{String}
use mathlib.Core.Path.{subst}
use auto_coin_bot.Common.{
  ℕ, ◌≡◌, refl, Bool, true, false, some, List, [], ◌∷◌, Bool-cases, inl, inr, All, All-append,
  arith, get_or_else, if◌then◌else◌,
}
use auto_coin_bot.Common.Float.{Float, IsOrdered, IsMonotone, le, gt, int, nought, min, float}
use auto_coin_bot.Common.Table.{str_eq, lookup, insert, lookup-insert}
use auto_coin_bot.Ledger
use auto_coin_bot.Ledger.{Lot, Matching, Fill, Books, Side}
use auto_coin_bot.Ledger.Total.{match_lots-keeps}

-- The lots after a sale, for the lots before it: some of the oldest are gone, of one at most a part
-- is left, and the newer ones stand as they were.
pub data IsUsed {F : Type 0} ⦃num : Float F⦄ : List (Lot F) → List (Lot F) → Type 0 where
  kept : {lots : List (Lot F)} → IsUsed lots lots
  reduced :
      {lot lot' : Lot F} {rest : List (Lot F)}
      → le lot'.quantity lot.quantity ≡ true
      → IsUsed (lot ∷ rest) (lot' ∷ rest)
  gone : {lot : Lot F} {rest rest' : List (Lot F)} → IsUsed rest rest' → IsUsed (lot ∷ rest) rest'

module _ {F : Type 0} ⦃num : Float F⦄ where
  pub record IsLot (lot : Lot F) : Type 0 where
    pub quantity : le nought lot.quantity ≡ true
    pub cost : le nought lot.cost ≡ true
    pub fee : le nought lot.fee ≡ true

  -- A fill whose value and fee, in any currency, are not negative.
  pub record IsFill (r : Fill F) : Type 0 where
    pub value : le nought (float r.executed_value) ≡ true
    pub fee : le nought (float r.fee) ≡ true

  abbrev pub IsBooks : Books F → Type 0
  IsBooks b = (market : String) → All IsLot (Ledger.lots_of market b)

module _ {F : Type 0} ⦃num : Float F⦄ (ordered : IsOrdered F) (monotone : IsMonotone F) where
  used_le : (m q : F) → le (min m q) q ≡ true
  used_le m q = ground (arith, monotone.le_refl q, monotone.not-lt-le q m)

  ratio_le : (m : F) (lot : Lot F) → le (Ledger.ratio_of (min m lot.quantity) lot) (int 1) ≡ true
  unfolding Ledger.ratio_of
  ratio_le m lot = elim (Bool-cases (gt lot.quantity nought)) [
    | inl g ↦
        rw g (monotone.div_le_one (min m lot.quantity) lot.quantity g (used_le m lot.quantity))
    | inr g ↦ rw g monotone.one_nonneg
  ]

  reduced_lot-IsLot :
      (m : F) (lot : Lot F)
      → IsLot lot
      → IsLot
          (Ledger.reduced_lot (min m lot.quantity) (Ledger.ratio_of (min m lot.quantity) lot) lot)
  unfolding Ledger.reduced_lot
  reduced_lot-IsLot m lot s = record {
    quantity = monotone.sub_nonneg lot.quantity (min m lot.quantity) (used_le m lot.quantity);
    cost = monotone.sub_nonneg lot.cost _ (monotone.mul_le lot.cost _ s.cost (ratio_le m lot));
    fee = monotone.sub_nonneg lot.fee _ (monotone.mul_le lot.fee _ s.fee (ratio_le m lot));
  }

  -- Its lots after a round are the rest, with what is left of the oldest lot or without it.
  after_round :
      (P : List (Lot F) → Type 0) (lot : Lot F) (rest : List (Lot F)) (m : Matching F)
      → P rest
      → P (
          Ledger.reduced_lot
            (min m.remaining lot.quantity)
            (Ledger.ratio_of (min m.remaining lot.quantity) lot)
            lot
          ∷ rest)
      → P (Ledger.take_lot lot rest m).lots
  unfolding Ledger.take_lot
  after_round P lot rest m p q =
      let used = min m.remaining lot.quantity in
      let left = Ledger.reduced_lot used (Ledger.ratio_of used lot) lot in
      elim (Bool-cases (le left.quantity Ledger.tiny)) [ inl e ↦ rw e p | inr e ↦ rw e q ]

  IsSold : List (Lot F) → List (Lot F) → Type 0
  IsSold before after = All IsLot after × IsUsed before after

  IsUsed-gone :
      {before rest : List (Lot F)} {lot : Lot F} → IsUsed before (lot ∷ rest) → IsUsed before rest
  IsUsed-gone kept = gone kept
  IsUsed-gone (reduced h) = gone kept
  IsUsed-gone (gone u) = gone (IsUsed-gone u)

  IsUsed-reduced :
      {before rest : List (Lot F)} {lot lot' : Lot F}
      → le lot'.quantity lot.quantity ≡ true
      → IsUsed before (lot ∷ rest)
      → IsUsed before (lot' ∷ rest)
  IsUsed-reduced k kept = reduced k
  IsUsed-reduced k (reduced h) = reduced (ordered.le_trans _ _ _ k h)
  IsUsed-reduced k (gone u) = gone (IsUsed-reduced k u)

  take_lot-IsSold :
      (before : List (Lot F)) (m : Matching F) (lot : Lot F) (rest : List (Lot F))
      → gt m.remaining nought ≡ true
      → m.lots ≡ lot ∷ rest
      → IsSold before m.lots
      → IsSold before (Ledger.take_lot lot rest m).lots
  unfolding IsSold Ledger.reduced_lot
  take_lot-IsSold before m lot rest g e p = go (subst (IsSold before) e p)
    where
      used_nonneg : IsLot lot → le nought (min m.remaining lot.quantity) ≡ true
      used_nonneg s = ground (arith, ordered.lt-le nought m.remaining g, s.quantity)

      go : IsSold before (lot ∷ rest) → IsSold before (Ledger.take_lot lot rest m).lots
      go ((s, ss), u) =
          after_round (IsSold before) lot rest m (ss, IsUsed-gone u)
            (
              (reduced_lot-IsLot m.remaining lot s, ss),
              IsUsed-reduced (monotone.sub_le lot.quantity _ (used_nonneg s)) u,
            )

  -- The loop of one sale leaves a market's lots as `IsUsed` says, none of them negative.
  pub match_lots-IsSold :
      (quantity : F) (lots : List (Lot F)) (r : Matching F) (n : ℕ)
      → All IsLot lots
      → Ledger.match_lots n (Ledger.start quantity lots) ≡ some r
      → All IsLot r.lots × IsUsed lots r.lots
  unfolding IsSold
  match_lots-IsSold quantity lots r n s h =
      match_lots-keeps ordered monotone (λ m. IsSold lots m.lots) (take_lot-IsSold lots) n
        (Ledger.start quantity lots) r (s, kept) h

  pub lots_of-insert :
      (k j : String) (lots : List (Lot F)) (table : List (String × List (Lot F)))
      → get_or_else (lookup j (insert k lots table)) []
        ≡ (if str_eq k j then lots else get_or_else (lookup j table) [])
  lots_of-insert k j lots table = rw (lookup-insert k j lots table) (choice (str_eq k j))
    where
      choice :
          (t : Bool)
          → get_or_else (if t then some lots else lookup j table) []
            ≡ (if t then lots else get_or_else (lookup j table) [])
      choice true = refl
      choice false = refl

  pub insert-IsBooks :
      (k : String) (lots : List (Lot F)) (b : Books F)
      → All IsLot lots
      → IsBooks b
      → (j : String) → All IsLot (get_or_else (lookup j (insert k lots b.lots)) [])
  insert-IsBooks k lots b s inv j = rw (lots_of-insert k j lots b.lots) (choice (str_eq k j))
    where
      choice : (t : Bool) → All IsLot (if t then lots else Ledger.lots_of j b)
      choice true = s
      choice false = inv j

  krw_fee-nonneg : (r : Fill F) → IsFill r → le nought (Ledger.krw_fee r) ≡ true
  krw_fee-nonneg r s = choice (Ledger.is_krw r)
    where
      choice : (t : Bool) → le nought (if t then float r.fee else nought) ≡ true
      choice true = s.fee
      choice false = monotone.le_refl nought

  pub positive_quantity :
      (r : Fill F) → le (float r.quantity) nought ≡ false → le nought (float r.quantity) ≡ true
  positive_quantity r h =
      ground (
        arith,
        ordered.lt-le (float r.quantity) nought,
        monotone.not-lt-le (float r.quantity) nought,
      )

  pub book_buy-IsBooks :
      (r : Fill F) (b : Books F)
      → IsFill r
      → le nought (float r.quantity) ≡ true
      → IsBooks b
      → IsBooks (Ledger.book_buy r b)
  unfolding Ledger.book_buy
  book_buy-IsBooks r b s q inv =
      insert-IsBooks r.market _ b
        (All-append IsLot (Ledger.lots_of r.market b) _ (inv r.market)
          (record { quantity = q; cost = s.value; fee = krw_fee-nonneg r s }, tt))
        inv
