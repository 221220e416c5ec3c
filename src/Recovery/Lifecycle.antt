-- ===== src/Recovery/Lifecycle.antt =====
-- The life of a position on sale, as a transition system, and how the reconciliation of an exit order
-- implements it.
use Prim.Native.String.{String}
use auto_coin_bot.Common.{
  ℕ, ◌≡◌, ◌⊎◌, true, false, Option, none, List, [], ◌∷◌, Bool-cases, inl, inr, ◌==◌, update_where,
}
use auto_coin_bot.Common.Float.{Float, ◌-◌, le, nought, max}
use auto_coin_bot.Slots.{Status}
use auto_coin_bot.Exit.Rows
use auto_coin_bot.Exit.Rows.{Position, Store, OrderStatus}
use auto_coin_bot.Exit.Store
use auto_coin_bot.Recovery.{tolerance, has_fill}

module _ {F : Type 0} ⦃num : Float F⦄ where
  abbrev left : Position F → F → F
  left p sold = max (p.entry_volume - sold) nought

  -- One step in the life of a position that is on sale, when the exchange says that its order has the
  -- status `said` and that `most` of it is newly filled. A step changes no other column than those that
  -- it names.
  pub data Step (said : OrderStatus) (most : F) (p : Position F) : Position F → Type 0 where
    -- The order is filled in part, and none of it is this position's.
    wait :
        (uuid : Option String)
        → has_fill said ≡ true
        → Step said most p (record p { status = Status.closing; exit_order_uuid = uuid })
    -- The order was canceled.
    reopen :
        Rows.is_canceled said ≡ true
        → Step said most p (record p { status = Status.opened; exit_order_uuid = none })
    -- A part was sold, of what is newly filled. What is left is what there was without it, no more than
    -- before, and worth another order.
    sell :
        (status : Status) (uuid : Option String) (sold amount price pnl : F)
        → has_fill said ≡ true
        → (status ≡ Status.opened) ⊎ (status ≡ Status.closing)
        → le nought sold ≡ true
        → le sold most ≡ true
        → le nought (left p sold) ≡ true
        → (le nought p.entry_volume ≡ true → le (left p sold) p.entry_volume ≡ true)
        → le (left p sold) tolerance ≡ false
        → le nought amount ≡ true
        → Step said most p (record p {
          status = status;
          entry_volume = left p sold;
          entry_amount_krw = amount;
          current_price = price;
          realized_pnl = pnl;
          exit_order_uuid = uuid;
        })
    -- All was sold, of what is newly filled, but for less than the tolerance.
    close :
        (sold pnl : F)
        → has_fill said ≡ true
        → le nought sold ≡ true
        → le sold most ≡ true
        → le (left p sold) tolerance ≡ true
        → Step said most p
            (record p { status = Status.closed; realized_pnl = pnl; exit_order_uuid = none })

  pub data Steps (said : OrderStatus) (most : F) (p : Position F) : Position F → Type 0 where
    here : Steps said most p p
    next : {q r : Position F} → Steps said most p q → Step said most q r → Steps said most p r

  Steps-trans :
      {said : OrderStatus} {most : F} {p q r : Position F}
      → Steps said most p q
      → Steps said most q r
      → Steps said most p r
  Steps-trans s here = s
  Steps-trans s (next t u) = next (Steps-trans s t) u

  -- Row by row, the second table comes from the first by steps.
  abbrev pub StepsOf : OrderStatus → F → List (Position F) → List (Position F) → Type 0
  StepsOf said most [] [] = Unit
  StepsOf said most [] (q ∷ qs) = ⊥
  StepsOf said most (p ∷ ps) [] = ⊥
  StepsOf said most (p ∷ ps) (q ∷ qs) = Steps said most p q × StepsOf said most ps qs

  pub StepsOf-refl :
      (said : OrderStatus) (most : F) (ps : List (Position F)) → StepsOf said most ps ps
  StepsOf-refl said most [] = tt
  StepsOf-refl said most (p ∷ ps) = (here, StepsOf-refl said most ps)

  pub StepsOf-trans :
      (said : OrderStatus) (most : F) (ps qs rs : List (Position F))
      → StepsOf said most ps qs
      → StepsOf said most qs rs
      → StepsOf said most ps rs
  StepsOf-trans said most [] [] [] h k = tt
  StepsOf-trans said most [] [] (r ∷ rs) h k = k
  StepsOf-trans said most [] (q ∷ qs) rs h k = absurd h
  StepsOf-trans said most (p ∷ ps) [] rs h k = absurd h
  StepsOf-trans said most (p ∷ ps) (q ∷ qs) [] h k = k
  StepsOf-trans said most (p ∷ ps) (q ∷ qs) (r ∷ rs) h k =
      (Steps-trans h.0 k.0, StepsOf-trans said most ps qs rs h.1 k.1)

  update-StepsOf :
      (said : OrderStatus) (most : F) (id : ℕ) (f : Position F → Position F)
      (ps : List (Position F))
      → ((p : Position F) → Step said most p (f p))
      → StepsOf said most ps (update_where (λ p. p.id == id) f ps)
  unfolding update_where
  update-StepsOf said most id f [] h = tt
  update-StepsOf said most id f (p ∷ ps) h =
      let rest = update-StepsOf said most id f ps h in
      elim (Bool-cases (p.id == id)) [
        | inl e ↦ rw e (next here (h p), rest)
        | inr e ↦ rw e (here, rest)
      ]

  -- A store whose positions come from those of another by steps.
  abbrev pub Moves : OrderStatus → F → Store F → Store F → Type 0
  Moves said most s t = StepsOf said most s.positions t.positions

  pub update-Moves :
      (said : OrderStatus) (most : F) (id : ℕ) (f : Position F → Position F) (s : Store F)
      → ((p : Position F) → Step said most p (f p))
      → Moves said most s (Store.update_live_position id f s)
  unfolding Store.update_live_position
  update-Moves said most id f s h = update-StepsOf said most id f s.positions h
