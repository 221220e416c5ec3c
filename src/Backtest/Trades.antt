-- ===== src/Backtest/Trades.antt =====
-- The orders of a backtest come in pairs.
use Prim.Native.Nat.{◌+◌ as plus, ◌*◌ as times}
use mathlib.Core.Path.{subst}
use auto_coin_bot.Common.{
  ℕ, suc, ◌≡◌, refl, sym, ap, ◌∙◌, true, false, Option, none, some, List, [], ◌∷◌, ◌++◌, arith,
  Bool-cases, inl, inr, length, length-append, ◌&&◌, ltb,
}
use auto_coin_bot.Common.Float.{Float, IsOrdered, ◌+◌, le, gt, nought, sum, sum_from}
use auto_coin_bot.Backtest
use auto_coin_bot.Backtest.{Row, Config, Order, State, Signal, Side}

-- The orders alternate, beginning with a purchase, and each sale sells what the purchase before it
-- bought. The indices are the number of sales and the quantity that is still held, if any.
pub data IsPaired {F : Type 0} ⦃num : Float F⦄ : ℕ → Option F → List (Order F) → Type 0 where
  no_orders : IsPaired 0 none []
  bought :
      {n : ℕ} {os : List (Order F)} (o : Order F)
      → IsPaired n none os
      → o.side ≡ Side.buy_side
      → IsPaired n (some o.quantity) (os ++ o ∷ [])
  sold :
      {n : ℕ} {os : List (Order F)} (o : Order F)
      → IsPaired n (some o.quantity) os
      → o.side ≡ Side.sell_side
      → IsPaired (suc n) none (os ++ o ∷ [])

module _ {F : Type 0} ⦃num : Float F⦄ where
  -- What the account has in hand.
  abbrev pub Holds : Option F → F → Type 0
  Holds none quantity = quantity ≡ nought
  Holds (some q) quantity = (quantity ≡ q) × (gt quantity nought ≡ true)

  abbrev pub open_orders : Option F → ℕ
  open_orders none = 0
  open_orders (some q) = 1

  pub record IsBalanced (s : State F) : Type 0 where
    pub held : Option F
    pub paired : IsPaired (length s.closed_pnls) held s.orders
    pub holds : Holds held s.quantity
    pub realized : s.realized_pnl_total ≡ sum s.closed_pnls

  sum-append : (acc : F) (xs : List F) (x : F) → sum_from acc (xs ++ x ∷ []) ≡ sum_from acc xs + x
  sum-append acc [] x = refl
  sum-append acc (y ∷ xs) x = sum-append (acc + y) xs x

  length-IsPaired :
      {n : ℕ} {held : Option F} {os : List (Order F)}
      → IsPaired n held os
      → length os ≡ plus (times 2 n) (open_orders held)
  length-IsPaired no_orders = refl
  length-IsPaired (bought {n} {os} o p e) =
      omega (arith, length-append os (o ∷ []), length-IsPaired p)
  length-IsPaired (sold {n} {os} o p e) =
      omega (arith, length-append os (o ∷ []), length-IsPaired p)

module _ {F : Type 0} ⦃num : Float F⦄ (laws : IsOrdered F) where
  sold_again :
      {n m : ℕ} {os : List (Order F)} (o : Order F)
      → m ≡ suc n
      → IsPaired n (some o.quantity) os
      → o.side ≡ Side.sell_side
      → IsPaired m none (os ++ o ∷ [])
  sold_again {os} o e p s = subst (λ n. IsPaired n none (os ++ o ∷ [])) (sym e) (sold o p s)

  flat :
      (held : Option F) (quantity : F)
      → Holds held quantity
      → num.eq quantity nought ≡ true
      → held ≡ none
  flat none quantity h e = refl
  flat (some q) quantity (h, g) e = absurd (cc (laws.lt-not-eq nought quantity g, e))

  in_hand :
      (held : Option F) (quantity : F)
      → Holds held quantity
      → gt quantity nought ≡ true
      → held ≡ some quantity
  in_hand none quantity h g = absurd (cc (h, g, laws.lt_irrefl nought))
  in_hand (some q) quantity (h, _) g = cc h

  open_position-IsBalanced :
      (config : Config F) (row next : Row F) (s : State F)
      → IsBalanced s
      → num.eq s.quantity nought ≡ true
      → IsBalanced (Backtest.open_position config row next s)
  unfolding Backtest.open_position
  open_position-IsBalanced config row next s b z =
      let budget = num.mul s.cash config.position_size in
      let quantity = Backtest.bought_quantity config next.open_price budget in
      let none_held = flat b.held s.quantity b.holds z in
      elim (Bool-cases (le budget s.cash && gt quantity nought)) [
        | inr e ↦ rw e b
        | inl e ↦ rw e (record {
          held = some quantity;
          paired =
              bought _ (subst (λ h. IsPaired (length s.closed_pnls) h s.orders) none_held b.paired)
                refl;
          holds = (refl, ground arith);
          realized = b.realized;
        })
      ]

  close_position-IsBalanced :
      (config : Config F) (row next : Row F) (s : State F)
      → IsBalanced s
      → gt s.quantity nought ≡ true
      → IsBalanced (Backtest.close_position config row next s)
  unfolding Backtest.close_position
  close_position-IsBalanced config row next s b g =
      let net = Backtest.sold_net config next.open_price s.quantity in
      let pnl = num.sub net s.entry_cost in
      let held = in_hand b.held s.quantity b.holds g in
      let more : length (s.closed_pnls ++ pnl ∷ []) ≡ suc (length s.closed_pnls) =
        omega (arith, length-append s.closed_pnls (pnl ∷ [])) in
      record {
        held = none;
        paired =
            sold_again _ more
              (subst (λ h. IsPaired (length s.closed_pnls) h s.orders) held b.paired) refl;
        holds = refl;
        realized = ap (λ total. total + pnl) b.realized ∙ sym (sum-append nought s.closed_pnls pnl);
      }

  trade-IsBalanced :
      (config : Config F) (sig : Signal) (row : Row F) (next : Option (Row F)) (s : State F)
      → IsBalanced s
      → IsBalanced (Backtest.trade config sig row next s)
  unfolding Backtest.trade
  trade-IsBalanced config sig row none s b = b
  trade-IsBalanced config Signal.buy row (some next) s b =
      elim (Bool-cases (num.eq s.quantity nought && gt s.cash nought)) [
        | inl e ↦ rw e (open_position-IsBalanced config row next s b (ground arith))
        | inr e ↦ rw e b
      ]
  trade-IsBalanced config Signal.sell row (some next) s b =
      elim (Bool-cases (gt s.quantity nought)) [
        | inl e ↦ rw e (close_position-IsBalanced config row next s b e)
        | inr e ↦ rw e b
      ]
  trade-IsBalanced config Signal.hold row (some next) s b = b

  mark-IsBalanced : (row : Row F) (s : State F) → IsBalanced s → IsBalanced (Backtest.mark row s)
  unfolding Backtest.mark
  mark-IsBalanced row s b = record {
    held = b.held;
    paired = b.paired;
    holds = b.holds;
    realized = b.realized;
  }

  logged :
      (signals : List (ℕ × Signal)) (s : State F)
      → IsBalanced s
      → IsBalanced (record s { signals = signals })
  logged signals s b = record {
    held = b.held;
    paired = b.paired;
    holds = b.holds;
    realized = b.realized;
  }

  steps-IsBalanced :
      (config : Config F) (rows : List (Row F)) (s : State F)
      → IsBalanced s
      → IsBalanced (Backtest.steps config rows s)
  unfolding Backtest.steps Backtest.step
  steps-IsBalanced config [] s b = b
  steps-IsBalanced config (row ∷ rows) s b = steps-IsBalanced config rows _ (
      mark-IsBalanced row _
        (trade-IsBalanced config row.signal row (Backtest.head? rows) _ (logged _ s b)))

  start-IsBalanced : (config : Config F) → IsBalanced (Backtest.start config)
  unfolding Backtest.start
  start-IsBalanced config = record {
    held = none;
    paired = no_orders;
    holds = refl;
    realized = refl;
  }

  -- A backtest of 30 candles or more returns. Its orders are purchases and sales in turn, beginning
  -- with a purchase, and each sale sells exactly what the purchase before it bought. The account holds
  -- what the last purchase bought if it is not yet sold, and nothing else. The metrics count every
  -- order, and the realized profit is the sum of the closed ones, in floating-point numbers.
  pub orders_in_pairs :
      (risk : Backtest.Risk F) (rows : List (Row F))
      → ltb (length rows) 30 ≡ false
      → (s : State F) × (m : Backtest.Metrics F) × (Backtest.run_backtest risk rows ≡ some (s, m))
        × (held : Option F) × IsPaired (length s.closed_pnls) held s.orders
        × Holds held s.quantity
        × (m.trade_count ≡ plus (times 2 (length s.closed_pnls)) (open_orders held))
        × (m.realized_pnl ≡ sum s.closed_pnls)
  unfolding Backtest.run_backtest Backtest.metrics
  orders_in_pairs risk rows h =
      let config = Backtest.config_of risk in
      let s = Backtest.steps config rows (Backtest.start config) in
      let b = steps-IsBalanced config rows (Backtest.start config) (start-IsBalanced config) in
      (
        s,
        Backtest.metrics config s,
        rw h refl,
        b.held,
        b.paired,
        b.holds,
        length-IsPaired b.paired,
        b.realized,
      )
