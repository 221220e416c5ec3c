-- ===== src/SmallPosition/Allowed.antt =====
-- When a small position may be sold as a whole, and how the sizes are told apart.
use Prim.Native.Nat.{◌≤◌}
use auto_coin_bot.Common.{
  ℕ, ◌≡◌, refl, Bool, true, false, not, ◌&&◌, List, [], ◌∷◌, arith, is_empty, ◌↔◌,
}
use auto_coin_bot.Common.Float.{Float, IsOrdered, lt, le, gt}
use auto_coin_bot.SmallPosition
use auto_coin_bot.SmallPosition.{
  Thresholds, Request, Size, Blocker, is_small, is_exit_hint, is_trend,
}

abbrev none_of : List (Bool × Blocker) → Bool
none_of [] = true
none_of ((test, b) ∷ rest) = not test && none_of rest

collect-none : (ts : List (Bool × Blocker)) → is_empty (SmallPosition.collect ts) ≡ none_of ts
unfolding SmallPosition.collect
collect-none [] = refl
collect-none ((true, b) ∷ ts) = refl
collect-none ((false, b) ∷ ts) = collect-none ts

abbrev pub rank : Size → ℕ
rank Size.dust_position = 0
rank Size.small_position = 1
rank Size.normal_position = 2

module _ {F : Type 0} ⦃num : Float F⦄ where
  -- What a full exit needs, in the sense of the code's comparisons.
  pub record IsResolvable (enabled : Bool) (t : Thresholds F) (r : Request F) : Type 0 where
    pub switched_on : enabled ≡ true
    pub small : is_small (SmallPosition.size_of t r) ≡ true
    pub sellable : lt (SmallPosition.sellable_value r) r.min_order_krw ≡ false
    pub exit_hint : is_exit_hint r.action_hint ≡ true
    pub no_trend : is_trend r.market_regime ≡ false
    pub no_edge : gt (SmallPosition.edge_score r) t.positive_edge ≡ false
    pub not_recovering :
        gt (SmallPosition.position_pnl_pct r.position r.current_price) t.max_recovery_pnl_pct
        ≡ false
    pub held : lt (SmallPosition.holding_minutes r.position r.now) t.min_hold_minutes ≡ false
    pub balanced : r.balance_mismatch ≡ false
    pub orders_match : r.open_order_mismatch ≡ false

  passed-IsResolvable :
      (enabled : Bool) (t : Thresholds F) (r : Request F)
      → is_small (SmallPosition.size_of t r) ≡ true
      → none_of (SmallPosition.tests enabled t r) ≡ true
      → IsResolvable enabled t r
  unfolding SmallPosition.tests
  passed-IsResolvable enabled t r s h = record {
    switched_on = ground arith;
    small = s;
    sellable = ground arith;
    exit_hint = ground arith;
    no_trend = ground arith;
    no_edge = ground arith;
    not_recovering = ground arith;
    held = ground arith;
    balanced = ground arith;
    orders_match = ground arith;
  }

  IsResolvable-passed :
      (enabled : Bool) (t : Thresholds F) (r : Request F)
      → IsResolvable enabled t r
      → none_of (SmallPosition.tests enabled t r) ≡ true
  unfolding SmallPosition.tests
  IsResolvable-passed enabled t r k = ground (
    arith, k.switched_on, k.small, k.sellable, k.exit_hint, k.no_trend, k.no_edge, k.not_recovering,
    k.held, k.balanced, k.orders_match,
  )

  -- A full exit is allowed exactly where every condition of `IsResolvable` holds.
  pub full_exit_iff :
      (enabled : Bool) (t : Thresholds F) (r : Request F)
      → ((SmallPosition.evaluate_small_position_resolution enabled t r).full_exit_allowed ≡ true)
        ↔ IsResolvable enabled t r
  unfolding SmallPosition.evaluate_small_position_resolution
  full_exit_iff enabled t r =
      let c = collect-none (SmallPosition.tests enabled t r) in
      (
        λ h. passed-IsResolvable enabled t r (ground arith) (ground (arith, c)),
        λ k. ground (arith, c, k.small, IsResolvable-passed enabled t r k),
      )

  -- A position that is worth more is not put in a smaller class.
  pub classify_monotone :
      IsOrdered F
      → (t : Thresholds F) (min_order v w : F) → le v w ≡ true
      → rank (SmallPosition.classify_position_size t min_order v)
        ≤ rank (SmallPosition.classify_position_size t min_order w)
  unfolding SmallPosition.classify_position_size
  classify_monotone laws t min_order v w h = ground (
    arith,
    laws.le-lt_trans v w (SmallPosition.dust_threshold t min_order),
    laws.le-lt_trans v w (SmallPosition.small_threshold t min_order),
    h,
  )
