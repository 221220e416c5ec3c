-- ===== src/Sizing/Dynamic/Limits.antt =====
-- What the preview of the dynamic sizing can change.
use auto_coin_bot.Common.{
  ◌≡◌, inl, inr, Bool, true, false, not, ◌&&◌, ◌||◌, none, some, arith, Bool-cases,
}
use auto_coin_bot.Common.Float.{Float, IsOrdered, lt, le, ge, nought, max, round, int, dec, ◌*◌}
use auto_coin_bot.Sizing.Dynamic
use auto_coin_bot.Sizing.Dynamic.{Settings, Order, Edge, Mode, is_block}

module _ {F : Type 0} ⦃num : Float F⦄ where
  -- While the sizing is off or in shadow mode it neither blocks an order nor changes its amount.
  pub shadow_harmless :
      (s : Settings F) (o : Order F) (edge : Edge F)
      → let p = Dynamic.build_dynamic_sizing_preview s o edge in
        p.shadow_only ≡ true
        → (p.allowed ≡ true)
          × (p.blocker ≡ none)
          × (p.applied_amount_krw ≡ round (max o.original_amount_krw nought) 6)
  unfolding Dynamic.build_dynamic_sizing_preview
  shadow_harmless s o edge h = elim (Bool-cases s.enabled) [
    | inl e ↦ ground (arith, e)
    | inr e ↦ ground (arith, e)
  ]

  -- An order is blocked exactly when sizing is enabled in block mode and either the confidence
  -- suffices, a positive edge is required and the net edge is not positive, or the adjusted amount is
  -- positive and below the minimum.
  pub blocked_iff :
      (s : Settings F) (o : Order F) (edge : Edge F)
      → let p = Dynamic.build_dynamic_sizing_preview s o edge in
        let refused =
          p.confidence_ok
          && s.require_positive_net_edge
          && le (Dynamic.net_edge_pct o edge) nought in
        p.allowed ≡ not (s.enabled && is_block p.mode && (refused || p.dust_hold))
  unfolding Dynamic.build_dynamic_sizing_preview
  blocked_iff s o edge = elim (Bool-cases s.enabled) [
    | inl e ↦ elim (Bool-cases (s.require_positive_net_edge)) [
      | inl r ↦ ground (arith, e, r)
      | inr r ↦ ground (arith, e, r)
    ]
    | inr e ↦ ground (arith, e)
  ]

  -- The amount that sizing works out never exceeds a limit that is not negative.
  pub adjusted_within_limit :
      (laws : IsOrdered F) (o : Order F) (multiplier allowed : F)
      → o.max_allowed_amount_krw ≡ some allowed
      → ge allowed nought ≡ true
      → lt allowed (Dynamic.adjusted_amount o multiplier) ≡ false
  unfolding Dynamic.adjusted_amount
  adjusted_within_limit laws o multiplier allowed e h = ground (
    arith,
    laws.lt_irrefl allowed,
    laws.lt_asym allowed (max (o.original_amount_krw * multiplier) nought),
  )

  high-ge-low :
      (laws : IsOrdered F) (s : Settings F)
      → lt (Dynamic.max_multiplier s) (Dynamic.min_multiplier s) ≡ false
  unfolding Dynamic.max_multiplier
  high-ge-low laws s = ground (arith, laws.lt_irrefl (Dynamic.min_multiplier s))

  -- Where the lower multiplier, as corrected, is not above 1 and 1.2 and the upper one not below 1 and
  -- 0.75, the chosen multiplier lies between them, whatever the edge, the confidence and the mode.
  pub multiplier_within :
      (laws : IsOrdered F) (s : Settings F) (mode : Mode) (confidence_ok : Bool) (net : F)
      → let low = Dynamic.min_multiplier s in
        let high = Dynamic.max_multiplier s in
        let chosen = (Dynamic.choose s mode confidence_ok net).multiplier in
        lt (int 1) low ≡ false
        → lt high (int 1) ≡ false
        → lt high (dec 75 2) ≡ false
        → lt (dec 12 1) low ≡ false
        → (lt chosen low ≡ false) × (lt high chosen ≡ false)
  unfolding Dynamic.choose
  multiplier_within laws s mode confidence_ok net h k m n =
      let low = Dynamic.min_multiplier s in
      let high = Dynamic.max_multiplier s in
      ground (
        arith,
        high-ge-low laws s,
        laws.lt_irrefl low,
        laws.lt_irrefl high,
        laws.lt_asym low (dec 75 2),
        laws.lt_asym (dec 12 1) high,
      )
