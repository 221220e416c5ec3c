-- ===== src/Exit/Trailing.antt =====
-- The highest price since the entry, on which the trailing stop stands.
use auto_coin_bot.Common.{◌≡◌, refl, true, none, List, [], ◌∷◌, Bool-cases, inl, inr, All}
use auto_coin_bot.Common.Float.{Float, IsOrdered, IsMonotone, le, lt, max, float}
use auto_coin_bot.Exit.Rows.{Position}
use auto_coin_bot.Exit.Trigger
use auto_coin_bot.Exit.Trigger.{Config, Metrics}

module _ {F : Type 0} ⦃num : Float F⦄ where
  -- The position after `update_live_position_metrics` for each price in turn.
  unfoldable pub track : Config F → List F → Position F → Position F
  track config [] p = p
  track config (price ∷ prices) p =
      track config prices (Trigger.with_metrics (Trigger.metrics_of config p price) none p)

  abbrev pub highest : Position F → F
  highest p = float p.highest_price_since_entry

  module _ (ord : IsOrdered F) (mono : IsMonotone F) where
    max_above : (x y : F) → (le x (max x y) ≡ true) × (le y (max x y) ≡ true)
    max_above x y = elim (Bool-cases (lt x y)) [
      | inl e ↦ rw e (ord.lt-le x y e, mono.le_refl y)
      | inr e ↦ rw e (mono.le_refl x, mono.not-lt-le x y e)
    ]

    update_above :
        (config : Config F) (p : Position F) (price : F)
        → let q = Trigger.with_metrics (Trigger.metrics_of config p price) none p in
          (le (highest p) (highest q) ≡ true)
          × (le p.entry_price (highest q) ≡ true)
          × (le price (highest q) ≡ true)
          × (q.entry_price ≡ p.entry_price)
    unfolding Trigger.with_metrics Trigger.metrics_of
    update_above config p price =
        let best = max (highest p) p.entry_price in
        let (a, b) = max_above (highest p) p.entry_price in
        let (c, d) = max_above best price in
        (ord.le_trans _ _ _ a c, ord.le_trans _ _ _ b c, d, refl)

    track_rises :
        (config : Config F) (prices : List F) (p : Position F)
        → le (highest p) (highest (track config prices p)) ≡ true
    unfolding track
    track_rises config [] p = mono.le_refl (highest p)
    track_rises config (price ∷ prices) p =
        let q = Trigger.with_metrics (Trigger.metrics_of config p price) none p in
        ord.le_trans _ _ _ (update_above config p price).0 (track_rises config prices q)

    -- The highest price of a position never falls, and it is no lower than any price since it was
    -- opened. This is so of finite numbers.
    pub highest_price_holds :
        (config : Config F) (prices : List F) (p : Position F)
        → (le (highest p) (highest (track config prices p)) ≡ true)
          × All (λ x. le x (highest (track config prices p)) ≡ true) prices
    unfolding track
    highest_price_holds config [] p = (mono.le_refl (highest p), tt)
    highest_price_holds config (price ∷ prices) p =
        let q = Trigger.with_metrics (Trigger.metrics_of config p price) none p in
        let (_, above) = highest_price_holds config prices q in
        let (rises, _, seen, _) = update_above config p price in
        let later = track_rises config prices q in
        (ord.le_trans _ _ _ rises later, (ord.le_trans _ _ _ seen later, above))
