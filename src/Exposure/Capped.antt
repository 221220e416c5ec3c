-- ===== src/Exposure/Capped.antt =====
-- The bounds of the target, before it is rounded.
use auto_coin_bot.Common.{
  ◌≡◌, ◌≢◌, ◌⊎◌, refl, Bool, true, false, List, [], ◌∷◌, Bool-cases, inl, inr,
}
use auto_coin_bot.Common.Float.{Float, IsOrdered, lt, int, nought, min, round}
use auto_coin_bot.Common.Least.{min-below, min-right}
use auto_coin_bot.Exposure.{
  Request, Blocker, blockers_of, exact_target, calculate_target_exposure, cap_blocked,
  zero_in_panic, clip, is_panic, wanted_exposure,
}

module _ {F : Type 0} ⦃num : Float F⦄ (ord : IsOrdered F) where
  open ord use {lt_asym, lt_irrefl}

  -- A cut value is 0, or the value that was cut, and then at most 100.
  clip-cases :
      (x : F)
      → (clip x ≡ nought)
        ⊎ ((lt (clip x) nought ≡ false)
            × (lt (int 100) (clip x) ≡ false)
            × ((y : F) → lt y x ≡ false → lt y (clip x) ≡ false))
  clip-cases x = elim (Bool-cases (lt (min x (int 100)) nought)) [
    | inl e ↦ rw e (inl refl)
    | inr e ↦ rw e (inr (e, min-right ord x (int 100), λ y h. min-below ord y x (int 100) h))
  ]

  cap_blocked-current :
      (blockers : List Blocker) (current target : F)
      → blockers ≢ []
      → lt current (cap_blocked blockers current target) ≡ false
  cap_blocked-current [] current target h = absurd (h refl)
  cap_blocked-current (b ∷ blockers) current target h = min-right ord target current

  clip-nought : clip {F = F} nought ≡ nought
  clip-nought = elim (Bool-cases (lt {F = F} (int 100) nought)) [
    | inl e ↦ rw (e, e) refl
    | inr e ↦ rw (e, lt_irrefl nought) refl
  ]

  cut_cases :
      (p : Bool) (blockers : List Blocker) (current target : F)
      → let x = clip (zero_in_panic p (cap_blocked blockers current target)) in
        (x ≡ nought)
        ⊎ ((lt x nought ≡ false)
            × (lt (int 100) x ≡ false)
            × (blockers ≢ [] → lt current x ≡ false))
  cut_cases true blockers current target = inl clip-nought
  cut_cases false blockers current target =
      elim (clip-cases (cap_blocked blockers current target)) [
        | inl e ↦ inl e
        | inr (low, high, below) ↦
            inr (low, high, λ h. below current (cap_blocked-current blockers current target h))
      ]

  -- The target is the rounding of 0 or of an amount between 0 and 100. With a blocker, that amount is at
  -- most the current exposure. Where the regime is PANIC, in upper case, it is 0 that is rounded.
  pub target_capped :
      (r : Request F)
      → let x = exact_target r in
        ((calculate_target_exposure r).target_exposure_pct ≡ round x 4)
        × ((x ≡ nought)
            ⊎ ((lt x nought ≡ false)
                × (lt (int 100) x ≡ false)
                × ((calculate_target_exposure r).blockers ≢ []
                    → lt r.current_exposure_pct x ≡ false)))
        × (is_panic r.market_regime ≡ true → x ≡ nought)
  unfolding exact_target calculate_target_exposure
  target_capped r = (
    refl,
    cut_cases (is_panic r.market_regime) (blockers_of r) r.current_exposure_pct (wanted_exposure r),
    λ h. rw h clip-nought,
  )
