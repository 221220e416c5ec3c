-- ===== src/Common/Least.antt =====
-- Python's `min` against what it is taken of, NaN included.
use mathlib.Core.Path.{◌≡◌}
use mathlib.Core.Logic.{inl, inr}
use mathlib.Core.Bool.{false}
use auto_coin_bot.Common.Tests.{Bool-cases}
use auto_coin_bot.Common.Float.{Float, IsOrdered, lt, min}

module _ {F : Type 0} ⦃num : Float F⦄ (ord : IsOrdered F) where
  open ord use {lt_asym, lt_irrefl, lt_trans}

  pub min-below : (z x y : F) → lt z x ≡ false → lt z (min x y) ≡ false
  min-below z x y h = elim (Bool-cases (lt y x)) [
    | inl e ↦ rw e (elim (Bool-cases (lt z y)) [ inl k ↦ cc (lt_trans z y x k e, h) | inr k ↦ k ])
    | inr e ↦ rw e h
  ]

  pub min-right : (x y : F) → lt y (min x y) ≡ false
  min-right x y = elim (Bool-cases (lt y x)) [ inl e ↦ rw e (lt_irrefl y) | inr e ↦ rw e e ]
