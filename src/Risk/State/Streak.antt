-- ===== src/Risk/State/Streak.antt =====
-- The streak of losses, against an independent description.
use Prim.Native.Nat.{◌+◌, ◌*◌, ◌≤◌, ◌<◌}
use auto_coin_bot.Common.{
  ℕ, ◌≡◌, refl, true, false, Option, some, List, [], ◌∷◌, ◌++◌, arith, All, length,
}
use auto_coin_bot.Common.Float.{Float, float, abs}
use auto_coin_bot.Risk.State
use auto_coin_bot.Risk.State.{Queries}

module _ {F : Type 0} ⦃num : Float F⦄ where
  -- The newest positions all lost, and the one before them, if there is one, did not.
  abbrev pub IsStreak : F → List (Option F) → List (Option F) → Type 0
  IsStreak threshold lost [] = All (λ p. State.is_loss threshold (float p) ≡ true) lost
  IsStreak threshold lost (p ∷ _) =
      All (λ p. State.is_loss threshold (float p) ≡ true) lost
      × (State.is_loss threshold (float p) ≡ false)

  -- `consecutive_loss_count` counts exactly the losses that come before the first position, from the
  -- newest on, that did not lose at least the threshold.
  pub streak_exact :
      (min_loss : F) (lost rest : List (Option F))
      → IsStreak (abs min_loss) lost rest
      → State.consecutive_loss_count min_loss (lost ++ rest) ≡ length lost
  unfolding State.consecutive_loss_count State.count_losses
  streak_exact min_loss [] [] h = refl
  streak_exact min_loss [] (p ∷ rest) h = ground (arith, h.1)
  streak_exact min_loss (p ∷ lost) [] (l, h) = ground (arith, streak_exact min_loss lost [] h)
  streak_exact min_loss (p ∷ lost) (q ∷ rest) ((l, ls), h) =
      ground (arith, streak_exact min_loss lost (q ∷ rest) (ls, h))

-- At a whole second `now`, nothing is left of the cooldown from `last` plus the cooldown on, and before
-- that exactly the seconds until then.
pub cooldown_exact :
    (last cooldown now : ℕ)
    → let left = State.cooldown_remaining_seconds (some last) cooldown (now * 1000000) in
      (last + cooldown ≤ now → left ≡ 0) × (now < last + cooldown → left + now ≡ last + cooldown)
unfolding State.cooldown_remaining_seconds
cooldown_exact last cooldown now = (λ h. omega arith, λ h. omega arith)
