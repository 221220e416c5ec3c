-- ===== src/Risk/State/Tests.antt =====
-- A streak of two losses and a cooldown, and the theorems on them.
use Prim.Native.Nat.{◌+◌, ◌*◌, ◌≤◌, ◌<◌}
use auto_coin_bot.Common.{ℕ, ◌≡◌, refl, Option, some, [], ◌∷◌, ℤ}
use auto_coin_bot.Common.Float.{◌-◌, nought}
use auto_coin_bot.Common.Fixed.{fixed}
use auto_coin_bot.Risk.State
use auto_coin_bot.Risk.State.Streak.{streak_exact, cooldown_exact}

abbrev loss : ℕ → Option ℤ
loss n = some (nought - fixed.lit n 0)

streak_exact_example :
    State.consecutive_loss_count (fixed.lit 5 0) (loss 10 ∷ loss 5 ∷ loss 1 ∷ loss 70 ∷ []) ≡ 2
streak_exact_example =
    streak_exact (fixed.lit 5 0) (loss 10 ∷ loss 5 ∷ []) (loss 1 ∷ loss 70 ∷ [])
      (unfold State.is_loss in ((refl, (refl, tt)), refl))

cooldown_exact_sample :
    let left = State.cooldown_remaining_seconds (some 100) 300 (350 * 1000000) in
    (100 + 300 ≤ 350 → left ≡ 0) × (350 < 100 + 300 → left + 350 ≡ 100 + 300)
cooldown_exact_sample = cooldown_exact 100 300 350
