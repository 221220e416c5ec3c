-- ===== src/KillSwitch/Window.antt =====
-- The switch looks at a window of the newest orders.
use Prim.Native.Nat.{◌-◌ as minus, ◌≤◌, ◌<◌}
use mathlib.Core.Path.{subst}
use auto_coin_bot.Common.{
  append_assoc, append_nil, ℕ, zero, suc, ◌≡◌, refl, sym, ap, ◌∙◌, Bool, true, false, Option, none,
  some, List, [], ◌∷◌, ◌++◌, arith, length, length-append, All, All-append, leb, Bool-cases, inl,
  inr, ◌==◌,
}
use auto_coin_bot.Common.Float.{Float}
use auto_coin_bot.KillSwitch
use auto_coin_bot.KillSwitch.{
  Config, Order, Execution, Verdict, Blocker, Action, drop, reversed, streak, last_rows,
}

module _ {ℓ} {A : Type ℓ} where
  drop-append :
      (n : ℕ) (old new : List A) → n ≤ length old → drop n (old ++ new) ≡ drop n old ++ new
  drop-append zero old new h = refl
  drop-append (suc n) [] new h = absurd (omega (arith, h))
  drop-append (suc n) (x ∷ old) new h = drop-append n old new (omega (arith, h))

  drop-all : (xs : List A) → drop (length xs) xs ≡ []
  drop-all [] = refl
  drop-all (x ∷ xs) = drop-all xs

  reversed-append : (xs ys : List A) → reversed (xs ++ ys) ≡ reversed ys ++ reversed xs
  unfolding reversed
  reversed-append [] ys = sym (append_nil (reversed ys))
  reversed-append (x ∷ xs) ys =
      ap (λ l. l ++ x ∷ []) (reversed-append xs ys)
      ∙ append_assoc (reversed ys) (reversed xs) (x ∷ [])

  length-reversed : (xs : List A) → length (reversed xs) ≡ length xs
  unfolding reversed
  length-reversed [] = refl
  length-reversed (x ∷ xs) = omega (arith, length-append (reversed xs) (x ∷ []), length-reversed xs)

  All-reversed : (P : A → Type 0) (xs : List A) → All P xs → All P (reversed xs)
  unfolding reversed
  All-reversed P [] _ = tt
  All-reversed P (x ∷ xs) (p, ps) =
      All-append P (reversed xs) (x ∷ []) (All-reversed P xs ps) (p, tt)

  streak-append :
      (p : A → Bool) (xs ys : List A) → All (λ x. p x ≡ true) xs → length xs ≤ streak p (xs ++ ys)
  streak-append p [] ys _ = omega arith
  streak-append p (x ∷ xs) ys (h, hs) = ground (arith, streak-append p xs ys hs)

  last_rows-append :
      (n : ℕ) (old new : List A)
      → length new ≤ n
      → (before : List A) × (last_rows n (old ++ new) ≡ before ++ new)
  unfolding last_rows
  last_rows-append n old new h = elim (Bool-cases (n == 0)) [
    | inl e ↦ rw e (old, refl)
    | inr e ↦ rw e (
      drop (minus (length (old ++ new)) n) old,
      drop-append (minus (length (old ++ new)) n) old new (omega (arith, length-append old new, h)),
    )
  ]

  last_rows-exact :
      (old new : List A)
      → 0 < length new
      → last_rows (length new) (old ++ new) ≡ last_rows (length new) new
  unfolding last_rows
  last_rows-exact old new h =
      let n = length new in
      let count : minus (length (old ++ new)) n ≡ length old =
        omega (arith, length-append old new) in
      let none_left : minus n n ≡ 0 = omega arith in
      elim (Bool-cases (n == 0)) [
        | inl e ↦ absurd (ground (arith, h))
        | inr e ↦ rw e (
            ap (λ k. drop k (old ++ new)) count
            ∙ drop-append (length old) old new (omega arith)
            ∙ ap (λ l. l ++ new) (drop-all old)
            ∙ sym (ap (λ k. drop k new) none_left))
      ]

found-hits :
    (test : Bool) (b : Blocker) (bs : List Blocker)
    → test ≡ true
    → KillSwitch.action_of (KillSwitch.found test b bs) ≡ Action.pause_strategy
unfolding KillSwitch.found
found-hits true b bs h = refl
found-hits false b bs h = cc h

found-keeps :
    (test : Bool) (b : Blocker) (bs : List Blocker)
    → KillSwitch.action_of bs ≡ Action.pause_strategy
    → KillSwitch.action_of (KillSwitch.found test b bs) ≡ Action.pause_strategy
unfolding KillSwitch.found
found-keeps true b bs h = refl
found-keeps false b bs h = h

module _ {F : Type 0} ⦃num : Float F⦄ where
  -- Only the newest orders count, as many as the window of at least one: older ones change nothing of
  -- the verdict.
  pub old_orders_ignored :
      (cfg : Config F) (old new : List (Order F)) (rows : List (Execution F))
      (mismatch failed : Bool)
      → length new ≡ cfg.expectancy_window
      → 0 < length new
      → KillSwitch.evaluate_strategy_kill_switch cfg (old ++ new) rows mismatch failed
        ≡ KillSwitch.evaluate_strategy_kill_switch cfg new rows mismatch failed
  unfolding KillSwitch.evaluate_strategy_kill_switch
  old_orders_ignored cfg old new rows mismatch failed e h =
      ap (λ recent. KillSwitch.evaluate_recent cfg.enabled cfg recent rows mismatch failed)
        (subst (λ n. last_rows n (old ++ new) ≡ last_rows n new) e (last_rows-exact old new h))

  abbrev pub IsPaused : Option (Verdict F) → Type 0
  IsPaused none = ⊥
  IsPaused (some v) = v.action ≡ Action.pause_strategy

  long_streak :
      (before lost : List (Order F))
      → All (λ (o : Order F). KillSwitch.is_loss o ≡ true) lost
      → length lost ≤ streak KillSwitch.is_loss (reversed (before ++ lost))
  long_streak before lost all =
      let order = reversed-append before lost in
      let enough =
        streak-append KillSwitch.is_loss (reversed lost) (reversed before)
          (All-reversed (λ (o : Order F). KillSwitch.is_loss o ≡ true) lost all) in
      subst (λ l. length lost ≤ streak KillSwitch.is_loss l) (sym order)
        (omega (arith, enough, length-reversed lost))

  losses_pause :
      (cfg : Config F) (before lost : List (Order F)) (rows : List (Execution F))
      (mismatch failed : Bool)
      → All (λ (o : Order F). KillSwitch.is_loss o ≡ true) lost
      → cfg.max_consecutive_losses ≤ length lost
      → IsPaused (KillSwitch.evaluate_recent true cfg (before ++ lost) rows mismatch failed)
  unfolding KillSwitch.evaluate_recent KillSwitch.blockers_of KillSwitch.verdict_of
  losses_pause cfg before lost rows mismatch failed all m =
      let long = long_streak before lost all in
      let reached : leb cfg.max_consecutive_losses
            (streak KillSwitch.is_loss (reversed (before ++ lost)))
          ≡ true =
        ground (arith, long, m) in
      found-keeps _ Blocker.expectancy_negative _
        (found-hits _ Blocker.consecutive_losses _ reached)

  -- An enabled switch pauses a strategy whose newest orders, at least as many as the limit of losses in
  -- a row and no more than the window, all lost, whatever else the rows say.
  pub losing_run_pauses :
      (cfg : Config F) (old lost : List (Order F)) (rows : List (Execution F))
      (mismatch failed : Bool)
      → cfg.enabled ≡ true
      → All (λ (o : Order F). KillSwitch.is_loss o ≡ true) lost
      → cfg.max_consecutive_losses ≤ length lost
      → length lost ≤ cfg.expectancy_window
      → IsPaused (KillSwitch.evaluate_strategy_kill_switch cfg (old ++ lost) rows mismatch failed)
  unfolding KillSwitch.evaluate_strategy_kill_switch
  losing_run_pauses cfg old lost rows mismatch failed e all m w =
      let (before, window) = last_rows-append cfg.expectancy_window old lost w in
      subst
        (λ (enabled : Bool). IsPaused (
          KillSwitch.evaluate_recent enabled cfg (last_rows cfg.expectancy_window (old ++ lost))
            rows mismatch failed))
        (sym e)
        (subst
          (λ recent. IsPaused (KillSwitch.evaluate_recent true cfg recent rows mismatch failed))
          (sym window) (losses_pause cfg before lost rows mismatch failed all m))
