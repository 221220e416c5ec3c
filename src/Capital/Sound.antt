-- ===== src/Capital/Sound.antt =====
-- What a snapshot promises, and what an allocation that starts from it has checked.
use Prim.Native.String.{String}
use auto_coin_bot.Common.{
  ℕ, ◌≡◌, ◌≢◌, ◌⊎◌, refl, Bool, true, false, not, ◌&&◌, ◌||◌, Option, none, some, List, [], ◌∷◌,
  Bool-cases, inl, inr, is_some, is_empty, map, any, All,
}
use auto_coin_bot.Common.Float.{Float, IsOrdered, ◌-◌, lt, nought, max, min}
use auto_coin_bot.Common.Least.{min-below, min-right}
use auto_coin_bot.Common.Table.{str_mem}
use auto_coin_bot.Slots.{Tables}
use auto_coin_bot.Allocator
use auto_coin_bot.Allocator.{Config, Candidate, Facts, Block}
use auto_coin_bot.Allocator.Run
use auto_coin_bot.Allocator.Run.{Accepted}
use auto_coin_bot.Allocator.Account.{Fits, Along, Account, grant}
use auto_coin_bot.Allocator.Bounds.{or_block-none, when-none}
use auto_coin_bot.Allocator.Funds.{allocate-IsFunded}
use auto_coin_bot.Capital
use auto_coin_bot.Capital.{
  Inputs, Snapshot, differ, is_mismatch, volumes_of, db_order_ids, exchange_order_ids,
  balance_mismatch_of, open_order_mismatch_of, budget_from, build_capital_snapshot, for_allocator,
}

any-false : {A : Type 0} (p : A → Bool) (xs : List A) → any p xs ≡ false → All (λ x. p x ≡ false) xs
any-false p [] h = tt
any-false p (x ∷ xs) h = elim (Bool-cases (p x)) [
  | inl e ↦ cc (rw e at h)
  | inr e ↦ (e, any-false p xs (rw e at h))
]

-- The names of the open orders are the same in the tables and on the exchange.
abbrev pub SameIds : List String → List String → Type 0
SameIds xs ys = All (λ x. str_mem x ys ≡ true) xs × All (λ y. str_mem y xs ≡ true) ys

All-mem :
    (xs ys : List String)
    → any (λ x. not (str_mem x ys)) xs ≡ false
    → All (λ x. str_mem x ys ≡ true) xs
All-mem [] ys h = tt
All-mem (x ∷ xs) ys h = elim (Bool-cases (str_mem x ys)) [
  | inl e ↦ (e, All-mem xs ys (rw e at h))
  | inr e ↦ cc (rw e at h)
]

or-false : (a b : Bool) → (a || b) ≡ false → (a ≡ false) × (b ≡ false)
or-false true b h = cc h
or-false false b h = (refl, h)

same : (xs ys : List String) → differ xs ys ≡ false → SameIds xs ys
same xs ys h = let parts = or-false _ _ h in (All-mem xs ys parts.0, All-mem ys xs parts.1)

not-false : (b : Bool) → not b ≡ false → b ≡ true
not-false true h = refl
not-false false h = cc h

-- Without orders on either side nothing is compared, and nothing differs.
same_unless_empty :
    {A B : Type 0} (rows : List A) (bs : List B) (f : B → String) (g : A → String)
    → (not (is_empty rows && is_empty bs) && differ (map f bs) (map g rows)) ≡ false
    → SameIds (map f bs) (map g rows)
same_unless_empty [] [] f g h = (tt, tt)
same_unless_empty [] (b ∷ bs) f g h = same (map f (b ∷ bs)) [] h
same_unless_empty (a ∷ rest) bs f g h = same (map f bs) (map g (a ∷ rest)) h

module _ {F : Type 0} ⦃num : Float F⦄ where
  -- The balances were read, each symbol's amount is within the tolerance of its positions', and the
  -- open orders are those that the exchange listed in the answers that came.
  pub record Agrees (i : Inputs F) : Type 0 where
    pub balances_read : is_some i.balances ≡ true
    pub volumes : All (λ v. is_mismatch i.balances v ≡ false) (volumes_of i)
    pub orders : SameIds (db_order_ids i) (exchange_order_ids i)

  no_mismatch-Agrees :
      (i : Inputs F)
      → Allocator.snapshot_block (for_allocator i (build_capital_snapshot i)) ≡ none
      → Agrees i
  unfolding for_allocator build_capital_snapshot balance_mismatch_of open_order_mismatch_of
  no_mismatch-Agrees i h =
      let first = or_block-none _ _ h in
      let second = or_block-none _ _ first.1 in
      let failed = when-none _ _ first.0 in
      record {
        balances_read = not-false _ failed;
        volumes = any-false (is_mismatch i.balances) (volumes_of i) (when-none _ _ second.0);
        orders =
            same_unless_empty (Capital.exchange_orders i) i.db_orders Capital.row_id
              Capital.order_text (when-none _ _ second.1);
      }

module _ {F : Type 0} ⦃num : Float F⦄ (ord : IsOrdered F) where
  open ord use {lt_asym, lt_irrefl, lt_trans}

  max-nought : (x : F) → lt (max x nought) nought ≡ false
  max-nought x = elim (Bool-cases (lt x nought)) [
    | inl e ↦ rw e (lt_irrefl nought)
    | inr e ↦ rw e e
  ]

  max-below : (z x : F) → lt z x ≡ false → lt z nought ≡ false → lt z (max x nought) ≡ false
  max-below z x h k = elim (Bool-cases (lt x nought)) [ inl e ↦ rw e k | inr e ↦ rw e h ]

  budget_from-limit :
      (remaining reserve available : F)
      → let budget = budget_from remaining reserve (some available) in
        (budget ≡ nought) ⊎ (lt (available - reserve) budget ≡ false)
  budget_from-limit remaining reserve available =
      let free = available - reserve in
      let fit = min remaining free in
      elim (Bool-cases (lt fit nought)) [
        | inl e ↦ rw e (inl refl)
        | inr e ↦ rw e (inr (min-right ord remaining free))
      ]

  budget_from-remaining :
      (x reserve : F) (krw : Option F)
      → lt (max x nought) (budget_from (max x nought) reserve krw) ≡ false
  budget_from-remaining x reserve none = max-nought x
  budget_from-remaining x reserve (some available) =
      let remaining = max x nought in
      max-below remaining (min remaining (available - reserve))
        (min-below ord remaining remaining (available - reserve) (lt_irrefl remaining))
        (max-nought x)

  budget_from-nonneg :
      (remaining reserve : F) (krw : Option F)
      → lt (budget_from remaining reserve krw) nought ≡ false
  budget_from-nonneg remaining reserve none = lt_irrefl nought
  budget_from-nonneg remaining reserve (some available) = max-nought _

  -- The budget of a snapshot is at least 0 and at most the remaining exposure. With a balance of KRW it
  -- is 0 or at most the balance less the reserve, without one it is 0.
  pub budget_bounds :
      (i : Inputs F)
      → let s = build_capital_snapshot i in
        (lt s.available_budget_krw nought ≡ false)
        × (lt s.remaining_exposure_krw s.available_budget_krw ≡ false)
        × ((available : F)
            → s.available_krw_balance ≡ some available
            → (s.available_budget_krw ≡ nought)
              ⊎ (lt (available - s.cash_reserve_krw) s.available_budget_krw ≡ false))
        × (s.available_krw_balance ≡ none → s.available_budget_krw ≡ nought)
  unfolding build_capital_snapshot Capital.remaining_exposure_of
  budget_bounds i = (
    budget_from-nonneg _ _ _,
    budget_from-remaining _ _ _,
    λ available h. rw h (budget_from-limit _ _ available),
    λ h. rw h refl,
  )

  granted-Fits :
      (config : Config F) (w : Allocator.Snapshot F) (s : Account F) (xs : List (Accepted F))
      → Along (Fits config w) grant s xs
      → xs ≢ []
      → Allocator.snapshot_block w ≡ none
  granted-Fits config w s [] h k = absurd (k refl)
  granted-Fits config w s (a ∷ xs) h k = h.0.no_mismatch

  -- If a run of the allocator that starts from the snapshot grants anything, then the balances were
  -- read, for each symbol of an open position the exchange has the volume of the positions within the
  -- tolerance, and the open orders of the tables are those that the exchange listed for the markets of
  -- which it was asked, as far as its answers came: a request for a market's orders that fails counts as
  -- one without orders.
  pub granted-Agrees :
      (i : Inputs F) (config : Config F) (f : Facts F) (candidates : List (Candidate F))
      (next_session_id : ℕ) (t : Tables F)
      → (let w = for_allocator i (build_capital_snapshot i) in
          (Run.allocate config w f candidates next_session_id t).accepted ≢ [])
      → Agrees i
  granted-Agrees i config f candidates next_session_id t h =
      let w = for_allocator i (build_capital_snapshot i) in
      no_mismatch-Agrees i (
        granted-Fits config w _ _ (allocate-IsFunded ord config w f candidates next_session_id t).0
          h)
