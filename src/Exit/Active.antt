-- ===== src/Exit/Active.antt =====
-- At most one exit candidate of a position is active.
use Prim.Native.Nat.{◌+◌, ◌≤◌}
use auto_coin_bot.Common.{
  ℕ, ◌≡◌, refl, Bool, Option, none, some, List, [], ◌∷◌, ◌++◌, arith, Bool-cases, inl, inr, ◌==◌,
  count, as_ℕ,
}
use auto_coin_bot.Common.Float.{Float}
use auto_coin_bot.Exit.Rows.{Position, Candidate, Store, Reason}
use auto_coin_bot.Exit.Store
use auto_coin_bot.Exit.Store.{is_active_for, load_active_exit_candidate}
use auto_coin_bot.Exit.Trigger
use auto_coin_bot.Exit.Trigger.{Config}

module _ {A : Type 0} where
  count-append : (p : A → Bool) (xs ys : List A) → count p (xs ++ ys) ≡ count p xs + count p ys
  count-append p [] ys = omega arith
  count-append p (x ∷ xs) ys = omega (arith, count-append p xs ys)

  newest-none :
      (created_at id : A → ℕ) (p : A → Bool) (xs : List A)
      → Store.newest created_at id p xs ≡ none
      → count p xs ≡ 0
  unfolding Store.newest
  newest-none created_at id p [] h = refl
  newest-none created_at id p (x ∷ xs) h = elim (Bool-cases (p x)) [
    | inl e ↦ cc (rw e at h)
    | inr e ↦ rw e (omega (arith, newest-none created_at id p xs (rw e at h)))
  ]

module _ {F : Type 0} where
  abbrev pub IsUnique : Store F → Type 0
  IsUnique s = (p : ℕ) → count (is_active_for p) s.candidates ≤ 1

module _ {F : Type 0} ⦃num : Float F⦄ where
  create_new-candidates :
      (config : Config F) (p : Position F) (reason : Reason) (price : F) (candle : Option ℕ)
      (now : ℕ) (s : Store F)
      → (Trigger.create_new config p reason price candle now s).0.candidates
        ≡ s.candidates
          ++ Trigger.new_candidate config p reason price candle now s.next_candidate_id ∷ []
  unfolding Trigger.create_new Trigger.update_live_position_metrics Store.create_exit_candidate
      Store.update_live_position Store.update_live_strategy_session
  create_new-candidates config p reason price candle now s = refl

  -- The candidate that is created counts for its own position only.
  new_candidate_count :
      (config : Config F) (p : Position F) (reason : Reason) (price : F) (candle : Option ℕ)
      (now id q : ℕ)
      → as_ℕ (is_active_for q (Trigger.new_candidate config p reason price candle now id))
        ≡ as_ℕ (p.id == q)
  unfolding Trigger.new_candidate
  new_candidate_count config p reason price candle now id q = ground arith

  create_new-IsUnique :
      (config : Config F) (p : Position F) (reason : Reason) (price : F) (candle : Option ℕ)
      (now : ℕ) (s : Store F)
      → IsUnique s
      → count (is_active_for p.id) s.candidates ≡ 0
      → IsUnique (Trigger.create_new config p reason price candle now s).0
  create_new-IsUnique config p reason price candle now s v h q =
      let c = Trigger.new_candidate config p reason price candle now s.next_candidate_id in
      let more = count-append (is_active_for q) s.candidates (c ∷ []) in
      let one = new_candidate_count config p reason price candle now s.next_candidate_id q in
      let few = v q in
      rw (create_new-candidates config p reason price candle now s) (elim (Bool-cases (p.id == q)) [
        | inl k ↦
            let same : p.id ≡ q = ground arith in omega (arith, more, rw k at one, rw same at h)
        | inr k ↦ omega (arith, more, rw k at one, few)
      ])

  create_unless_active-IsUnique :
      (active : Option (Candidate F)) (config : Config F) (p : Position F) (reason : Reason)
      (price : F) (candle : Option ℕ) (now : ℕ) (s : Store F)
      → IsUnique s
      → load_active_exit_candidate p.id s ≡ active
      → IsUnique (Trigger.create_unless_active active config p reason price candle now s).0
  unfolding Trigger.create_unless_active load_active_exit_candidate
      Trigger.update_live_position_metrics Store.update_live_position
  create_unless_active-IsUnique none config p reason price candle now s v h =
      create_new-IsUnique config p reason price candle now s v
        (newest-none (λ c. c.created_at) (λ c. c.id) (is_active_for p.id) s.candidates h)
  create_unless_active-IsUnique (some active) config p reason price candle now s v h = v

  create-IsUnique :
      (config : Config F) (p : Position F) (reason : Reason) (price : F) (candle : Option ℕ)
      (now : ℕ) (s : Store F)
      → IsUnique s
      → IsUnique (Trigger.create_exit_candidate_for_position config p reason price candle now s).0
  unfolding Trigger.create_exit_candidate_for_position
  create-IsUnique config p reason price candle now s v =
      elim (Bool-cases (Trigger.is_past_exit p.status)) [
        | inl e ↦ rw e v
        | inr e ↦ rw e (
            create_unless_active-IsUnique (load_active_exit_candidate p.id s) config p reason price
              candle now s v refl)
      ]

  create_for-IsUnique :
      (reason : Option Reason) (config : Config F) (p : Position F) (price : F) (candle : Option ℕ)
      (now : ℕ) (s : Store F)
      → IsUnique s
      → IsUnique (Trigger.create_for reason config p price candle now s).0
  unfolding Trigger.create_for
  create_for-IsUnique none config p price candle now s v = v
  create_for-IsUnique (some reason) config p price candle now s v =
      create-IsUnique config p reason price candle now s v

  -- If each position has at most one active exit candidate, this holds after the triggers were looked at
  -- for any position and price: a second trigger finds the candidate of the first.
  pub maybe_create-IsUnique :
      (config : Config F) (p : Position F) (price : F) (candle : Option ℕ) (now : ℕ) (s : Store F)
      → IsUnique s
      → IsUnique (Trigger.maybe_create_price_exit_candidate config p price candle now s).0
  unfolding Trigger.maybe_create_price_exit_candidate Trigger.update_live_position_metrics
      Store.update_live_position
  maybe_create-IsUnique config p price candle now s v =
      create_for-IsUnique (Trigger.exit_reason config p price now) config p price candle now _ v
