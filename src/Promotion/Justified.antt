-- ===== src/Promotion/Justified.antt =====
-- What a candidate's promotion rests on.
use Prim.Native.String.{String}
use auto_coin_bot.Common.{
  ℕ, ◌≡◌, ◌⊎◌, refl, sym, ap, ◌∙◌, Bool, true, false, Option, none, some, List, [], ◌∷◌, ◌++◌,
  arith, Bool-cases, Option-cases, inl, inr, ltb, ◌==◌, All, All-append, append_assoc, append_nil,
  select_first, select_first-holds, is_empty, get_or_else, if◌then◌else◌,
}
use auto_coin_bot.Common.Float.{Float, lt, le, gt}
use auto_coin_bot.Promotion
use auto_coin_bot.Promotion.{
  Status, Candidate, Promotion as Entry, Tables, Config, Session, Blocker, found, shadow_passed,
  live_eligible, paused, kill_switch_pauses, first_count, first_number, is_shadow_running,
  is_shadow_passed, after_first,
}

abbrev pub IsLiveStep : Status → Type 0
IsLiveStep to = (to ≡ shadow_passed) ⊎ (to ≡ live_eligible)

found-nil :
    (test : Bool) (b : Blocker) (bs : List Blocker)
    → found test b bs ≡ []
    → (test ≡ false) × (bs ≡ [])
found-nil true b bs h = cc h
found-nil false b bs h = (refl, h)

nil-of-empty : (bs : List Blocker) → is_empty bs ≡ true → bs ≡ []
nil-of-empty [] h = refl
nil-of-empty (b ∷ bs) h = cc h

module _ {F : Type 0} ⦃num : Float F⦄ where
  -- The gates of a forward session.
  pub record Passes (config : Config F) (now : ℕ) (s : Session F) : Type 0 where
    pub trades : ltb (first_count s.trade_counts) config.min_forward_trades ≡ false
    pub runtime :
        lt (Promotion.forward_runtime_hours now s) config.min_forward_runtime_hours ≡ false
    pub total_return :
        lt (first_number s.total_return_percents) config.min_forward_return_percent ≡ false
    pub mdd : gt (first_number s.mdds) config.max_forward_mdd ≡ false
    pub win_rate : lt (first_number s.win_rates) config.min_forward_win_rate ≡ false
    pub profit_factor : lt (first_number s.profit_factors) config.min_profit_factor ≡ false
    pub expectancy : le (Promotion.expectancy_after_fee s) config.min_expectancy_after_fee ≡ false
    pub profit_share :
        gt (Promotion.single_trade_profit_share s) config.max_single_trade_profit_share ≡ false

  session_blockers-Passes :
      (config : Config F) (now : ℕ) (s : Session F)
      → Promotion.session_blockers config now s ≡ []
      → Passes config now s
  unfolding Promotion.session_blockers
  session_blockers-Passes config now s h =
      let a = found-nil _ _ _ h in
      let b = found-nil _ _ _ a.1 in
      let c = found-nil _ _ _ b.1 in
      let d = found-nil _ _ _ c.1 in
      let e = found-nil _ _ _ d.1 in
      let f = found-nil _ _ _ e.1 in
      let g = found-nil _ _ _ f.1 in
      let i = found-nil _ _ _ g.1 in
      record {
        trades = a.0;
        runtime = b.0;
        total_return = c.0;
        mdd = d.0;
        win_rate = e.0;
        profit_factor = f.0;
        expectancy = g.0;
        profit_share = i.0;
      }

  pub record IsJustified (config : Config F) (now : ℕ) (sessions : ℕ → Option (Session F))
      (e : Entry) : Type 0 where
    pub session : Session F
    pub known : sessions e.candidate_strategy_id ≡ some session
    pub cause :
        ((e.to_status ≡ paused) × (kill_switch_pauses config session ≡ true))
        ⊎ (IsLiveStep e.to_status
            × (kill_switch_pauses config session ≡ false)
            × Passes config now session)

module _ {F : Type 0} ⦃num : Float F⦄ (config : Config F) (now : ℕ)
    (sessions : ℕ → Option (Session F)) where
  -- The second tables have more promotions, and each is justified.
  abbrev pub Grows : Tables → Tables → Type 0
  Grows t t' =
      (more : List Entry) × (t'.promotions ≡ t.promotions ++ more)
      × All (IsJustified config now sessions) more

  Grows-refl : (t : Tables) → Grows t t
  Grows-refl t = ([], sym (append_nil t.promotions), tt)

  Grows-trans : (t u v : Tables) → Grows t u → Grows u v → Grows t v
  Grows-trans t u v (xs, h, p) (ys, k, q) = (
    xs ++ ys,
    rw k (rw h (append_assoc t.promotions xs ys)),
    All-append (IsJustified config now sessions) xs ys p q,
  )

  promote-Grows :
      (exchange : String) (id : ℕ) (to : Status) (t : Tables)
      → ((e : Entry)
          → e.candidate_strategy_id ≡ id
          → e.to_status ≡ to
          → IsJustified config now sessions e)
      → Grows t (Promotion.promote_candidate_strategy exchange id to t).1
  unfolding Promotion.promote_candidate_strategy Promotion.promote_row
  promote-Grows exchange id to t why =
      elim (Option-cases (select_first (λ (c : Candidate). c.id == id) t.candidates)) [
        | inl e ↦ rw e (Grows-refl t)
        | inr (row, e) ↦
            let same = select_first-holds (λ (c : Candidate). c.id == id) t.candidates e in
            let id_of : row.id ≡ id = ground (arith, same) in rw e (_, refl, (why _ id_of refl, tt))
      ]

  promote_passed-Grows :
      (c : Candidate) (id : ℕ) (t : Tables)
      → c.id ≡ id
      → ((e : Entry)
          → e.candidate_strategy_id ≡ id
          → IsLiveStep e.to_status
          → IsJustified config now sessions e)
      → Grows t (Promotion.promote_passed config c t)
  unfolding Promotion.promote_passed
  promote_passed-Grows c id t same why = elim (Bool-cases (is_shadow_passed c.status)) [
    | inl e ↦
        rw e
          (promote-Grows config.exchange c.id live_eligible t (λ x h k. why x (h ∙ same) (inr k)))
    | inr e ↦ rw e (Grows-refl t)
  ]

  -- The row that a promotion gives has the id that was asked for.
  promoted_id :
      (exchange : String) (c : Candidate) (to : Status) (t : Tables)
      → (get_or_else (Promotion.promote_candidate_strategy exchange c.id to t).0 c).id ≡ c.id
  unfolding Promotion.promote_candidate_strategy
  promoted_id exchange c to t =
      elim (Option-cases (select_first (λ (d : Candidate). d.id == c.id) t.candidates)) [
        | inl e ↦ rw e refl
        | inr (row, e) ↦
            let same = select_first-holds (λ (d : Candidate). d.id == c.id) t.candidates e in
            let id_of : row.id ≡ c.id = ground (arith, same) in rw e id_of
      ]

  promote_steps-Grows :
      (c : Candidate) (t : Tables)
      → ((e : Entry)
          → e.candidate_strategy_id ≡ c.id
          → IsLiveStep e.to_status
          → IsJustified config now sessions e)
      → Grows t (Promotion.promote_steps config c t)
  unfolding Promotion.promote_steps
  promote_steps-Grows c t why = elim (Bool-cases (is_shadow_running c.status)) [
    | inl e ↦
        let first = Promotion.promote_candidate_strategy config.exchange c.id shadow_passed t in
        let row = get_or_else first.0 c in
        rw e (
          Grows-trans t first.1 (Promotion.promote_passed config row first.1)
            (promote-Grows config.exchange c.id shadow_passed t (λ x h k. why x h (inl k)))
            (promote_passed-Grows row c.id first.1 (promoted_id config.exchange c shadow_passed t)
              why))
    | inr e ↦ rw e (promote_passed-Grows c c.id t refl why)
  ]

  with_session-Grows :
      (c : Candidate) (found : Option (Session F)) (t : Tables)
      → sessions c.id ≡ found
      → Grows t (Promotion.promote_with_session config now c found t)
  unfolding Promotion.promote_with_session
  with_session-Grows c none t known = Grows-refl t
  with_session-Grows c (some s) t known = elim (Bool-cases (kill_switch_pauses config s)) [
    | inl e ↦ rw e (
        promote-Grows config.exchange c.id paused t
          (λ x h k. record { session = s; known = ap sessions h ∙ known; cause = inl (k, e) }))
    | inr e ↦ rw e (elim (Bool-cases (is_empty (Promotion.session_blockers config now s))) [
      | inl k ↦
          let passes = session_blockers-Passes config now s (nil-of-empty _ k) in
          rw k (
            promote_steps-Grows c t (λ x h live. record {
              session = s;
              known = ap sessions h ∙ known;
              cause = inr (live, e, passes);
            }))
      | inr k ↦ rw k (Grows-refl t)
    ])
  ]

  promote_all-Grows :
      (cs : List Candidate) (t : Tables) → Grows t (Promotion.promote_all config now sessions cs t)
  unfolding Promotion.promote_all
  promote_all-Grows [] t = Grows-refl t
  promote_all-Grows (c ∷ cs) t =
      let t' = Promotion.promote_with_session config now c (sessions c.id) t in
      Grows-trans t t' (Promotion.promote_all config now sessions cs t')
        (with_session-Grows c (sessions c.id) t refl) (promote_all-Grows cs t')

  Grows-if : (test : Bool) (t u : Tables) → Grows t u → Grows t (if test then u else t)
  Grows-if true t u h = h
  Grows-if false t u h = Grows-refl t

  -- A run adds promotions to the table and changes none. Each new one is of a candidate with a forward
  -- session: to PAUSED if the kill switch pauses the strategy on the session's orders, and to
  -- SHADOW_PASSED or LIVE_ELIGIBLE only if it does not and the session passes all of the gates.
  pub promotions_justified :
      (t : Tables) → Grows t (Promotion.promote_shadow_candidates config now sessions t)
  unfolding Promotion.promote_shadow_candidates
  promotions_justified t = Grows-if config.enabled t _ (promote_all-Grows _ t)
