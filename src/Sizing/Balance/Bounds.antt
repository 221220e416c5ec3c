-- ===== src/Sizing/Balance/Bounds.antt =====
-- What an answer of the balance cap promises.
use auto_coin_bot.Common.{
  ◌≡◌, refl, inl, inr, true, false, Option, none, some, arith, Bool-cases, is_some, if◌then◌else◌,
  ap, sym, ◌∙◌, some-injective,
}
use auto_coin_bot.Common.Float.{
  Float, IsOrdered, ◌+◌, ◌-◌, ◌/◌, lt, le, gt, dec, int, nought, max, min, float, float_or,
}
use auto_coin_bot.Common.Fixed.{fixed}
use auto_coin_bot.Sizing.Balance
use auto_coin_bot.Sizing.Balance.{Request, Sizing, Code}

module _ {F : Type 0} ⦃num : Float F⦄ where
  -- What the balance `available` affords with the fees on top, the default of whose buffer is 0.0002.
  abbrev afforded : Request F → Option F → F → F
  afforded r env available =
      let extra = float_or r.extra_fee_buffer_rate (float_or env (dec 2 4)) in
      let rate = max (float r.fee_rate + extra) nought in
      if gt rate (nought - int 1)
      then max available nought / (int 1 + rate)
      else max available nought

  -- An allowed amount against its three bounds.
  pub record IsCapped (r : Request F) (env : Option F) (s : Sizing F) : Type 0 where
    pub known : is_some r.available_krw ≡ true
    pub within_balance :
        (available : F)
        → r.available_krw ≡ some available
        → lt (afforded r env available) s.actual_order_krw ≡ false
    pub within_request : lt (max (float r.requested_order_krw) nought) s.actual_order_krw ≡ false
    pub above_minimum : lt s.actual_order_krw (max (float r.min_order_krw) nought) ≡ false
    pub no_code : s.block_code ≡ none

pub record IsRefused {F : Type 0} ⦃num : Float F⦄ (s : Sizing F) : Type 0 where
  pub coded : is_some s.block_code ≡ true
  pub reason : (c : Code) → s.block_code ≡ some c → s.sizing_reason ≡ Balance.blocked c
  pub no_amount : s.actual_order_krw ≡ nought

abbrev pub Answers : {F : Type 0} ⦃num : Float F⦄ → Request F → Option F → Sizing F → Type 0
Answers r env s = (s.allowed ≡ true → IsCapped r env s) × (s.allowed ≡ false → IsRefused s)

module _ {F : Type 0} ⦃num : Float F⦄ where
  refuse-Answers :
      (r : Request F) (env : Option F) (code : Code) → Answers r env (Balance.refuse r env code)
  unfolding Balance.refuse
  refuse-Answers r env code =
      (λ h. cc, λ h. record { coded = refl; reason = λ c e. ground arith; no_amount = refl })

module _ {F : Type 0} ⦃num : Float F⦄ (laws : IsOrdered F) where
  open laws use {lt_asym, lt_irrefl}

  settle-Answers :
      (r : Request F) (env : Option F) (code : Code) (available : F)
      → r.available_krw ≡ some available
      → Answers r env (
          Balance.settle
            (Balance.refuse r env code)
            (max (float r.requested_order_krw) nought)
            (afforded r env available))
  unfolding Balance.settle Balance.refuse
  settle-Answers r env code available known =
      let requested = max (float r.requested_order_krw) nought in
      let affordable = afforded r env available in
      let below : lt affordable (min requested affordable) ≡ false =
        ground (arith, lt_irrefl affordable, lt_asym affordable requested) in
      let low : lt requested (min requested affordable) ≡ false =
        ground (arith, lt_irrefl requested, lt_asym affordable requested) in
      elim (Bool-cases (lt (min requested affordable) (max (float r.min_order_krw) nought))) [
        | inl e ↦ rw e (
          λ h. cc h,
          λ h. record { coded = refl; reason = λ c k. ground arith; no_amount = refl },
        )
        | inr e ↦ rw e (
          λ h. record {
            known = ap is_some known;
            within_balance = λ x k. rw (some-injective (sym k ∙ known)) below;
            within_request = low;
            above_minimum = e;
            no_code = refl;
          },
          λ h. cc h,
        )
      ]

  cap-Answers :
      (r : Request F) (env : Option F) (available : Option F)
      → r.available_krw ≡ available
      → Answers r env (
          Balance.cap r env
            (Balance.floor_zero r.requested_order_krw)
            (Balance.floor_zero? available))
  unfolding Balance.cap Balance.max_affordable Balance.fee_buffer
  cap-Answers r env none known = refuse-Answers r env _
  cap-Answers r env (some available) known = elim (Bool-cases (le (max available nought) nought)) [
    | inl e ↦ rw e (refuse-Answers r env _)
    | inr e ↦ rw e (settle-Answers r env Balance.order_below_minimum available known)
  ]

  -- An allowed order is no larger than the request, nor than what the balance, which is known, affords
  -- with the fees on top, and no smaller than the minimum; its code is empty. A refused order has the
  -- amount 0 and a code, which is also its reason.
  pub capped_order_bounds :
      (r : Request F) (env : Option F)
      → Answers r env (Balance.calculate_available_balance_capped_order r env)
  unfolding Balance.calculate_available_balance_capped_order
  capped_order_bounds r env =
      elim (Bool-cases (le (Balance.floor_zero r.requested_order_krw) nought)) [
        | inl e ↦ rw e (refuse-Answers r env _)
        | inr e ↦ rw e (cap-Answers r env r.available_krw refl)
      ]
