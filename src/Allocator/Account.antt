-- ===== src/Allocator/Account.antt =====
-- What the allocator has left to grant, and what a grant is measured against.
use Prim.Native.Nat.{◌+◌ as plus, ◌<◌}
use Prim.Native.String.{String}
use auto_coin_bot.Common.{
  ℕ, ◌≡◌, refl, false, Option, none, some, List, [], ◌∷◌, ◌++◌, arith, if◌then◌else◌, length,
}
use auto_coin_bot.Common.Float.{Float, ◌+◌, ◌-◌, ◌*◌, ◌/◌, lt, max, min, nought, int, float}
use auto_coin_bot.Common.Table.{str_mem}
use auto_coin_bot.Slots.{Slot}
use auto_coin_bot.Allocator
use auto_coin_bot.Allocator.{Config, Candidate, Snapshot, Facts, Block, SameMarket}
use auto_coin_bot.Allocator.Run.{Accepted, Loop}

-- What is left to grant from.
pub record Account (F : Type 0) : Type 0 where
  pub budget : F
  pub open_markets : List String
  pub empty_slots : List (Slot F)
  pub granted : ℕ

abbrev pub account : {F : Type 0} → Loop F → Account F
account l = record {
  budget = l.available_budget;
  open_markets = l.open_markets;
  empty_slots = l.empty_slots;
  granted = length l.accepted;
}

abbrev pub first_id : {F : Type 0} → List (Slot F) → Option ℕ
first_id [] = none
first_id (s ∷ slots) = some s.id

abbrev rest_of : {F : Type 0} → List (Slot F) → List (Slot F)
rest_of [] = []
rest_of (s ∷ slots) = slots

module _ {S A : Type 0} where
  abbrev pub after : (S → A → S) → S → List A → S
  after step s [] = s
  after step s (a ∷ xs) = after step (step s a) xs

  -- Each element, in its turn.
  abbrev pub Along : (S → A → Type 0) → (S → A → S) → S → List A → Type 0
  Along Ok step s [] = Unit
  Along Ok step s (a ∷ xs) = Ok s a × Along Ok step (step s a) xs

  after-append :
      (step : S → A → S) (s : S) (xs : List A) (a : A)
      → after step s (xs ++ a ∷ []) ≡ step (after step s xs) a
  after-append step s [] a = refl
  after-append step s (b ∷ xs) a = after-append step (step s b) xs a

  Along-append :
      (Ok : S → A → Type 0) (step : S → A → S) (s : S) (xs : List A) (a : A)
      → Along Ok step s xs
      → Ok (after step s xs) a
      → Along Ok step s (xs ++ a ∷ [])
  Along-append Ok step s [] a h ok = (ok, tt)
  Along-append Ok step s (b ∷ xs) a h ok = (h.0, Along-append Ok step (step s b) xs a h.1 ok)

pub length-snoc : {A : Type 0} (xs : List A) (a : A) → length (xs ++ a ∷ []) ≡ plus (length xs) 1
length-snoc [] a = refl
length-snoc (b ∷ xs) a = omega (arith, length-snoc xs a)

module _ {F : Type 0} ⦃num : Float F⦄ where
  -- The budget of a grant, and what it leaves.
  abbrev pub budget_for : Snapshot F → Account F → Accepted F → F
  budget_for w s a =
      if a.is_replacement
      then min (max (w.remaining_exposure_krw + a.released_krw) nought)
          (max (float w.available_krw_balance - w.cash_reserve_krw) nought)
      else s.budget

  abbrev pub grant : Account F → Accepted F → Account F
  grant s a = record {
    budget =
        if a.is_replacement
        then max (s.budget + a.released_krw - a.approved_order_krw) nought
        else max (s.budget - a.approved_order_krw) nought;
    open_markets = a.market ∷ s.open_markets;
    empty_slots = if a.is_replacement then s.empty_slots else rest_of s.empty_slots;
    granted = plus s.granted 1;
  }

  pub record Fits (config : Config F) (w : Snapshot F) (s : Account F) (a : Accepted F)
      : Type 0 where
    pub within_budget : lt (budget_for w s a) a.approved_order_krw ≡ false
    pub within_position :
        lt
          (w.max_total_exposure_krw * config.single_position_max_exposure_pct / int 100)
          a.approved_order_krw
        ≡ false
    pub within_order : lt config.max_order_krw a.approved_order_krw ≡ false
    pub above_minimum : lt a.approved_order_krw config.min_order_krw ≡ false
    pub new_market : str_mem a.market s.open_markets ≡ false
    pub next_slot : a.is_replacement ≡ false → first_id s.empty_slots ≡ some a.slot_id
    pub no_mismatch : Allocator.snapshot_block w ≡ none
    pub counted : s.granted < config.max_new_entries_per_run

  abbrev pub IsFunded : Config F → Snapshot F → Account F → Loop F → Type 0
  IsFunded config w s l =
      Along (Fits config w) grant s l.accepted × (after grant s l.accepted ≡ account l)

  pub accept-IsFunded :
      (config : Config F) (w : Snapshot F) (s : Account F) (l l' : Loop F) (a : Accepted F)
      → IsFunded config w s l
      → Fits config w (account l) a
      → l'.accepted ≡ l.accepted ++ a ∷ []
      → account l' ≡ grant (account l) a
      → IsFunded config w s l'
  accept-IsFunded config w s l l' a v fits grown moved = (
    rw grown (Along-append (Fits config w) grant s l.accepted a v.0 (rw v.1 fits)),
    rw grown (cc (after-append grant s l.accepted a, v.1, moved)),
  )
