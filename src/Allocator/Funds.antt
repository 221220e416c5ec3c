-- ===== src/Allocator/Funds.antt =====
-- A run of the allocator grants what its account covers.
use Prim.Native.Nat.{◌<◌}
use auto_coin_bot.Common.{
  ℕ, ◌≡◌, refl, Bool, true, false, Option, none, some, List, [], ◌∷◌, arith, Bool-cases, inl, inr,
  if◌then◌else◌, leb, length,
}
use auto_coin_bot.Common.Float.{Float, IsOrdered, ◌+◌}
use auto_coin_bot.Slots.{Slot, Tables}
use auto_coin_bot.Allocator
use auto_coin_bot.Allocator.{Config, Candidate, Snapshot, Facts, Block, SameMarket}
use auto_coin_bot.Allocator.Run
use auto_coin_bot.Allocator.Run.{Accepted, Loop}
use auto_coin_bot.Allocator.Account.{Account, account, IsFunded, length-snoc, accept-IsFunded}
use auto_coin_bot.Allocator.Bounds.{
  approved_order-bounds, final_block-none, candidate_block_reason-none,
}

module _ {F : Type 0} ⦃num : Float F⦄ (ord : IsOrdered F) where
  or_refuse-IsFunded :
      (config : Config F) (w : Snapshot F) (s : Account F) (block : Option Block) (c : Candidate F)
      (l l' : Loop F)
      → IsFunded config w s l
      → (block ≡ none → IsFunded config w s l')
      → IsFunded config w s (Run.or_refuse block c l l')
  unfolding Run.or_refuse Run.refuse
  or_refuse-IsFunded config w s none c l l' v h = h refl
  or_refuse-IsFunded config w s (some b) c l l' v h = v

  accept_entry-IsFunded :
      (config : Config F) (w : Snapshot F) (f : Facts F) (s : Account F) (c : Candidate F)
      (slot : Slot F) (rest : List (Slot F)) (l : Loop F)
      → IsFunded config w s l
      → l.empty_slots ≡ slot ∷ rest
      → length l.accepted < config.max_new_entries_per_run
      → (let amount = Allocator.approved_order config w c l.available_budget in
          Allocator.final_block config w
              (Allocator.candidate_block_reason config f l.open_markets c)
              amount
              w.remaining_exposure_krw
            ≡ none
          → IsFunded config w s (Run.accept_entry config f c amount slot rest l))
  unfolding Run.accept_entry
  accept_entry-IsFunded config w f s c slot rest l v next few h =
      let budget = l.available_budget in
      let amount = Allocator.approved_order config w c budget in
      let bounds = approved_order-bounds ord config w c budget in
      let clear = final_block-none config w _ amount w.remaining_exposure_krw h in
      let a = Run.entry_of c slot.id l.next_session_id amount in
      accept-IsFunded config w s l (Run.accept_entry config f c amount slot rest l) a v
        (record {
          within_budget = bounds.0;
          within_position = bounds.1;
          within_order = bounds.2;
          above_minimum = clear.2;
          no_mismatch = clear.1;
          new_market = candidate_block_reason-none config f l.open_markets c clear.0;
          next_slot = λ e. rw next refl;
          counted = few;
        })
        refl (rw next (cc (length-snoc l.accepted a)))

  accept_replacement-IsFunded :
      (config : Config F) (w : Snapshot F) (f : Facts F) (s : Account F) (c : Candidate F)
      (slot : Slot F) (l : Loop F)
      → IsFunded config w s l
      → length l.accepted < config.max_new_entries_per_run
      → (let amount =
            Allocator.approved_order config w c
              (Allocator.replacement_budget w slot.reserved_krw) in
          Allocator.final_block config w
              (Allocator.candidate_block_reason config f l.open_markets c)
              amount
              (w.remaining_exposure_krw + slot.reserved_krw)
            ≡ none
          → IsFunded config w s (Run.accept_replacement config f c amount slot l))
  unfolding Run.accept_replacement Allocator.replacement_budget
  accept_replacement-IsFunded config w f s c slot l v few h =
      let budget = Allocator.replacement_budget w slot.reserved_krw in
      let amount = Allocator.approved_order config w c budget in
      let bounds = approved_order-bounds ord config w c budget in
      let clear =
        final_block-none config w _ amount (w.remaining_exposure_krw + slot.reserved_krw) h in
      let a = Run.replacement_of c slot l.next_session_id amount in
      accept-IsFunded config w s l (Run.accept_replacement config f c amount slot l) a v
        (record {
          within_budget = bounds.0;
          within_position = bounds.1;
          within_order = bounds.2;
          above_minimum = clear.2;
          no_mismatch = clear.1;
          new_market = candidate_block_reason-none config f l.open_markets c clear.0;
          next_slot = λ e. cc e;
          counted = few;
        })
        refl (cc (length-snoc l.accepted a))

  allocate_entry-IsFunded :
      (config : Config F) (w : Snapshot F) (f : Facts F) (s : Account F) (c : Candidate F)
      (slots : List (Slot F)) (l : Loop F)
      → IsFunded config w s l
      → l.empty_slots ≡ slots
      → length l.accepted < config.max_new_entries_per_run
      → IsFunded config w s (Run.allocate_entry config w f c slots l)
  unfolding Run.allocate_entry Run.refuse
  allocate_entry-IsFunded config w f s c [] l v next few = v
  allocate_entry-IsFunded config w f s c (slot ∷ rest) l v next few =
      or_refuse-IsFunded config w s _ c l _ v
        (accept_entry-IsFunded config w f s c slot rest l v next few)

  allocate_by-IsFunded :
      (found : SameMarket F) (config : Config F) (w : Snapshot F) (f : Facts F) (s : Account F)
      (c : Candidate F) (l : Loop F)
      → IsFunded config w s l
      → length l.accepted < config.max_new_entries_per_run
      → IsFunded config w s (Run.allocate_by found config w f c l)
  unfolding Run.allocate_by Run.allocate_replacement Run.refuse
  allocate_by-IsFunded Allocator.no_slot config w f s c l v few =
      allocate_entry-IsFunded config w f s c l.empty_slots l v refl few
  allocate_by-IsFunded (Allocator.taken b) config w f s c l v few = v
  allocate_by-IsFunded (Allocator.replaceable slot) config w f s c l v few =
      or_refuse-IsFunded config w s _ c l _ v
        (accept_replacement-IsFunded config w f s c slot l v few)

  either-IsFunded :
      (config : Config F) (w : Snapshot F) (s : Account F) (test : Bool) (l l' : Loop F)
      → IsFunded config w s l
      → IsFunded config w s l'
      → IsFunded config w s (if test then l else l')
  either-IsFunded config w s true l l' v v' = v
  either-IsFunded config w s false l l' v v' = v'

  allocate_one-IsFunded :
      (config : Config F) (w : Snapshot F) (f : Facts F) (s : Account F) (c : Candidate F)
      (l : Loop F)
      → IsFunded config w s l
      → length l.accepted < config.max_new_entries_per_run
      → IsFunded config w s (Run.allocate_one config w f c l)
  unfolding Run.allocate_one Run.refuse
  allocate_one-IsFunded config w f s c l v few =
      either-IsFunded config w s f.auto_trading_enabled _ _
        (allocate_by-IsFunded (Allocator.same_market_reserved_slot config f c l.slots) config w f s
          c l v few)
        v

  allocate_all-IsFunded :
      (config : Config F) (w : Snapshot F) (f : Facts F) (s : Account F) (cs : List (Candidate F))
      (l : Loop F)
      → IsFunded config w s l
      → IsFunded config w s (Run.allocate_all config w f cs l)
  unfolding Run.allocate_all
  allocate_all-IsFunded config w f s [] l v = v
  allocate_all-IsFunded config w f s (c ∷ cs) l v =
      let full = leb config.max_new_entries_per_run (length l.accepted) in
      elim (Bool-cases full) [
        | inl e ↦ rw e v
        | inr e ↦
            let few : length l.accepted < config.max_new_entries_per_run = ground arith in
            rw e (
              allocate_all-IsFunded config w f s cs (Run.allocate_one config w f c l)
                (allocate_one-IsFunded config w f s c l v few))
      ]

  -- The grants of a run, in order, are paid from its account, which begins with the budget, the open
  -- markets and the empty slots of the snapshot: an entry is no larger than what is left of the budget
  -- and takes the next empty slot, a replacement is no larger than the cash of the snapshot and than
  -- its remaining exposure with what the replacement releases. Each is at least the minimum order and
  -- at most the limits of an order and of a position. Its market is not open and has no earlier grant,
  -- and the grants before it are fewer than the limit of a run. There is none if the snapshot failed or
  -- found a mismatch. What is left in the end is the loop's own account.
  pub allocate-IsFunded :
      (config : Config F) (w : Snapshot F) (f : Facts F) (candidates : List (Candidate F))
      (next_session_id : ℕ) (t : Tables F)
      → IsFunded config w
          (account (Run.start w next_session_id t))
          (Run.allocate config w f candidates next_session_id t)
  unfolding Run.allocate Run.start
  allocate-IsFunded config w f candidates next_session_id t =
      allocate_all-IsFunded config w f (account (Run.start w next_session_id t))
        (Run.best_first config candidates) (Run.start w next_session_id t) (tt, refl)
