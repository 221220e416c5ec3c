-- ===== src/Allocator/Run.antt =====
-- The loop of `run_capital_allocator_once` over the candidates, best first. It writes to the tables of
-- Slots. The sessions and the candidates' own rows, which it creates and promotes on the way, are left
-- out, but for the session's id.
use Prim.Native.Nat.{◌+◌ as plus, ◌*◌ as times}
use Prim.Native.String.{String}
use auto_coin_bot.Common.{
  ℕ, Bool, true, false, Option, none, some, List, [], ◌∷◌, ◌++◌, if◌then◌else◌, leb, length, filter,
}
use auto_coin_bot.Common.Float.{Float, ◌+◌, ◌-◌, lt, nought, max}
use auto_coin_bot.Slots
use auto_coin_bot.Slots.{Slot, Reservation, Tables, is_empty_status}
use auto_coin_bot.Allocator
use auto_coin_bot.Allocator.{Config, Candidate, Snapshot, Facts, Block, SameMarket}

-- An entry of `accepted`, with what a replacement released.
pub record Accepted (F : Type 0) : Type 0 where
  pub candidate_id : ℕ
  pub market : String
  pub slot_id : ℕ
  pub session_id : ℕ
  pub approved_order_krw : F
  pub is_replacement : Bool
  pub replaced_candidate_strategy_id : Option ℕ
  pub released_krw : F

pub record Loop (F : Type 0) : Type 0 where
  pub slots : List (Slot F)
  pub empty_slots : List (Slot F)
  pub open_markets : List String
  pub available_budget : F
  pub accepted : List (Accepted F)
  pub blocked : List (Candidate F × Block)
  pub tables : Tables F
  pub next_session_id : ℕ

module _ {F : Type 0} ⦃num : Float F⦄ where
  -- `sorted(…, reverse=True)` by the score, which leaves equal ones in order.
  unfoldable pub insert_candidate : Config F → Candidate F → List (Candidate F) → List (Candidate F)
  insert_candidate config c [] = c ∷ []
  insert_candidate config c (d ∷ ds) =
      if lt (Allocator.allocation_score config c) (Allocator.allocation_score config d)
      then d ∷ insert_candidate config c ds
      else c ∷ d ∷ ds

  unfoldable pub best_first : Config F → List (Candidate F) → List (Candidate F)
  unfolding insert_candidate
  best_first config [] = []
  best_first config (c ∷ cs) = insert_candidate config c (best_first config cs)

  unfoldable pub refuse : Candidate F → Block → Loop F → Loop F
  refuse c b l = record l { blocked = l.blocked ++ (c, b) ∷ [] }

  unfoldable pub reservation_of : Config F → Facts F → Candidate F → ℕ → F → Reservation F
  reservation_of config f c slot amount = record {
    exchange = f.exchange;
    market = c.market;
    candidate_strategy_id = c.id;
    slot_id = some slot;
    amount_krw = amount;
    status = Slots.held;
    expires_at_utc = some (plus f.now (times config.reservation_ttl_minutes 60));
    expires_at = some (plus f.now (times config.reservation_ttl_minutes 60));
    updated_at = f.now;
  }

  -- The reservation and the slot of an accepted candidate.
  unfoldable pub book : Config F → Facts F → Candidate F → ℕ → ℕ → F → Tables F → Tables F
  unfolding reservation_of
  book config f c slot session amount t =
      Slots.reserve_position_slot slot f.exchange c.market c.id (some session) amount f.reason f.now
        (Slots.create_order_reservation (reservation_of config f c slot amount) t)

  abbrev pub entry_of : Candidate F → ℕ → ℕ → F → Accepted F
  entry_of c slot session amount = record {
    candidate_id = c.id;
    market = c.market;
    slot_id = slot;
    session_id = session;
    approved_order_krw = amount;
    is_replacement = false;
    replaced_candidate_strategy_id = none;
    released_krw = nought;
  }

  unfoldable pub accept_entry :
      Config F → Facts F → Candidate F → F → Slot F → List (Slot F) → Loop F → Loop F
  unfolding book
  accept_entry config f c amount slot rest l = record l {
    empty_slots = rest;
    open_markets = c.market ∷ l.open_markets;
    available_budget = max (l.available_budget - amount) nought;
    accepted = l.accepted ++ entry_of c slot.id l.next_session_id amount ∷ [];
    tables = book config f c slot.id l.next_session_id amount l.tables;
    next_session_id = plus l.next_session_id 1;
  }

  abbrev release : Option ℕ → String → ℕ → Tables F → Tables F
  release none market now t = t
  release (some candidate) market now t = Slots.replace_reservations candidate market now t

  abbrev pub replacement_of : Candidate F → Slot F → ℕ → F → Accepted F
  replacement_of c slot session amount = record {
    candidate_id = c.id;
    market = c.market;
    slot_id = slot.id;
    session_id = session;
    approved_order_krw = amount;
    is_replacement = true;
    replaced_candidate_strategy_id = slot.candidate_strategy_id;
    released_krw = slot.reserved_krw;
  }

  -- `_replace_reserved_slot_candidate`, and what the loop does after it.
  unfoldable pub accept_replacement :
      Config F → Facts F → Candidate F → F → Slot F → Loop F → Loop F
  unfolding book
  accept_replacement config f c amount slot l =
      let session = l.next_session_id in
      let released = release slot.candidate_strategy_id c.market f.now l.tables in
      record l {
        slots =
            Slots.update_slot
              (Slots.reserve f.exchange c.market c.id (some session) amount f.reason f.now) slot.id
              l.slots;
        open_markets = c.market ∷ l.open_markets;
        available_budget = max (l.available_budget + slot.reserved_krw - amount) nought;
        accepted = l.accepted ++ replacement_of c slot session amount ∷ [];
        tables = book config f c slot.id session amount released;
        next_session_id = plus session 1;
      }

  unfoldable pub or_refuse : Option Block → Candidate F → Loop F → Loop F → Loop F
  or_refuse none c l accepted = accepted
  or_refuse (some b) c l accepted = refuse c b l

  -- A candidate with no slot of its market takes the first empty one.
  unfoldable pub allocate_entry :
      Config F → Snapshot F → Facts F → Candidate F → List (Slot F) → Loop F → Loop F
  allocate_entry config w f c [] l = refuse c Allocator.no_empty_slot l
  allocate_entry config w f c (slot ∷ rest) l =
      let amount = Allocator.approved_order config w c l.available_budget in
      let block =
        Allocator.final_block config w (Allocator.candidate_block_reason config f l.open_markets c)
          amount w.remaining_exposure_krw in
      or_refuse block c l (accept_entry config f c amount slot rest l)

  unfoldable pub allocate_replacement :
      Config F → Snapshot F → Facts F → Candidate F → Slot F → Loop F → Loop F
  allocate_replacement config w f c slot l =
      let released = slot.reserved_krw in
      let amount = Allocator.approved_order config w c (Allocator.replacement_budget w released) in
      let block =
        Allocator.final_block config w (Allocator.candidate_block_reason config f l.open_markets c)
          amount (w.remaining_exposure_krw + released) in
      or_refuse block c l (accept_replacement config f c amount slot l)

  unfoldable pub allocate_by :
      SameMarket F → Config F → Snapshot F → Facts F → Candidate F → Loop F → Loop F
  allocate_by (Allocator.taken b) config w f c l = refuse c b l
  allocate_by Allocator.no_slot config w f c l = allocate_entry config w f c l.empty_slots l
  allocate_by (Allocator.replaceable slot) config w f c l = allocate_replacement config w f c slot l

  unfoldable pub allocate_one : Config F → Snapshot F → Facts F → Candidate F → Loop F → Loop F
  allocate_one config w f c l =
      if f.auto_trading_enabled
      then allocate_by (Allocator.same_market_reserved_slot config f c l.slots) config w f c l
      else refuse c Allocator.policy_auto_trading_disabled l

  unfoldable pub allocate_all :
      Config F → Snapshot F → Facts F → List (Candidate F) → Loop F → Loop F
  allocate_all config w f [] l = l
  allocate_all config w f (c ∷ cs) l =
      let rest = allocate_all config w f cs (allocate_one config w f c l) in
      if leb config.max_new_entries_per_run (length l.accepted) then l else rest

  unfoldable pub start : Snapshot F → ℕ → Tables F → Loop F
  start w next_session_id t = record {
    slots = w.slots;
    empty_slots = filter (λ (s : Slot F). is_empty_status s.status) w.slots;
    open_markets = w.open_markets;
    available_budget = w.available_budget_krw;
    accepted = [];
    blocked = [];
    tables = t;
    next_session_id = next_session_id;
  }

  -- The run once it has the lock and the allocator is enabled, from the snapshot on.
  unfoldable pub allocate :
      Config F → Snapshot F → Facts F → List (Candidate F) → ℕ → Tables F → Loop F
  unfolding best_first start
  allocate config w f candidates next_session_id t =
      allocate_all config w f (best_first config candidates) (start w next_session_id t)
