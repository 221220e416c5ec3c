-- ===== src/Slots.antt =====
-- The position slots of app/database.py: `ensure_position_slots`, `reconcile_position_slots` and
-- `reserve_position_slot` on the tables `position_slots` and `order_reservations`. A call is one step.
-- Times are in seconds. The positions come in the order of `opened_at` and `id`. The rows that the
-- functions return are those of the table, which is the result here.
use Prim.Native.Nat.{◌+◌ as plus}
use Prim.Native.String.{String}
use auto_coin_bot.Common.{
  ℕ, zero, suc, Bool, true, false, not, ◌&&◌, ◌||◌, Option, none, some, List, [], ◌∷◌, ◌++◌,
  if◌then◌else◌, ltb, leb, ◌==◌, map, any, is_some,
}
use auto_coin_bot.Common.Float.{Float, ◌*◌, nought, float, or_else}
use auto_coin_bot.Common.Table.{str_eq}
pub mod Rows
unfoldable pub use Rows.*
pub mod Settled
pub mod Cover
mod Tests

module _ {F : Type 0} ⦃num : Float F⦄ where
  unfoldable pub new_slot : ℕ → ℕ → String → ℕ → Slot F
  new_slot id number exchange now = record {
    id = id;
    slot_number = number;
    status = empty;
    exchange = exchange;
    market = none;
    candidate_strategy_id = none;
    live_position_id = none;
    live_strategy_session_id = none;
    entry_order_uuid = none;
    exit_order_uuid = none;
    allocated_krw = nought;
    reserved_krw = nought;
    current_value_krw = nought;
    unrealized_pnl = nought;
    realized_pnl = nought;
    entry_reason = none;
    exit_reason = none;
    opened_at = none;
    closed_at = none;
    updated_at = now;
  }

  -- INSERT OR IGNORE: a slot's number is unique.
  pub insert_slot : ℕ → String → ℕ → Tables F → Tables F
  unfolding new_slot
  insert_slot number exchange now t =
      if any (λ (s : Slot F). s.slot_number == number) t.slots then t else record t {
        slots = t.slots ++ new_slot t.next_slot_id number exchange now ∷ [];
        next_slot_id = plus t.next_slot_id 1;
      }

  -- The slots from 1 to the number.
  pub insert_slots : ℕ → String → ℕ → Tables F → Tables F
  insert_slots zero exchange now t = t
  insert_slots (suc n) exchange now t =
      insert_slot (suc n) exchange now (insert_slots n exchange now t)

  pub ensure_position_slots : ℕ → String → ℕ → Tables F → Tables F
  ensure_position_slots max_slots exchange now t =
      insert_slots (Prim.Native.Nat.max 1 max_slots) exchange now t

  -- The first UPDATE.
  pub expire : String → ℕ → Reservation F → Reservation F
  expire exchange now r =
      if str_eq r.exchange exchange
        && is_current r.status
        && is_past (coalesce r.expires_at_utc r.expires_at) now
      then record r { status = expired; updated_at = now }
      else r

  pub holds : ℕ → Slot F → Reservation F → Bool
  holds now s r =
      has_id r.slot_id s.id
      && is_holding r.status
      && not (is_past (coalesce r.expires_at_utc r.expires_at) now)

  -- What the second and the third UPDATE set.
  pub emptied : ℕ → Slot F → Slot F
  emptied now s = record s {
    status = empty;
    market = none;
    candidate_strategy_id = none;
    live_position_id = none;
    live_strategy_session_id = none;
    entry_order_uuid = none;
    exit_order_uuid = none;
    allocated_krw = nought;
    reserved_krw = nought;
    current_value_krw = nought;
    unrealized_pnl = nought;
    realized_pnl = nought;
    entry_reason = none;
    exit_reason = none;
    opened_at = none;
    closed_at = some now;
    updated_at = now;
  }

  pub free_unheld : String → ℕ → List (Reservation F) → Slot F → Slot F
  unfolding holds emptied
  free_unheld exchange now reservations s =
      if str_eq s.exchange exchange && is_reserved s.status && not (any (holds now s) reservations)
      then emptied now s
      else s

  pub free_inactive : ℕ → List ℕ → Slot F → Slot F
  unfolding emptied
  free_inactive now active s =
      if not (is_pending_entry s.status)
        && (is_some s.live_position_id || not (is_empty_status s.status))
        && not (among s.live_position_id active)
      then emptied now s
      else s

  abbrev pub select : String → List (Position F) → List (Position F)
  select exchange [] = []
  select exchange (p ∷ ps) =
      if str_eq p.exchange exchange && is_active p.status
      then p ∷ select exchange ps
      else select exchange ps

  abbrev pub ids : List (Position F) → List ℕ
  ids [] = []
  ids (p ∷ ps) = p.id ∷ ids ps

  -- `WHERE live_position_id = ? LIMIT 1`
  pub slot_of : ℕ → List (Slot F) → Option (Slot F)
  slot_of position [] = none
  slot_of position (s ∷ slots) =
      if has_id s.live_position_id position then some s else slot_of position slots

  abbrev pub lower : Slot F → Option (Slot F) → Option (Slot F)
  lower s none = some s
  lower s (some t) = if ltb t.slot_number s.slot_number then some t else some s

  -- `WHERE slot_number <= ? AND status = 'EMPTY' ORDER BY slot_number ASC LIMIT 1`
  pub first_empty : ℕ → List (Slot F) → Option (Slot F)
  first_empty max_slots [] = none
  first_empty max_slots (s ∷ slots) =
      let rest = first_empty max_slots slots in
      if leb s.slot_number max_slots && is_empty_status s.status then lower s rest else rest

  abbrev pub or_first : Option (Slot F) → Option (Slot F) → Option (Slot F)
  or_first none b = b
  or_first (some a) b = some a

  pub filled : ℕ → Position F → Slot F → Slot F
  filled now p s =
      let value = float p.current_price * float p.entry_volume in
      record s {
        status = p.status;
        exchange = p.exchange;
        market = some p.market;
        candidate_strategy_id = some p.candidate_strategy_id;
        live_position_id = some p.id;
        live_strategy_session_id = some p.session_id;
        entry_order_uuid = p.entry_order_uuid;
        exit_order_uuid = p.exit_order_uuid;
        allocated_krw = or_else (float p.entry_amount_krw) value;
        reserved_krw = nought;
        current_value_krw = value;
        unrealized_pnl = float p.unrealized_pnl;
        realized_pnl = float p.realized_pnl;
        opened_at = p.opened_at;
        closed_at = none;
        updated_at = now;
      }

  -- `UPDATE … WHERE id = ?`
  abbrev pub update_slot : (Slot F → Slot F) → ℕ → List (Slot F) → List (Slot F)
  update_slot f id [] = []
  update_slot f id (s ∷ slots) = (if s.id == id then f s else s) ∷ update_slot f id slots

  abbrev pub fill_slot : ℕ → Position F → Option (Slot F) → List (Slot F) → List (Slot F)
  fill_slot now p none slots = slots
  fill_slot now p (some s) slots = update_slot (filled now p) s.id slots

  -- The body of the loop over the positions.
  pub place : ℕ → ℕ → Position F → List (Slot F) → List (Slot F)
  unfolding slot_of first_empty filled
  place max_slots now p slots =
      fill_slot now p (or_first (slot_of p.id slots) (first_empty max_slots slots)) slots

  pub place_all : ℕ → ℕ → List (Position F) → List (Slot F) → List (Slot F)
  place_all max_slots now [] slots = slots
  place_all max_slots now (p ∷ ps) slots = place_all max_slots now ps (place max_slots now p slots)

  -- `max_slots` is as the caller gives it: only `ensure_position_slots` raises it to 1.
  pub reconcile_position_slots : ℕ → String → ℕ → List (Position F) → Tables F → Tables F
  unfolding ensure_position_slots
  reconcile_position_slots max_slots exchange now positions t =
      let t' = ensure_position_slots max_slots exchange now t in
      let reservations = map (expire exchange now) t'.reservations in
      let active = select exchange positions in
      let slots = map (free_unheld exchange now reservations) t'.slots in
      let slots' = map (free_inactive now (ids active)) slots in
      record t' { reservations = reservations; slots = place_all max_slots now active slots' }

  unfoldable pub reserve : String → String → ℕ → Option ℕ → F → String → ℕ → Slot F → Slot F
  reserve exchange market candidate session amount reason now s = record s {
    status = reserved;
    exchange = exchange;
    market = some market;
    candidate_strategy_id = some candidate;
    live_strategy_session_id = session;
    allocated_krw = amount;
    reserved_krw = amount;
    entry_reason = some reason;
    opened_at = some now;
    closed_at = none;
    updated_at = now;
  }

  pub reserve_position_slot :
      ℕ → String → String → ℕ → Option ℕ → F → String → ℕ → Tables F → Tables F
  unfolding reserve
  reserve_position_slot id exchange market candidate session amount reason now t = record t {
    slots = update_slot (reserve exchange market candidate session amount reason now) id t.slots;
  }

  pub create_order_reservation : Reservation F → Tables F → Tables F
  create_order_reservation r t = record t { reservations = t.reservations ++ r ∷ [] }

  -- `update_order_reservation_status` of one candidate in one market, where the row is held.
  pub replace_held : ℕ → String → ℕ → Reservation F → Reservation F
  replace_held candidate market now r =
      if is_held r.status && r.candidate_strategy_id == candidate && str_eq r.market market
      then record r { status = replaced; updated_at = now }
      else r

  pub replace_reservations : ℕ → String → ℕ → Tables F → Tables F
  unfolding replace_held
  replace_reservations candidate market now t = record t {
    reservations = map (replace_held candidate market now) t.reservations;
  }
