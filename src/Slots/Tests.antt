-- ===== src/Slots/Tests.antt =====
-- Three slots, one reservation and one position, and the theorems on them.
use Prim.Native.Nat.{◌≤◌, max}
use auto_coin_bot.Common.{ℕ, ◌≡◌, refl, true, none, some, List, [], ◌∷◌, ℤ, All, map}
use auto_coin_bot.Common.Fixed.{fixed}
use auto_coin_bot.Slots
use auto_coin_bot.Slots.{Slot, Status, Reservation, Position, Tables, ids, select}
use auto_coin_bot.Slots.Settled.{IsSettled, freed, freed_exact, reconcile_settles}
use auto_coin_bot.Slots.Cover.{Added, has_number, ensure_covers}

abbrev no_slots : Tables ℤ
no_slots = record {
  slots = [];
  next_slot_id = 1;
  reservations =
      record {
        exchange = "bithumb";
        market = "KRW-ETH";
        candidate_strategy_id = 7;
        slot_id = some 2;
        amount_krw = fixed.lit 10000 0;
        status = Slots.held;
        expires_at_utc = some 500;
        expires_at = none;
        updated_at = 0;
      }
      ∷ [];
}

abbrev tables : Tables ℤ
tables =
    Slots.reserve_position_slot 2 "bithumb" "KRW-ETH" 7 none (fixed.lit 10000 0) "score" 100
      (Slots.ensure_position_slots 3 "bithumb" 50 no_slots)

abbrev position : Position ℤ
position = record {
  id = 9;
  exchange = "bithumb";
  status = Status.opened;
  market = "KRW-BTC";
  candidate_strategy_id = 4;
  session_id = 3;
  entry_order_uuid = some "u";
  exit_order_uuid = none;
  entry_amount_krw = some (fixed.lit 20000 0);
  current_price = some (fixed.lit 100 0);
  entry_volume = some (fixed.lit 201 0);
  unrealized_pnl = some (fixed.lit 100 0);
  realized_pnl = none;
  opened_at = some 90;
}

abbrev statuses : Tables ℤ → List Status
statuses t = map (λ (s : Slot ℤ). s.status) t.slots

-- Until the reservation runs out, its slot stays.
before :
    statuses (Slots.reconcile_position_slots 3 "bithumb" 400 (position ∷ []) tables)
    ≡ Status.opened ∷ Status.reserved ∷ Status.empty ∷ []
unfolding Slots.reconcile_position_slots Slots.reserve_position_slot Slots.ensure_position_slots
    Slots.insert_slots Slots.insert_slot Slots.place_all Slots.place Slots.free_unheld
    Slots.free_inactive Slots.expire
before = refl

after :
    statuses (Slots.reconcile_position_slots 3 "bithumb" 500 (position ∷ []) tables)
    ≡ Status.opened ∷ Status.empty ∷ Status.empty ∷ []
unfolding Slots.reconcile_position_slots Slots.reserve_position_slot Slots.ensure_position_slots
    Slots.insert_slots Slots.insert_slot Slots.place_all Slots.place Slots.free_unheld
    Slots.free_inactive Slots.expire
after = refl

reconcile_settles_example :
    let t' = Slots.reconcile_position_slots 3 "bithumb" 500 (position ∷ []) tables in
    All (IsSettled "bithumb" 500 t'.reservations (ids (select "bithumb" (position ∷ [])))) t'.slots
reconcile_settles_example = reconcile_settles 3 "bithumb" 500 (position ∷ []) tables

abbrev slot : Slot ℤ
slot = Slots.filled 100 position (Slots.new_slot 1 1 "bithumb" 50)

freed_exact_example :
    (IsSettled "bithumb" 500 [] (8 ∷ []) slot → freed "bithumb" 500 [] (8 ∷ []) slot ≡ slot)
    × IsSettled "bithumb" 500 [] (8 ∷ []) (freed "bithumb" 500 [] (8 ∷ []) slot)
freed_exact_example = freed_exact "bithumb" 500 [] (8 ∷ []) slot

ensure_covers_sample :
    let t' = Slots.ensure_position_slots 3 "bithumb" 50 no_slots in
    Added no_slots t' × ((n : ℕ) → 1 ≤ n → n ≤ max 1 3 → has_number n t'.slots ≡ true)
ensure_covers_sample = ensure_covers 3 "bithumb" 50 no_slots
