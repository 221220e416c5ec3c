-- ===== src/Slots/Rows.antt =====
-- The rows of `position_slots`, `order_reservations` and `live_positions`, as the slots read them.
use Prim.Native.String.{String}
use auto_coin_bot.Common.{ℕ, Bool, true, false, ◌||◌, Option, none, some, List, [], ◌∷◌, leb, ◌==◌}

-- The statuses of slots and of positions: a slot takes over the status of its position.
pub data Status : Type 0 where
  empty reserved entering opened exit_candidate exit_pending closing manual_review_required : Status
  closed error : Status

abbrev pub is_empty_status : Status → Bool
is_empty_status empty = true
is_empty_status _ = false

abbrev pub is_reserved : Status → Bool
is_reserved reserved = true
is_reserved _ = false

-- `status IN ('RESERVED', 'ENTERING')`
abbrev pub is_pending_entry : Status → Bool
is_pending_entry reserved = true
is_pending_entry entering = true
is_pending_entry _ = false

-- The statuses of the query on `live_positions`.
abbrev pub is_active : Status → Bool
is_active opened = true
is_active exit_candidate = true
is_active exit_pending = true
is_active closing = true
is_active manual_review_required = true
is_active _ = false

pub record Slot (F : Type 0) : Type 0 where
  pub id : ℕ
  pub slot_number : ℕ
  pub status : Status
  pub exchange : String
  pub market : Option String
  pub candidate_strategy_id : Option ℕ
  pub live_position_id : Option ℕ
  pub live_strategy_session_id : Option ℕ
  pub entry_order_uuid : Option String
  pub exit_order_uuid : Option String
  pub allocated_krw : F
  pub reserved_krw : F
  pub current_value_krw : F
  pub unrealized_pnl : F
  pub realized_pnl : F
  pub entry_reason : Option String
  pub exit_reason : Option String
  pub opened_at : Option ℕ
  pub closed_at : Option ℕ
  pub updated_at : ℕ

pub data ReservationStatus : Type 0 where
  pending held order_submitted consumed expired canceled replaced : ReservationStatus

abbrev pub is_current : ReservationStatus → Bool
is_current pending = true
is_current held = true
is_current order_submitted = true
is_current _ = false

-- `status IN ('RESERVED', 'ORDER_SUBMITTED')`, where `held` is RESERVED.
abbrev pub is_holding : ReservationStatus → Bool
is_holding held = true
is_holding order_submitted = true
is_holding _ = false

-- `status IN ('RESERVED')`
abbrev pub is_held : ReservationStatus → Bool
is_held held = true
is_held _ = false

pub record Reservation (F : Type 0) : Type 0 where
  pub exchange : String
  pub market : String
  pub candidate_strategy_id : ℕ
  pub slot_id : Option ℕ
  pub amount_krw : F
  pub status : ReservationStatus
  pub expires_at_utc : Option ℕ
  pub expires_at : Option ℕ
  pub updated_at : ℕ

pub record Position (F : Type 0) : Type 0 where
  pub id : ℕ
  pub exchange : String
  pub status : Status
  pub market : String
  pub candidate_strategy_id : ℕ
  pub session_id : ℕ
  pub entry_order_uuid : Option String
  pub exit_order_uuid : Option String
  pub entry_amount_krw : Option F
  pub current_price : Option F
  pub entry_volume : Option F
  pub unrealized_pnl : Option F
  pub realized_pnl : Option F
  pub opened_at : Option ℕ

pub record Tables (F : Type 0) : Type 0 where
  pub slots : List (Slot F)
  pub next_slot_id : ℕ
  pub reservations : List (Reservation F)

abbrev pub has_id : Option ℕ → ℕ → Bool
has_id none n = false
has_id (some m) n = m == n

-- `id IN (…)`, which NULL is not.
abbrev pub among : Option ℕ → List ℕ → Bool
among o [] = false
among o (n ∷ ns) = has_id o n || among o ns

-- `COALESCE(expires_at_utc, expires_at)`
abbrev pub coalesce : Option ℕ → Option ℕ → Option ℕ
coalesce none b = b
coalesce (some a) b = some a

abbrev pub is_past : Option ℕ → ℕ → Bool
is_past none now = false
is_past (some t) now = leb t now
