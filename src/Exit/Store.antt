-- ===== src/Exit/Store.antt =====
-- The functions of app/database.py that the exits read and write their rows with. The tables are lists in
-- the order of insertion.
use Prim.Native.Nat.{◌+◌ as plus}
use Prim.Native.String.{String}
use auto_coin_bot.Common.{
  ℕ, Bool, false, not, ◌&&◌, ◌||◌, Option, none, some, List, [], ◌∷◌, ◌++◌, if◌then◌else◌, ltb,
  ◌==◌, any, select_first, update_where, count,
}
use auto_coin_bot.Common.Table.{str_eq}
use auto_coin_bot.Slots.{is_active, has_id}
use auto_coin_bot.Risk
use auto_coin_bot.Exit.Rows
use auto_coin_bot.Exit.Rows.{
  OrderStatus, Position, Candidate, Log, Session, Store, is_open, is_tried, is_active_candidate,
  is_exit, is_event_row, is_status_event, has_text,
}

-- `ORDER BY created_at DESC, id DESC LIMIT 1`
module _ {A : Type 0} (created_at id : A → ℕ) where
  abbrev pub newer : A → Option A → A
  newer c none = c
  newer c (some d) =
      if ltb (created_at c) (created_at d) || (created_at c == created_at d && ltb (id c) (id d))
      then d
      else c

  unfoldable pub newest : (A → Bool) → List A → Option A
  newest p [] = none
  newest p (c ∷ cs) = let rest = newest p cs in if p c then some (newer c rest) else rest

module _ {F : Type 0} where
  unfoldable pub load_live_position : ℕ → Store F → Option (Position F)
  load_live_position id s = select_first (λ p. p.id == id) s.positions

  abbrev pub is_open_in : String → String → Position F → Bool
  is_open_in exchange market p =
      str_eq p.exchange exchange && str_eq p.market market && is_active p.status

  -- The first row of `load_open_live_positions` that meets a further condition.
  unfoldable pub first_open_live_position :
      String → String → (Position F → Bool) → Store F → Option (Position F)
  unfolding newest
  first_open_live_position exchange market p s =
      newest (λ q. q.created_at) (λ q. q.id) (λ q. is_open_in exchange market q && p q) s.positions

  unfoldable pub update_live_position : ℕ → (Position F → Position F) → Store F → Store F
  update_live_position id f s = record s {
    positions = update_where (λ p. p.id == id) f s.positions;
  }

  unfoldable pub load_exit_candidate : ℕ → Store F → Option (Candidate F)
  load_exit_candidate id s = select_first (λ c. c.id == id) s.candidates

  abbrev pub is_active_for : ℕ → Candidate F → Bool
  is_active_for position c = c.position_id == position && is_active_candidate c.status

  unfoldable pub load_active_exit_candidate : ℕ → Store F → Option (Candidate F)
  unfolding newest
  load_active_exit_candidate position s =
      newest (λ c. c.created_at) (λ c. c.id) (is_active_for position) s.candidates

  -- The row has the id that the table gives out next.
  unfoldable pub create_exit_candidate : (ℕ → Candidate F) → Store F → Store F
  create_exit_candidate row s = record s {
    candidates = s.candidates ++ row s.next_candidate_id ∷ [];
    next_candidate_id = plus s.next_candidate_id 1;
  }

  unfoldable pub update_exit_candidate : ℕ → (Candidate F → Candidate F) → Store F → Store F
  update_exit_candidate id f s = record s {
    candidates = update_where (λ c. c.id == id) f s.candidates;
  }

  abbrev pub is_open_exit_of : ℕ → Log F → Bool
  is_open_exit_of position l =
      has_id l.position_id position
      && is_exit l.purpose
      && is_open l.status
      && not (is_event_row l.request_id)

  unfoldable pub has_open_exit_order : ℕ → Store F → Bool
  has_open_exit_order position s = any (is_open_exit_of position) s.logs

  abbrev pub is_try_of : ℕ → Log F → Bool
  is_try_of candidate l =
      has_id l.exit_candidate_id candidate
      && is_exit l.purpose
      && is_tried l.status
      && not (is_event_row l.request_id)

  unfoldable pub count_exit_retries : ℕ → Store F → ℕ
  count_exit_retries candidate s = count (is_try_of candidate) s.logs

  abbrev pub has_request : String → Log F → Bool
  has_request id l = str_eq l.request_id id

  unfoldable pub get_live_order_log : String → Store F → Option (Log F)
  get_live_order_log id s = select_first (has_request id) s.logs

  -- `_find_canonical_live_order_by_uuid`, as a test.
  unfoldable pub is_canonical_for : String → String → Log F → Bool
  is_canonical_for uuid excluded l =
      has_text l.order_uuid uuid
      && not (str_eq l.request_id excluded)
      && not (is_event_row l.request_id)

  -- `merged["order_uuid"]` belongs to another order.
  unfoldable pub is_duplicate_uuid : String → Option String → List (Log F) → Bool
  unfolding is_canonical_for
  is_duplicate_uuid id none logs = false
  is_duplicate_uuid id (some uuid) logs =
      not (str_eq uuid "") && not (is_status_event id) && any (is_canonical_for uuid id) logs

  -- A log that would take another order's uuid keeps its own, and fails.
  unfoldable pub merged : List (Log F) → Log F → Log F → Log F
  merged logs current l =
      if is_duplicate_uuid l.request_id l.order_uuid logs
      then record l {
        status = Rows.failed;
        risk_result = Rows.named (Risk.base "DUPLICATE_EXCHANGE_ORDER_UUID");
        order_uuid = current.order_uuid;
      }
      else l

  unfoldable pub update_live_order_log : String → (Log F → Log F) → Store F → Store F
  unfolding merged
  update_live_order_log id f s = record s {
    logs = update_where (has_request id) (λ l. merged s.logs l (f l)) s.logs;
  }

  -- The inserts of a log that is no event and has no uuid yet: the id is the client's id of the order as
  -- well, and a second one raises DUPLICATE_CLIENT_ORDER_ID or breaks the table's constraint.
  unfoldable pub insert_live_order_log : Log F → Store F → Option (Store F)
  insert_live_order_log l s =
      if any (has_request l.request_id) s.logs
      then none
      else some (record s { logs = s.logs ++ l ∷ [] })

  unfoldable pub update_live_strategy_session : ℕ → (Session → Session) → Store F → Store F
  update_live_strategy_session id f s = record s {
    sessions = update_where (λ x. x.id == id) f s.sessions;
  }
