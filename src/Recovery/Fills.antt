-- ===== src/Recovery/Fills.antt =====
-- What a fill of an exit order does to the positions it sells, in app/live_recovery.py: one position, or
-- those of an aggregate exit in turn.
use Prim.Native.String.{String}
use auto_coin_bot.Common.{ℕ, Bool, Option, none, some, List, [], ◌∷◌, if◌then◌else◌, ◌==◌}
use auto_coin_bot.Common.Float.{Float, ◌+◌, ◌-◌, ◌*◌, ◌/◌, le, gt, dec, int, nought, max, min}
use auto_coin_bot.Slots.{Status}
use auto_coin_bot.Exit.Rows.{Position, Log, Store}
use auto_coin_bot.Exit.Store.{
  load_live_position, first_open_live_position, update_live_position, update_live_order_log,
  update_live_strategy_session,
}

-- What a call of `sync_exit_order_position` adds to what was filled before.
pub record Fill (F : Type 0) : Type 0 where
  pub volume : F
  pub amount : F
  pub fee : F

-- The loop over the positions of an aggregate exit: the store, what remains of the fill, and the
-- profit so far.
pub record Sweep (F : Type 0) : Type 0 where
  pub store : Store F
  pub remaining : F
  pub total_pnl : F

module _ {F : Type 0} ⦃num : Float F⦄ where
  -- BALANCE_MISMATCH_VOLUME_TOLERANCE
  abbrev pub tolerance : F
  tolerance = dec 1 6

  unfoldable pub entry_basis : Fill F → Position F → F
  entry_basis fill p =
      if gt p.entry_volume nought
      then p.entry_amount_krw * min (fill.volume / p.entry_volume) (int 1)
      else p.entry_price * fill.volume

  unfoldable pub actual_pnl : Fill F → Position F → F
  unfolding entry_basis
  actual_pnl fill p = fill.amount - entry_basis fill p - fill.fee

  unfoldable pub remaining_volume : Fill F → Position F → F
  remaining_volume fill p = max (p.entry_volume - fill.volume) nought

  unfoldable pub is_sold_out : Fill F → Position F → Bool
  unfolding remaining_volume
  is_sold_out fill p = le (remaining_volume fill p) tolerance

  -- The update of a position by a fill, in both functions.
  unfoldable pub settled : Bool → Option String → Fill F → Position F → Position F
  unfolding actual_pnl is_sold_out
  settled still_waiting uuid fill p =
      if is_sold_out fill p
      then record p {
        status = Status.closed;
        realized_pnl = p.realized_pnl + actual_pnl fill p;
        exit_order_uuid = none;
      }
      else record p {
        status = if still_waiting then Status.closing else Status.opened;
        entry_volume = remaining_volume fill p;
        entry_amount_krw = max (p.entry_amount_krw - entry_basis fill p) nought;
        current_price =
            if gt fill.volume nought then fill.amount / fill.volume else p.current_price;
        realized_pnl = p.realized_pnl + actual_pnl fill p;
        exit_order_uuid = if still_waiting then uuid else none;
      }

  abbrev pub id_of : Option (Position F) → Option ℕ
  id_of none = none
  id_of (some p) = some p.id

  unfoldable pub repair_closed_position_session_pointer : Position F → Store F → Store F
  repair_closed_position_session_pointer p s =
      let same =
        first_open_live_position p.exchange p.market (λ q. q.session_id == p.session_id) s in
      update_live_strategy_session p.session_id
        (λ x. record x { current_position_id = id_of same; current_open_order_uuid = none }) s

  unfoldable pub settle : Bool → Option String → Fill F → Position F → Store F → Store F
  settle still_waiting uuid fill p s =
      let s' = update_live_position p.id (settled still_waiting uuid fill) s in
      if is_sold_out fill p then repair_closed_position_session_pointer p s' else s'

  unfoldable pub piece : Fill F → F → Fill F
  piece fill applied =
      let share = applied / fill.volume in
      record { volume = applied; amount = fill.amount * share; fee = fill.fee * share }

  unfoldable pub sweep_position : Bool → Option String → Fill F → Sweep F → Position F → Sweep F
  unfolding piece
  sweep_position still_waiting uuid fill w p =
      let applied = min p.entry_volume w.remaining in
      if le p.entry_volume nought
      then w
      else if le applied nought
      then record w {
        store =
            if still_waiting
            then update_live_position p.id
                (λ q. record q { status = Status.closing; exit_order_uuid = uuid }) w.store
            else w.store;
      }
      else record {
        store = settle still_waiting uuid (piece fill applied) p w.store;
        remaining = max (w.remaining - applied) nought;
        total_pnl = w.total_pnl + actual_pnl (piece fill applied) p;
      }

  unfoldable pub sweep_found :
      Bool → Option String → Fill F → Sweep F → Option (Position F) → Sweep F
  sweep_found still_waiting uuid fill w none = w
  sweep_found still_waiting uuid fill w (some p) = sweep_position still_waiting uuid fill w p

  unfoldable pub sweep : Bool → Option String → Fill F → List ℕ → Sweep F → Sweep F
  sweep still_waiting uuid fill [] w = w
  sweep still_waiting uuid fill (id ∷ ids) w =
      sweep still_waiting uuid fill ids
        (sweep_found still_waiting uuid fill w (load_live_position id w.store))

  abbrev pub with_pnl : F → Log F → Log F
  with_pnl pnl l = record l { actual_pnl = some pnl }

  unfoldable pub sync_aggregate_exit_order_positions :
      Bool → Log F → List ℕ → Fill F → Store F → Store F
  sync_aggregate_exit_order_positions still_waiting l ids fill s =
      let w =
        sweep still_waiting l.order_uuid fill ids
          (record { store = s; remaining = fill.volume; total_pnl = nought }) in
      if le fill.volume nought
      then s
      else update_live_order_log l.request_id (with_pnl w.total_pnl) w.store
