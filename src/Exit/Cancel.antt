-- ===== src/Exit/Cancel.antt =====
-- `cancel_exit_order` of app/live_exit.py.
use Prim.Native.String.{String}
use auto_coin_bot.Common.{
  ℕ, Bool, true, false, ◌&&◌, Option, none, some, if◌then◌else◌, ltb, is_some,
}
use auto_coin_bot.Common.Float.{Float}
use auto_coin_bot.Slots.{Status}
use auto_coin_bot.Exit.Rows.{Log, Store, OrderStatus, is_exit}
use auto_coin_bot.Exit.Store.{
  get_live_order_log, update_live_order_log, update_live_position, count_exit_retries,
  update_live_strategy_session,
}
use auto_coin_bot.Exit.Trigger.{Config}
use auto_coin_bot.Exit.Reconcile.{Exchange, named, mark_candidate, uuid_of}

module _ {F : Type 0} ⦃num : Float F⦄ where
  -- A candidate is tried again until its tries reach the limit.
  abbrev retry : Config F → Option ℕ → Store F → Store F
  retry config none s = s
  retry config (some id) s =
      if ltb (count_exit_retries id s) config.max_exit_retry_count
      then mark_candidate id OrderStatus.pending (named "RETRY_PENDING") s
      else mark_candidate id OrderStatus.canceled (named "CANCELED") s

  abbrev release : Option ℕ → Option ℕ → Store F → Store F
  release candidate none s = s
  release candidate (some id) s =
      update_live_position id
        (λ p. record p {
          status = if is_some candidate then Status.exit_candidate else Status.opened;
          exit_order_uuid = none;
        })
        s

  abbrev clear_session : Option ℕ → Store F → Store F
  clear_session none s = s
  clear_session (some id) s =
      update_live_strategy_session id (λ x. record x { current_open_order_uuid = none }) s

  unfoldable pub cancel_log : Config F → Log F → Store F → Store F
  cancel_log config l s =
      let s' =
        update_live_order_log l.request_id (λ x. record x { status = OrderStatus.canceled }) s in
      clear_session l.session_id
        (release l.exit_candidate_id l.position_id (retry config l.exit_candidate_id s'))

  unfoldable pub cancel_by_uuid :
      Config F → Exchange F → Log F → Option String → Store F → Store F × Bool
  cancel_by_uuid config e l none s = (s, false)
  cancel_by_uuid config e l (some uuid) s =
      if is_exit l.purpose && e.cancel_succeeds uuid
      then (cancel_log config l s, true)
      else (s, false)

  unfoldable pub cancel_found : Config F → Exchange F → Option (Log F) → Store F → Store F × Bool
  cancel_found config e none s = (s, false)
  cancel_found config e (some l) s = cancel_by_uuid config e l (uuid_of l.order_uuid) s

  -- With the answer's `ok`.
  unfoldable pub cancel_exit_order : Config F → Exchange F → String → Store F → Store F × Bool
  cancel_exit_order config e request_id s =
      cancel_found config e (get_live_order_log request_id s) s
