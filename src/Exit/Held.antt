-- ===== src/Exit/Held.antt =====
-- What an exit order whose fate is unknown holds back: the other submissions and previews that come
-- before it is reconciled.
use Prim.Native.String.{String}
use mathlib.Core.Path.{subst}
use auto_coin_bot.Common.{
  ℕ, ◌≡◌, refl, sym, ap, ◌∙◌, true, false, Option, none, some, List, [], ◌∷◌, arith, inl, inr, ◌==◌,
  select_first-any, select_first, false, select_first-update, select_first-holds, some-injective,
}
use auto_coin_bot.Common.Float.{Float}
use auto_coin_bot.Common.Table.{str_eq_refl}
use auto_coin_bot.Slots.{has_id}
use auto_coin_bot.Exit.Rows
use auto_coin_bot.Exit.Rows.{Position, Candidate, Log, Store, OrderStatus, RiskResult}
use auto_coin_bot.Exit.Store
use auto_coin_bot.Exit.Store.{is_open_exit_of, get_live_order_log, has_open_exit_order}
use auto_coin_bot.Exit.Check.{World}
use auto_coin_bot.Exit.Trigger.{Config}
use auto_coin_bot.Exit.Reconcile
use auto_coin_bot.Exit.Reconcile.{Exchange, Placed, Sent}
use auto_coin_bot.Exit.Preview
use auto_coin_bot.Exit.Submit
use auto_coin_bot.Exit.Submit.{Submitted}
use auto_coin_bot.Exit.Single.{only_exitable-some}
use auto_coin_bot.Exit.Sent.{submit_sends_cleared}
use auto_coin_bot.Exit.Sending.{found_id, mark_candidate_of-logs}
use auto_coin_bot.Exit.Kept.{Act, acts, acts-keep}

module _ {F : Type 0} ⦃num : Float F⦄ where
  timed_out-logs :
      (e : Exchange F) (l : Log F) (p : Option (Position F)) (s : Store F)
      → e.place_order (Submit.sent_of l) ≡ Reconcile.timed_out
      → (Submit.place e l p s).store.logs
        ≡ (Submit.mark_log l.request_id OrderStatus.submitted
            (Reconcile.named "ORDER_STATUS_UNKNOWN_TIMEOUT")
            s).logs
  unfolding Submit.place Submit.after_place Submit.conclude Submit.on_timeout
  timed_out-logs e l p s h =
      rw h (mark_candidate_of-logs l.exit_candidate_id OrderStatus.submitted _ _)

  abbrev pub IsPlainExit : Log F → Type 0
  IsPlainExit l =
      (Rows.is_exit l.purpose ≡ true)
      × (Rows.is_event_row l.request_id ≡ false)
      × (l.order_uuid ≡ none)

  merged_plain :
      (logs : List (Log F)) (l m : Log F) → m.order_uuid ≡ none → Store.merged logs l m ≡ m
  unfolding Store.merged Store.is_duplicate_uuid
  merged_plain logs l m h = rw h refl

  abbrev unknown : Log F → Log F
  unknown l = record l {
    status = OrderStatus.submitted;
    risk_result = Reconcile.named "ORDER_STATUS_UNKNOWN_TIMEOUT";
  }

  marked_found :
      (l : Log F) (s : Store F)
      → IsPlainExit l
      → get_live_order_log l.request_id s ≡ some l
      → get_live_order_log l.request_id (
          Submit.mark_log l.request_id OrderStatus.submitted
            (Reconcile.named "ORDER_STATUS_UNKNOWN_TIMEOUT")
            s)
        ≡ some (unknown l)
  unfolding get_live_order_log Store.update_live_order_log
  marked_found l s (exit, canonical, plain) found =
      let same = merged_plain s.logs l (unknown l) plain in
      select_first-update (Store.has_request l.request_id) (λ m. Store.merged s.logs m (unknown m))
        s.logs found (rw same (str_eq_refl l.request_id))
      ∙ ap some same

  held_open :
      (l : Log F) (p : ℕ) (s : Store F)
      → IsPlainExit l
      → has_id l.position_id p ≡ true
      → get_live_order_log l.request_id s ≡ some (unknown l)
      → has_open_exit_order p s ≡ true
  unfolding has_open_exit_order get_live_order_log
  held_open l p s (exit, canonical, plain) owner held =
      select_first-any (Store.has_request l.request_id) (is_open_exit_of p) s.logs held
        (rw owner (rw exit (rw canonical refl)))

  timed_out_found :
      (config : Config F) (w : World F) (e : Exchange F) (id text : String) (s : Store F)
      (l : Log F)
      → get_live_order_log id s ≡ some l
      → IsPlainExit l
      → e.place_order (Submit.sent_of l) ≡ Reconcile.timed_out
      → let r = Submit.submit_exit_order config w e id text s in
        r.sent ≡ Submit.sent_of l ∷ [] → get_live_order_log l.request_id r.store ≡ some (unknown l)
  unfolding get_live_order_log
  timed_out_found config w e id text s l found plain late sent =
      elim (submit_sends_cleared config w e id text s) [
        | inl none_sent ↦ cc (none_sent, sent)
        | inr first ↦
            let log : first.log ≡ l = some-injective (sym first.found ∙ found) in
            let marked =
              Submit.mark_log l.request_id OrderStatus.submitted
                (Reconcile.named "ORDER_STATUS_UNKNOWN_TIMEOUT") s in
            let kept =
              ap (λ (x : Submitted F). x.store.logs) first.placed
              ∙ subst
                  (λ m.
                    (Submit.place e m (Preview.position_of m.position_id s) s).store.logs
                    ≡ marked.logs)
                  (sym log) (timed_out-logs e l (Preview.position_of l.position_id s) s late) in
            ap (select_first (Store.has_request l.request_id)) kept
            ∙ marked_found l s plain
                (subst (λ i. get_live_order_log i s ≡ some l) (sym (found_id id s found)) found)
      ]

  owner_id :
      (o : Option ℕ) (s : Store F) {q : Position F}
      → Preview.position_of o s ≡ some q
      → has_id o q.id ≡ true
  unfolding Store.load_live_position
  owner_id none s h = cc h
  owner_id (some id) s {q} h =
      let found = only_exitable-some (Store.load_live_position id s) h in
      let same = select_first-holds (λ r. r.id == id) s.positions found in ground arith

  -- When the request for an exit order times out, then after any submissions and previews, of whatever
  -- orders and with whatever settings, facts and exchanges, a submission of an order for the position
  -- sends nothing. Reconciliations and cancellations, which may change the order's row, are not among
  -- what comes before.
  pub timeout_holds_position :
      (config : Config F) (w : World F) (e : Exchange F) (id text : String) (s : Store F)
      (l : Log F)
      → get_live_order_log id s ≡ some l
      → IsPlainExit l
      → e.place_order (Submit.sent_of l) ≡ Reconcile.timed_out
      → let r = Submit.submit_exit_order config w e id text s in
        r.sent ≡ Submit.sent_of l ∷ []
        → (rest : List (Act F)) (config' : Config F) (w' : World F) (e' : Exchange F)
          (id' text' : String) (l' : Log F)
        → let s' = acts rest r.store in
          get_live_order_log id' s' ≡ some l'
          → l'.position_id ≡ l.position_id
          → (Submit.submit_exit_order config' w' e' id' text' s').sent ≡ []
  timeout_holds_position config w e id text s l found plain late sent rest config' w' e' id' text'
        l' found' same =
      let r = Submit.submit_exit_order config w e id text s in
      let s' = acts rest r.store in
      let held =
        acts-keep rest l.request_id r.store (unknown l) refl
          (timed_out_found config w e id text s l found plain late sent) in
      elim (submit_sends_cleared config' w' e' id' text' s') [
        | inl none_sent ↦ none_sent
        | inr second ↦
            let log' : second.log ≡ l' = some-injective (sym second.found ∙ found') in
            let p = second.position.id in
            let owned = owner_id second.log.position_id s' second.position_found in
            let owner : has_id l.position_id p ≡ true =
              subst (λ o. has_id o p ≡ true) (ap (λ m. m.position_id) log' ∙ same) owned in
            cc (second.cleared.unsold, held_open l p s' plain owner held)
      ]
