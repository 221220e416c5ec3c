-- ===== src/Exit/Sending.antt =====
-- The submission and the reconciliation of an exit order rewrite its own log only.
use Prim.Native.String.{String}
use mathlib.Core.Path.{subst}
use text.Mathlib.TextEquality.{eq_iff}
use auto_coin_bot.Common.{
  ℕ, ◌≡◌, refl, ◌∙◌, Bool, true, false, Option, none, some, List, [], ◌∷◌, Bool-cases, inl, inr,
  if◌then◌else◌, ◌==◌, select_first-holds,
}
use auto_coin_bot.Common.Float.{Float}
use auto_coin_bot.Common.Table.{str_eq}
use auto_coin_bot.Slots
use auto_coin_bot.Slots.{has_id}
use auto_coin_bot.Exit.Rows
use auto_coin_bot.Exit.Rows.{Position, Candidate, Log, Store, OrderStatus, RiskResult, is_open}
use auto_coin_bot.Exit.Store
use auto_coin_bot.Exit.Store.{has_request, is_open_exit_of, get_live_order_log, has_open_exit_order}
use auto_coin_bot.Exit.Reconcile
use auto_coin_bot.Exit.Reconcile.{Exchange, Placed, Fetched, Raised}
use auto_coin_bot.Exit.Submit
use auto_coin_bot.Exit.Rewrites.{
  Rewrites, unchanged, Rewrites-trans, update-Rewrites, sync-Rewrites,
}
use auto_coin_bot.Recovery.{RawOrder}

module _ {F : Type 0} ⦃num : Float F⦄ where
  pub found_id :
      (id : String) (s : Store F) {l : Log F} → get_live_order_log id s ≡ some l → l.request_id ≡ id
  unfolding get_live_order_log
  found_id id s {l} h = (eq_iff l.request_id id).0 (select_first-holds (has_request id) s.logs h)

  pub mark_candidate_of-logs :
      (id : Option ℕ) (st : OrderStatus) (result : RiskResult) (s : Store F)
      → (Reconcile.mark_candidate_of id st result s).logs ≡ s.logs
  unfolding Store.update_exit_candidate
  mark_candidate_of-logs none st result s = refl
  mark_candidate_of-logs (some id) st result s = refl

  mark_position-logs :
      (p : Option (Position F)) (st : Slots.Status) (s : Store F)
      → (Submit.mark_position p st s).logs ≡ s.logs
  unfolding Store.update_live_position
  mark_position-logs none st s = refl
  mark_position-logs (some p) st s = refl

  pub choice-logs :
      (b : Bool) (s t : Store F) → t.logs ≡ s.logs → (if b then s else t).logs ≡ s.logs
  choice-logs true s t h = refl
  choice-logs false s t h = h

  close_others-logs :
      (uuid : String) (own : ℕ) (ids : List ℕ) (s : Store F)
      → (Submit.close_others uuid own ids s).logs ≡ s.logs
  unfolding Submit.close_others Store.update_live_position
  close_others-logs uuid own [] s = refl
  close_others-logs uuid own (id ∷ ids) s =
      close_others-logs uuid own ids _
      ∙ choice-logs (id == own) s (Store.update_live_position id _ s) refl

  close_positions-logs :
      (uuid : String) (ids : List ℕ) (p : Option (Position F)) (s : Store F)
      → (Submit.close_positions uuid ids p s).logs ≡ s.logs
  unfolding Submit.close_positions Store.update_live_position
  close_positions-logs uuid ids none s = refl
  close_positions-logs uuid ids (some p) s = close_others-logs uuid p.id ids _

  reconcile_with-Rewrites :
      (l : Log F) (raw : RawOrder F) (s : Store F)
      → Rewrites l.request_id s (Reconcile.reconcile_with l raw s)
  unfolding Reconcile.reconcile_with
  reconcile_with-Rewrites l raw s =
      Rewrites-trans l.request_id s _ _ (update-Rewrites l.request_id _ s (λ m. (refl, refl, refl)))
        (Rewrites-trans l.request_id _ _ _
          (unchanged l.request_id _ _ (mark_candidate_of-logs l.exit_candidate_id _ _ _))
          (sync-Rewrites l _ _ _))

  after_fetch-Rewrites :
      (l : Log F) (answer : Fetched F) (s : Store F)
      → Rewrites l.request_id s (Reconcile.after_fetch l answer s).0
  unfolding Reconcile.after_fetch
  after_fetch-Rewrites l (Reconcile.found raw) s = reconcile_with-Rewrites l raw s
  after_fetch-Rewrites l Reconcile.fetch_timed_out s = unchanged l.request_id s s refl
  after_fetch-Rewrites l Reconcile.fetch_failed s = unchanged l.request_id s s refl

  by_uuid-Rewrites :
      (e : Exchange F) (l : Log F) (uuid : Option String) (s : Store F)
      → Rewrites l.request_id s (Reconcile.reconcile_by_uuid e l uuid s).0
  unfolding Reconcile.reconcile_by_uuid
  by_uuid-Rewrites e l none s = unchanged l.request_id s s refl
  by_uuid-Rewrites e l (some uuid) s = elim (Bool-cases (Rows.is_exit l.purpose)) [
    | inl k ↦ rw k (after_fetch-Rewrites l (e.get_order uuid) s)
    | inr k ↦ rw k (unchanged l.request_id s s refl)
  ]

  reconcile_found-Rewrites :
      (e : Exchange F) (id : String) (o : Option (Log F)) (s : Store F)
      → get_live_order_log id s ≡ o
      → Rewrites id s (Reconcile.reconcile_found e o s).0
  unfolding Reconcile.reconcile_found
  reconcile_found-Rewrites e id none s h = unchanged id s s refl
  reconcile_found-Rewrites e id (some l) s h =
      subst (λ i. Rewrites i s (Reconcile.reconcile_found e (some l) s).0) (found_id id s h)
        (by_uuid-Rewrites e l (Reconcile.uuid_of l.order_uuid) s)

  pub reconcile-Rewrites :
      (e : Exchange F) (id : String) (s : Store F)
      → Rewrites id s (Reconcile.reconcile_exit_order e id s).0
  unfolding Reconcile.reconcile_exit_order
  reconcile-Rewrites e id s = reconcile_found-Rewrites e id (get_live_order_log id s) s refl

  conclude-Rewrites :
      (l : Log F) (p : Option (Position F)) (s : Store F) (raised : Raised)
      → Rewrites l.request_id s (Submit.conclude l p s raised).0
  unfolding Submit.conclude Submit.on_timeout Submit.on_failure
  conclude-Rewrites l p s Reconcile.no = unchanged l.request_id s s refl
  conclude-Rewrites l p s Reconcile.timeout =
      Rewrites-trans l.request_id s _ _ (update-Rewrites l.request_id _ s (λ m. (refl, refl, refl)))
        (unchanged l.request_id _ _ (mark_candidate_of-logs l.exit_candidate_id _ _ _))
  conclude-Rewrites l p s Reconcile.other =
      Rewrites-trans l.request_id s _ _ (update-Rewrites l.request_id _ s (λ m. (refl, refl, refl)))
        (unchanged l.request_id _ _ (mark_position-logs p _ _))

  record_accepted-Rewrites :
      (l : Log F) (p : Option (Position F)) (uuid : String) (s : Store F)
      → Rewrites l.request_id s (Submit.record_accepted l p uuid s)
  unfolding Submit.record_accepted
  record_accepted-Rewrites l p uuid s =
      let s' =
        Store.update_live_order_log l.request_id
          (λ x. record x {
            status = OrderStatus.submitted;
            risk_result = Rows.allowed;
            order_uuid = some uuid;
          })
          s in
      Rewrites-trans l.request_id s s' _
        (update-Rewrites l.request_id _ s (λ m. (refl, refl, refl)))
        (unchanged l.request_id s' _ (
          close_positions-logs uuid l.aggregate_exit_position_ids p _
          ∙ mark_candidate_of-logs l.exit_candidate_id _ _ s'))

  read_status-Rewrites :
      (e : Exchange F) (uuid id : String) (s : Store F)
      → Rewrites id s (Submit.read_status e uuid id s).0
  read_status-Rewrites e uuid id s = elim (Bool-cases (str_eq uuid "")) [
    | inl k ↦ rw k (unchanged id s s refl)
    | inr k ↦ rw k (reconcile-Rewrites e id s)
  ]

  pub after_place-Rewrites :
      (e : Exchange F) (l : Log F) (p : Option (Position F)) (placed : Placed) (s : Store F)
      → Rewrites l.request_id s (Submit.after_place e l p placed s).0
  unfolding Submit.after_place
  after_place-Rewrites e l p (Reconcile.accepted uuid) s =
      Rewrites-trans l.request_id s _ _ (record_accepted-Rewrites l p uuid s) (
        Rewrites-trans l.request_id _ _ _ (read_status-Rewrites e uuid l.request_id _)
          (conclude-Rewrites l p _ _))
  after_place-Rewrites e l p Reconcile.timed_out s = conclude-Rewrites l p s Reconcile.timeout
  after_place-Rewrites e l p Reconcile.failed s = conclude-Rewrites l p s Reconcile.other
