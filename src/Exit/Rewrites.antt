-- ===== src/Exit/Rewrites.antt =====
-- What an operation on one exit order does to the table of order logs: it rewrites the row with the
-- order's request id, and leaves the owner of the row as it is.
use Prim.Native.String.{String}
use auto_coin_bot.Common.{
  ℕ, ◌≡◌, refl, sym, ap, ◌∙◌, Bool, ◌&&◌, Option, none, some, List, [], ◌∷◌, Bool-cases, inl, inr,
  update_where, update_where-compose, update_where-id,
}
use auto_coin_bot.Common.Float.{Float, le, min, nought}
use auto_coin_bot.Exit.Rows
use auto_coin_bot.Exit.Rows.{Position, Candidate, Log, Session, Store, OrderStatus}
use auto_coin_bot.Exit.Store
use auto_coin_bot.Exit.Store.{has_request, update_live_order_log, merged}
use auto_coin_bot.Recovery
use auto_coin_bot.Recovery.{ReconciledOrderStatus, Fill, Sweep, Previous}

module _ {F : Type 0} where
  -- The same order of the same position.
  abbrev pub HasOwner : Log F → Log F → Type 0
  HasOwner l m =
      (m.request_id ≡ l.request_id) × (m.position_id ≡ l.position_id) × (m.purpose ≡ l.purpose)

  pub record Rewrites (id : String) (s t : Store F) : Type 0 where
    pub by : Log F → Log F
    pub owned : (l : Log F) → HasOwner l (by l)
    pub logs : t.logs ≡ update_where (has_request id) by s.logs

  pub unchanged : (id : String) (s t : Store F) → t.logs ≡ s.logs → Rewrites id s t
  unchanged id s t h = record {
    by = λ l. l;
    owned = λ l. (refl, refl, refl);
    logs = h ∙ sym (update_where-id (has_request id) s.logs);
  }

  pub Rewrites-trans :
      (id : String) (s t u : Store F) → Rewrites id s t → Rewrites id t u → Rewrites id s u
  Rewrites-trans id s t u r q = record {
    by = λ l. q.by (r.by l);
    owned = λ l. let a = r.owned l in let b = q.owned (r.by l) in (b.0 ∙ a.0, b.1 ∙ a.1, b.2 ∙ a.2);
    logs =
        q.logs
        ∙ ap (update_where (has_request id) q.by) r.logs
        ∙ update_where-compose (has_request id) r.by q.by s.logs (λ l h. rw (r.owned l).0 h);
  }

  pub merged-HasOwner :
      (logs : List (Log F)) (l m : Log F) → HasOwner l m → HasOwner l (merged logs l m)
  unfolding merged
  merged-HasOwner logs l m h =
      elim (Bool-cases (Store.is_duplicate_uuid m.request_id m.order_uuid logs)) [
        | inl e ↦ rw e h
        | inr e ↦ rw e h
      ]

  pub update-Rewrites :
      (id : String) (f : Log F → Log F) (s : Store F)
      → ((l : Log F) → HasOwner l (f l))
      → Rewrites id s (update_live_order_log id f s)
  unfolding update_live_order_log
  update-Rewrites id f s h = record {
    by = λ l. merged s.logs l (f l);
    owned = λ l. merged-HasOwner s.logs l (f l) (h l);
    logs = refl;
  }

module _ {F : Type 0} ⦃num : Float F⦄ where
  settle-logs :
      (still : Bool) (uuid : Option String) (fill : Fill F) (p : Position F) (s : Store F)
      → (Recovery.settle still uuid fill p s).logs ≡ s.logs
  unfolding Recovery.settle Recovery.repair_closed_position_session_pointer
      Store.update_live_position Store.update_live_strategy_session
  settle-logs still uuid fill p s = elim (Bool-cases (Recovery.is_sold_out fill p)) [
    | inl e ↦ rw e refl
    | inr e ↦ rw e refl
  ]

  sweep_position-logs :
      (still : Bool) (uuid : Option String) (fill : Fill F) (w : Sweep F) (p : Position F)
      → (Recovery.sweep_position still uuid fill w p).store.logs ≡ w.store.logs
  unfolding Recovery.sweep_position Store.update_live_position
  sweep_position-logs still uuid fill w p =
      let applied = min p.entry_volume w.remaining in
      elim (Bool-cases (le p.entry_volume nought)) [
        | inl e ↦ rw e refl
        | inr e ↦ rw e (elim (Bool-cases (le applied nought)) [
          | inl k ↦ rw k (elim (Bool-cases still) [ inl b ↦ rw b refl | inr b ↦ rw b refl ])
          | inr k ↦ rw k (settle-logs still uuid (Recovery.piece fill applied) p w.store)
        ])
      ]

  sweep_found-logs :
      (still : Bool) (uuid : Option String) (fill : Fill F) (w : Sweep F) (p : Option (Position F))
      → (Recovery.sweep_found still uuid fill w p).store.logs ≡ w.store.logs
  unfolding Recovery.sweep_found
  sweep_found-logs still uuid fill w none = refl
  sweep_found-logs still uuid fill w (some p) = sweep_position-logs still uuid fill w p

  sweep-logs :
      (still : Bool) (uuid : Option String) (fill : Fill F) (ids : List ℕ) (w : Sweep F)
      → (Recovery.sweep still uuid fill ids w).store.logs ≡ w.store.logs
  unfolding Recovery.sweep
  sweep-logs still uuid fill [] w = refl
  sweep-logs still uuid fill (id ∷ ids) w =
      sweep-logs still uuid fill ids _
      ∙ sweep_found-logs still uuid fill w (Store.load_live_position id w.store)

  reopen_all-logs : (ids : List ℕ) (s : Store F) → (Recovery.reopen_all ids s).logs ≡ s.logs
  unfolding Recovery.reopen_all Store.update_live_position
  reopen_all-logs [] s = refl
  reopen_all-logs (id ∷ ids) s = reopen_all-logs ids _

  aggregate-Rewrites :
      (still : Bool) (l : Log F) (ids : List ℕ) (fill : Fill F) (s : Store F)
      → Rewrites l.request_id s (Recovery.sync_aggregate_exit_order_positions still l ids fill s)
  unfolding Recovery.sync_aggregate_exit_order_positions
  aggregate-Rewrites still l ids fill s =
      let start : Sweep F = record { store = s; remaining = fill.volume; total_pnl = nought } in
      let w = Recovery.sweep still l.order_uuid fill ids start in
      let same = unchanged l.request_id s w.store (sweep-logs still l.order_uuid fill ids start) in
      elim (Bool-cases (le fill.volume nought)) [
        | inl e ↦ rw e (unchanged l.request_id s s refl)
        | inr e ↦ rw e (
            Rewrites-trans l.request_id s w.store _ same (
              update-Rewrites l.request_id (Recovery.with_pnl w.total_pnl) w.store
                (λ m. (refl, refl, refl))))
      ]

  sync_single-Rewrites :
      (l : Log F) (st : ReconciledOrderStatus F) (fill : Fill F) (p : Position F) (s : Store F)
      → Rewrites l.request_id s (Recovery.sync_single l st fill p s)
  unfolding Recovery.sync_single Store.update_live_position
  sync_single-Rewrites l st fill p s =
      let noted =
        update_live_order_log l.request_id (Recovery.with_pnl (Recovery.actual_pnl fill p)) s in
      let still = Recovery.is_still_waiting st in
      let written : Rewrites l.request_id s noted =
        update-Rewrites l.request_id (Recovery.with_pnl (Recovery.actual_pnl fill p)) s
          (λ m. (refl, refl, refl)) in
      elim (Bool-cases (le fill.volume nought && Recovery.has_fill st.status)) [
        | inl e ↦ rw e (unchanged l.request_id s s refl)
        | inr e ↦ rw e (elim (Bool-cases (Recovery.has_fill st.status)) [
          | inl k ↦ rw k (
              Rewrites-trans l.request_id s noted _ written
                (unchanged l.request_id noted _ (settle-logs still l.order_uuid fill p noted)))
          | inr k ↦ rw k (elim (Bool-cases (Rows.is_canceled st.status)) [
            | inl b ↦ rw b (unchanged l.request_id s _ refl)
            | inr b ↦ rw b (unchanged l.request_id s s refl)
          ])
        ])
      ]

  sync_position-Rewrites :
      (l : Log F) (prev : Previous F) (st : ReconciledOrderStatus F) (ids : List ℕ) (p : Position F)
      (s : Store F)
      → Rewrites l.request_id s (Recovery.sync_position l prev st ids p s)
  unfolding Recovery.sync_position
  sync_position-Rewrites l prev st [] p s =
      sync_single-Rewrites l st (Recovery.new_fill prev st) p s
  sync_position-Rewrites l prev st (id ∷ ids) p s =
      elim (Bool-cases (Recovery.has_fill st.status)) [
        | inl e ↦ rw e (
            aggregate-Rewrites (Recovery.is_still_waiting st) l (id ∷ ids)
              (Recovery.new_fill prev st) s)
        | inr e ↦ rw e (elim (Bool-cases (Rows.is_canceled st.status)) [
          | inl b ↦ rw b (unchanged l.request_id s _ (reopen_all-logs (id ∷ ids) s))
          | inr b ↦ rw b (sync_single-Rewrites l st (Recovery.new_fill prev st) p s)
        ])
      ]

  sync_found-Rewrites :
      (l : Log F) (prev : Previous F) (st : ReconciledOrderStatus F) (p : Option (Position F))
      (s : Store F)
      → Rewrites l.request_id s (Recovery.sync_found l prev st p s)
  unfolding Recovery.sync_found
  sync_found-Rewrites l prev st none s = unchanged l.request_id s s refl
  sync_found-Rewrites l prev st (some p) s =
      sync_position-Rewrites l prev st (Recovery.aggregate_exit_position_ids l) p s

  pub sync-Rewrites :
      (l : Log F) (prev : Previous F) (st : ReconciledOrderStatus F) (s : Store F)
      → Rewrites l.request_id s (Recovery.sync_exit_order_position l prev st s)
  unfolding Recovery.sync_exit_order_position
  sync-Rewrites l prev st s = sync_found-Rewrites l prev st (Recovery.position_for_exit_order l s) s
