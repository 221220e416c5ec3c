-- ===== src/Exit/Kept.antt =====
-- Submissions and previews keep the row of an order that is no longer previewed.
use Prim.Native.String.{String}
use mathlib.Core.Path.{subst}
use text.Mathlib.TextEquality.{eq_iff}
use auto_coin_bot.Common.{
  ℕ, ◌≡◌, refl, sym, ap, ◌∙◌, true, false, ◌&&◌, Option, none, some, List, [], ◌∷◌, arith,
  Bool-cases, inl, inr, any, select_first-update_other, select_first-append, select_first, Bool,
  false, some-injective,
}
use auto_coin_bot.Common.Float.{Float}
use auto_coin_bot.Common.Table.{str_eq}
use auto_coin_bot.Exit.Rows
use auto_coin_bot.Exit.Rows.{Position, Candidate, Log, Store, OrderStatus, RiskResult}
use auto_coin_bot.Exit.Store
use auto_coin_bot.Exit.Store.{is_open_exit_of, get_live_order_log, has_open_exit_order}
use auto_coin_bot.Exit.Check
use auto_coin_bot.Exit.Check.{World}
use auto_coin_bot.Exit.Trigger.{Config}
use auto_coin_bot.Exit.Reconcile.{Exchange}
use auto_coin_bot.Exit.Preview
use auto_coin_bot.Exit.Submit
use auto_coin_bot.Exit.Submit.{Submitted}
use auto_coin_bot.Exit.Rewrites.{Rewrites, Rewrites-trans, unchanged, update-Rewrites}
use auto_coin_bot.Exit.Sending.{after_place-Rewrites, found_id, mark_candidate_of-logs}

-- What may come before the order is reconciled: submissions and previews of any orders.
pub data Act (F : Type 0) : Type 0 where
  submission : Config F → World F → Exchange F → String → String → Act F
  preview : Config F → World F → ℕ → Bool → Bool → String → Act F

module _ {F : Type 0} ⦃num : Float F⦄ where
  unfoldable pub act : Act F → Store F → Store F
  act (submission config w e id text) s = (Submit.submit_exit_order config w e id text s).store
  act (preview config w candidate manual auto id) s =
      (Preview.create_exit_order_preview config w candidate manual auto id s).0

  unfoldable pub acts : List (Act F) → Store F → Store F
  acts [] s = s
  acts (a ∷ rest) s = acts rest (act a s)

  Rewrites-other :
      (id other : String) (s t : Store F)
      → str_eq id other ≡ false
      → Rewrites id s t
      → get_live_order_log other t ≡ get_live_order_log other s
  unfolding get_live_order_log
  Rewrites-other id other s t d r =
      ap (select_first (Store.has_request other)) r.logs
      ∙ select_first-update_other (Store.has_request other) (Store.has_request id) r.by s.logs
          (λ x h. rw ((eq_iff x.request_id id).0 h) d)
          (λ x h. rw (r.owned x).0 (rw ((eq_iff x.request_id id).0 h) d))

  refuse-Rewrites :
      (l : Log F) (result : RiskResult) (s : Store F)
      → Rewrites l.request_id s (Submit.refuse l result s).store
  unfolding Submit.refuse
  refuse-Rewrites l result s =
      let marked = Submit.mark_log l.request_id OrderStatus.blocked result s in
      Rewrites-trans l.request_id s marked _
        (update-Rewrites l.request_id
          (λ m. record m { status = OrderStatus.blocked; risk_result = result }) s
          (λ m. (refl, refl, refl)))
        (unchanged l.request_id marked _
          (mark_candidate_of-logs l.exit_candidate_id OrderStatus.blocked result marked))

  place-Rewrites :
      (e : Exchange F) (l : Log F) (p : Option (Position F)) (s : Store F)
      → Rewrites l.request_id s (Submit.place e l p s).store
  unfolding Submit.place
  place-Rewrites e l p s = after_place-Rewrites e l p (e.place_order (Submit.sent_of l)) s

  submit_previewed-Rewrites :
      (config : Config F) (w : World F) (e : Exchange F) (l : Log F) (s : Store F)
      → Rewrites l.request_id s (Submit.submit_previewed config w e l s).store
  unfolding Submit.submit_previewed
  submit_previewed-Rewrites config w e l s =
      let p = Preview.position_of l.position_id s in
      let risk =
        Check.evaluate_found config w s (Submit.candidate_of l.exit_candidate_id s) p true
          l.is_auto_exit l.request_id in
      elim (Bool-cases risk.allowed) [
        | inl a ↦ rw a (place-Rewrites e l p s)
        | inr a ↦ rw a (refuse-Rewrites l risk.risk_result s)
      ]

  submit_found-keeps :
      (config : Config F) (w : World F) (e : Exchange F) (id other : String) (o : Option (Log F))
      (s : Store F) (m : Log F)
      → Rows.is_previewed m.status ≡ false
      → get_live_order_log other s ≡ some m
      → get_live_order_log id s ≡ o
      → get_live_order_log other (Submit.submit_found config w e o s).store ≡ some m
  unfolding Submit.submit_found
  submit_found-keeps config w e id other none s m n held f = held
  submit_found-keeps config w e id other (some l) s m n held f =
      elim (Bool-cases (Rows.is_previewed l.status && Rows.is_allowed l.risk_result)) [
        | inr k ↦ rw k held
        | inl k ↦ elim (Bool-cases (str_eq id other)) [
          | inl same ↦
              let one : l ≡ m =
                some-injective
                  (sym f ∙ ap (λ i. get_live_order_log i s) ((eq_iff id other).0 same) ∙ held) in
              absurd (sent_already l m one n k)
          | inr d ↦
              let key = found_id id s f in
              rw k (
                Rewrites-other l.request_id other s _ (rw key d)
                  (submit_previewed-Rewrites config w e l s)
                ∙ held)
        ]
      ]
    where
      sent_already :
          (l m : Log F)
          → l ≡ m
          → Rows.is_previewed m.status ≡ false
          → Rows.is_previewed l.status && Rows.is_allowed l.risk_result ≡ true
          → ⊥
      sent_already l m one n k =
          let n' : Rows.is_previewed l.status ≡ false =
            subst (λ x. Rows.is_previewed x.status ≡ false) (sym one) n in
          absurd (ground (arith, n', k))

  submit-keeps :
      (config : Config F) (w : World F) (e : Exchange F) (id text other : String) (s : Store F)
      (m : Log F)
      → Rows.is_previewed m.status ≡ false
      → get_live_order_log other s ≡ some m
      → get_live_order_log other (Submit.submit_exit_order config w e id text s).store ≡ some m
  unfolding Submit.submit_exit_order
  submit-keeps config w e id text other s m n held =
      elim (Bool-cases (str_eq text "SUBMIT LIMIT EXIT ORDER")) [
        | inl k ↦
            rw k (submit_found-keeps config w e id other (get_live_order_log id s) s m n held refl)
        | inr k ↦ rw k held
      ]

  preview_found-keeps :
      (config : Config F) (w : World F) (c : Option (Candidate F)) (manual auto : Bool)
      (id other : String) (s : Store F) (m : Log F)
      → get_live_order_log other s ≡ some m
      → get_live_order_log other (Preview.preview_found config w c manual auto id s).0 ≡ some m
  unfolding Preview.preview_found Store.insert_live_order_log get_live_order_log
      Store.update_exit_candidate
  preview_found-keeps config w none manual auto id other s m held = held
  preview_found-keeps config w (some c) manual auto id other s m held =
      let p = Preview.position_of (some c.position_id) s in
      let risk = Check.evaluate_exit_order config w s c p manual auto id in
      let log = Preview.exit_log_payload c risk id auto in
      elim (Bool-cases (any (Store.has_request log.request_id) s.logs)) [
        | inl k ↦ rw k held
        | inr k ↦ rw k (select_first-append (Store.has_request other) s.logs (log ∷ []) held)
      ]

  preview-keeps :
      (config : Config F) (w : World F) (candidate : ℕ) (manual auto : Bool) (id other : String)
      (s : Store F) (m : Log F)
      → get_live_order_log other s ≡ some m
      → get_live_order_log other
          (Preview.create_exit_order_preview config w candidate manual auto id s).0
        ≡ some m
  unfolding Preview.create_exit_order_preview
  preview-keeps config w candidate manual auto id other s m held =
      preview_found-keeps config w (Store.load_exit_candidate candidate s) manual auto id other s m
        held

  pub acts-keep :
      (rest : List (Act F)) (other : String) (s : Store F) (m : Log F)
      → Rows.is_previewed m.status ≡ false
      → get_live_order_log other s ≡ some m
      → get_live_order_log other (acts rest s) ≡ some m
  unfolding acts act
  acts-keep [] other s m n held = held
  acts-keep (submission config w e id text ∷ rest) other s m n held =
      acts-keep rest other _ m n (submit-keeps config w e id text other s m n held)
  acts-keep (preview config w candidate manual auto id ∷ rest) other s m n held =
      acts-keep rest other _ m n (preview-keeps config w candidate manual auto id other s m held)
