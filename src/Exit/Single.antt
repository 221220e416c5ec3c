-- ===== src/Exit/Single.antt =====
-- At most one exit order of a position is open.
use Prim.Native.Nat.{◌+◌, ◌≤◌}
use Prim.Native.String.{String}
use mathlib.Core.Path.{subst}
use auto_coin_bot.Common.{
  ℕ, ◌≡◌, refl, sym, Bool, true, false, ◌&&◌, Option, none, some, List, arith, Bool-cases, inl, inr,
  ◌==◌, count, as_ℕ, count_zero, count-update_where, count-update_same, select_first-holds,
}
use auto_coin_bot.Common.Float.{Float}
use auto_coin_bot.Common.Table.{str_eq}
use auto_coin_bot.Slots.{has_id}
use auto_coin_bot.Exit.Rows
use auto_coin_bot.Exit.Rows.{Position, Candidate, Log, Store, OrderStatus, RiskResult, is_open}
use auto_coin_bot.Exit.Store
use auto_coin_bot.Exit.Store.{has_request, is_open_exit_of, get_live_order_log, has_open_exit_order}
use auto_coin_bot.Exit.Check.{World}
use auto_coin_bot.Exit.Trigger.{Config}
use auto_coin_bot.Exit.Reconcile.{Exchange}
use auto_coin_bot.Exit.Submit
use auto_coin_bot.Exit.Preview
use auto_coin_bot.Exit.Check
use auto_coin_bot.Exit.Cleared.{IsCleared, PassesRisk, evaluate-IsCleared, evaluate-PassesRisk}
use auto_coin_bot.Exit.Sending.{found_id, mark_candidate_of-logs, after_place-Rewrites}
use auto_coin_bot.Exit.Rewrites.{Rewrites, HasOwner, merged-HasOwner}

pub as_ℕ_le : (b : Bool) → as_ℕ b ≤ 1
as_ℕ_le true = omega arith
as_ℕ_le false = omega arith

module _ {F : Type 0} where
  -- Request ids are unique, and each position has at most one open exit order.
  pub record IsSingle (s : Store F) : Type 0 where
    pub keyed : (id : String) → count (has_request id) s.logs ≤ 1
    pub single : (p : ℕ) → count (is_open_exit_of p) s.logs ≤ 1

  Rewrites-count :
      (id : String) (s t : Store F) (p : ℕ) (l : Log F)
      → (r : Rewrites id s t) → IsSingle s
      → get_live_order_log id s ≡ some l
      → count (is_open_exit_of p) t.logs + as_ℕ (is_open_exit_of p l)
        ≡ count (is_open_exit_of p) s.logs + as_ℕ (is_open_exit_of p (r.by l))
  unfolding get_live_order_log
  Rewrites-count id s t p l r v e =
      rw r.logs (count-update_where (has_request id) (is_open_exit_of p) r.by s.logs (v.keyed id) e)

  Rewrites-keyed :
      (id other : String) (s t : Store F)
      → Rewrites id s t
      → count (has_request other) t.logs ≡ count (has_request other) s.logs
  Rewrites-keyed id other s t r = rw r.logs (
      count-update_same (has_request id) (has_request other) r.by s.logs
        (λ l. rw (r.owned l).0 refl))

  shut_exit : (p : ℕ) (m : Log F) → is_open m.status ≡ false → is_open_exit_of p m ≡ false
  shut_exit p m h = ground arith

  foreign :
      (p : ℕ) (l m : Log F)
      → HasOwner l m
      → has_id l.position_id p ≡ false
      → is_open_exit_of p m ≡ false
  foreign p l m h e = rw h.1 (rw e refl)

  -- Rewriting the log of a position that has no open exit order leaves at most one.
  pub Rewrites-IsSingle :
      (id : String) (s t : Store F) (l : Log F)
      → Rewrites id s t
      → IsSingle s
      → get_live_order_log id s ≡ some l
      → ((p : ℕ) → has_id l.position_id p ≡ true → has_open_exit_order p s ≡ false)
      → IsSingle t
  unfolding has_open_exit_order
  Rewrites-IsSingle id s t l r v e free = record {
    keyed = λ other. omega (arith, Rewrites-keyed id other s t r, v.keyed other);
    single = λ p.
        let sum = Rewrites-count id s t p l r v e in
        elim (Bool-cases (has_id l.position_id p)) [
          | inl k ↦
              let none_open = count_zero (is_open_exit_of p) s.logs (free p k) in
              omega (arith, sum, none_open, as_ℕ_le (is_open_exit_of p (r.by l)))
          | inr k ↦
              let closed = foreign p l (r.by l) (r.owned l) k in
              let few = v.single p in omega (arith, rw closed at sum, few)
        ];
  }

  -- So does closing a log.
  pub closing-IsSingle :
      (id : String) (s t : Store F) (l : Log F)
      → (r : Rewrites id s t) → IsSingle s
      → get_live_order_log id s ≡ some l
      → is_open (r.by l).status ≡ false
      → IsSingle t
  closing-IsSingle id s t l r v e shut = record {
    keyed = λ other. omega (arith, Rewrites-keyed id other s t r, v.keyed other);
    single = λ p.
        let sum = Rewrites-count id s t p l r v e in
        let few = v.single p in
        let closed = shut_exit p (r.by l) shut in omega (arith, rw closed at sum, few);
  }

module _ {F : Type 0} ⦃num : Float F⦄ where
  merged_shut :
      (logs : List (Log F)) (l m : Log F)
      → is_open m.status ≡ false
      → is_open (Store.merged logs l m).status ≡ false
  unfolding Store.merged
  merged_shut logs l m h =
      elim (Bool-cases (Store.is_duplicate_uuid m.request_id m.order_uuid logs)) [
        | inl e ↦ rw e refl
        | inr e ↦ rw e h
      ]

  pub only_exitable-some :
      (o : Option (Position F)) {q : Position F} → Preview.only_exitable o ≡ some q → o ≡ some q
  only_exitable-some none h = cc h
  only_exitable-some (some p) h = elim (Bool-cases (Rows.is_exitable p.status)) [
    | inl e ↦ rw e at h
    | inr e ↦ cc (rw e at h)
  ]

  -- The position of a log that may be sold is the one whose id the log has.
  position_of-id :
      (o : Option ℕ) (s : Store F) (p : ℕ) {q : Position F}
      → Preview.position_of o s ≡ some q
      → has_id o p ≡ true
      → q.id ≡ p
  unfolding Store.load_live_position
  position_of-id none s p h k = cc h
  position_of-id (some id) s p {q} h k =
      let found = only_exitable-some (Store.load_live_position id s) h in
      let same = select_first-holds (λ r. r.id == id) s.positions found in ground arith

  pub found_allowed :
      (config : Config F) (w : World F) (s : Store F) (c : Option (Candidate F))
      (p : Option (Position F)) (manual auto : Bool) (id : String)
      → (Check.evaluate_found config w s c p manual auto id).allowed ≡ true
      → (k : Candidate F) × (c ≡ some k)
        × ((q : Position F) × (p ≡ some q)
            × IsCleared config w s k q manual auto
            × PassesRisk config w s k q manual auto id)
  unfolding Check.evaluate_found
  found_allowed config w s none p manual auto id h = cc h
  found_allowed config w s (some c) p manual auto id h =
      let (q, same, cleared) = evaluate-IsCleared config w s c p manual auto id h in
      let risk = evaluate-PassesRisk config w s c q manual auto id (
        subst (λ x. (Check.evaluate_exit_order config w s c x manual auto id).allowed ≡ true) same
          h) in
      (c, refl, (q, same, cleared, risk))

  place-IsSingle :
      (e : Exchange F) (l : Log F) (s : Store F) (q : Position F)
      → IsSingle s
      → get_live_order_log l.request_id s ≡ some l
      → Preview.position_of l.position_id s ≡ some q
      → has_open_exit_order q.id s ≡ false
      → IsSingle (Submit.place e l (Preview.position_of l.position_id s) s).store
  unfolding Submit.place
  place-IsSingle e l s q v found same free =
      Rewrites-IsSingle l.request_id s _ l
        (after_place-Rewrites e l (Preview.position_of l.position_id s) _ s) v found
        (λ p k. rw (sym (position_of-id l.position_id s p same k)) free)

  refuse-IsSingle :
      (l : Log F) (result : RiskResult) (s : Store F)
      → IsSingle s
      → get_live_order_log l.request_id s ≡ some l
      → IsSingle (Submit.refuse l result s).store
  unfolding Submit.refuse Store.update_live_order_log
  refuse-IsSingle l result s v found =
      let shut : Log F → Log F =
        λ m. record m { status = OrderStatus.blocked; risk_result = result } in
      let marked = Submit.mark_log l.request_id OrderStatus.blocked result s in
      closing-IsSingle l.request_id s _ l
        (record {
          by = λ m. Store.merged s.logs m (shut m);
          owned = λ m. merged-HasOwner s.logs m (shut m) (refl, refl, refl);
          logs = mark_candidate_of-logs l.exit_candidate_id OrderStatus.blocked result marked;
        })
        v found (merged_shut s.logs l (shut l) refl)

  previewed-IsSingle :
      (config : Config F) (w : World F) (e : Exchange F) (l : Log F) (s : Store F)
      → IsSingle s
      → get_live_order_log l.request_id s ≡ some l
      → IsSingle (Submit.submit_previewed config w e l s).store
  unfolding Submit.submit_previewed
  previewed-IsSingle config w e l s v found =
      let p = Preview.position_of l.position_id s in
      let c = Submit.candidate_of l.exit_candidate_id s in
      let risk = Check.evaluate_found config w s c p true l.is_auto_exit l.request_id in
      elim (Bool-cases risk.allowed) [
        | inl k ↦
            let (_, _, (q, same, cleared, _)) =
              found_allowed config w s c p true l.is_auto_exit l.request_id k in
            rw k (place-IsSingle e l s q v found same cleared.unsold)
        | inr k ↦ rw k (refuse-IsSingle l risk.risk_result s v found)
      ]

  submit_found-IsSingle :
      (config : Config F) (w : World F) (e : Exchange F) (id : String) (o : Option (Log F))
      (s : Store F)
      → IsSingle s
      → get_live_order_log id s ≡ o
      → IsSingle (Submit.submit_found config w e o s).store
  unfolding Submit.submit_found
  submit_found-IsSingle config w e id none s v h = v
  submit_found-IsSingle config w e id (some l) s v h =
      elim (Bool-cases (Rows.is_previewed l.status && Rows.is_allowed l.risk_result)) [
        | inl k ↦ rw k (
            previewed-IsSingle config w e l s v
              (subst (λ i. get_live_order_log i s ≡ some l) (sym (found_id id s h)) h))
        | inr k ↦ rw k v
      ]

  -- If request ids are unique and each position has at most one open exit order, this holds after a
  -- submission as well, whatever the exchange answers.
  pub submit-IsSingle :
      (config : Config F) (w : World F) (e : Exchange F) (id final_confirmation : String)
      (s : Store F)
      → IsSingle s
      → IsSingle (Submit.submit_exit_order config w e id final_confirmation s).store
  unfolding Submit.submit_exit_order
  submit-IsSingle config w e id final_confirmation s v =
      elim (Bool-cases (str_eq final_confirmation "SUBMIT LIMIT EXIT ORDER")) [
        | inl k ↦ rw k (submit_found-IsSingle config w e id (get_live_order_log id s) s v refl)
        | inr k ↦ rw k v
      ]
