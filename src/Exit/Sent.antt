-- ===== src/Exit/Sent.antt =====
-- What a submission asks of the exchange.
use Prim.Native.String.{String}
use auto_coin_bot.Common.{
  ◌≡◌, ◌⊎◌, refl, true, ◌&&◌, Option, none, some, [], ◌∷◌, Bool-cases, inl, inr,
}
use auto_coin_bot.Common.Float.{Float}
use auto_coin_bot.Common.Table.{str_eq}
use auto_coin_bot.Exit.Rows
use auto_coin_bot.Exit.Rows.{Position, Candidate, Log, Store, OrderStatus, RiskResult}
use auto_coin_bot.Exit.Store.{get_live_order_log}
use auto_coin_bot.Exit.Check
use auto_coin_bot.Exit.Check.{World}
use auto_coin_bot.Exit.Trigger.{Config}
use auto_coin_bot.Exit.Reconcile.{Exchange}
use auto_coin_bot.Exit.Preview
use auto_coin_bot.Exit.Submit
use auto_coin_bot.Exit.Submit.{Submitted}
use auto_coin_bot.Exit.Cleared.{IsCleared, PassesRisk}
use auto_coin_bot.Exit.Single.{found_allowed}

module _ {F : Type 0} ⦃num : Float F⦄ where
  -- The submission of a previewed order that has passed the guards: it is sent once, as it was previewed.
  pub record IsClearedSend (config : Config F) (w : World F) (e : Exchange F) (id text : String)
      (s : Store F) (r : Submitted F) : Type 0 where
    pub log : Log F
    pub candidate : Candidate F
    pub position : Position F
    pub confirmed : str_eq text "SUBMIT LIMIT EXIT ORDER" ≡ true
    pub found : get_live_order_log id s ≡ some log
    pub previewed : Rows.is_previewed log.status && Rows.is_allowed log.risk_result ≡ true
    pub candidate_found : Submit.candidate_of log.exit_candidate_id s ≡ some candidate
    pub position_found : Preview.position_of log.position_id s ≡ some position
    pub cleared : IsCleared config w s candidate position true log.is_auto_exit
    pub risk_passed : PassesRisk config w s candidate position true log.is_auto_exit log.request_id
    pub placed : r ≡ Submit.place e log (Preview.position_of log.position_id s) s
    pub sent : r.sent ≡ Submit.sent_of log ∷ []

  sent_once :
      (e : Exchange F) (l : Log F) (p : Option (Position F)) (s : Store F)
      → (Submit.place e l p s).sent ≡ Submit.sent_of l ∷ []
  unfolding Submit.place
  sent_once e l p s = refl

  submit_found-sent :
      (config : Config F) (w : World F) (e : Exchange F) (id text : String) (o : Option (Log F))
      (s : Store F)
      → str_eq text "SUBMIT LIMIT EXIT ORDER" ≡ true
      → get_live_order_log id s ≡ o
      → let r = Submit.submit_found config w e o s in
        (r.sent ≡ []) ⊎ IsClearedSend config w e id text s r
  unfolding Submit.submit_found Submit.submit_previewed Submit.refuse
  submit_found-sent config w e id text none s h f = inl refl
  submit_found-sent config w e id text (some l) s h f =
      let p = Preview.position_of l.position_id s in
      let c = Submit.candidate_of l.exit_candidate_id s in
      let risk = Check.evaluate_found config w s c p true l.is_auto_exit l.request_id in
      elim (Bool-cases (Rows.is_previewed l.status && Rows.is_allowed l.risk_result)) [
        | inr k ↦ rw k (inl refl)
        | inl k ↦ rw k (elim (Bool-cases risk.allowed) [
          | inr a ↦ rw a (inl refl)
          | inl a ↦
              let (candidate, same_candidate, (position, same_position, cleared, risk_passed)) =
                found_allowed config w s c p true l.is_auto_exit l.request_id a in
              rw a (
                inr (record {
                  log = l;
                  candidate = candidate;
                  position = position;
                  confirmed = h;
                  found = f;
                  previewed = k;
                  candidate_found = same_candidate;
                  position_found = same_position;
                  cleared = cleared;
                  risk_passed = risk_passed;
                  placed = refl;
                  sent = sent_once e l p s;
                }))
        ])
      ]

  -- A submission sends nothing to the exchange, or it sends the previewed order, once, after the
  -- confirmation, and its position has passed every guard of the exit check, at that time: those of the
  -- settings, the position, its orders and its tries, of the balances and the other answers of the exchange,
  -- of what can be sold and what it is worth, and all of the risk manager.
  pub submit_sends_cleared :
      (config : Config F) (w : World F) (e : Exchange F) (id text : String) (s : Store F)
      → let r = Submit.submit_exit_order config w e id text s in
        (r.sent ≡ []) ⊎ IsClearedSend config w e id text s r
  unfolding Submit.submit_exit_order
  submit_sends_cleared config w e id text s =
      elim (Bool-cases (str_eq text "SUBMIT LIMIT EXIT ORDER")) [
        | inl k ↦ rw k (submit_found-sent config w e id text (get_live_order_log id s) s k refl)
        | inr k ↦ rw k (inl refl)
      ]
