-- ===== src/Pipeline/Verdict.antt =====
-- What an answer of process_attempt says.
use sentinel_auth.Prelude.{
  ℕ, String, Bool, ◌&&◌, ◌≡◌, refl, sym, ap, subst, ◌∙◌, Option, none, some, List, Bool-cases, inl,
  inr,
}
use sentinel_auth.Core.{Uuid, Outside, Result, ok, WorldOf, >>=-eq-ok}
use sentinel_auth.Detection.Tables.{LoginAttempt}
use sentinel_auth.Policies.Config.{Arithmetic}
use sentinel_auth.Policies.Activation.{Policy}
use sentinel_auth.Pipeline.Features.{Features}
use sentinel_auth.Pipeline.Ml.{MlReply}
use sentinel_auth.Pipeline.Levels.{decision_of}
use sentinel_auth.Pipeline.Store.{Store, get_active_policy}
use sentinel_auth.Pipeline.Attempt.{
  log, unscored, DetectionResponse, Judgement, unit_score, version_text, reason_codes,
  checked_response, response_of, score_attempt,
}
use sentinel_auth.Pipeline.Process.{
  no_policy_row, settle_unscored, put_alert, save, finish, write_verdict, without_policy,
  with_policy, process_attempt,
}

module _ (A : Arithmetic) where
  -- An answer repeats the judgement.
  abbrev pub Repeats : Judgement A.Number → Option Uuid → DetectionResponse A.Number → Type 0
  Repeats v id r =
      (r.risk_level ≡ v.risk_level) × (r.decision ≡ decision_of v.risk_level) × (r.alert_id ≡ id)

  checked_response-eq-ok :
      (v : Judgement A.Number) (id : Option Uuid) (version : Option (Option String))
      (codes : Option (List String)) {r : DetectionResponse A.Number}
      → checked_response A v id version codes ≡ ok r
      → Repeats v id r
  checked_response-eq-ok v id (some version) (some codes) {r} e =
      elim (Bool-cases (
        unit_score A (some v.evaluation.rule_score)
        && (unit_score A v.ml.score && unit_score A (some v.combined)))) [
          | inl good ↦ let s = rw good at e in (cc, cc, cc)
          | inr bad ↦ let s = rw bad at e in cc
        ]
  checked_response-eq-ok v id none codes e = cc
  checked_response-eq-ok v id (some version) none e = cc

  pub response_of-eq-ok :
      (v : Judgement A.Number) (id : Option Uuid) {r : DetectionResponse A.Number}
      → response_of A v id ≡ ok r
      → Repeats v id r
  unfolding response_of
  response_of-eq-ok v id e =
      checked_response-eq-ok v id (version_text A v.ml.model_version)
        (reason_codes A v.ml.reason_codes) e

  module _ (outside : Outside) (ml : ℕ → Uuid → Features A.Number → MlReply A.Number)
      (persist : Bool) (key : Option Uuid) (attempt : LoginAttempt) (request_id : Uuid) where
    write_verdict-decision :
        (v : Judgement A.Number) (w : WorldOf (Store A.Number)) {r : DetectionResponse A.Number}
        {w' : WorldOf (Store A.Number)}
        → write_verdict A outside ml persist key attempt request_id v w ≡ (ok r, w')
        → r.decision ≡ decision_of r.risk_level
    unfolding write_verdict
    write_verdict-decision v w e =
        let (_, w1, _, k1) =
          >>=-eq-ok (save A outside ml persist key attempt request_id v persist key) _ w e in
        let (id, w2, _, k2) =
          >>=-eq-ok (put_alert A outside ml persist key attempt request_id v) _ w1 k1 in
        let (_, w3, _, k3) =
          >>=-eq-ok (finish A outside ml persist key attempt request_id v persist) _ w2 k2 in
        let (level, decided, _) =
          response_of-eq-ok v id
            (ap (λ (q : Result (DetectionResponse A.Number) × WorldOf (Store A.Number)). q.0) k3) in
        decided ∙ ap decision_of (sym level)

    with_policy-decision :
        (policy : Option (Policy A.Number)) (w : WorldOf (Store A.Number))
        {r : DetectionResponse A.Number} {w' : WorldOf (Store A.Number)}
        → with_policy A outside ml persist key attempt request_id policy w ≡ (ok r, w')
        → r.decision ≡ decision_of r.risk_level
    unfolding without_policy decision_of
    with_policy-decision none w {r} e =
        let (_, w1, _, k1) =
          >>=-eq-ok
            (log A outside ml persist key attempt request_id
              (no_policy_row A outside ml persist key attempt request_id))
            _ w e in
        let (_, w2, _, k2) =
          >>=-eq-ok (settle_unscored A outside ml persist key attempt request_id) _ w1 k1 in
        let same : unscored A ≡ r = cc in
        subst (λ (q : DetectionResponse A.Number). q.decision ≡ decision_of q.risk_level) same refl
    with_policy-decision (some policy) w e =
        let (v, w1, _, k) =
          >>=-eq-ok (score_attempt A outside ml persist key attempt request_id policy) _ w e in
        write_verdict-decision v w1 k

    -- The decision of an answer is the one of its level.
    pub process_attempt-decision :
        (w : WorldOf (Store A.Number)) {r : DetectionResponse A.Number}
        {w' : WorldOf (Store A.Number)}
        → process_attempt A outside ml persist key attempt request_id w ≡ (ok r, w')
        → r.decision ≡ decision_of r.risk_level
    unfolding process_attempt
    process_attempt-decision w e = with_policy-decision (get_active_policy w.working) w e
