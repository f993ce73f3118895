-- ===== src/Pipeline/ReadOnly.antt =====
-- A scoring that does not persist, as pre_token_check asks for, writes nothing.
use sentinel_auth.Prelude.{
  ℕ, Bool, true, false, refl, Option, none, some, List, [], ◌∷◌, Bool-cases, inl, inr,
}
use sentinel_auth.Core.{
  Uuid, Outside, pure, query, lift, is_internal_auth_configured, Leaves, leaves, Leaves-when,
  Leaves-bind,
}
use sentinel_auth.Detection.Tables.{LoginAttempt, Alert}
use sentinel_auth.Policies.Config.{Json, Arithmetic, Problem, resolve_config}
use sentinel_auth.Policies.Activation.{Policy}
use sentinel_auth.Pipeline.Features.{Features, build_features}
use sentinel_auth.Pipeline.Evaluation.{
  RuleHit, RuleProblem, Evaluation, evaluate_rules, matched_value,
}
use sentinel_auth.Pipeline.Ml.{MlOutcome, MlReply, call_ml_service}
use sentinel_auth.Pipeline.Levels.{creates_alert}
use sentinel_auth.Pipeline.Store.{DetectionLog, Store, add_log, alert_of, get_active_policy}
use sentinel_auth.Pipeline.Attempt.{
  Judgement, judge, log, log_config, log_hits, log_problems, score_attempt,
}
use sentinel_auth.Pipeline.Process.{
  reuse_alert, alert_if, alert_for, put_alert, write_verdict, without_policy, with_policy,
  process_attempt,
}

module _ (A : Arithmetic) (outside : Outside) (ml : ℕ → Uuid → Features A.Number → MlReply A.Number)
    (attempt : LoginAttempt) (request_id : Uuid) where
  log-Leaves :
      (row : DetectionLog A.Number) → Leaves (log A outside ml false none attempt request_id row)
  log-Leaves row = Leaves-when false (add_log row)

  log_config-Leaves :
      (problems : List Problem)
      → Leaves (log_config A outside ml false none attempt request_id problems)
  unfolding log_config
  log_config-Leaves [] = leaves (λ w. refl) (λ w. refl)
  log_config-Leaves (_ ∷ rest) = log_config-Leaves rest

  log_problems-Leaves :
      (problems : List (RuleProblem A.Number))
      → Leaves (log_problems A outside ml false none attempt request_id problems)
  unfolding log_problems
  log_problems-Leaves [] = leaves (λ w. refl) (λ w. refl)
  log_problems-Leaves (_ ∷ rest) = log_problems-Leaves rest

  log_hits-Leaves :
      (features : Features A.Number) (rules : Json A.Number) (hits : List (RuleHit A.Number))
      → Leaves (log_hits A outside ml false none attempt request_id features rules hits)
  unfolding log_hits
  log_hits-Leaves features rules [] = leaves (λ w. refl) (λ w. refl)
  log_hits-Leaves features rules (hit ∷ rest) =
      Leaves-bind (lift (matched_value A features hit.rule_name rules)) _
        (leaves (λ w. refl) (λ w. refl)) (λ value. log_hits-Leaves features rules rest)

  call_ml_service-Leaves :
      (features : Features A.Number)
      → Leaves {D = Store A.Number} (call_ml_service A outside ml features request_id)
  unfolding call_ml_service
  call_ml_service-Leaves features = elim (Bool-cases (is_internal_auth_configured outside)) [
    | inl on ↦ leaves (λ w. rw on) (λ w. rw on)
    | inr off ↦ leaves (λ w. rw off) (λ w. rw off)
  ]

  score_attempt-Leaves :
      (policy : Policy A.Number)
      → Leaves (score_attempt A outside ml false none attempt request_id policy)
  unfolding score_attempt
  score_attempt-Leaves policy =
      let config = (resolve_config A policy.config).0 in
      Leaves-bind _ _ (log_config-Leaves (resolve_config A policy.config).1) (λ _.
        Leaves-bind (query (λ db. build_features A attempt db.soc.login_attempts)) _
          (leaves (λ w. refl) (λ w. refl))
          (λ (features : Features A.Number).
            Leaves-bind (lift (evaluate_rules A policy.rules features)) _
              (leaves (λ w. refl) (λ w. refl))
              (λ (evaluation : Evaluation A.Number).
                Leaves-bind _ _ (log_hits-Leaves features policy.rules evaluation.hits) (λ _.
                  Leaves-bind _ _ (log_problems-Leaves evaluation.problems) (λ _.
                    Leaves-bind _ _ (call_ml_service-Leaves features)
                      (λ (outcome : MlOutcome A.Number).
                        leaves
                          {m = pure (
                            judge A outside ml false none attempt request_id policy features config
                              evaluation outcome)}
                          (λ w. refl) (λ w. refl)))))))

  alert_for-Leaves :
      (v : Judgement A.Number) (found : Option Alert)
      → Leaves (alert_for A outside ml false none attempt request_id v found)
  unfolding reuse_alert
  alert_for-Leaves v (some alert) = leaves (λ w. refl) (λ w. refl)
  alert_for-Leaves v none = quiet (creates_alert v.risk_level)
    where
      quiet :
          (b : Bool) → Leaves (alert_if A outside ml false none attempt request_id v b false none)
      quiet true = leaves (λ w. refl) (λ w. refl)
      quiet false = leaves (λ w. refl) (λ w. refl)

  write_verdict-Leaves :
      (v : Judgement A.Number) → Leaves (write_verdict A outside ml false none attempt request_id v)
  unfolding write_verdict put_alert
  write_verdict-Leaves v =
      Leaves-bind _ _
        (Leaves-bind (query (alert_of none))
          (alert_for A outside ml false none attempt request_id v) (leaves (λ w. refl) (λ w. refl))
          (alert_for-Leaves v))
        (λ (id : Option Uuid). leaves (λ w. refl) (λ w. refl))

  with_policy-Leaves :
      (policy : Option (Policy A.Number))
      → Leaves (with_policy A outside ml false none attempt request_id policy)
  unfolding without_policy
  with_policy-Leaves none = leaves (λ w. refl) (λ w. refl)
  with_policy-Leaves (some policy) =
      Leaves-bind _ _ (score_attempt-Leaves policy) write_verdict-Leaves

  pub process_attempt-Leaves : Leaves (process_attempt A outside ml false none attempt request_id)
  unfolding process_attempt
  process_attempt-Leaves =
      Leaves-bind (query get_active_policy) (with_policy A outside ml false none attempt request_id)
        (leaves (λ w. refl) (λ w. refl)) with_policy-Leaves
