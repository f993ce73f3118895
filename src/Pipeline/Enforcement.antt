-- ===== src/Pipeline/Enforcement.antt =====
-- app/detection.py, enforce_action_in_core: Core is asked for the action that the risk demands.
use Prim.Native.String.{◌++◌ as concat}
use sentinel_auth.Prelude.{ℕ, String, Bool, false, Option, none, some, or_else, if◌then◌else◌}
use sentinel_auth.Core.{Uuid, Outside, ActionOf, pure, ◌>>=◌, ◌>>◌, change, commit}
use sentinel_auth.Actions.{SecurityAction, ActionRequest, action_value}
use sentinel_auth.Detection.Tables.{RiskLevel, Decision, LoginAttempt}
use sentinel_auth.Detection.Client.{
  CoreReply, ActionOutcome, enforced, enforce_action_in_core_detailed,
}
use sentinel_auth.Pipeline.Levels.{level_value, decision_value, risk_action}
use sentinel_auth.Pipeline.Store.{DetectionLog, Store, add_log}

abbrev decision_text : Option Decision → String
decision_text none = "None"
decision_text (some d) = decision_value d

-- `risk_level if risk_level in ("high", "critical") else None`
abbrev severity_of : RiskLevel → Option String
severity_of RiskLevel.high = some "high"
severity_of RiskLevel.critical = some "critical"
severity_of _ = none

module _ (outside : Outside) where
  -- The key by which Core recognises a retry.
  unfoldable pub attempt_key : Uuid → SecurityAction → String
  attempt_key attempt_id action =
      concat "detection:" (concat (outside.uuid_text attempt_id) (concat ":" (action_value action)))

  abbrev reason_text : LoginAttempt → RiskLevel → String
  reason_text attempt level = concat "detection risk_level=" (
      concat (level_value level) (
        concat " decision=" (
          concat (decision_text attempt.detection_decision)
            (concat " attempt=" (outside.uuid_text attempt.id)))))

  -- What is posted to Core: none where there is nothing to do.
  unfoldable pub protective_request : LoginAttempt → RiskLevel → Option Uuid → Option ActionRequest
  protective_request attempt level alert_id = elim (risk_action level) [
    | none ↦ none
    | some action ↦ elim attempt.user_id [
      | none ↦ none
      | some user_id ↦ some (record {
        action = action;
        target_user_id = user_id;
        reason = reason_text attempt level;
        alert_id = alert_id;
        severity = severity_of level;
        idempotency_key = some (attempt_key attempt.id action);
        detected_at = some attempt.timestamp;
      })
    ]
  ]

abbrev failure_reason : ActionOutcome → Option String
failure_reason outcome =
    if enforced outcome then none else some (or_else outcome.error "action_not_enforced")

abbrev pub outcome_row :
    {N : Type 0} → LoginAttempt → SecurityAction → ActionOutcome → DetectionLog N
outcome_row attempt action outcome = record {
  login_attempt_id = some attempt.id;
  request_id = attempt.request_id;
  stage = "action_sent";
  stage_detail = action_value action;
  rule_name = none;
  triggered = none;
  score_contribution = none;
  field_value = none;
  decision = attempt.detection_decision;
  reason = failure_reason outcome;
}

unfoldable pub record_action_outcome :
    {N : Type 0} → LoginAttempt → SecurityAction → ActionOutcome → ActionOf (Store N) (Unit {0})
record_action_outcome attempt action outcome = do
  change (add_log (outcome_row attempt action outcome))
  commit

module _ {N : Type 0} (outside : Outside) (core : ℕ → ActionRequest → CoreReply) where
  abbrev pub send : LoginAttempt → Option ActionRequest → ActionOf (Store N) Bool
  send attempt none = pure false
  send attempt (some request) = do
    outcome ← enforce_action_in_core_detailed outside core request
    record_action_outcome attempt request.action outcome
    pure (enforced outcome)

  -- Every caller gives the database.
  unfoldable pub enforce_action_in_core :
      LoginAttempt → RiskLevel → Option Uuid → ActionOf (Store N) Bool
  enforce_action_in_core attempt level alert_id =
      send attempt (protective_request outside attempt level alert_id)
