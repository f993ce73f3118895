-- ===== src/Pipeline/Levels.antt =====
-- app/detection.py: the risk level of a score, and what each level asks for.
use sentinel_auth.Prelude.{String, Bool, true, false, Option, none, some, if◌then◌else◌}
use sentinel_auth.Actions.{SecurityAction}
use sentinel_auth.Detection.Tables.{RiskLevel, Decision}
use sentinel_auth.Policies.Config.{Arithmetic, Weights, Thresholds}
use sentinel_auth.Pipeline.Features.{min_one, max_zero}
use sentinel_auth.Pipeline.Ml.{MlStatus, MlOutcome}

abbrev pub level_value : RiskLevel → String
level_value RiskLevel.low = "low"
level_value RiskLevel.medium = "medium"
level_value RiskLevel.high = "high"
level_value RiskLevel.critical = "critical"

abbrev pub decision_value : Decision → String
decision_value Decision.allow = "allow"
decision_value Decision.challenge = "challenge"
decision_value Decision.block = "block"

-- The three columns of DECISION_MATRIX.
unfoldable pub decision_of : RiskLevel → Decision
decision_of RiskLevel.low = Decision.allow
decision_of RiskLevel.medium = Decision.allow
decision_of RiskLevel.high = Decision.challenge
decision_of RiskLevel.critical = Decision.block

unfoldable pub action_label : RiskLevel → String
action_label RiskLevel.low = "ALLOW"
action_label RiskLevel.medium = "ALLOW_LOG"
action_label RiskLevel.high = "REQUIRE_MFA"
action_label RiskLevel.critical = "BLOCK_ALERT"

unfoldable pub creates_alert : RiskLevel → Bool
creates_alert RiskLevel.low = false
creates_alert RiskLevel.medium = false
creates_alert RiskLevel.high = true
creates_alert RiskLevel.critical = true

-- RISK_ACTION_MAP
unfoldable pub risk_action : RiskLevel → Option SecurityAction
risk_action RiskLevel.low = none
risk_action RiskLevel.medium = none
risk_action RiskLevel.high = some SecurityAction.require_mfa
risk_action RiskLevel.critical = some SecurityAction.revoke_sessions

module _ (A : Arithmetic) where
  unfoldable pub map_score_to_risk_level : A.Number → Thresholds A.Number → RiskLevel
  map_score_to_risk_level score t =
      if A.lt score t.low
      then RiskLevel.low
      else (if A.lt score t.medium
          then RiskLevel.medium
          else (if A.lt score t.high then RiskLevel.high else RiskLevel.critical))

  abbrev pub weighted : Weights A.Number → A.Number → MlStatus → Option A.Number → A.Number
  weighted w rule_score MlStatus.success (some s) = A.add (A.mul w.rule rule_score) (A.mul w.ml s)
  weighted w rule_score _ _ = rule_score

  -- Without a score of the ML service, the score of the rules alone.
  unfoldable pub combine : Weights A.Number → A.Number → MlOutcome A.Number → A.Number
  combine w rule_score ml = min_one A (max_zero A (weighted w rule_score ml.status ml.score))
