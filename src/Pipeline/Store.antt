-- ===== src/Pipeline/Store.antt =====
-- The Detection database as the scoring uses it (app/models.py): the rows that it shares with the
-- alert handlers, the policies, and the assessments and logs of the scoring. The `details` of a log,
-- the `detection_scores` of an alert and the times of creation are left out. A column keeps the
-- number or the JSON value that it is given.
use sentinel_auth.Prelude.{
  String, Bool, Option, List, ◌++◌, [], ◌∷◌, ◌==◌, nat_eq, find, update, is_value,
}
use sentinel_auth.Core.{Uuid}
use sentinel_auth.Detection.Tables.{
  RiskLevel, Decision, LoginAttempt, Alert, AlertTimeline, DetectionDb,
}
use sentinel_auth.Policies.Config.{Json}
use sentinel_auth.Policies.Activation.{Policy}
use sentinel_auth.Pipeline.Features.{Features}
use sentinel_auth.Pipeline.Evaluation.{RuleHit}
use sentinel_auth.Pipeline.Ml.{MlStatus}

pub record RiskAssessment (N : Type 0) : Type 0 where
  pub login_attempt_id : Uuid
  pub policy_id : Option Uuid
  pub rule_score : N
  pub ml_score : Option N
  pub combined_score : N
  pub ml_status : MlStatus
  pub ml_model_version : Option (Json N)
  pub rule_hits : List (RuleHit N)
  pub ml_reason_codes : Json N
  pub ml_features_used : Features N
  pub risk_level : RiskLevel
  pub decision : Decision

-- `field_value` is the one entry of `details` that is kept.
pub record DetectionLog (N : Type 0) : Type 0 where
  pub login_attempt_id : Option Uuid
  pub request_id : Uuid
  pub stage : String
  pub stage_detail : String
  pub rule_name : Option String
  pub triggered : Option Bool
  pub score_contribution : Option N
  pub field_value : Option N
  pub decision : Option Decision
  pub reason : Option String

pub record Store (N : Type 0) : Type 0 where
  pub soc : DetectionDb
  pub policies : List (Policy N)
  pub risk_assessments : List (RiskAssessment N)
  pub detection_logs : List (DetectionLog N)

module _ {N : Type 0} where
  abbrev pub add_log : DetectionLog N → Store N → Store N
  add_log row db = record db { detection_logs = db.detection_logs ++ row ∷ [] }

  abbrev pub add_assessment : RiskAssessment N → Store N → Store N
  add_assessment row db = record db { risk_assessments = db.risk_assessments ++ row ∷ [] }

  abbrev pub change_soc : (DetectionDb → DetectionDb) → Store N → Store N
  change_soc f db = record db { soc = f db.soc }

  abbrev pub add_attempt : LoginAttempt → Store N → Store N
  add_attempt row = change_soc (λ s. record s { login_attempts = s.login_attempts ++ row ∷ [] })

  abbrev pub add_alert : Alert → Store N → Store N
  add_alert row = change_soc (λ s. record s { alerts = s.alerts ++ row ∷ [] })

  abbrev pub add_timeline : AlertTimeline → Store N → Store N
  add_timeline row = change_soc (λ s. record s { alert_timeline = s.alert_timeline ++ row ∷ [] })

  -- Assignments to the fields of an attempt; one that has no identifier yet has no row.
  abbrev pub update_attempt : Option Uuid → (LoginAttempt → LoginAttempt) → Store N → Store N
  update_attempt key f =
      change_soc
        (λ s. record s { login_attempts = update (λ a. is_value key a.id) f s.login_attempts })

  abbrev pub find_attempt : Uuid → Store N → Option LoginAttempt
  find_attempt id db = find (λ a. a.id == id) db.soc.login_attempts

  abbrev pub find_event : Uuid → Store N → Option LoginAttempt
  find_event event_id db = find (λ a. a.event_id == event_id) db.soc.login_attempts

  abbrev pub alert_of : Option Uuid → Store N → Option Alert
  alert_of key db = find (λ a. is_value key a.login_attempt_id) db.soc.alerts

  abbrev pub assessment_of : Option Uuid → Store N → Option (RiskAssessment N)
  assessment_of key db = find (λ a. is_value key a.login_attempt_id) db.risk_assessments

  unfoldable pub get_active_policy : Store N → Option (Policy N)
  get_active_policy db = find (λ p. p.is_active) db.policies
