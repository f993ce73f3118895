-- ===== src/Detection/Tables.antt =====
-- The rows of the Detection tables (app/models.py) that the alert handlers and the scoring share.
use sentinel_auth.Prelude.{String, Bool, Option, List}
use sentinel_auth.Core.{Time, Uuid, Value, ActorType}

pub data AlertStatus : Type 0 where
  opened acknowledged resolved false_positive : AlertStatus

pub data TimelineEventType : Type 0 where
  created assigned unassigned acknowledged escalated note_added status_changed resolved
        false_positive :
      TimelineEventType

pub data AttemptStatus : Type 0 where
  pending processed failed : AttemptStatus

pub data RiskLevel : Type 0 where
  low medium high critical : RiskLevel

pub data Decision : Type 0 where
  allow challenge block : Decision

-- `outcome` is one of the texts of the CHECK list.
pub record LoginAttempt : Type 0 where
  pub id : Uuid
  pub event_id : Uuid
  pub user_id : Option Uuid
  pub username_attempted : Option String
  pub outcome : String
  pub mfa_used : Bool
  pub ip_address : Option String
  pub user_agent : Option String
  pub device_fingerprint : Option String
  pub timestamp : Time
  pub status : AttemptStatus
  pub policy_id : Option Uuid
  pub request_id : Uuid
  pub primary_alert_id : Option Uuid
  pub risk_level : Option RiskLevel
  pub detection_decision : Option Decision

pub record SocAnalyst : Type 0 where
  pub id : Uuid
  pub user_id : Uuid
  pub is_active : Bool

pub record Alert : Type 0 where
  pub id : Uuid
  pub login_attempt_id : Uuid
  pub policy_id : Option Uuid
  pub request_id : Option Uuid
  pub status : AlertStatus
  pub risk_level : Option RiskLevel
  pub detection_reason : Option String
  pub assigned_to_id : Option Uuid
  pub resolved_by_id : Option Uuid
  pub resolved_at : Option Time
  pub resolution : Option String
  pub notes : Option String

pub record AlertTimeline : Type 0 where
  pub alert_id : Uuid
  pub event_type : TimelineEventType
  pub actor_id : Option Uuid
  pub actor_type : ActorType
  pub old_value : Option Value
  pub new_value : Option Value
  pub comment : Option String
  pub ip_address : Option String

pub record DetectionDb : Type 0 where
  pub login_attempts : List LoginAttempt
  pub soc_analysts : List SocAnalyst
  pub alerts : List Alert
  pub alert_timeline : List AlertTimeline
