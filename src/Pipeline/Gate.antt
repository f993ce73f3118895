-- ===== src/Pipeline/Gate.antt =====
-- app/detection.py, pre_token_check: a login is scored before a token is issued, and nothing is
-- written.
use sentinel_auth.Prelude.{ℕ, String, Bool, true, false, Option, none, some, is_some}
use sentinel_auth.Core.{
  Time, Uuid, Outside, Result, ok, raise, ActionOf, pure, ◌>>=◌, ◌>>◌, rollback, attempted, call,
  verify_internal_secret,
}
use sentinel_auth.Detection.Tables.{AttemptStatus, RiskLevel, Decision, LoginAttempt}
use sentinel_auth.Policies.Config.{Arithmetic}
use sentinel_auth.Pipeline.Features.{Features}
use sentinel_auth.Pipeline.Ml.{MlReply}
use sentinel_auth.Pipeline.Levels.{decision_value, risk_action}
use sentinel_auth.Pipeline.Store.{Store}
use sentinel_auth.Pipeline.Attempt.{DetectionResponse}
use sentinel_auth.Pipeline.Process.{process_attempt}

pub record PreTokenCheckRequest : Type 0 where
  pub username : String
  pub user_id : Option Uuid
  pub ip_address : Option String
  pub user_agent : Option String
  pub timestamp : Option Time

-- A risk level that is "unknown" is none.
pub record PreTokenCheckResponse : Type 0 where
  pub risk_level : Option RiskLevel
  pub decision : Decision
  pub require_mfa : Bool
  pub degraded : Bool
  pub reason : String

module _ (A : Arithmetic) (outside : Outside)
    (ml : ℕ → Uuid → Features A.Number → MlReply A.Number) where
  abbrev pub Gating {ℓ} : Type ℓ → Type ℓ
  Gating B = ActionOf (Store A.Number) B

  -- An attempt that is not in the database: its identifier is not assigned, and no row has it.
  abbrev pub transient : PreTokenCheckRequest → Uuid → Time → LoginAttempt
  transient payload event_id timestamp = record {
    id = 0;
    event_id = event_id;
    user_id = payload.user_id;
    username_attempted = some payload.username;
    outcome = "success";
    mfa_used = false;
    ip_address = payload.ip_address;
    user_agent = payload.user_agent;
    device_fingerprint = none;
    timestamp = timestamp;
    status = AttemptStatus.pending;
    policy_id = none;
    request_id = 0;
    primary_alert_id = none;
    risk_level = none;
    detection_decision = none;
  }

  abbrev pub or_now : Option Time → Gating Time
  or_now none = call outside.clock
  or_now (some t) = pure t

  -- The check fails open.
  abbrev pub degraded_response : PreTokenCheckResponse
  degraded_response = record {
    risk_level = none;
    decision = Decision.allow;
    require_mfa = false;
    degraded = true;
    reason = "scoring_error";
  }

  abbrev pub scored_response : DetectionResponse A.Number → PreTokenCheckResponse
  scored_response result = record {
    risk_level = some result.risk_level;
    decision = result.decision;
    require_mfa = is_some (risk_action result.risk_level);
    degraded = false;
    reason = decision_value result.decision;
  }

  abbrev pub verdict_of : Result (DetectionResponse A.Number) → Gating PreTokenCheckResponse
  verdict_of (raise _) = do rollback; pure degraded_response
  verdict_of (ok result) = pure (scored_response result)

  unfoldable pub check_attempt : PreTokenCheckRequest → Uuid → Time → Gating PreTokenCheckResponse
  check_attempt payload event_id timestamp = do
    request_id ← call outside.uuid4
    result ←
        attempted (
          process_attempt A outside ml false none (transient payload event_id timestamp) request_id)
    verdict_of result

  unfoldable pub pre_token_check :
      PreTokenCheckRequest → Option String → Gating PreTokenCheckResponse
  pre_token_check payload x_internal_secret = do
    verify_internal_secret outside x_internal_secret
    event_id ← call outside.uuid4
    timestamp ← or_now payload.timestamp
    check_attempt payload event_id timestamp
