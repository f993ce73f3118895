-- ===== src/Pipeline/Events.antt =====
-- app/detection.py: the endpoints that take a login, and the sweep over failed attempts. Between the
-- look-up of an event and the commit of its row another delivery may commit (`rival`); the unique
-- key on `event_id` is checked then.
use sentinel_auth.Prelude.{
  ℕ, String, Bool, true, false, Option, none, some, is_some, contains, string_eq, if◌then◌else◌,
  nat_eq,
}
use sentinel_auth.Core.{
  Time, Uuid, Outside, Result, ok, raise, unhandled, ActionOf, pure, throw, ◌>>=◌, ◌>>◌, fetch,
  query, change, commit, rollback, attempted, call, verify_internal_secret,
}
use sentinel_auth.Actions.{ActionRequest}
use sentinel_auth.Detection.Tables.{AttemptStatus, RiskLevel, Decision, LoginAttempt}
use sentinel_auth.Detection.Client.{CoreReply}
use sentinel_auth.Policies.Config.{Fields, end, field, Arithmetic}
use sentinel_auth.Policies.Rules.{allowed_features}
use sentinel_auth.Pipeline.Features.{Features}
use sentinel_auth.Pipeline.Ml.{MlReply}
use sentinel_auth.Pipeline.Store.{
  DetectionLog, Store, add_log, add_attempt, update_attempt, find_attempt, find_event,
}
use sentinel_auth.Pipeline.Attempt.{DetectionResponse}
use sentinel_auth.Pipeline.Process.{process_attempt}
use sentinel_auth.Pipeline.Enforcement.{enforce_action_in_core}

pub record LoginEventRequest (N : Type 0) : Type 0 where
  pub event_id : Uuid
  pub username_attempted : String
  pub user_id : Option Uuid
  pub outcome : String
  pub ip_address : Option String
  pub user_agent : Option String
  pub mfa_used : Bool
  pub timestamp : Time
  pub request_id : Option Uuid
  pub device_fingerprint : Option String
  pub features : Option (Fields N)

-- `status` is always "accepted".
pub record LoginEventResponse : Type 0 where
  pub event_id : Uuid
  pub login_attempt_id : Uuid
  pub processing : AttemptStatus

pub record LoginAttemptStatusResponse : Type 0 where
  pub login_attempt_id : Uuid
  pub status : AttemptStatus
  pub risk_level : Option RiskLevel
  pub decision : Option Decision
  pub alert_id : Option Uuid

abbrev pub accepted : Uuid → LoginAttempt → LoginEventResponse
accepted event_id attempt = record {
  event_id = event_id;
  login_attempt_id = attempt.id;
  processing = attempt.status;
}

abbrev pub fail_attempt : LoginAttempt → LoginAttempt
fail_attempt a = record a { status = AttemptStatus.failed }

-- The column ip_address has the type INET.
abbrev pub fits_inet : Outside → Option String → Bool
fits_inet outside none = true
fits_inet outside (some address) = outside.is_inet address

module _ {N : Type 0} where
  -- An INSERT, refused where the event has a row.
  abbrev pub admit : Option LoginAttempt → Store N → Store N
  admit none db = db
  admit (some row) db = if is_some (find_event row.event_id db) then db else add_attempt row db

  -- The unique key of event_id, once the values fit their columns.
  unfoldable pub insert_unique : LoginAttempt → Store N → ActionOf (Store N) Bool
  insert_unique row seen w =
      if is_some (find_event row.event_id seen)
      then (ok false, record w { committed = seen; working = seen })
      else (ok true, record w { committed = add_attempt row seen; working = add_attempt row seen })

  -- `db.add(attempt)` and `db.commit()`: false stands for IntegrityError, after the rollback. An
  -- address that is not one is a DataError, which nothing catches.
  unfoldable pub insert_attempt :
      Outside → Option LoginAttempt → LoginAttempt → ActionOf (Store N) Bool
  insert_attempt outside rival row w =
      let seen = admit rival w.committed in
      if fits_inet outside row.ip_address
      then insert_unique row seen w
      else (raise (unhandled "DataError"), record w { committed = seen; working = seen })

  -- Detection does not ask what the sender computed; it logs that there was something.
  abbrev pub supplied_row : Uuid → Uuid → DetectionLog N
  supplied_row id request_id = record {
    login_attempt_id = some id;
    request_id = request_id;
    stage = "rule_evaluation";
    stage_detail = "supplied_features";
    rule_name = none;
    triggered = none;
    score_contribution = none;
    field_value = none;
    decision = none;
    reason = some "features_from_core_app";
  }

  unfoldable pub log_fields : Uuid → Uuid → Fields N → Store N → Store N
  log_fields id request_id end db = db
  log_fields id request_id (field key value rest) db =
      log_fields id request_id rest
        (if contains allowed_features key then add_log (supplied_row id request_id) db else db)

  abbrev pub log_supplied : Uuid → Uuid → Option (Fields N) → Store N → Store N
  log_supplied id request_id none db = db
  log_supplied id request_id (some features) db = log_fields id request_id features db

  abbrev pub engine_error : Uuid → Uuid → DetectionLog N
  engine_error id request_id = record {
    login_attempt_id = some id;
    request_id = request_id;
    stage = "scoring";
    stage_detail = "engine_error";
    rule_name = none;
    triggered = none;
    score_contribution = none;
    field_value = none;
    decision = none;
    reason = some "unhandled_exception";
  }

  -- After an exception the attempt is parked as failed.
  unfoldable pub park_failed : Uuid → Uuid → ActionOf (Store N) (Unit {0})
  park_failed id request_id = do
    rollback
    change (update_attempt (some id) fail_attempt)
    change (add_log (engine_error id request_id))
    commit

  -- An `or`: the value, or a fresh UUID.
  abbrev pub or_uuid : Outside → Option Uuid → ActionOf (Store N) Uuid
  or_uuid outside none = call outside.uuid4
  or_uuid outside (some id) = pure id

module _ (A : Arithmetic) (outside : Outside) (ml : ℕ → Uuid → Features A.Number → MlReply A.Number)
    (core : ℕ → ActionRequest → CoreReply) where
  abbrev pub Serving {ℓ} : Type ℓ → Type ℓ
  Serving B = ActionOf (Store A.Number) B

  abbrev pub attempt_row : LoginEventRequest A.Number → Uuid → Uuid → LoginAttempt
  attempt_row payload request_id id = record {
    id = id;
    event_id = payload.event_id;
    user_id = payload.user_id;
    username_attempted = some payload.username_attempted;
    outcome = payload.outcome;
    mfa_used = payload.mfa_used;
    ip_address = payload.ip_address;
    user_agent = payload.user_agent;
    device_fingerprint = payload.device_fingerprint;
    timestamp = payload.timestamp;
    status = AttemptStatus.pending;
    policy_id = none;
    request_id = request_id;
    primary_alert_id = none;
    risk_level = none;
    detection_decision = none;
  }

  -- The attempt as it stands in the session.
  abbrev pub current : Uuid → Serving LoginAttempt
  current id w = elim (find_attempt id w.working) [
    | none ↦ (raise (unhandled "AttributeError"), w)
    | some attempt ↦ (ok attempt, w)
  ]

  abbrev pub enforce_or_park :
      Uuid → Uuid → Result (DetectionResponse A.Number) → Serving (Unit {0})
  enforce_or_park id request_id (raise _) = park_failed id request_id
  enforce_or_park id request_id (ok result) = do
    attempt ← current id
    _ ← enforce_action_in_core outside core attempt result.risk_level result.alert_id
    pure tt

  unfoldable pub score_event :
      LoginEventRequest A.Number → LoginAttempt → Serving LoginEventResponse
  score_event payload attempt = do
    change (log_supplied attempt.id attempt.request_id payload.features)
    result ←
        attempted (process_attempt A outside ml true (some attempt.id) attempt attempt.request_id)
    enforce_or_park attempt.id attempt.request_id result
    scored ← current attempt.id
    pure (accepted payload.event_id scored)

  -- The loser of a race answers with the row of the winner.
  abbrev pub lost_race : Uuid → Option LoginAttempt → Serving LoginEventResponse
  lost_race event_id none = throw (unhandled "IntegrityError")
  lost_race event_id (some row) = pure (accepted event_id row)

  abbrev pub after_insert :
      LoginEventRequest A.Number → LoginAttempt → Bool → Serving LoginEventResponse
  after_insert payload attempt true = score_event payload attempt
  after_insert payload attempt false =
      query (find_event payload.event_id) >>= lost_race payload.event_id

  abbrev pub deliver_new :
      Option LoginAttempt → LoginEventRequest A.Number → Uuid → Serving LoginEventResponse
  deliver_new rival payload request_id = do
    id ← call outside.uuid4
    inserted ← insert_attempt outside rival (attempt_row payload request_id id)
    after_insert payload (attempt_row payload request_id id) inserted

  abbrev pub deliver_if :
      Option LoginAttempt
      → LoginEventRequest A.Number
      → Uuid
      → Option LoginAttempt
      → Serving LoginEventResponse
  deliver_if rival payload request_id (some row) = pure (accepted payload.event_id row)
  deliver_if rival payload request_id none = deliver_new rival payload request_id

  unfoldable pub receive_login_event :
      Option LoginAttempt → LoginEventRequest A.Number → Option String → Serving LoginEventResponse
  receive_login_event rival payload x_internal_secret = do
    verify_internal_secret outside x_internal_secret
    request_id ← or_uuid outside payload.request_id
    existing ← query (find_event payload.event_id)
    deliver_if rival payload request_id existing

  unfoldable pub get_login_attempt_status :
      Uuid → Option String → Serving LoginAttemptStatusResponse
  get_login_attempt_status login_attempt_id x_internal_secret = do
    verify_internal_secret outside x_internal_secret
    attempt ← fetch (find_attempt login_attempt_id) 404 "Login attempt not found"
    pure (record {
      login_attempt_id = attempt.id;
      status = attempt.status;
      risk_level = attempt.risk_level;
      decision = attempt.detection_decision;
      alert_id = attempt.primary_alert_id;
    })
