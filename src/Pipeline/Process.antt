-- ===== src/Pipeline/Process.antt =====
-- app/detection.py, process_attempt: what is written once the verdict is there.
use Prim.Native.String.{◌++◌ as concat}
use sentinel_auth.Prelude.{ℕ, String, Bool, true, false, Option, none, some}
use sentinel_auth.Core.{
  Uuid, Value, ActorType, Outside, pure, ◌>>=◌, ◌>>◌, query, change, commit, rollback, lift, when,
  call,
}
use sentinel_auth.Detection.Tables.{
  AttemptStatus, AlertStatus, TimelineEventType, RiskLevel, Decision, LoginAttempt, Alert,
  AlertTimeline,
}
use sentinel_auth.Policies.Config.{Arithmetic}
use sentinel_auth.Policies.Activation.{Policy}
use sentinel_auth.Pipeline.Features.{Features}
use sentinel_auth.Pipeline.Ml.{MlReply}
use sentinel_auth.Pipeline.Levels.{level_value, action_label, creates_alert}
use sentinel_auth.Pipeline.Store.{
  DetectionLog, add_alert, add_timeline, update_attempt, alert_of, get_active_policy,
}
use sentinel_auth.Pipeline.Attempt.{
  DetectionResponse, Judgement, decision_for, Scoring, score_text, response_of, unscored,
  save_assessment, log_row, log, score_attempt,
}

module _ (A : Arithmetic) where
  abbrev alert_reason : Judgement A.Number → String
  alert_reason v = concat (action_label v.risk_level) (
      concat ": combined=" (
        concat (A.fixed4 v.combined) (
          concat " (rule=" (
            concat (A.fixed4 v.evaluation.rule_score)
              (concat ", ml=" (concat (score_text A v.ml.score) ")"))))))

  abbrev alert_comment : Judgement A.Number → String
  alert_comment v =
      concat "Alert created automatically by the Detection Engine (risk_level=" (
        concat (level_value v.risk_level)
          (concat ", combined=" (concat (A.fixed4 v.combined) ").")))

  abbrev pub new_alert : Judgement A.Number → Uuid → Uuid → Uuid → Alert
  new_alert v request_id attempt_id id = record {
    id = id;
    login_attempt_id = attempt_id;
    policy_id = some v.policy_id;
    request_id = some request_id;
    status = AlertStatus.opened;
    risk_level = some v.risk_level;
    detection_reason = some (alert_reason v);
    assigned_to_id = none;
    resolved_by_id = none;
    resolved_at = none;
    resolution = none;
    notes = none;
  }

  abbrev pub created_entry : Judgement A.Number → Uuid → AlertTimeline
  created_entry v id = record {
    alert_id = id;
    event_type = TimelineEventType.created;
    actor_id = none;
    actor_type = ActorType.system;
    old_value = none;
    new_value = some (Value.text "open");
    comment = some (alert_comment v);
    ip_address = none;
  }

  module _ (outside : Outside) (ml : ℕ → Uuid → Features A.Number → MlReply A.Number)
      (persist : Bool) (key : Option Uuid) (attempt : LoginAttempt) (request_id : Uuid) where
    abbrev row : String → String → DetectionLog A.Number
    row = log_row A outside ml persist key attempt request_id

    abbrev write_log : DetectionLog A.Number → Scoring A (Unit {0})
    write_log = log A outside ml persist key attempt request_id

    abbrev pub link_alert : Uuid → Scoring A (Unit {0})
    link_alert id = change (update_attempt key (λ a. record a { primary_alert_id = some id }))

    abbrev pub created_row : Judgement A.Number → DetectionLog A.Number
    created_row v = record (row "action_sent" "alert_created") { decision = some (decision_for v) }

    abbrev pub reused_row : Judgement A.Number → DetectionLog A.Number
    reused_row v = record (row "action_sent" "no_alert") {
      decision = some (decision_for v);
      reason = some "alert_already_exists";
    }

    abbrev pub quiet_row : Judgement A.Number → DetectionLog A.Number
    quiet_row v = record (row "action_sent" "no_alert") {
      decision = some (decision_for v);
      reason = some "risk below alert threshold";
    }

    -- What follows the alert's own row.
    unfoldable pub announce : Judgement A.Number → Uuid → Scoring A (Option Uuid)
    announce v id = do
      link_alert id
      change (add_timeline (created_entry v id))
      write_log (created_row v)
      pure (some id)

    unfoldable pub create_alert : Judgement A.Number → Uuid → Scoring A (Option Uuid)
    create_alert v attempt_id = do
      id ← call outside.uuid4
      change (add_alert (new_alert v request_id attempt_id id))
      announce v id

    unfoldable pub reuse_alert : Judgement A.Number → Alert → Scoring A (Option Uuid)
    reuse_alert v alert = do link_alert alert.id; write_log (reused_row v); pure (some alert.id)

    abbrev no_alert : Judgement A.Number → Scoring A (Option Uuid)
    no_alert v = do write_log (quiet_row v); pure none

    -- An alert of a high or a critical risk is created when the attempt has none yet.
    abbrev pub alert_if : Judgement A.Number → Bool → Bool → Option Uuid → Scoring A (Option Uuid)
    alert_if v true true (some attempt_id) = create_alert v attempt_id
    alert_if v true _ _ = pure none
    alert_if v false _ _ = no_alert v

    abbrev pub alert_for : Judgement A.Number → Option Alert → Scoring A (Option Uuid)
    alert_for v (some alert) = reuse_alert v alert
    alert_for v none = alert_if v (creates_alert v.risk_level) persist key

    unfoldable pub put_alert : Judgement A.Number → Scoring A (Option Uuid)
    put_alert v = query (alert_of key) >>= alert_for v

    abbrev pub save : Judgement A.Number → Bool → Option Uuid → Scoring A (Unit {0})
    save v true (some id) = change (save_assessment A v id)
    save v _ _ = pure tt

    abbrev pub processed : Judgement A.Number → LoginAttempt → LoginAttempt
    processed v a = record a {
      policy_id = some v.policy_id;
      status = AttemptStatus.processed;
      risk_level = some v.risk_level;
      detection_decision = some (decision_for v);
    }

    abbrev pub finish : Judgement A.Number → Bool → Scoring A (Unit {0})
    finish v true = do change (update_attempt key (processed v)); commit
    finish v false = rollback

    unfoldable pub write_verdict : Judgement A.Number → Scoring A (DetectionResponse A.Number)
    write_verdict v = do
      save v persist key
      alert_id ← put_alert v
      finish v persist
      lift (response_of A v alert_id)

    abbrev waved_through : LoginAttempt → LoginAttempt
    waved_through a = record a {
      status = AttemptStatus.processed;
      risk_level = some RiskLevel.low;
      detection_decision = some Decision.allow;
    }

    abbrev pub no_policy_row : DetectionLog A.Number
    no_policy_row = record (row "scoring" "no_active_policy") {
      decision = some Decision.allow;
      reason = some "no_policy";
    }

    abbrev pub settle_unscored : Scoring A (Unit {0})
    settle_unscored = when persist (change (update_attempt key waved_through) >> commit)

    unfoldable pub without_policy : Scoring A (DetectionResponse A.Number)
    without_policy = do write_log no_policy_row; settle_unscored; pure (unscored A)

    abbrev pub with_policy : Option (Policy A.Number) → Scoring A (DetectionResponse A.Number)
    with_policy none = without_policy
    with_policy (some policy) =
        score_attempt A outside ml persist key attempt request_id policy >>= write_verdict

    unfoldable pub process_attempt : Scoring A (DetectionResponse A.Number)
    process_attempt = query get_active_policy >>= with_policy
