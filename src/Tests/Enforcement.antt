-- ===== src/Tests/Enforcement.antt =====
-- A scored attempt in the database, and the protective action that Core is asked for.
use sentinel_auth.Prelude.{Option, String, true, ◌≡◌, refl, ap, some, none, [], ◌∷◌}
use sentinel_auth.Core.{
  Result, ok, WorldOf, World, respond, Value, Dict, is_internal_auth_configured,
  get_internal_secret, verify_internal_secret,
}
use sentinel_auth.Actions.{
  SecurityAction, ActionRequest, ActionResponse, apply_action, apply_new, enforce, latest, get,
  revoke_only, revoke_active_sessions, put,
}
use sentinel_auth.Auth.Account.{revoke_open, open_count}
use sentinel_auth.Detection.Tables.{RiskLevel, Decision, LoginAttempt}
use sentinel_auth.Policies.Config.{lookup, item_count, resolve_config}
use sentinel_auth.Policies.Rules.{validate_rule}
use sentinel_auth.Pipeline.Compare.{compare}
use sentinel_auth.Pipeline.Features.{build_features, compute_new_device, sort_desc, gaps, feature}
use sentinel_auth.Pipeline.Evaluation.{
  evaluate_rules, sort_rules, collect_hits, score_usable, matched_item,
}
use sentinel_auth.Pipeline.Ml.{MlStatus, call_ml_service, outcome_of_response}
use sentinel_auth.Pipeline.Levels.{
  combine, action_label, creates_alert, risk_action, decision_of, map_score_to_risk_level,
}
use sentinel_auth.Pipeline.Store.{Store, get_active_policy}
use sentinel_auth.Pipeline.Attempt.{
  DetectionResponse, score_attempt, log_config, log_hits, log_problems, save_assessment,
  response_of,
}
use sentinel_auth.Pipeline.Process.{
  process_attempt, write_verdict, put_alert, create_alert, announce,
}
use sentinel_auth.Pipeline.Enforcement.{protective_request, attempt_key}
use sentinel_auth.Pipeline.Records.{Recorded, process_attempt-Recorded}
use sentinel_auth.Pipeline.Protective.{protective_action_once}
use sentinel_auth.Tests.Sample
use sentinel_auth.Tests.Sample.{outside, returns}
use sentinel_auth.Tests.Policies.{arithmetic, new_policy}
use sentinel_auth.Tests.Scoring.{Number, ml_down, store, scored_row}

abbrev stored : Store Number
stored = record store {
  soc = record {
    login_attempts = scored_row ∷ [];
    soc_analysts = [];
    alerts = [];
    alert_timeline = [];
  };
}

abbrev world : WorldOf (Store Number)
world = record { committed = stored; working = stored; calls = 0; posted = [] }

abbrev run : Result (DetectionResponse Number) × WorldOf (Store Number)
run = process_attempt arithmetic outside ml_down true (some 57) scored_row 56 world

abbrev answer : DetectionResponse Number
answer = record {
  rule_score = (900_000, 0);
  ml_score = none;
  combined_score = (900_000, 0);
  ml_status = MlStatus.unavailable;
  ml_model_version = none;
  ml_reason_codes = [];
  risk_level = RiskLevel.critical;
  decision = Decision.block;
  rule_hits =
      record {
        rule_name = "night";
        score = (900_000, 0);
        weight = (500_000, 0);
        score_contribution = (900_000, 0);
        reason = "hour_of_day between value";
      }
      ∷ [];
  alert_id = some 101;
}

scored : run.0 ≡ ok answer
unfolding process_attempt get_active_policy score_attempt resolve_config lookup log_config
    build_features compute_new_device sort_desc gaps evaluate_rules sort_rules validate_rule
    item_count score_usable collect_hits feature compare log_hits matched_item log_problems
    call_ml_service is_internal_auth_configured get_internal_secret outcome_of_response combine
    map_score_to_risk_level decision_of action_label write_verdict save_assessment put_alert
    creates_alert create_alert announce response_of
scored = refl

scored-world : run ≡ (ok answer, run.1)
scored-world = ap (λ (q : Result (DetectionResponse Number)). (q, run.1)) scored

active : get_active_policy stored ≡ some (record new_policy { is_active = true })
unfolding get_active_policy
active = refl

process_attempt-Recorded_example :
    Recorded arithmetic outside ml_down 57 scored_row 56 answer run.1.committed
process_attempt-Recorded_example =
    process_attempt-Recorded arithmetic outside ml_down 57 scored_row 56 world active refl refl
      scored-world

abbrev flagged : LoginAttempt
flagged = record scored_row { detection_decision = some Decision.block }

abbrev revoke : ActionRequest
revoke = record {
  action = SecurityAction.revoke_sessions;
  target_user_id = 1;
  reason = "detection risk_level=critical decision=block attempt=uuid";
  alert_id = some 101;
  severity = some "critical";
  idempotency_key = some "detection:uuid:REVOKE_SESSIONS";
  detected_at = some 10_800_000_000;
}

abbrev retry : ActionRequest
retry = record revoke {
  reason = "detection risk_level=critical decision=None attempt=uuid";
  alert_id = none;
}

first_request : protective_request outside flagged RiskLevel.critical (some 101) ≡ some revoke
unfolding protective_request risk_action attempt_key
first_request = refl

second_request : protective_request outside scored_row RiskLevel.critical none ≡ some retry
unfolding protective_request risk_action attempt_key
second_request = refl

abbrev header : Option String
header = some "0123456789abcdef0123456789abcdef"

abbrev revoked : Result ActionResponse × World
revoked = respond (apply_action outside revoke header) Sample.world

abbrev details : Dict
details =
    ("reason", Value.text "detection risk_level=critical decision=block attempt=uuid")
    ∷ ("alert_id", Value.uuid 101)
    ∷ ("severity", Value.text "critical")
    ∷ ("detected_at", Value.time 10_800_000_000)
    ∷ ("sessions_revoked", Value.number 1)
    ∷ ("revoked_count", Value.number 1)
    ∷ ("idempotency_key", Value.text "detection:uuid:REVOKE_SESSIONS")
    ∷ []

abbrev revoke_response : ActionResponse
revoke_response = record {
  status = "applied";
  action = SecurityAction.revoke_sessions;
  target_user_id = 1;
  details = details;
}

revokes : revoked.0 ≡ ok revoke_response
unfolding apply_action verify_internal_secret get_internal_secret latest apply_new enforce
    revoke_only revoke_active_sessions open_count revoke_open put
revokes = refl

protective_action_once_example :
    (r' : ActionResponse) × (respond (apply_action outside retry header) revoked.1
      ≡ (ok r', revoked.1))
    × (r'.status ≡ "already_applied")
    × (get "sessions_revoked" r'.details ≡ some (Value.number 0))
protective_action_once_example =
    protective_action_once outside outside flagged scored_row RiskLevel.critical (some 101) none
      header Sample.world refl refl first_request second_request (returns revoked revokes)
