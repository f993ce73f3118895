-- ===== src/Tests/Gate.antt =====
-- A login at Core while Detection's check asks for MFA.
use sentinel_auth.Prelude.{ap, true, false, some, refl, ◌≡◌}
use sentinel_auth.Core.{
  Outside, Result, ok, World, WorldOf, respond, is_internal_auth_configured, get_internal_secret,
  verify_internal_secret, fingerprint_from_request, hash_fingerprint, fingerprint_material,
  get_client_ip,
}
use sentinel_auth.Auth.Events.{login_event, send_login_event, deliver}
use sentinel_auth.Auth.RateLimits.{is_exceeded, count_request}
use sentinel_auth.Auth.Risk.{pre_token_risk, risk_of_reply}
use sentinel_auth.Auth.Sessions.{LoginResponse}
use sentinel_auth.Auth.Login.{
  LoginRequest, normalize_ip, attempt_event, check_rate_limit, after_verify, authenticate,
  check_status, risk_gate, send_otp_email, issue_challenge, login_at, login,
}
use sentinel_auth.Detection.Tables.{RiskLevel, Decision}
use sentinel_auth.Policies.Config.{lookup, item_count, resolve_config}
use sentinel_auth.Policies.Rules.{validate_rule}
use sentinel_auth.Pipeline.Compare.{compare}
use sentinel_auth.Pipeline.Features.{build_features, compute_new_device, sort_desc, gaps, feature}
use sentinel_auth.Pipeline.Evaluation.{
  evaluate_rules, sort_rules, collect_hits, score_usable, matched_item,
}
use sentinel_auth.Pipeline.Ml.{call_ml_service, outcome_of_response}
use sentinel_auth.Pipeline.Levels.{
  combine, action_label, creates_alert, risk_action, decision_of, map_score_to_risk_level,
}
use sentinel_auth.Pipeline.Store.{Store, get_active_policy}
use sentinel_auth.Pipeline.Attempt.{
  score_attempt, log_config, log_hits, log_problems, save_assessment, response_of,
}
use sentinel_auth.Pipeline.Process.{
  process_attempt, write_verdict, put_alert, create_alert, announce,
}
use sentinel_auth.Pipeline.Gate.{
  PreTokenCheckRequest, PreTokenCheckResponse, check_attempt, pre_token_check,
}
use sentinel_auth.Pipeline.Held.{reply_of, verdict_holds_token}
use sentinel_auth.Tests.Sample
use sentinel_auth.Tests.Sample.{outside, browser, returns}
use sentinel_auth.Tests.Policies.{arithmetic}
use sentinel_auth.Tests.Scoring.{Number, ml_down, login_check, header, header-IsInternal, world}

abbrev night_check : PreTokenCheckRequest
night_check = record login_check { timestamp = some 10_800_000_000 }

abbrev checked : Result PreTokenCheckResponse × WorldOf (Store Number)
checked = respond (pre_token_check arithmetic outside ml_down night_check header) world

abbrev verdict : PreTokenCheckResponse
verdict = record {
  risk_level = some RiskLevel.critical;
  decision = Decision.block;
  require_mfa = true;
  degraded = false;
  reason = "block";
}

night-checked : checked.0 ≡ ok verdict
unfolding pre_token_check verify_internal_secret get_internal_secret check_attempt process_attempt
    get_active_policy score_attempt resolve_config lookup log_config build_features
    compute_new_device sort_desc gaps evaluate_rules sort_rules validate_rule item_count
    score_usable collect_hits feature compare log_hits matched_item log_problems call_ml_service
    is_internal_auth_configured outcome_of_response combine map_score_to_risk_level decision_of
    action_label write_verdict save_assessment put_alert creates_alert create_alert announce
    response_of risk_action
night-checked = refl

abbrev core : Outside
core = record outside { detection = λ n. reply_of verdict }

core-configured : is_internal_auth_configured core ≡ true
unfolding is_internal_auth_configured
core-configured = refl

abbrev credentials : LoginRequest
credentials = record { username = "alice"; password = "secret" }

abbrev answered : Result LoginResponse × World
answered = respond (login core credentials browser) Sample.world

abbrev challenge : LoginResponse
challenge = record { access_token = ""; refresh_token = ""; mfa_required = true; session_id = 103 }

login-challenged : answered.0 ≡ ok challenge
unfolding login login_at check_rate_limit is_exceeded count_request authenticate after_verify
    check_status risk_gate pre_token_risk risk_of_reply issue_challenge attempt_event send_otp_email
    normalize_ip login_event send_login_event deliver fingerprint_from_request hash_fingerprint
    fingerprint_material get_client_ip is_internal_auth_configured
login-challenged = refl

verdict_holds_token_example :
    (challenge.mfa_required ≡ true)
    × (challenge.access_token ≡ "")
    × (answered.1.committed.sessions ≡ Sample.world.committed.sessions)
verdict_holds_token_example =
    verdict_holds_token core arithmetic outside ml_down night_check header world credentials browser
      Sample.world header-IsInternal
      (ap (λ (q : Result PreTokenCheckResponse). (q, checked.1)) night-checked) refl refl refl
      core-configured (λ n. refl) (returns answered login-challenged)
