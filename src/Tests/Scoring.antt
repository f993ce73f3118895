-- ===== src/Tests/Scoring.antt =====
-- The scoring of login attempts on a sample: one policy, with a rule on the hours of the night.
use sentinel_auth.Prelude.{
  Option, ℕ, ◌+◌, ◌≤◌, String, true, false, ◌≡◌, refl, ap, none, some, List, [], ◌∷◌, nat_eq, arith,
}
use sentinel_auth.Core.{
  Uuid, Result, ok, WorldOf, respond, IsInternal, get_internal_secret, verify_internal_secret,
  is_internal_auth_configured,
}
use sentinel_auth.Actions.{ActionRequest}
use sentinel_auth.Detection.Tables.{AttemptStatus, RiskLevel, LoginAttempt}
use sentinel_auth.Detection.Client
use sentinel_auth.Detection.Client.{CoreReply, enforce_action_in_core_detailed}
use sentinel_auth.Policies.Config.{
  Json, Items, nil, cons, not_an_object, default_thresholds, lookup, item_count, resolve_config,
}
use sentinel_auth.Policies.Rules.{validate_rule}
use sentinel_auth.Pipeline.Compare.{compare}
use sentinel_auth.Pipeline.Features.{
  Features, build_features, compute_new_device, sort_desc, gaps, feature,
}
use sentinel_auth.Pipeline.Evaluation.{
  Evaluation, evaluate_rules, sort_rules, collect_hits, score_usable, matched_item,
}
use sentinel_auth.Pipeline.Ml.{MlStatus, MlReply, call_ml_service, outcome_of_response}
use sentinel_auth.Pipeline.Levels.{
  combine, action_label, creates_alert, risk_action, decision_of, map_score_to_risk_level,
}
use sentinel_auth.Pipeline.Store.{Store, find_event, get_active_policy}
use sentinel_auth.Pipeline.Enforcement.{
  protective_request, attempt_key, record_action_outcome, enforce_action_in_core,
}
use sentinel_auth.Pipeline.Attempt.{
  Judgement, score_attempt, log_config, log_hits, log_problems, save_assessment, response_of,
}
use sentinel_auth.Pipeline.Process.{
  process_attempt, write_verdict, put_alert, create_alert, announce,
}
use sentinel_auth.Pipeline.Events.{
  insert_attempt, insert_unique, score_event, LoginEventRequest, LoginEventResponse,
  receive_login_event,
}
use sentinel_auth.Pipeline.Gate.{PreTokenCheckRequest, PreTokenCheckResponse, pre_token_check}
use sentinel_auth.Pipeline.Runs.{Request, Served, serve_all, deliver, sweep, check}
use sentinel_auth.Pipeline.Once.{Once, serve_all-Once}
use sentinel_auth.Pipeline.Answers.{receive_login_event_answers}
use sentinel_auth.Pipeline.Redelivery.{identifiers_for, redelivery_is_idle}
use sentinel_auth.Pipeline.FailOpen.{IsVerdict, pre_token_check_writes_nothing}
use sentinel_auth.Pipeline.Bounds.{IsOrdered, severity, decision_mono}
use sentinel_auth.Pipeline.Scores.{InBounds, score_attempt_bounds}
use sentinel_auth.Pipeline.Usable.{usable, evaluate_rules-usable}
use sentinel_auth.Pipeline.History.{build_features-append}
use sentinel_auth.Tests.Sample.{outside}
use sentinel_auth.Tests.Policies.{arithmetic, new_policy, rule}

abbrev pub Number : Type 0
Number = ℕ × ℕ

abbrev pub ml_down : ℕ → Uuid → Features Number → MlReply Number
ml_down n request_id features = MlReply.timeout

abbrev core_down : ℕ → ActionRequest → CoreReply
core_down n a = CoreReply.http_error "ConnectError"

abbrev pub store : Store Number
store = record {
  soc = record { login_attempts = []; soc_analysts = []; alerts = []; alert_timeline = [] };
  policies = record new_policy { is_active = true } ∷ [];
  risk_assessments = [];
  detection_logs = [];
}

abbrev pub world : WorldOf (Store Number)
world = record { committed = store; working = store; calls = 0; posted = [] }

-- A login at three o'clock in the morning.
abbrev event : LoginEventRequest Number
event = record {
  event_id = 7;
  username_attempted = "alice";
  user_id = some 1;
  outcome = "success";
  ip_address = some "10.0.0.1";
  user_agent = some "agent";
  mfa_used = false;
  timestamp = 10_800_000_000;
  request_id = some 8;
  device_fingerprint = none;
  features = none;
}

abbrev pub header : Option String
header = some "0123456789abcdef0123456789abcdef"

pub header-IsInternal : IsInternal outside header
unfolding get_internal_secret
header-IsInternal = ("0123456789abcdef0123456789abcdef", refl, refl, refl)

arithmetic-IsOrdered : IsOrdered arithmetic
arithmetic-IsOrdered = record {
  zero_le_zero = refl;
  zero_le_one = refl;
  one_le_one = refl;
  le_of_lt = λ x y h. ground arith;
  lt_of_le_of_lt = λ x y z h k. ground arith;
}

abbrev delivery : WorldOf (Store Number) → Result LoginEventResponse × WorldOf (Store Number)
delivery w = respond (receive_login_event arithmetic outside ml_down core_down none event header) w

night_login :
    (delivery world).0
    ≡ ok (record { event_id = 7; login_attempt_id = 100; processing = AttemptStatus.processed })
unfolding receive_login_event verify_internal_secret get_internal_secret insert_attempt
    insert_unique score_event process_attempt get_active_policy score_attempt resolve_config lookup
    log_config build_features compute_new_device sort_desc gaps evaluate_rules sort_rules
    validate_rule item_count score_usable collect_hits feature compare log_hits matched_item
    log_problems call_ml_service is_internal_auth_configured outcome_of_response combine
    map_score_to_risk_level decision_of action_label write_verdict save_assessment put_alert
    creates_alert create_alert announce response_of enforce_action_in_core protective_request
    risk_action attempt_key enforce_action_in_core_detailed Client.outcome_of_reply
    record_action_outcome
night_login = refl

Once-store : Once arithmetic store
Once-store = record {
  events = λ k. omega arith;
  assessments = λ k. omega arith;
  alerts = λ k. omega arith;
}

abbrev pub rival : LoginAttempt
rival = record {
  id = 55;
  event_id = 9;
  user_id = some 1;
  username_attempted = some "alice";
  outcome = "success";
  mfa_used = false;
  ip_address = none;
  user_agent = none;
  device_fingerprint = none;
  timestamp = 10_800_000_000;
  status = AttemptStatus.failed;
  policy_id = none;
  request_id = 56;
  primary_alert_id = none;
  risk_level = none;
  detection_decision = none;
}

abbrev pub login_check : PreTokenCheckRequest
login_check = record {
  username = "alice";
  user_id = some 1;
  ip_address = some "10.0.0.1";
  user_agent = some "agent";
  timestamp = none;
}

abbrev served : Request Number → Served arithmetic outside
served r = record { ml = ml_down; core = core_down; request = r }

abbrev requests : List (Served arithmetic outside)
requests =
    served (check login_check header)
    ∷ served (deliver (some rival) event header)
    ∷ served (deliver none event header)
    ∷ served (sweep 50)
    ∷ []

serve_all-Once_example : Once arithmetic (serve_all arithmetic outside requests world).committed
serve_all-Once_example = serve_all-Once arithmetic outside requests world Once-store

receive_login_event_answers_example :
    (r : LoginEventResponse) × (w' : WorldOf (Store Number)) × (delivery world ≡ (ok r, w'))
    × (a : LoginAttempt) × (find_event 7 w'.committed ≡ some a)
    × (a.id ≡ r.login_attempt_id)
receive_login_event_answers_example =
    receive_login_event_answers arithmetic outside ml_down core_down none event header world
      header-IsInternal refl

abbrev after_delivery : WorldOf (Store Number)
after_delivery = (delivery world).1

abbrev delivered : LoginEventResponse
delivered = record { event_id = 7; login_attempt_id = 100; processing = AttemptStatus.processed }

night_login-world : delivery world ≡ (ok delivered, after_delivery)
night_login-world = ap (λ (q : Result LoginEventResponse). (q, after_delivery)) night_login

redelivery_is_idle_example :
    let w2 = serve_all arithmetic outside requests after_delivery in
    (r' : LoginEventResponse) × (delivery w2
      ≡ (ok r', record w2 { working = w2.committed; calls = w2.calls + identifiers_for (some 8) }))
    × (r'.login_attempt_id ≡ 100)
redelivery_is_idle_example =
    redelivery_is_idle arithmetic outside ml_down core_down none none event event header header
      world requests header-IsInternal header-IsInternal refl night_login-world

pre_token_check_writes_nothing_example :
    (r : PreTokenCheckResponse) × (w' : WorldOf (Store Number)) × (respond
        (pre_token_check arithmetic outside ml_down login_check header)
        world
      ≡ (ok r, w'))
    × (w'.committed ≡ store)
    × IsVerdict r
pre_token_check_writes_nothing_example =
    pre_token_check_writes_nothing arithmetic outside ml_down login_check header world
      header-IsInternal

decision_mono_example :
    severity (
      decision_of (map_score_to_risk_level arithmetic (300_000, 0) (default_thresholds arithmetic)))
    ≤ severity (
        decision_of
          (map_score_to_risk_level arithmetic (800_000, 0) (default_thresholds arithmetic)))
decision_mono_example =
    decision_mono arithmetic arithmetic-IsOrdered (300_000, 0) (800_000, 0)
      (default_thresholds arithmetic) refl

abbrev night : Features Number
night = record {
  hour_of_day = 3;
  fail_count_24h = 0;
  ip_change_rate_7d = (0, 0);
  new_device = true;
  average_login_interval_seconds = (0, 0);
  deviation_score = (0, 0);
}

abbrev broken_rules : Items Number
broken_rules = cons Json.null (cons rule nil)

abbrev evaluation : Evaluation Number
evaluation = record {
  rule_score = (900_000, 0);
  hits =
      record {
        rule_name = "night";
        score = (900_000, 0);
        weight = (500_000, 0);
        score_contribution = (900_000, 0);
        reason = "hour_of_day between value";
      }
      ∷ [];
  problems =
      record {
        rule_name = Json.text "index_value";
        reason = "invalid_rule";
        detail = not_an_object "rule";
      }
      ∷ [];
}

night_rules : evaluate_rules arithmetic (Json.array broken_rules) night ≡ ok evaluation
unfolding evaluate_rules sort_rules validate_rule item_count lookup score_usable collect_hits
    feature compare
night_rules = refl

abbrev scoring : Result (Judgement Number) × WorldOf (Store Number)
scoring = score_attempt arithmetic outside ml_down true (some 55) rival 8 new_policy world

abbrev judgement : Judgement Number
judgement = record {
  policy_id = 71;
  features = record night { new_device = false };
  evaluation = record evaluation { problems = [] };
  ml = record {
    score = none;
    status = MlStatus.unavailable;
    model_version = none;
    reason_codes = Json.array nil;
    error = some "ml_timeout";
  };
  combined = (900_000, 0);
  risk_level = RiskLevel.critical;
}

night_scoring : scoring.0 ≡ ok judgement
unfolding score_attempt resolve_config lookup log_config build_features compute_new_device sort_desc
    gaps evaluate_rules sort_rules validate_rule item_count score_usable collect_hits feature
    compare log_hits matched_item log_problems call_ml_service is_internal_auth_configured
    outcome_of_response combine map_score_to_risk_level
night_scoring = refl

score_attempt_bounds_example : InBounds arithmetic judgement
score_attempt_bounds_example =
    score_attempt_bounds arithmetic arithmetic-IsOrdered outside ml_down true (some 55) rival 8
      new_policy world (ap (λ (q : Result (Judgement Number)). (q, scoring.1)) night_scoring)

evaluate_rules-usable_example :
    evaluate_rules arithmetic (Json.array (usable arithmetic broken_rules)) night
    ≡ ok (record evaluation { problems = [] })
evaluate_rules-usable_example = evaluate_rules-usable arithmetic broken_rules night night_rules

abbrev pub scored_row : LoginAttempt
scored_row = record rival { id = 57; event_id = 10 }

build_features-append_example :
    build_features arithmetic scored_row (rival ∷ scored_row ∷ [])
    ≡ build_features arithmetic scored_row []
build_features-append_example =
    build_features-append arithmetic scored_row [] (rival ∷ scored_row ∷ []) (refl, (refl, tt))
