-- ===== src/Tests/Soc.antt =====
-- Alerts on a sample of Detection's tables.
use sentinel_auth.Prelude.{ℕ, true, false, ◌≡◌, ◌≢◌, refl, none, some, List, [], ◌∷◌, ◌++◌}
use sentinel_auth.Core.{WorldOf, respond}
use sentinel_auth.Authz.{AuthContext}
use sentinel_auth.Actions.{SecurityAction, ActionRequest}
use sentinel_auth.Detection.Tables.{
  AlertStatus, AttemptStatus, RiskLevel, LoginAttempt, Alert, AlertTimeline, DetectionDb,
}
use sentinel_auth.Detection.Client.{CoreReply}
use sentinel_auth.Alerts.{find_alert, is_unsettled, acknowledge_alert}
use sentinel_auth.Alerts.Effects.{AlertRequest, Tells, serve}
use sentinel_auth.Alerts.Status.{Steps, Served, serve_all, alert_lifecycle}
use sentinel_auth.Alerts.Timeline.{timeline_grows, status_change_told}
use sentinel_auth.Tests.Sample.{start, outside, alice, session_row, browser}

abbrev alert : Alert
alert = record {
  id = 60;
  login_attempt_id = 61;
  policy_id = some 70;
  request_id = some 65;
  status = AlertStatus.opened;
  risk_level = some RiskLevel.high;
  detection_reason = none;
  assigned_to_id = none;
  resolved_by_id = none;
  resolved_at = none;
  resolution = none;
  notes = none;
}

abbrev pub attempt : LoginAttempt
attempt = record {
  id = 61;
  event_id = 62;
  user_id = some 1;
  username_attempted = some "alice";
  outcome = "success";
  mfa_used = false;
  ip_address = none;
  user_agent = none;
  device_fingerprint = none;
  timestamp = start;
  status = AttemptStatus.processed;
  policy_id = none;
  request_id = 65;
  primary_alert_id = some 60;
  risk_level = none;
  detection_decision = none;
}

abbrev soc_db : DetectionDb
soc_db = record {
  login_attempts = attempt ∷ [];
  soc_analysts = record { id = 63; user_id = 1; is_active = true } ∷ [];
  alerts = alert ∷ [];
  alert_timeline = [];
}

abbrev soc_world : WorldOf DetectionDb
soc_world = record { committed = soc_db; working = soc_db; calls = 0; posted = [] }

abbrev analyst : AuthContext
analyst = record { session = session_row; user = alice; roles = "SOC_ANALYST" ∷ [] }

abbrev core_down : ℕ → ActionRequest → CoreReply
core_down n a = CoreReply.http_error "ConnectError"

abbrev acknowledge : AlertRequest
acknowledge = AlertRequest.acknowledge 60 (some "looking")

abbrev acknowledged_alert : Alert
acknowledged_alert = record alert { status = AlertStatus.acknowledged; notes = some "looking" }

abbrev requests : List Served
requests =
    (core_down, browser, analyst, acknowledge)
    ∷ (core_down, browser, analyst, AlertRequest.act 60 SecurityAction.lock_user "attack")
    ∷ (core_down, browser, analyst, AlertRequest.resolve 60 "true_attack" none)
    ∷ (core_down, browser, analyst, AlertRequest.resolve 60 "false_positive" none)
    ∷ []

alert_lifecycle_example :
    (a : Alert) × (find_alert 60 (serve_all outside requests soc_world).committed ≡ some a)
    × Steps AlertStatus.opened a.status
    × (is_unsettled AlertStatus.opened ≡ false
        → (a.status ≡ AlertStatus.opened) × (a.resolution ≡ none))
alert_lifecycle_example = alert_lifecycle outside requests soc_world 60 {a = alert} refl

timeline_grows_example :
    (es : List AlertTimeline) × ((serve_all outside requests soc_world).committed.alert_timeline
      ≡ [] ++ es)
timeline_grows_example = timeline_grows outside requests soc_world

after-acknowledge :
    find_alert 60
      (respond (serve outside core_down browser analyst acknowledge) soc_world).1.committed
    ≡ some acknowledged_alert
unfolding serve acknowledge_alert
after-acknowledge = refl

status_changed : AlertStatus.acknowledged ≢ AlertStatus.opened
status_changed e = cc

status_change_told_example :
    (e : AlertTimeline) × (rest : List AlertTimeline) × ((respond
        (serve outside core_down browser analyst acknowledge)
        soc_world).1.committed.alert_timeline
      ≡ [] ++ e ∷ rest)
    × Tells 60 1 AlertStatus.opened AlertStatus.acknowledged e
status_change_told_example =
    status_change_told outside core_down browser analyst acknowledge soc_world 60 {a = alert}
      {a' = acknowledged_alert} refl after-acknowledge status_changed
