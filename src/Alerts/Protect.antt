-- ===== src/Alerts/Protect.antt =====
-- app/alerts.py, request_security_action: an analyst asks Core for a protective action.
use Prim.Native.String.{◌++◌ as concat}
use sentinel_auth.Prelude.{ℕ, String, Option, none, some, [], or_else, ◌==◌, nat_eq, find}
use sentinel_auth.Core.{
  Uuid, Value, Dict, Outside, HttpRequest, http, ActionOf, pure, throw, ◌>>=◌, ◌>>◌, or_raise,
  query, commit,
}
use sentinel_auth.Authz.{AuthContext}
use sentinel_auth.Actions.{SecurityAction, ActionRequest, action_value, put}
use sentinel_auth.Detection.Tables.{TimelineEventType, LoginAttempt, Alert, DetectionDb}
use sentinel_auth.Detection.Client.{
  CoreBody, CoreReply, ActionOutcome, enforce_action_in_core_detailed,
}
use sentinel_auth.Alerts.{fetch_alert, create_timeline_event, entry}

pub record AlertActionResponse : Type 0 where
  pub status : String
  pub action : SecurityAction
  pub details : Dict

-- The attempt of the alert, when it names a user.
abbrev pub subject_of : Alert → DetectionDb → Option (Uuid × LoginAttempt)
subject_of alert db = elim (find (λ l. l.id == alert.login_attempt_id) db.login_attempts) [
  | none ↦ none
  | some l ↦ elim l.user_id [ none ↦ none | some id ↦ some (id, l) ]
]

module _ (outside : Outside) (core : ℕ → ActionRequest → CoreReply) (request : HttpRequest)
    (ctx : AuthContext) where
  -- The key by which Core recognises a retry.
  unfoldable pub alert_key : Uuid → SecurityAction → String
  alert_key alert_id action =
      concat "alert:" (concat (outside.uuid_text alert_id) (concat ":" (action_value action)))

  abbrev pub action_request : Uuid → Uuid → LoginAttempt → SecurityAction → String → ActionRequest
  action_request alert_id user_id attempt action reason = record {
    action = action;
    target_user_id = user_id;
    reason = reason;
    alert_id = some alert_id;
    severity = none;
    idempotency_key = some (alert_key alert_id action);
    detected_at = some attempt.timestamp;
  }

  abbrev note : Uuid → SecurityAction → String → ActionOf DetectionDb (Unit {0})
  note alert_id action comment = create_timeline_event (
      entry ctx request alert_id TimelineEventType.note_added none
        (some (Value.text (action_value action))) (some comment))

  abbrev details_of : CoreBody → Dict
  details_of body = elim body.details [ none ↦ [] | some d ↦ d ]

  -- What Core did not apply is noted on the timeline, and answered as 502.
  unfoldable pub record_outcome :
      Uuid → SecurityAction → String → ActionOutcome → ActionOf DetectionDb AlertActionResponse
  record_outcome alert_id action reason outcome = elim outcome.response [
    | none ↦ (do
      note alert_id action (
          concat "Security action " (
            concat (action_value action) (
              concat " was NOT enforced by Core ("
                (concat (or_else outcome.error "unknown error") (concat "). Reason: " reason)))))
      commit
      throw (
          http 502 (
            concat "Core did not apply the "
              (concat (action_value action) " action. The protective action was NOT enforced."))))
    | some body ↦ (do
      note alert_id action (
          concat "Security action applied: "
            (concat (action_value action) (concat ". Reason: " reason)))
      commit
      pure (record {
        status = or_else body.status "applied";
        action = action;
        details =
            put "alert_id" (Value.uuid alert_id)
              (put "reason" (Value.text reason) (details_of body));
      }))
  ]

  unfoldable pub request_security_action :
      Uuid → SecurityAction → String → ActionOf DetectionDb AlertActionResponse
  request_security_action alert_id action reason = do
    alert ← fetch_alert alert_id
    subject ← query (subject_of alert)
    (user_id, attempt) ← or_raise subject 400 "No user associated with this alert"
    outcome ←
        enforce_action_in_core_detailed outside core
          (action_request alert_id user_id attempt action reason)
    record_outcome alert_id action reason outcome
