-- ===== src/Auth/Events.antt =====
-- app/auth.py: the audit record of a Core action, and the login events that Core posts to
-- Detection.
use sentinel_auth.Prelude.{
  ℕ, zero, suc, String, Bool, true, false, ◌&&◌, Option, none, some, [], ◌∷◌, ◌++◌, leb, ltb,
  if◌then◌else◌,
}
use sentinel_auth.Core.{
  is_internal_auth_configured, Time, Uuid, ActorType, Dict, AuditLog, Outside, Reply, LoginEvent,
  Action, pure, ◌>>=◌, ◌>>◌, change, call, post_event,
}

-- `_audit` queues the row in the transaction.
abbrev pub audit : AuditLog → Action (Unit {0})
audit row = change (λ db. record db { audit_logs = db.audit_logs ++ row ∷ [] })

-- `_audit` with the arguments that the session endpoints pass; the rest are None.
abbrev pub user_audit : String → String → Uuid → Uuid → Dict → AuditLog
user_audit action resource resource_id actor_id after_state = record {
  request_id = none;
  actor_id = some actor_id;
  actor_type = ActorType.user;
  action = action;
  resource = resource;
  resource_id = some resource_id;
  before_state = none;
  after_state = some after_state;
  change_reason = none;
  ip_address = none;
  user_agent = none;
}

abbrev pub reply_status : Reply → Option ℕ
reply_status Reply.http_error = none
reply_status (Reply.not_json s) = some s
reply_status (Reply.not_object s) = some s
reply_status (Reply.object s _) = some s

module _ (outside : Outside) where
  -- `_login_event`
  unfoldable pub login_event :
      Uuid
      → Option Uuid
      → String
      → String
      → Bool
      → Option String
      → Option String
      → Time
      → String
      → Action LoginEvent
  login_event request_id user_id username outcome mfa_used ip agent timestamp fingerprint = do
    event_id ← call outside.uuid4
    pure (record {
      event_id = event_id;
      request_id = request_id;
      user_id = user_id;
      username_attempted = username;
      outcome = outcome;
      mfa_used = mfa_used;
      ip_address = ip;
      user_agent = agent;
      timestamp = timestamp;
      device_fingerprint = some fingerprint;
    })

  -- What one answer means: `none` is one more attempt.
  abbrev pub delivered : Option ℕ → Option Bool
  delivered none = none
  delivered (some status) =
      if ltb status 500 then (if leb 400 status then some false else some true) else none

  abbrev pub deliver_or : Option Bool → Action Bool → Action Bool
  deliver_or (some b) again = pure b
  deliver_or none again = again

  -- The loop of `_send_login_event`, by the attempts left.
  unfoldable pub deliver : ℕ → LoginEvent → Action Bool
  deliver zero event = pure false
  deliver (suc attempts) event =
      let again = deliver attempts event in
      post_event event
      >> (call outside.detection >>= λ reply. deliver_or (delivered (reply_status reply)) again)

  unfoldable pub send_login_event : LoginEvent → Action Bool
  unfolding deliver
  send_login_event event =
      if outside.run_login_event_delivery
        && outside.detection_url_set
        && is_internal_auth_configured outside
      then deliver 2 event
      else pure false
