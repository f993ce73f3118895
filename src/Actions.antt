-- ===== src/Actions.antt =====
-- app/internal_actions.py: the protective actions that Detection asks Core for.
pub mod Details
pub mod Effects
pub mod Idempotency
use Prim.Native.String.{◌++◌ as concat}
use sentinel_auth.Prelude.{
  ℕ, ◌+◌, String, Bool, true, false, not, ◌&&◌, ◌||◌, Option, none, some, List, [], ◌∷◌, ◌++◌,
  nat_beq, if◌then◌else◌, ◌==◌, nat_eq, string_eq, is_value, find, update,
}
use sentinel_auth.Core.{
  Time, Uuid, AccountStatus, is_locked, User, Value, ActorType, Dict, AuditLog, Db, Outside,
  verify_internal_secret, Action, pure, ◌>>=◌, ◌>>◌, fetch, query, change, commit, call,
}
use sentinel_auth.Auth.Events.{audit}
use sentinel_auth.Auth.Sessions.{update_user}
use sentinel_auth.Auth.Account.{revoke_open, open_count}
use sentinel_auth.Authz.{roles_of}

pub data SecurityAction : Type 0 where
  require_mfa revoke_sessions lock_user force_logout : SecurityAction

abbrev pub action_value : SecurityAction → String
action_value SecurityAction.require_mfa = "REQUIRE_MFA"
action_value SecurityAction.revoke_sessions = "REVOKE_SESSIONS"
action_value SecurityAction.lock_user = "LOCK_USER"
action_value SecurityAction.force_logout = "FORCE_LOGOUT"

pub record ActionRequest : Type 0 where
  pub action : SecurityAction
  pub target_user_id : Uuid
  pub reason : String
  pub alert_id : Option Uuid
  pub severity : Option String
  pub idempotency_key : Option String
  pub detected_at : Option Time

pub record ActionResponse : Type 0 where
  pub status : String
  pub action : SecurityAction
  pub target_user_id : Uuid
  pub details : Dict

-- `details[key] = value`
unfoldable pub put : String → Value → Dict → Dict
put key value [] = (key, value) ∷ []
put key value ((k, v) ∷ rest) =
    let later = put key value rest in if k == key then (k, value) ∷ rest else (k, v) ∷ later

-- `details.get(key)`
unfoldable pub get : String → Dict → Option Value
get key [] = none
get key ((k, v) ∷ rest) = let later = get key rest in if k == key then some v else later

-- `{**base, **details}`
unfoldable pub merge : Dict → Dict → Dict
unfolding put
merge base [] = base
merge base ((k, v) ∷ rest) = merge (put k v base) rest

-- The latest of the rows that the filter lets pass.
unfoldable pub latest : (AuditLog → Bool) → List AuditLog → Option AuditLog
latest p [] = none
latest p (r ∷ rows) = elim (latest p rows) [
  | some later ↦ some later
  | none ↦ if p r then some r else none
]

abbrev pub text_or_null : Option String → Value
text_or_null none = Value.null
text_or_null (some s) = Value.text s

-- `f"idempotency:{key}"`, when there is a key that is not empty.
abbrev pub idempotency_reason : Option String → Option String
idempotency_reason none = none
idempotency_reason (some key) = if key == "" then none else some (concat "idempotency:" key)

abbrev pub log_action : SecurityAction → String
log_action action = concat "protective_action:" (action_value action)

-- An audit row of the same action on the same account with the same reason.
abbrev pub is_previous : SecurityAction → Uuid → String → AuditLog → Bool
is_previous action user_id reason r =
    r.action == log_action action
    && r.resource == "user"
    && is_value r.resource_id user_id
    && is_value r.change_reason reason

abbrev pub replayed_details : SecurityAction → User → Dict → Dict
replayed_details SecurityAction.require_mfa user details =
    put "one_time" (Value.boolean true) (put "mfa_enabled" (Value.boolean true) details)
replayed_details SecurityAction.lock_user user details =
    put "status" (Value.status user.status) details
replayed_details _ user details = details

abbrev dict_or_empty : Option Dict → Dict
dict_or_empty none = []
dict_or_empty (some d) = d

-- The answer to a request that has been served before.
unfoldable pub replay : ActionRequest → User → AuditLog → ActionResponse
replay payload user previous =
    let counted = put "already_applied" (Value.boolean true) (
      put "revoked_count" (Value.number 0) (
        put "sessions_revoked" (Value.number 0) (
          put "deduplicated" (Value.boolean true) (
            put "idempotency_key" (text_or_null payload.idempotency_key)
              (dict_or_empty previous.after_state))))) in
    record {
      status = "already_applied";
      action = payload.action;
      target_user_id = user.id;
      details = replayed_details payload.action user counted;
    }

abbrev optional {ℓ} : {A : Type ℓ} → String → (A → Value) → Option A → Dict
optional key f none = []
optional key f (some a) = (key, f a) ∷ []

abbrev pub request_details : ActionRequest → Dict
request_details payload =
    (("reason", Value.text payload.reason) ∷ [])
    ++ optional "alert_id" (λ a. Value.uuid a) payload.alert_id
    ++ optional "severity" (λ s. Value.text s) payload.severity
    ++ optional "detected_at" (λ t. Value.time t) payload.detected_at

-- What an action has done: `user` is the row as it is afterwards.
pub record Applied : Type 0 where
  pub user : User
  pub already_applied : Bool
  pub details : Dict

module _ (outside : Outside) where
  -- `_revoke_active_sessions`
  unfoldable pub revoke_active_sessions : Uuid → Action ℕ
  revoke_active_sessions id = do
    now ← call outside.clock
    revoked ← query (open_count id)
    change (revoke_open now id)
    pure revoked

  unfoldable pub revoke_only : User → Dict → Action Applied
  revoke_only user details = do
    n ← revoke_active_sessions user.id
    pure (record {
      user = user;
      already_applied = n == 0;
      details =
          put "revoked_count" (Value.number n) (put "sessions_revoked" (Value.number n) details);
    })

  abbrev locked_row : Time → User → User
  locked_row now u = record u { status = AccountStatus.locked; locked_at = some now }

  unfoldable pub lock_row : User → Action User
  lock_row user =
      if is_locked user.status
      then pure user
      else (call outside.clock >>= λ now.
          change (update_user user.id (locked_row now)) >> pure (locked_row now user))

  unfoldable pub enforce : SecurityAction → User → Dict → Action Applied
  enforce SecurityAction.require_mfa user details = do
    change (update_user user.id (λ u. record u { detection_mfa_once = true }))
    n ← revoke_active_sessions user.id
    pure (record {
      user = record user { detection_mfa_once = true };
      already_applied = user.detection_mfa_once;
      details = put "already_applied" (Value.boolean user.detection_mfa_once) (
          put "one_time" (Value.boolean true) (
            put "mfa_enabled" (Value.boolean true)
              (put "sessions_revoked" (Value.number n) details)));
    })
  enforce SecurityAction.lock_user user details = do
    locked ← lock_row user
    n ← revoke_active_sessions user.id
    pure (record {
      user = locked;
      already_applied = is_locked user.status;
      details = put "already_applied" (Value.boolean (is_locked user.status)) (
          put "status" (Value.status locked.status)
            (put "sessions_revoked" (Value.number n) details));
    })
  enforce SecurityAction.revoke_sessions user details = revoke_only user details
  enforce SecurityAction.force_logout user details = revoke_only user details

abbrev pub row_state : User → Dict
row_state u =
    ("status", Value.status u.status)
    ∷ ("detection_mfa_once", Value.boolean u.detection_mfa_once)
    ∷ []

abbrev reason_or : Option String → String → String
reason_or none reason = reason
reason_or (some s) reason = s

-- The audit row, by which a retry is recognised.
abbrev pub action_audit : ActionRequest → User → Applied → Dict → AuditLog
action_audit payload user done details = record {
  request_id = none;
  actor_id = none;
  actor_type = ActorType.system;
  action = log_action payload.action;
  resource = "user";
  resource_id = some user.id;
  before_state = some (row_state user);
  after_state = some (merge (row_state done.user) details);
  change_reason = some (reason_or (idempotency_reason payload.idempotency_key) payload.reason);
  ip_address = none;
  user_agent = none;
}

abbrev pub previous_for : SecurityAction → Uuid → List AuditLog → Option String → Option AuditLog
previous_for action id rows none = none
previous_for action id rows (some reason) = latest (is_previous action id reason) rows

abbrev pub find_previous : ActionRequest → Uuid → Db → Option AuditLog
find_previous payload id db =
    previous_for payload.action id db.audit_logs (idempotency_reason payload.idempotency_key)

module _ (outside : Outside) where
  unfoldable pub apply_new : ActionRequest → User → Action ActionResponse
  apply_new payload user = do
    done ← enforce outside payload.action user (request_details payload)
    let details = put "idempotency_key" (text_or_null payload.idempotency_key) done.details
    audit (action_audit payload user done details)
    commit
    pure (record {
      status = if done.already_applied then "already_applied" else "applied";
      action = payload.action;
      target_user_id = user.id;
      details = details;
    })

  abbrev pub apply_or_replay : ActionRequest → User → Option AuditLog → Action ActionResponse
  apply_or_replay payload user none = apply_new payload user
  apply_or_replay payload user (some previous) = pure (replay payload user previous)

  unfoldable pub apply_action : ActionRequest → Option String → Action ActionResponse
  apply_action payload x_internal_secret = do
    verify_internal_secret outside x_internal_secret
    user ←
        fetch (λ db. find (λ u. u.id == payload.target_user_id) db.users) 404
          "Target user not found"
    previous ← query (find_previous payload user.id)
    apply_or_replay payload user previous

  -- The row and the identifiers of its roles.
  unfoldable pub get_internal_user : Uuid → Option String → Action (User × List String)
  get_internal_user user_id x_internal_secret = do
    verify_internal_secret outside x_internal_secret
    user ← fetch (λ db. find (λ u. u.id == user_id) db.users) 404 "User not found"
    roles ← query (roles_of user.id)
    pure (user, roles)
