-- ===== src/Tests/Administration.antt =====
-- Account administration and protective actions on the sample.
use sentinel_auth.Prelude.{
  String, true, ◌==◌, nat_eq, string_eq, ◌≡◌, refl, ◌≤◌, none, some, Option, List, [], ◌∷◌, arith,
  count,
}
use sentinel_auth.Core.{
  Uuid, AccountStatus, Dict, User, Value, get_internal_secret, verify_internal_secret, ok, respond,
}
use sentinel_auth.Authz.{AuthContext}
use sentinel_auth.Authz.Safety.{LockedOut}
use sentinel_auth.Auth.Account.{revoke_open, open_count}
use sentinel_auth.Iam.{
  has_role, admins, role_ids, sorted, revoke_sessions, guard_last_active_admin, lock_target,
  lock_user,
}
use sentinel_auth.Iam.Keep.{IsAdministered}
use sentinel_auth.Iam.Operations.{Operation, perform, Call, perform_all, admin_remains}
use sentinel_auth.Iam.LockOut.{privilege_change_locks_out}
use sentinel_auth.Actions.{
  SecurityAction, ActionRequest, ActionResponse, put, get, latest, revoke_active_sessions, enforce,
  revoke_only, apply_new, apply_action,
}
use sentinel_auth.Actions.Idempotency.{apply_action_once, apply_action_locks_out}
use sentinel_auth.Tests.Sample.{
  start, outside, bob, carol, session_row, db, world, browser, returns,
}

-- At most one row has a key.
users_unique : (i : Uuid) → count (λ (u : User). u.id == i) db.users ≤ 1
users_unique i = ground arith

roles_unique : (i : Uuid) (role : String) → count (has_role i role) db.user_roles ≤ 1
roles_unique i role = ground arith

db-IsAdministered : IsAdministered db.users db.user_roles
unfolding admins
db-IsAdministered = record {
  user_key = users_unique;
  role_key = roles_unique;
  administered = omega arith;
}

abbrev bob_context : AuthContext
bob_context = record { session = session_row; user = bob; roles = "SECURITY_ADMIN" ∷ [] }

-- Two administrators lock each other, and one gives up the role.
abbrev calls : List Call
calls =
    (browser, bob_context, Operation.lock 3)
    ∷ (browser, bob_context, Operation.lock 2)
    ∷ (browser, bob_context, Operation.revoke 2 "SECURITY_ADMIN")
    ∷ []

admin_remains_example :
    IsAdministered
      (perform_all outside calls world).committed.users
      (perform_all outside calls world).committed.user_roles
admin_remains_example = admin_remains outside calls world db-IsAdministered

abbrev carol_locked : User
carol_locked = record carol { status = AccountStatus.locked; locked_at = some start }

lock-carol :
    (respond (perform outside browser bob_context (Operation.lock 3)) world).0
    ≡ ok (some carol_locked, sorted ("SECURITY_ADMIN" ∷ []))
unfolding perform lock_user lock_target revoke_sessions revoke_open guard_last_active_admin admins
    role_ids
lock-carol = refl

privilege_change_locks_out_example :
    LockedOut outside 3 (respond (perform outside browser bob_context (Operation.lock 3)) world).1
privilege_change_locks_out_example =
    privilege_change_locks_out outside browser bob_context world (Operation.lock 3) refl lock-carol

abbrev revoke_alice : ActionRequest
revoke_alice = record {
  action = SecurityAction.revoke_sessions;
  target_user_id = 1;
  reason = "risky login";
  alert_id = some 50;
  severity = some "high";
  idempotency_key = some "alert:50:REVOKE_SESSIONS";
  detected_at = none;
}

abbrev retry_alice : ActionRequest
retry_alice = record revoke_alice { reason = "retry"; severity = none }

abbrev secret : Option String
secret = some "0123456789abcdef0123456789abcdef"

abbrev revoke_details : Dict
revoke_details =
    ("reason", Value.text "risky login")
    ∷ ("alert_id", Value.uuid 50)
    ∷ ("severity", Value.text "high")
    ∷ ("sessions_revoked", Value.number 1)
    ∷ ("revoked_count", Value.number 1)
    ∷ ("idempotency_key", Value.text "alert:50:REVOKE_SESSIONS")
    ∷ []

abbrev revoke_response : ActionResponse
revoke_response = record {
  status = "applied";
  action = SecurityAction.revoke_sessions;
  target_user_id = 1;
  details = revoke_details;
}

revoke-alice : (respond (apply_action outside revoke_alice secret) world).0 ≡ ok revoke_response
unfolding apply_action verify_internal_secret get_internal_secret latest apply_new enforce
    revoke_only revoke_active_sessions open_count revoke_open put
revoke-alice = refl

apply_action_once_example :
    (r' : ActionResponse) × (respond
        (apply_action outside retry_alice secret)
        (respond (apply_action outside revoke_alice secret) world).1
      ≡ (ok r', (respond (apply_action outside revoke_alice secret) world).1))
    × (r'.status ≡ "already_applied")
    × (get "deduplicated" r'.details ≡ some (Value.boolean true))
    × (get "sessions_revoked" r'.details ≡ some (Value.number 0))
apply_action_once_example =
    apply_action_once outside revoke_alice retry_alice secret world
      {reason = "idempotency:alert:50:REVOKE_SESSIONS"} refl refl refl refl
      (returns (respond (apply_action outside revoke_alice secret) world) revoke-alice)

apply_action_locks_out_example :
    LockedOut outside 1 (respond (apply_action outside revoke_alice secret) world).1
unfolding latest
apply_action_locks_out_example =
    apply_action_locks_out outside revoke_alice secret world refl
      (returns (respond (apply_action outside revoke_alice secret) world) revoke-alice)
