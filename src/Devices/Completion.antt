-- ===== src/Devices/Completion.antt =====
-- app/devices.py, approve_trusted_device and complete_trusted_device_login.
pub mod Steps
pub mod Once
use sentinel_auth.Prelude.{
  ℕ, ◌+◌, ◌*◌, String, Bool, true, false, not, ◌&&◌, ◌||◌, Option, none, some, or_else, List, [],
  ◌∷◌, ◌++◌, leb, ltb, if◌then◌else◌, ◌==◌, nat_eq, string_eq, is_some, is_value, find, update,
}
use sentinel_auth.Core.{
  Time, Uuid, day, is_active, User, MfaStatus, MfaTransaction, Value, TrustedDevice, Db, Outside,
  HttpRequest, get_client_ip, fingerprint_from_request, LoginEvent, Action, http, pure, throw,
  ◌>>=◌, ◌>>◌, raise_if, or_raise, fetch, query, change, commit, call,
}
use sentinel_auth.Auth.Events.{audit, send_login_event}
use sentinel_auth.Auth.Risk.{pre_token_risk}
use sentinel_auth.Auth.Sessions.{LoginResponse, create_session}
use sentinel_auth.Auth.Login.{update_transaction}
use sentinel_auth.Authz.{AuthContext}
use sentinel_auth.Devices.{
  update_device, find_device, device_audit, name_or, same_ip, session_ip_matches,
}
use sentinel_auth.Devices.Approval.{is_void, find_request, set_status}

-- `raise HTTPException(...)` after a commit of what the status has become.
abbrev pub close_request : Uuid → MfaStatus → ℕ → String → Action (Unit {0})
close_request id s status_code detail = do set_status id s; commit; throw (http status_code detail)

module _ (outside : Outside) (request : HttpRequest) where
  -- The columns of an approved device that come from the request. A request has a fingerprint.
  abbrev pub approved_row : MfaTransaction → Time → TrustedDevice → TrustedDevice
  approved_row t now d = record d {
    device_name = name_or t.trusted_device_name d.device_name;
    last_ip = t.bound_ip;
    last_user_agent = t.trusted_device_user_agent;
    last_used_at = now;
    expires_at = some (now + 30 * day);
  }

  abbrev pub store_approved : MfaTransaction → Uuid → Time → Option TrustedDevice → Action Uuid
  store_approved t user_id now (some d) =
      change (update_device d.id (approved_row t now)) >> pure d.id
  store_approved t user_id now none = do
    id ← call outside.uuid4
    change (λ db. record db {
      trusted_devices =
          db.trusted_devices
          ++ record {
            id = id;
            user_id = user_id;
            device_fingerprint = or_else t.trusted_device_fingerprint "";
            device_name = t.trusted_device_name;
            last_ip = t.bound_ip;
            last_user_agent = t.trusted_device_user_agent;
            last_used_at = now;
            expires_at = some (now + 30 * day);
          }
            ∷ [];
    })
    pure id

  abbrev pub mark_approved : AuthContext → MfaTransaction → Time → Uuid → Action (Uuid × Time)
  mark_approved ctx pending now device_id = do
    set_status pending.id MfaStatus.completed
    audit (
        device_audit request ctx.user.id "trusted_device_approved" device_id (
          ("request_id", Value.uuid pending.id) ∷ ("expires_at", Value.time (now + 30 * day)) ∷ []))
    commit
    pure (device_id, now + 30 * day)

  -- From the look at the clock on.
  abbrev pub approve_own : AuthContext → MfaTransaction → Action (Uuid × Time)
  approve_own ctx pending = do
    now ← call outside.clock
    if leb pending.expires_at now
        then close_request pending.id MfaStatus.expired 410 "Trusted-device request expired"
        else pure tt
    raise_if (is_void pending.status) 410 "Trusted-device request is no longer valid"
    familiar ← session_ip_matches outside ctx (get_client_ip request)
    raise_if (not familiar) 403 "Approval must come from the current session's familiar IP"
    device ← query (find_device ctx.user.id pending.trusted_device_fingerprint)
    device_id ← store_approved pending ctx.user.id now device
    mark_approved ctx pending now device_id

  unfoldable pub approve_trusted_device : Uuid → AuthContext → Action (Uuid × Time)
  approve_trusted_device request_id ctx = do
    pending ← fetch (find_request request_id) 404 "Trusted-device request not found"
    raise_if (not (pending.user_id == ctx.user.id)) 404 "Trusted-device request not found"
    approve_own ctx pending

  -- The status of a request that completes.
  unfoldable pub check_approved : MfaStatus → Action (Unit {0})
  check_approved MfaStatus.pending = throw (http 409 "Trusted-device approval is still pending")
  check_approved MfaStatus.completed = pure tt
  check_approved _ = throw (http 410 "Trusted-device request is no longer valid")

  abbrev pub check_lifetime : MfaTransaction → Time → Action (Unit {0})
  check_lifetime pending now =
      if leb pending.expires_at now
      then close_request pending.id MfaStatus.expired 410 "Trusted-device request expired"
      else pure tt

  abbrev pub check_mfa : MfaTransaction → User → Action (Unit {0})
  check_mfa pending user =
      if user.admin_mfa_required || user.detection_mfa_once
      then close_request pending.id MfaStatus.failed 409 "MFA is required for this login"
      else pure tt

  abbrev pub check_risk : MfaTransaction → Option String → Action (Unit {0})
  check_risk pending none = pure tt
  check_risk pending (some _) =
      close_request pending.id MfaStatus.failed 409 "Detection requires MFA for this login"

  abbrev pub active_row : Option User → Option User
  active_row none = none
  active_row (some u) = if is_active u.status then some u else none

  abbrev pub find_active : Uuid → Db → Option User
  find_active id db = active_row (find (λ u. u.id == id) db.users)

  -- The request is consumed, and a session opened.
  unfoldable pub finish_login : MfaTransaction → User → Time → Action LoginResponse
  finish_login pending user now = do
    change (update_transaction pending.id (λ t. record t { consumed_at = some now }))
    (result, login_event) ←
        create_session outside user (get_client_ip request) request.user_agent
          (fingerprint_from_request outside request)
    audit (
        device_audit request user.id "trusted_device_login" pending.id
          (("session_id", Value.uuid result.session_id) ∷ []))
    commit
    send_login_event outside login_event
    pure result

  -- From the look at the account on.
  abbrev pub finish_checked : MfaTransaction → Time → User → Action LoginResponse
  finish_checked pending now user = do
    check_mfa pending user
    risk_level ← pre_token_risk outside
    check_risk pending risk_level
    finish_login pending user now

  -- From the look at `consumed_at` on.
  unfoldable pub complete_approved : MfaTransaction → Action LoginResponse
  complete_approved pending = do
    now ← call outside.clock
    raise_if (is_some pending.consumed_at) 409 "Trusted-device request already completed"
    check_lifetime pending now
    raise_if (not (same_ip outside pending.bound_ip (get_client_ip request))) 403
        "Trusted-device IP does not match the request"
    raise_if
        (not
          (is_value pending.trusted_device_fingerprint (fingerprint_from_request outside request)))
        403 "Trusted-device fingerprint does not match the request"
    user ← fetch (find_active pending.user_id) 401 "Account is not active"
    finish_checked pending now user

  unfoldable pub complete_trusted_device_login : Uuid → Action LoginResponse
  complete_trusted_device_login request_id = do
    pending ← fetch (find_request request_id) 404 "Trusted-device request not found"
    check_approved pending.status
    complete_approved pending
