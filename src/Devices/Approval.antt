-- ===== src/Devices/Approval.antt =====
-- app/devices.py: a new device asks for approval, a session of the same user approves it, and the
-- new device completes its login.
use sentinel_auth.Prelude.{
  ◌+◌, ◌*◌, String, Bool, true, false, ◌&&◌, ◌||◌, Option, none, some, or_else, [], ◌∷◌, ◌++◌, ltb,
  if◌then◌else◌, ◌==◌, nat_eq, string_eq, is_some, is_value, find,
}
use sentinel_auth.Core.{
  Time, Uuid, minute, is_locked, User, MfaType, MfaStatus, MfaTransaction, Value, TrustedDevice, Db,
  Outside, Verification, verified, HttpRequest, get_client_ip, fingerprint_from_request, Action,
  http, pure, throw, ◌>>=◌, ◌>>◌, raise_if, fetch, query, change, commit, call,
}
use sentinel_auth.Auth.Events.{audit}
use sentinel_auth.Auth.RateLimits.{rate_of, is_exceeded, count_request}
use sentinel_auth.Auth.Risk.{pre_token_risk}
use sentinel_auth.Auth.Login.{update_transaction}
use sentinel_auth.Devices.{find_device, device_audit, canonical_ip, same_ip}

abbrev pub is_device_type : MfaType → Bool
is_device_type MfaType.trusted_device = true
is_device_type _ = false

abbrev pub is_pending : MfaStatus → Bool
is_pending MfaStatus.pending = true
is_pending _ = false

-- `pending.status in {"expired", "failed"}`
abbrev pub is_void : MfaStatus → Bool
is_void MfaStatus.expired = true
is_void MfaStatus.failed = true
is_void _ = false

abbrev pub find_request : Uuid → Db → Option MfaTransaction
find_request id db = find (λ t. t.id == id && is_device_type t.mfa_type) db.mfa_transactions

abbrev pub set_status : Uuid → MfaStatus → Action (Unit {0})
set_status id s = change (update_transaction id (λ t. record t { status = s }))

-- The answer to a device that asks for approval.
pub record PendingTrustedDeviceResponse : Type 0 where
  pub request_id : Uuid
  pub status : String
  pub expires_at : Time

module _ (outside : Outside) (request : HttpRequest) where
  abbrev pub bound_ip_of : String → String
  bound_ip_of ip = or_else (canonical_ip outside ip) ip

  -- The counter is committed before the password is looked at.
  unfoldable pub count_approval : Time → Action (Unit {0})
  count_approval now = do
    rate ← query (rate_of (get_client_ip request) "trusted_device_approval")
    raise_if (is_exceeded now rate) 429 "Too many device approval requests"
    change (count_request (get_client_ip request) "trusted_device_approval" now rate)
    commit

  abbrev pub verify_password : Verification → Action (Unit {0})
  verify_password verified = pure tt
  verify_password _ = throw (http 401 "Invalid credentials")

  -- The checks of an account that is known.
  abbrev pub check_user : (password : String) → User → Action User
  check_user password user = do
    verify_password (outside.argon2_verify user.password_hash password)
    raise_if (is_locked user.status) 423 "Account is locked"
    raise_if (user.admin_mfa_required || user.detection_mfa_once) 409
        "Complete the required MFA through the normal login flow before trusting a device"
    risk_level ← pre_token_risk outside
    raise_if (is_some risk_level) 409
        "Detection requires MFA; trusted-device approval cannot bypass it"
    pure user

  unfoldable pub check_credentials : (username password : String) → Action User
  check_credentials username password = do
    user ← fetch (λ db. find (λ u. u.username == username) db.users) 401 "Invalid credentials"
    check_user password user

  abbrev not_expired : Time → Option Time → Bool
  not_expired now none = true
  not_expired now (some t) = ltb now t

  -- A device that is trusted already, from the same address.
  abbrev pub trusted_already : Time → Option TrustedDevice → Option TrustedDevice
  trusted_already now none = none
  trusted_already now (some d) =
      if not_expired now d.expires_at && same_ip outside d.last_ip (get_client_ip request)
      then some d
      else none

  abbrev pub is_same_request : Uuid → MfaTransaction → Bool
  is_same_request user_id t =
      t.user_id == user_id
      && is_device_type t.mfa_type
      && is_pending t.status
      && is_value t.trusted_device_fingerprint (fingerprint_from_request outside request)

  abbrev pub expire : Option MfaTransaction → Action (Unit {0})
  expire none = pure tt
  expire (some t) = set_status t.id MfaStatus.expired

  abbrev pub add_request : Uuid → User → Option String → Time → Db → Db
  add_request id user device_name expires_at db = record db {
    mfa_transactions =
        db.mfa_transactions
        ++ record {
          id = id;
          user_id = user.id;
          mfa_type = MfaType.trusted_device;
          status = MfaStatus.pending;
          bound_ip = some (bound_ip_of (get_client_ip request));
          trusted_device_fingerprint = some (fingerprint_from_request outside request);
          trusted_device_name = device_name;
          trusted_device_user_agent = request.user_agent;
          consumed_at = none;
          notification_id = none;
          fail_count = 0;
          expires_at = expires_at;
        }
          ∷ [];
  }

  unfoldable pub new_request :
      User → Option String → Time → Option MfaTransaction → Action PendingTrustedDeviceResponse
  new_request user device_name now old = do
    expire old
    id ← call outside.uuid4
    let expires_at = now + 5 * minute
    change (add_request id user device_name expires_at)
    audit (
        device_audit request user.id "trusted_device_requested" id
          (("expires_at", Value.time expires_at) ∷ []))
    commit
    pure (record { request_id = id; status = "pending"; expires_at = expires_at })

  abbrev pub live_request : Time → Option MfaTransaction → Option MfaTransaction
  live_request now none = none
  live_request now (some t) = if ltb now t.expires_at then some t else none

  abbrev pub request_or_reuse :
      User
      → Option String
      → Time
      → Option TrustedDevice
      → Option MfaTransaction
      → Option MfaTransaction
      → Action PendingTrustedDeviceResponse
  request_or_reuse user device_name now (some d) _ _ = pure (record {
    request_id = d.id;
    status = "already_trusted";
    expires_at = or_else d.expires_at now;
  })
  request_or_reuse user device_name now none (some t) _ =
      pure (record { request_id = t.id; status = "pending"; expires_at = t.expires_at })
  request_or_reuse user device_name now none none old = new_request user device_name now old

  unfoldable pub request_trusted_device_approval :
      (username password : String) → Option String → Action PendingTrustedDeviceResponse
  request_trusted_device_approval username password device_name = do
    let ip = bound_ip_of (get_client_ip request)
    raise_if (ip == "" || ip == "unknown") 400 "A valid client IP is required"
    counted_at ← call outside.clock
    count_approval counted_at
    user ← check_credentials username password
    now ← call outside.clock
    existing ← query (find_device user.id (some (fingerprint_from_request outside request)))
    old ← query (λ db. find (is_same_request user.id) db.mfa_transactions)
    request_or_reuse user device_name now (trusted_already now existing) (live_request now old) old
