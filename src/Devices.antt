-- ===== src/Devices.antt =====
-- app/devices.py: the devices that a user trusts. Devices/Approval has the approval of a new device
-- by a session that is already open.
pub mod Approval
pub mod Waiting
pub mod Completion
use sentinel_auth.Prelude.{
  ℕ, ◌+◌, ◌*◌, String, Bool, true, false, not, ◌&&◌, ◌||◌, Option, none, some, or_else, List, [],
  ◌∷◌, ◌++◌, leb, ltb, if◌then◌else◌, ◌==◌, nat_eq, string_eq, is_some, is_value, find, update,
  delete,
}
use sentinel_auth.Core.{
  Time, Uuid, day, is_active, User, Session, IpAddress, Value, ActorType, Dict, AuditLog,
  TrustedDevice, Db, Outside, HttpRequest, get_client_ip, fingerprint_from_request, Action, pure,
  throw, ◌>>=◌, ◌>>◌, raise_if, fetch, query, change, commit, call,
}
use sentinel_auth.Auth.Events.{audit}
use sentinel_auth.Auth.Sessions.{hash_token, is_unusable_ip}
use sentinel_auth.Authz.{AuthContext, session_of}

abbrev pub update_device : Uuid → (TrustedDevice → TrustedDevice) → Db → Db
update_device id f db = record db {
  trusted_devices = update (λ d. d.id == id) f db.trusted_devices;
}

abbrev pub find_device : Uuid → Option String → Db → Option TrustedDevice
find_device user_id fingerprint db =
    find (λ d. d.user_id == user_id && is_value fingerprint d.device_fingerprint) db.trusted_devices

abbrev pub time_value : Option Time → Value
time_value none = Value.null
time_value (some t) = Value.time t

-- `_audit_device_action`
abbrev pub device_audit : HttpRequest → Uuid → String → Uuid → Dict → AuditLog
device_audit request actor_id action resource_id after_state = record {
  request_id = none;
  actor_id = some actor_id;
  actor_type = ActorType.user;
  action = action;
  resource = "trusted_device";
  resource_id = some resource_id;
  before_state = none;
  after_state = some after_state;
  change_reason = none;
  ip_address = some (get_client_ip request);
  user_agent = request.user_agent;
}

-- `name or other`
abbrev pub name_or : Option String → Option String → Option String
name_or none other = other
name_or (some name) other = if name == "" then other else some name

module _ (outside : Outside) where
  -- `_canonical_ip`
  unfoldable pub canonical_ip : String → Option String
  canonical_ip value = if is_unusable_ip value then none else outside.ip_address value

  abbrev same_canonical : Option String → Option String → String → String → Bool
  same_canonical (some a) (some b) _ _ = a == b
  same_canonical _ _ expected actual = expected == actual

  -- `_same_ip`
  unfoldable pub same_ip : Option String → String → Bool
  same_ip none actual = false
  same_ip (some expected) actual =
      if expected == "" || actual == ""
      then false
      else same_canonical (canonical_ip expected) (canonical_ip actual) expected actual

  -- `ctx.session.ip_address.ip_address`
  abbrev pub session_ip : Session → Db → Option String
  session_ip s db = elim s.ip_address_id [
    | none ↦ none
    | some id ↦ elim (find (λ r. r.id == id) db.ip_addresses) [
      | none ↦ none
      | some r ↦ some r.ip_address
    ]
  ]

  unfoldable pub session_ip_matches : AuthContext → String → Action Bool
  session_ip_matches ctx client_ip = query (λ db. same_ip (session_ip ctx.session db) client_ip)

  module _ (request : HttpRequest) (ctx : AuthContext) where
    unfoldable pub refresh_device :
        TrustedDevice → Option String → Option ℕ → Action (Uuid × Option String)
    refresh_device device device_name remember_for_days = do
      used_at ← call outside.clock
      now ← call outside.clock
      let expires_at = now + or_else remember_for_days 30 * day
      let name = name_or device_name device.device_name
      change (
          update_device device.id (λ d. record d {
            last_ip = some (get_client_ip request);
            last_user_agent = some (or_else request.user_agent "");
            last_used_at = used_at;
            expires_at = some expires_at;
            device_name = name;
          }))
      audit (
          device_audit request ctx.user.id "trusted_device_updated" device.id
            (("expires_at", Value.time expires_at) ∷ []))
      commit
      pure (device.id, name)

    abbrev expiry_of : Option ℕ → Action (Option Time)
    expiry_of none = pure none
    expiry_of (some days) = call outside.clock >>= λ now. pure (some (now + days * day))

    unfoldable pub create_device : Option String → Option ℕ → Action (Uuid × Option String)
    create_device device_name remember_for_days = do
      expires_at ← expiry_of remember_for_days
      used_at ← call outside.clock
      id ← call outside.uuid4
      change (λ db. record db {
        trusted_devices =
            db.trusted_devices
            ++ record {
              id = id;
              user_id = ctx.user.id;
              device_fingerprint = fingerprint_from_request outside request;
              device_name = device_name;
              last_ip = some (get_client_ip request);
              last_user_agent = some (or_else request.user_agent "");
              last_used_at = used_at;
              expires_at = expires_at;
            }
              ∷ [];
      })
      audit (
          device_audit request ctx.user.id "trusted_device_created" id
            (("expires_at", time_value expires_at) ∷ []))
      commit
      pure (id, device_name)

    abbrev store_device :
        Option String → Option ℕ → Option TrustedDevice → Action (Uuid × Option String)
    store_device device_name remember_for_days (some device) =
        refresh_device device device_name remember_for_days
    store_device device_name remember_for_days none = create_device device_name remember_for_days

    unfoldable pub trust_device : Option String → Option ℕ → Action (Uuid × Option String)
    trust_device device_name remember_for_days = do
      familiar ← session_ip_matches ctx (get_client_ip request)
      raise_if (not familiar) 403
          "Trusted-device confirmation must come from the session's familiar IP"
      existing ← query (find_device ctx.user.id (some (fingerprint_from_request outside request)))
      store_device device_name remember_for_days existing

  unfoldable pub untrust_all_devices : AuthContext → Action (Unit {0})
  untrust_all_devices ctx = do
    change (λ db. record db {
      trusted_devices = delete (λ d. d.user_id == ctx.user.id) db.trusted_devices;
    })
    commit

  unfoldable pub untrust_device : Uuid → AuthContext → Action (Unit {0})
  untrust_device device_id ctx = do
    device ←
        fetch (λ db. find (λ d. d.user_id == ctx.user.id && d.id == device_id) db.trusted_devices)
          404 "Device not found"
    change
        (λ db. record db { trusted_devices = delete (λ d. d.id == device.id) db.trusted_devices })
    commit

  -- The user of a token whose session is live, when the account is active.
  abbrev active_owner : Option Session → Db → Option Uuid
  active_owner none db = none
  active_owner (some s) db = elim (find (λ u. u.id == s.user_id) db.users) [
    | none ↦ none
    | some u ↦ if is_active u.status then some u.id else none
  ]

  abbrev token_owner : Option String → Action (Option Uuid)
  token_owner none = pure none
  token_owner (some token) = do
    now ← call outside.clock
    session ← query (session_of (hash_token outside token) now)
    query (active_owner session)

  abbrev has_expired : Time → Option Time → Bool
  has_expired now none = false
  has_expired now (some t) = ltb t now

  abbrev check_found : HttpRequest → Option TrustedDevice → Action (Option TrustedDevice)
  check_found request none = pure none
  check_found request (some device) =
      if not (same_ip device.last_ip (get_client_ip request))
      then pure none
      else (call outside.clock >>= λ now.
          if has_expired now device.expires_at
          then pure none
          else (change (
                update_device device.id (λ d. record d {
                  last_used_at = now;
                  last_ip = some (get_client_ip request);
                  last_user_agent = some (or_else request.user_agent "");
                }))
              >> commit
              >> pure (some device)))

  abbrev check_owned : HttpRequest → Option Uuid → Action (Option TrustedDevice)
  check_owned request none = pure none
  check_owned request (some id) =
      query (find_device id (some (fingerprint_from_request outside request)))
      >>= check_found request

  -- `token` is what follows "Bearer " in the header, up to the next space. The answer is the device
  -- when it is trusted.
  unfoldable pub check_device_trusted :
      HttpRequest → (token : Option String) → Action (Option TrustedDevice)
  check_device_trusted request token = token_owner token >>= check_owned request
