-- ===== src/Tests/Devices.antt =====
-- A device that completes its login on the sample.
use sentinel_auth.Prelude.{List, none, false, ◌≡◌, refl, some, [], ◌∷◌, ◌++◌}
use sentinel_auth.Core.{
  Error, HttpRequest, User, Session, MfaType, MfaStatus, MfaTransaction, Db, ok, raise, World,
  respond, is_internal_auth_configured, get_internal_secret, fingerprint_material, hash_fingerprint,
  fingerprint_from_request, get_client_ip,
}
use sentinel_auth.Auth.Events.{login_event, deliver, send_login_event}
use sentinel_auth.Auth.Risk.{risk_of_reply, pre_token_risk}
use sentinel_auth.Auth.Sessions.{LoginResponse, hash_token, resolve_ip_address, create_session}
use sentinel_auth.Devices.{canonical_ip, same_ip}
use sentinel_auth.Devices.Approval.{find_request}
use sentinel_auth.Devices.Completion.{
  check_approved, finish_login, complete_approved, complete_trusted_device_login,
}
use sentinel_auth.Devices.Completion.Steps.{Completed}
use sentinel_auth.Devices.Completion.Once.{trusted_device_login}
use sentinel_auth.Transactions.Spent.{trusted_device_login_once}
use sentinel_auth.Devices.Waiting.Consent.{no_login_without_consent}
use sentinel_auth.Transactions.{Step, ask, approve, complete, log_in, verify, served_all}
use sentinel_auth.Tests.Sample.{
  start, bob, session_row, outside, challenge, db, world, browser, returns,
}

abbrev approved : MfaTransaction
approved = record challenge {
  user_id = 1;
  mfa_type = MfaType.trusted_device;
  status = MfaStatus.completed;
  trusted_device_fingerprint = some "agent||";
}

abbrev device_db : Db
device_db = record db { mfa_transactions = approved ∷ [] }

abbrev device_world : World
device_world = record world { committed = device_db; working = device_db }

abbrev response : LoginResponse
response = record {
  access_token = "drawn";
  refresh_token = "drawn";
  mfa_required = false;
  session_id = 109;
}

device-login :
    (respond (complete_trusted_device_login outside browser 20) device_world).0 ≡ ok response
unfolding complete_trusted_device_login check_approved complete_approved same_ip canonical_ip
    pre_token_risk risk_of_reply finish_login create_session hash_token resolve_ip_address
    login_event send_login_event deliver fingerprint_from_request hash_fingerprint
    fingerprint_material get_client_ip is_internal_auth_configured get_internal_secret
device-login = refl

trusted_device_login_example :
    (pending : MfaTransaction) × (find_request 20 device_world.committed ≡ some pending)
    × (user : User) × Completed outside browser pending start 1 device_world.committed user
    × (row : Session) × (row.user_id ≡ user.id)
    × ((respond
          (complete_trusted_device_login outside browser 20)
          device_world).1.committed.sessions
        ≡ device_world.committed.sessions ++ row ∷ [])
trusted_device_login_example =
    trusted_device_login outside browser 20 device_world (
      returns (respond (complete_trusted_device_login outside browser 20) device_world)
        device-login)

abbrev asked : MfaTransaction
asked = record approved { status = MfaStatus.pending }

abbrev asking_world : World
asking_world = record world {
  committed = record db { mfa_transactions = asked ∷ [] };
  working = record db { mfa_transactions = asked ∷ [] };
}

-- Another user's session approves, a login fails, a code is tried, and the device asks twice.
abbrev steps : List (Step × HttpRequest)
steps =
    (approve 20 (record { user = bob; session = session_row; roles = [] }), browser)
    ∷ (log_in (record { username = "alice"; password = "guess" }), browser)
    ∷ (verify (record { session_id = 20; mfa_code = "123456" }), browser)
    ∷ (ask "alice" "secret" none, browser)
    ∷ (complete 20, browser)
    ∷ []

no_login_without_consent_example :
    (e : Error) × ((respond
        (complete_trusted_device_login outside browser 20)
        (served_all outside steps asking_world)).0
      ≡ raise e)
no_login_without_consent_example =
    no_login_without_consent 20 1 outside steps asking_world browser
      (asked, refl, (refl, refl, refl)) (refl, (tt, (tt, (tt, (tt, tt)))))

trusted_device_login_once_example :
    (e : Error) × ((respond (complete_trusted_device_login outside browser 20) (
        served_all outside steps
          (respond (complete_trusted_device_login outside browser 20) device_world).1)).0
      ≡ raise e)
trusted_device_login_once_example =
    trusted_device_login_once outside browser browser 20 steps device_world (
      returns (respond (complete_trusted_device_login outside browser 20) device_world)
        device-login)
