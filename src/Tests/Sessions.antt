-- ===== src/Tests/Sessions.antt =====
-- Login, challenges, refresh and logout on the sample.
use sentinel_auth.Prelude.{
  arith, List, String, true, false, ◌==◌, string_eq, ◌≡◌, refl, ap, ◌≤◌, ◌≢◌, [], ◌∷◌,
}
use sentinel_auth.Core.{
  HttpRequest, HttpRequest, World, RateLimit, Db, is_internal_auth_configured, get_internal_secret,
  MfaStatus, MfaTransaction, User, ok, raise, http, respond,
}
use sentinel_auth.Auth.Events.{login_event, deliver, send_login_event}
use sentinel_auth.Auth.RateLimits.{is_exceeded, count_request}
use sentinel_auth.Auth.Risk.{risk_of_reply, pre_token_risk}
use sentinel_auth.Auth.Sessions.{LoginResponse, hash_token, resolve_ip_address, create_session}
use sentinel_auth.Auth.Login.{
  LoginRequest, normalize_ip, attempt_event, check_rate_limit, after_verify, authenticate,
  check_status, risk_gate, send_otp_email, issue_challenge, open_session, login_at, login,
}
use sentinel_auth.Auth.Login.Steps.{Ungated}
use sentinel_auth.Auth.Login.Outcomes.{Cleared}
use sentinel_auth.Auth.Login.Safety.{Signed, Added, login_tokens, login_challenge}
use sentinel_auth.Auth.Login.Bound.{attempts, attempts-le-room}
use sentinel_auth.Auth.Mfa.{
  MfaVerifyRequest, check_state, check_binding, reject_code, consume, check_expiry, verify_pending,
  mfa_verify,
}
use sentinel_auth.Transactions.{Step, log_in, verify, served_all}
use sentinel_auth.Transactions.Settled.{mfa_verify_once}
use sentinel_auth.Auth.Mfa.Guesses.{wrong_codes, wrong_codes-le-three}
use sentinel_auth.Auth.Account.{RefreshResponse, refresh_token, logout_all}
use sentinel_auth.Auth.Account.Rotation.{refresh_token_once}
use sentinel_auth.Auth.Account.Revocation.{logout_all_locks_out}
use sentinel_auth.Authz.{
  AuthContext, bearer_token, context_of_token, get_current_auth_context, require_roles, guarded,
  roles_of, intersects,
}
use sentinel_auth.Authz.Safety.{Authentic, LockedOut, Presents, guarded_caller}
use sentinel_auth.Core.{
  get_client_ip, fingerprint_material, hash_fingerprint, fingerprint_from_request,
}
use sentinel_auth.Tests.Sample.{db, start, outside, alice, session_row, world, browser, returns}

abbrev alice_login : LoginRequest
alice_login = record { username = "alice"; password = "secret" }

abbrev alice_response : LoginResponse
alice_response = record {
  access_token = "drawn";
  refresh_token = "drawn";
  mfa_required = false;
  session_id = 110;
}

alice-login : (respond (login outside alice_login browser) world).0 ≡ ok alice_response
unfolding login login_at check_rate_limit is_exceeded count_request authenticate after_verify
    check_status risk_gate pre_token_risk risk_of_reply open_session create_session hash_token
    resolve_ip_address login_event send_login_event deliver fingerprint_from_request
    hash_fingerprint fingerprint_material get_client_ip is_internal_auth_configured
    get_internal_secret
alice-login = refl

alice-logged_in :
    respond (login outside alice_login browser) world
    ≡ (ok alice_response, (respond (login outside alice_login browser) world).1)
alice-logged_in = returns (respond (login outside alice_login browser) world) alice-login

login_tokens_example :
    (user : User) × Cleared outside alice_login world.committed user
    × (user.admin_mfa_required ≡ false)
    × (user.detection_mfa_once ≡ false)
    × Ungated outside 2
    × Signed user world alice_response (respond (login outside alice_login browser) world).1
login_tokens_example = login_tokens outside alice_login browser world alice-logged_in refl

abbrev bob_login : LoginRequest
bob_login = record { username = "bob"; password = "secret" }

abbrev bob_response : LoginResponse
bob_response = record {
  access_token = "";
  refresh_token = "";
  mfa_required = true;
  session_id = 103;
}

bob-login : (respond (login outside bob_login browser) world).0 ≡ ok bob_response
unfolding login login_at check_rate_limit is_exceeded count_request authenticate after_verify
    check_status risk_gate pre_token_risk risk_of_reply issue_challenge attempt_event send_otp_email
    normalize_ip login_event send_login_event deliver fingerprint_from_request hash_fingerprint
    fingerprint_material get_client_ip is_internal_auth_configured
bob-login = refl

bob-challenged :
    respond (login outside bob_login browser) world
    ≡ (ok bob_response, (respond (login outside bob_login browser) world).1)
bob-challenged = returns (respond (login outside bob_login browser) world) bob-login

login_challenge_example :
    (user : User) × Cleared outside bob_login world.committed user
    × (bob_response.access_token ≡ "")
    × (bob_response.refresh_token ≡ "")
    × ((respond (login outside bob_login browser) world).1.committed.sessions
        ≡ world.committed.sessions)
    × (row : MfaTransaction) × Added row world (respond (login outside bob_login browser) world).1
    × (row.id ≡ bob_response.session_id)
    × (row.user_id ≡ user.id)
    × (row.status ≡ MfaStatus.pending)
    × (row.fail_count ≡ 0)
login_challenge_example = login_challenge outside bob_login browser world bob-challenged refl

abbrev right_code : MfaVerifyRequest
right_code = record { session_id = 20; mfa_code = "123456" }

abbrev wrong_code : MfaVerifyRequest
wrong_code = record { session_id = 20; mfa_code = "000000" }

abbrev bob_verified : LoginResponse
bob_verified = record {
  access_token = "drawn";
  refresh_token = "drawn";
  mfa_required = false;
  session_id = 108;
}

bob-verify : (respond (mfa_verify outside right_code browser) world).0 ≡ ok bob_verified
unfolding mfa_verify verify_pending check_state check_expiry check_binding normalize_ip consume
    create_session hash_token resolve_ip_address login_event send_login_event deliver
    fingerprint_from_request hash_fingerprint fingerprint_material get_client_ip
    is_internal_auth_configured get_internal_secret
bob-verify = refl

-- Another wrong code, a new login, and a code that is right.
abbrev sign_ins : List (Step × HttpRequest)
sign_ins =
    (verify wrong_code, browser) ∷ (log_in bob_login, browser) ∷ (verify right_code, browser) ∷ []

mfa_verify_once_example :
    (respond
      (mfa_verify outside wrong_code browser)
      (served_all outside sign_ins (respond (mfa_verify outside right_code browser) world).1)).0
    ≡ raise (http 409 "MFA transaction already completed")
mfa_verify_once_example =
    mfa_verify_once outside right_code wrong_code browser browser sign_ins world refl
      (returns (respond (mfa_verify outside right_code browser) world) bob-verify)
      (tt, (tt, (tt, tt)))

wrong_codes-le-three_example :
    wrong_codes 20 outside
      ((wrong_code, browser) ∷ (wrong_code, browser) ∷ (right_code, browser) ∷ [])
      world
    ≤ 3
wrong_codes-le-three_example =
    wrong_codes-le-three 20 outside
      ((wrong_code, browser) ∷ (wrong_code, browser) ∷ (right_code, browser) ∷ []) world

-- The third wrong code fails the challenge, so that the right one is refused.
third_failure :
    wrong_codes 20 outside
      ((wrong_code, browser) ∷ (wrong_code, browser) ∷ (right_code, browser) ∷ [])
      world
    ≡ 1
unfolding wrong_codes mfa_verify verify_pending check_state check_expiry reject_code login_event
    send_login_event deliver fingerprint_from_request hash_fingerprint fingerprint_material
    get_client_ip is_internal_auth_configured
third_failure = refl

abbrev refreshed : RefreshResponse
refreshed = record { access_token = "drawn"; refresh_token = "drawn" }

refresh-answer : (respond (refresh_token outside "refresh") world).0 ≡ ok refreshed
unfolding refresh_token hash_token
refresh-answer = refl

distinct : ◌≢◌ {A = String} "drawn" "refresh"
distinct e =
    let equal : ◌==◌ {A = String} "drawn" "refresh" ≡ true =
      ap (λ (s : String). s == "refresh") e in
    cc

refresh_token_once_example :
    (respond
      (refresh_token outside "refresh")
      (respond (refresh_token outside "refresh") world).1).0
    ≡ raise (http 401 "Invalid refresh token")
unfolding hash_token
refresh_token_once_example =
    refresh_token_once outside "refresh" world (10, ((λ _. refl), tt)) (λ n. distinct)
      (returns (respond (refresh_token outside "refresh") world) refresh-answer)

abbrev alice_context : AuthContext
alice_context = record { session = session_row; user = alice; roles = "SOC_ANALYST" ∷ [] }

logout_all_locks_out_example :
    ((respond (logout_all outside alice_context) world).0 ≡ ok tt)
    × LockedOut outside 1 (respond (logout_all outside alice_context) world).1
logout_all_locks_out_example = logout_all_locks_out outside alice_context world

alice-guarded : (respond (guarded outside ("SOC_ANALYST" ∷ []) browser) world).0 ≡ ok alice_context
unfolding guarded get_current_auth_context bearer_token context_of_token require_roles roles_of
    hash_token
alice-guarded = refl

guarded_caller_example :
    (token : String) × Presents outside browser token
    × Authentic outside token start world.committed alice_context
    × (intersects ("SOC_ANALYST" ∷ []) (roles_of 1 world.committed) ≡ true)
guarded_caller_example =
    guarded_caller outside ("SOC_ANALYST" ∷ []) browser world
      (returns (respond (guarded outside ("SOC_ANALYST" ∷ []) browser) world) alice-guarded)

-- Three requests of the window are spent.
abbrev busy_row : RateLimit
busy_row = record {
  ip_address = "10.0.0.1";
  action = "login";
  count = 3;
  max_count = 5;
  window_start = start;
}

abbrev busy_db : Db
busy_db = record db { rate_limits = busy_row ∷ [] }

abbrev busy_world : World
busy_world = record world { committed = busy_db; working = busy_db }

abbrev busy_logins : List (LoginRequest × HttpRequest)
busy_logins =
    (alice_login, browser)
    ∷ (bob_login, browser)
    ∷ (alice_login, browser)
    ∷ (bob_login, browser)
    ∷ []

attempts-le-room_example : attempts "10.0.0.1" outside busy_logins busy_world ≤ 2
attempts-le-room_example =
    attempts-le-room "10.0.0.1" outside busy_logins busy_world {rate = busy_row} refl
      (λ n. omega arith)
