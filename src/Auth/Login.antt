-- ===== src/Auth/Login.antt =====
-- app/auth.py, login, stage by stage as the comments of the source number them.
pub mod Steps
pub mod Outcomes
pub mod Safety
pub mod Rates
pub mod Window
pub mod Bound
pub mod Kept
use sentinel_auth.Prelude.{
  ℕ, ◌+◌, ◌*◌, String, Bool, true, false, ◌||◌, Option, none, some, or_else, List, [], ◌∷◌, ◌++◌,
  if◌then◌else◌, ◌==◌, nat_eq, string_eq, find, update,
}
use sentinel_auth.Core.{
  Time, Uuid, minute, is_locked, User, MfaType, MfaStatus, MfaTransaction, MfaNotification,
  RateLimit, Db, Outside, Verification, verified, mismatch, invalid_hash, HttpRequest,
  get_client_ip, fingerprint_from_request, LoginEvent, http, unhandled, Action, pure, throw, ◌>>=◌,
  ◌>>◌, query, change, commit, call,
}
use sentinel_auth.Auth.Events.{login_event, send_login_event}
use sentinel_auth.Auth.RateLimits.{rate_of, is_exceeded, count_request}
use sentinel_auth.Auth.Risk.{pre_token_risk}
use sentinel_auth.Auth.Sessions.{LoginResponse, update_user, is_unusable_ip, create_session}

pub record LoginRequest : Type 0 where
  pub username : String
  pub password : String

abbrev pub update_notification : Uuid → (MfaNotification → MfaNotification) → Db → Db
update_notification id f db = record db {
  mfa_notifications = update (λ n. n.id == id) f db.mfa_notifications;
}

abbrev pub update_transaction : Uuid → (MfaTransaction → MfaTransaction) → Db → Db
update_transaction id f db = record db {
  mfa_transactions = update (λ t. t.id == id) f db.mfa_transactions;
}

module _ (outside : Outside) where
  -- `normalize_ip`, whose ValueError is `none`.
  unfoldable pub normalize_ip : String → Option String
  normalize_ip ip = outside.ip_address ip

  -- Commit, tell Detection, and refuse: the end of every failing path of `login`.
  unfoldable pub refuse {ℓ} : {A : Type ℓ} → LoginEvent → ℕ → String → Action A
  refuse event status_code detail = do
    commit
    send_login_event outside event
    throw (http status_code detail)

module _ (outside : Outside) (request : LoginRequest) (req : HttpRequest) (request_id : Uuid)
    (now : Time) where
  -- An event about this request.
  unfoldable pub attempt_event : Option Uuid → String → Bool → Option String → Action LoginEvent
  attempt_event user_id outcome mfa_used agent =
      login_event outside request_id user_id request.username outcome mfa_used
        (some (get_client_ip req)) agent now (fingerprint_from_request outside req)

  -- 1. Rate limit check
  unfoldable pub check_rate_limit : Action (Unit {0})
  check_rate_limit = do
    rate ← query (rate_of (get_client_ip req) "login")
    if is_exceeded now rate
        then (attempt_event none "rate_limited" false none >>= λ event.
            refuse outside event 429 "Too many requests. Try again later.")
        else change (count_request (get_client_ip req) "login" now rate)

  -- A wrong password is counted on the account; an invalid hash is not caught here.
  unfoldable pub after_verify : User → Verification → Action User
  after_verify user verified = pure user
  after_verify user mismatch = do
    change (update_user user.id (λ u. record u { failed_login_count = u.failed_login_count + 1 }))
    event ← attempt_event (some user.id) "failure" false req.user_agent
    refuse outside event 401 "Invalid credentials"
  after_verify user invalid_hash = throw (unhandled "InvalidHash")

  abbrev pub authenticate_found : Option User → Action User
  authenticate_found none = do
    event ← attempt_event none "failure" false req.user_agent
    refuse outside event 401 "Invalid credentials"
  authenticate_found (some user) =
      after_verify user (outside.argon2_verify user.password_hash request.password)

  -- 2. Find user and verify password
  unfoldable pub authenticate : Action User
  authenticate =
      query (λ db. find (λ u. u.username == request.username) db.users) >>= authenticate_found

  -- 3. Check account status
  unfoldable pub check_status : User → Action (Unit {0})
  check_status user =
      if is_locked user.status
      then (attempt_event (some user.id) "locked" false req.user_agent >>= λ event.
          refuse outside event 423 "Account is locked")
      else pure tt

  -- 4. Risk gate: the answer is the value of `user.detection_mfa_once` after it.
  abbrev pub after_risk : User → Option String → Action Bool
  after_risk user none = pure user.detection_mfa_once
  after_risk user (some _) =
      change (update_user user.id (λ u. record u { detection_mfa_once = true })) >> pure true

  unfoldable pub risk_gate : User → Action Bool
  risk_gate user = do
    change (update_user user.id (λ u. record u { failed_login_count = 0 }))
    gated_level ← pre_token_risk outside
    after_risk user gated_level

  abbrev pub bound_ip_of : String → Option String
  bound_ip_of ip = if is_unusable_ip ip then none else normalize_ip outside ip

  -- `_send_otp_email`: the mail server is not asked when there is no recipient.
  unfoldable pub send_otp_email : String → Action (Option String)
  send_otp_email recipient = if recipient == "" then pure (some "ValueError") else call outside.smtp

  abbrev pub record_delivery : Time → Option String → MfaNotification → MfaNotification
  record_delivery at none n = record n { delivered_at = some at }
  record_delivery at (some reason) n = record n {
    failed_at = some at;
    failure_reason = some reason;
  }

  -- The pre-auth transaction, before it is linked to its notification.
  abbrev pub challenge_row : Uuid → User → MfaTransaction
  challenge_row id user = record {
    id = id;
    user_id = user.id;
    mfa_type = if user.admin_mfa_required then MfaType.persistent else MfaType.one_time;
    status = MfaStatus.pending;
    bound_ip = bound_ip_of (get_client_ip req);
    trusted_device_fingerprint = none;
    trusted_device_name = none;
    trusted_device_user_agent = none;
    consumed_at = none;
    notification_id = none;
    fail_count = 0;
    expires_at = now + 5 * minute;
  }

  abbrev pub add_notification : Uuid → Uuid → String → String → Db → Db
  add_notification id txn_id recipient otp_hash db = record db {
    mfa_notifications =
        db.mfa_notifications
        ++ record {
          id = id;
          mfa_transaction_id = txn_id;
          recipient = recipient;
          mfa_code_hash = otp_hash;
          delivered_at = none;
          failed_at = none;
          failure_reason = none;
          expires_at = now + 5 * minute;
          verified_at = none;
        }
          ∷ [];
  }

  abbrev pub add_challenge : Uuid → User → Db → Db
  add_challenge id user db = record db {
    mfa_transactions = db.mfa_transactions ++ challenge_row id user ∷ [];
  }

  -- The code by mail, and the answer.
  abbrev pub send_challenge : User → Uuid → Uuid → Action LoginResponse
  send_challenge user txn_id id = do
    failure ← send_otp_email (or_else user.email "")
    at ← call outside.clock
    change (update_notification id (record_delivery at failure))
    event ← attempt_event (some user.id) "mfa_required" true req.user_agent
    commit
    send_login_event outside event
    pure
        (record { access_token = ""; refresh_token = ""; mfa_required = true; session_id = txn_id })

  -- 5. MFA check: the challenge, in place of a token
  unfoldable pub issue_challenge : User → Action LoginResponse
  issue_challenge user = do
    txn_id ← call outside.uuid4
    change (add_challenge txn_id user)
    otp ← call outside.otp_digits
    otp_hash ← call (λ n. outside.argon2_hash n otp)
    id ← call outside.uuid4
    change (add_notification id txn_id (or_else user.email "") otp_hash)
    change (update_transaction txn_id (λ t. record t { notification_id = some id }))
    send_challenge user txn_id id

  -- No MFA: a session directly
  unfoldable pub open_session : User → Action LoginResponse
  open_session user = do
    (result, event) ←
        create_session outside user (get_client_ip req) req.user_agent
          (fingerprint_from_request outside req)
    commit
    send_login_event outside event
    pure result

  unfoldable pub login_at : Action LoginResponse
  login_at = do
    check_rate_limit
    user ← authenticate
    check_status user
    detection_mfa_once ← risk_gate user
    if user.admin_mfa_required || detection_mfa_once
        then issue_challenge user
        else open_session user

unfoldable pub login : Outside → LoginRequest → HttpRequest → Action LoginResponse
login outside request req = do
  request_id ← call outside.uuid4
  now ← call outside.clock
  login_at outside request req request_id now
