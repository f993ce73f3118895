-- ===== src/Auth/Mfa.antt =====
-- app/auth.py, mfa_verify: one-time consumption of a challenge. Requests on one transaction are
-- serialised by its row lock, so the model runs them one after the other.
pub mod Steps
pub mod Once
pub mod Budget
pub mod Guesses
use sentinel_auth.Prelude.{
  ℕ, ◌+◌, String, Bool, true, false, not, ◌&&◌, ◌||◌, Option, none, some, List, [], ◌∷◌, leb,
  if◌then◌else◌, ◌==◌, nat_eq, string_eq, is_some, is_value, find, update,
}
use sentinel_auth.Core.{
  Time, Uuid, User, MfaType, MfaStatus, MfaTransaction, MfaNotification, Db, Outside, Verification,
  verified, mismatch, invalid_hash, HttpRequest, get_client_ip, fingerprint_from_request, http,
  unhandled, Action, pure, throw, ◌>>=◌, ◌>>◌, raise_if, fetch, query, change, commit, call,
}
use sentinel_auth.Auth.Events.{login_event, send_login_event}
use sentinel_auth.Auth.Sessions.{LoginResponse, update_user, create_session}
use sentinel_auth.Auth.Login.{normalize_ip, update_notification, update_transaction}

pub record MfaVerifyRequest : Type 0 where
  pub session_id : Uuid
  pub mfa_code : String

abbrev pub find_user : Uuid → Db → Option User
find_user id db = find (λ u. u.id == id) db.users

abbrev pub find_notification : Option Uuid → Db → Option MfaNotification
find_notification id db = find (λ n. is_value id n.id) db.mfa_notifications

abbrev pub max_failures : ℕ
max_failures = 3

-- A wrong code is counted, and the third one fails the transaction.
abbrev pub count_failure : MfaTransaction → MfaTransaction
count_failure t =
    let fail_count = t.fail_count + 1 in
    record t {
      fail_count = fail_count;
      status = if leb max_failures fail_count then MfaStatus.failed else t.status;
    }

-- The transaction's type and status after the lock.
unfoldable pub check_state : MfaType → MfaStatus → Action (Unit {0})
check_state MfaType.trusted_device _ =
    throw (http 409 "Trusted-device approvals must be completed by the approving device")
check_state _ MfaStatus.pending = pure tt
check_state _ MfaStatus.completed = throw (http 409 "MFA transaction already completed")
check_state _ MfaStatus.failed = throw (http 409 "MFA transaction failed")
check_state _ MfaStatus.expired = throw (http 401 "MFA transaction expired")

-- Clear the one-time MFA flag if applicable.
abbrev pub clear_one_time : MfaType → Uuid → Db → Db
clear_one_time MfaType.one_time id db =
    update_user id (λ u. record u { detection_mfa_once = false }) db
clear_one_time _ id db = db

module _ (outside : Outside) where
  -- Two canonical addresses are compared; `normalize_ip` raises ValueError on any other text.
  abbrev pub compare_ips : Option String → Option String → Action (Unit {0})
  compare_ips (some bound) (some client) =
      raise_if (not (bound == client)) 403 "MFA verification is bound to the original IP address"
  compare_ips _ _ = throw (unhandled "ValueError")

  unfoldable pub check_binding : Option String → String → Action (Unit {0})
  check_binding none client_ip = pure tt
  check_binding (some bound_ip) client_ip =
      if bound_ip == ""
      then pure tt
      else (raise_if (client_ip == "unknown") 403
            "MFA verification is bound to the original IP address"
          >> compare_ips (normalize_ip outside bound_ip) (normalize_ip outside client_ip))

module _ (outside : Outside) (req : HttpRequest) (now : Time) where
  unfoldable pub reject_code : MfaTransaction → User → Action (Unit {0})
  reject_code txn user = do
    change (update_transaction txn.id count_failure)
    request_id ← call outside.uuid4
    event ←
        login_event outside request_id (some user.id) user.username "mfa_failed" true
          (some (get_client_ip req)) req.user_agent now (fingerprint_from_request outside req)
    commit
    send_login_event outside event
    throw (http 401 "Invalid MFA code")

  abbrev pub check_code : MfaTransaction → User → Verification → Action (Unit {0})
  check_code txn user verified = pure tt
  check_code txn user _ = reject_code txn user

  -- Steps 6 and 7: consume the challenge and open the session. The answer is the one of the new
  -- session, of which MfaVerifyResponse leaves `mfa_required` out.
  unfoldable pub consume : MfaTransaction → MfaNotification → User → Action LoginResponse
  consume txn notification user = do
    change (update_transaction txn.id (λ t. record t { status = MfaStatus.completed }))
    change (update_notification notification.id (λ n. record n { verified_at = some now }))
    change (clear_one_time txn.mfa_type user.id)
    (result, _) ←
        create_session outside user (get_client_ip req) req.user_agent
          (fingerprint_from_request outside req)
    request_id ← call outside.uuid4
    event ←
        login_event outside request_id (some user.id) user.username "mfa_success" true
          (some (get_client_ip req)) req.user_agent now (fingerprint_from_request outside req)
    commit
    send_login_event outside event
    pure result

  -- An expired challenge is marked, and the mark is committed.
  unfoldable pub check_expiry : MfaTransaction → Action (Unit {0})
  check_expiry txn =
      if leb txn.expires_at now
      then (change (update_transaction txn.id (λ t. record t { status = MfaStatus.expired }))
          >> commit
          >> throw (http 401 "MFA code has expired"))
      else pure tt

  unfoldable pub verify_pending : MfaVerifyRequest → MfaTransaction → Action LoginResponse
  verify_pending request txn = do
    check_state txn.mfa_type txn.status
    check_expiry txn
    user ← fetch (find_user txn.user_id) 404 "User not found"
    notification ← fetch (find_notification txn.notification_id) 404 "MFA notification not found"
    raise_if (is_some notification.verified_at) 409 "MFA code already used"
    check_code txn user (outside.argon2_verify notification.mfa_code_hash request.mfa_code)
    check_binding outside txn.bound_ip (get_client_ip req)
    consume txn notification user

abbrev pub find_transaction : Uuid → Db → Option MfaTransaction
find_transaction id db = find (λ t. t.id == id) db.mfa_transactions

unfoldable pub mfa_verify : Outside → MfaVerifyRequest → HttpRequest → Action LoginResponse
mfa_verify outside request req = do
  now ← call outside.clock
  txn ← fetch (find_transaction request.session_id) 404 "Transaction not found"
  verify_pending outside req now request txn
