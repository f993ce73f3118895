-- ===== src/Tests/Sample.antt =====
-- An outside world that can be run, and a database with a user, an analyst and two administrators.
use sentinel_auth.Prelude.{
  ◌+◌, String, true, false, ◌==◌, string_eq, if◌then◌else◌, ◌≡◌, ap, none, some, [], ◌∷◌,
}
use sentinel_auth.Core.{
  Time, minute, Uuid, AccountStatus, User, UserRole, Session, MfaType, MfaStatus, MfaTransaction,
  MfaNotification, Db, Outside, verified, mismatch, Reply, HttpRequest, Result, ok, World,
}

abbrev pub start : Time
start = 1_000_000_000_000

-- The clock stands still, a hash is its argument, and the risk is low.
abbrev pub outside : Outside
outside = record {
  clock = λ n. start;
  uuid4 = λ n. 100 + n;
  token_urlsafe = λ n. "drawn";
  otp_digits = λ n. "123456";
  argon2_hash = λ n s. s;
  argon2_verify = λ hash s. if hash == s then verified else mismatch;
  sha256_hexdigest = λ s. s;
  ip_address = λ s. some s;
  is_inet = λ s. s == "10.0.0.1";
  lower = λ s. s;
  smtp = λ n. none;
  detection = λ n.
      Reply.object 200 (record { degraded = false; require_mfa = false; risk_level = some "low" });
  detection_url_set = true;
  run_pre_token_check = true;
  run_login_event_delivery = true;
  internal_secret = some "0123456789abcdef0123456789abcdef";
  uuid_text = λ n. "uuid";
  strip = λ s. s;
  is_ascii = λ s. true;
}

abbrev user_row : Uuid → String → User
user_row id name = record {
  id = id;
  username = name;
  password_hash = "secret";
  email = some "user@example.org";
  status = AccountStatus.active;
  admin_mfa_required = false;
  detection_mfa_once = false;
  last_login_at = none;
  failed_login_count = 1;
  locked_at = none;
}

abbrev pub alice : User
alice = user_row 1 "alice"

abbrev pub bob : User
bob = record (user_row 2 "bob") { admin_mfa_required = true }

abbrev pub carol : User
carol = user_row 3 "carol"

abbrev pub grant : Uuid → String → UserRole
grant id role = record { user_id = id; role_id = role; assigned_by = none }

abbrev pub session_row : Session
session_row = record {
  id = 10;
  user_id = 1;
  access_token_hash = "access";
  refresh_token_hash = "refresh";
  refresh_token_family = 11;
  token_jti = 12;
  expires_at = start + minute;
  last_activity_at = some start;
  revoked_at = none;
  ip_address_id = none;
  user_agent = none;
}

abbrev pub challenge : MfaTransaction
challenge = record {
  id = 20;
  user_id = 2;
  mfa_type = MfaType.persistent;
  status = MfaStatus.pending;
  bound_ip = some "10.0.0.1";
  trusted_device_fingerprint = none;
  trusted_device_name = none;
  trusted_device_user_agent = none;
  consumed_at = none;
  notification_id = some 21;
  fail_count = 2;
  expires_at = start + minute;
}

abbrev pub notification : MfaNotification
notification = record {
  id = 21;
  mfa_transaction_id = 20;
  recipient = "user@example.org";
  mfa_code_hash = "123456";
  delivered_at = some start;
  failed_at = none;
  failure_reason = none;
  expires_at = start + minute;
  verified_at = none;
}

abbrev pub db : Db
db = record {
  users = alice ∷ bob ∷ carol ∷ [];
  roles = "USER" ∷ "SOC_ANALYST" ∷ "SECURITY_MANAGER" ∷ "SECURITY_ADMIN" ∷ [];
  user_roles = grant 2 "SECURITY_ADMIN" ∷ grant 3 "SECURITY_ADMIN" ∷ grant 1 "SOC_ANALYST" ∷ [];
  ip_addresses = [];
  sessions = session_row ∷ [];
  mfa_transactions = challenge ∷ [];
  mfa_notifications = notification ∷ [];
  rate_limits = [];
  audit_logs = [];
  trusted_devices = [];
}

abbrev pub world : World
world = record { committed = db; working = db; calls = 0; posted = [] }

abbrev pub browser : HttpRequest
browser = record {
  client_host = some "10.0.0.1";
  authorization = some ("bearer" ∷ "access" ∷ []);
  user_agent = some "agent";
  accept_language = none;
  accept_encoding = none;
}

-- A run, when its answer is known.
pub returns {ℓ} : {A : Type ℓ} (p : Result A × World) {a : A} → p.0 ≡ ok a → p ≡ (ok a, p.1)
returns p e = ap (λ r. (r, p.1)) e
