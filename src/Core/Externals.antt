-- ===== src/Core/Externals.antt =====
-- What Core calls and does not implement: the clock, random values, Argon2, SHA-256, the parsers of
-- IP addresses, the mail server and the HTTP service of Detection. Calls that may answer otherwise
-- each time take the number of the call.
use sentinel_auth.Prelude.{ℕ, String, Bool, Option}
use sentinel_auth.Core.Tables.{Time, Uuid}

-- `PasswordHasher.verify` returns, or raises VerifyMismatchError or InvalidHash.
pub data Verification : Type 0 where
  verified mismatch invalid_hash : Verification

-- The body of a pre-token verdict as Core reads it: absent keys are `false` and `none`.
pub record Verdict : Type 0 where
  pub degraded : Bool
  pub require_mfa : Bool
  pub risk_level : Option String

-- The answer to an HTTP request: no response, a response whose body is not JSON or not an object,
-- or one with a verdict.
pub data Reply : Type 0 where
  http_error : Reply
  not_json : (status_code : ℕ) → Reply
  not_object : (status_code : ℕ) → Reply
  object : (status_code : ℕ) → Verdict → Reply

pub record Outside : Type 0 where
  pub clock : ℕ → Time
  pub uuid4 : ℕ → Uuid
  pub token_urlsafe : ℕ → String
  pub otp_digits : ℕ → String
  pub argon2_hash : ℕ → String → String
  pub argon2_verify : String → String → Verification
  pub sha256_hexdigest : String → String
  pub ip_address : String → Option String
  -- Whether PostgreSQL reads a text as a value of type INET.
  pub is_inet : String → Bool
  pub lower : String → String
  -- `none` when the mail was handed over, else the name of the exception's class.
  pub smtp : ℕ → Option String
  pub detection : ℕ → Reply
  -- The configuration: DETECTION_URL is not empty, and RUN_PRE_TOKEN_CHECK and
  -- RUN_LOGIN_EVENT_DELIVERY are "1".
  pub detection_url_set : Bool
  pub run_pre_token_check : Bool
  pub run_login_event_delivery : Bool
  -- Python's `str` of a UUID.
  pub uuid_text : Uuid → String
  -- os.environ["INTERNAL_SECRET"], `none` when it is not set; and Python's `strip` and `isascii`.
  pub internal_secret : Option String
  pub strip : String → String
  pub is_ascii : String → Bool
