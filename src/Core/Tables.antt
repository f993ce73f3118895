-- ===== src/Core/Tables.antt =====
-- The rows of the Core tables (app/models.py). Columns that no modelled code reads or writes are
-- left out. A timestamp is a number of microseconds, a UUID a number. A column with a CHECK list is
-- an enumeration.
use sentinel_auth.Prelude.{ℕ, String, Bool, true, false, Option, List}

abbrev pub Time : Type 0
Time = ℕ

abbrev pub Uuid : Type 0
Uuid = ℕ

abbrev pub second : Time
second = 1_000_000

abbrev pub minute : Time
minute = 60_000_000

abbrev pub day : Time
day = 86_400_000_000

pub data AccountStatus : Type 0 where
  active suspended locked : AccountStatus

abbrev pub is_locked : AccountStatus → Bool
is_locked AccountStatus.locked = true
is_locked _ = false

abbrev pub is_active : AccountStatus → Bool
is_active AccountStatus.active = true
is_active _ = false

pub record User : Type 0 where
  pub id : Uuid
  pub username : String
  pub password_hash : String
  pub email : Option String
  pub status : AccountStatus
  pub admin_mfa_required : Bool
  pub detection_mfa_once : Bool
  pub last_login_at : Option Time
  pub failed_login_count : ℕ
  pub locked_at : Option Time

pub record UserRole : Type 0 where
  pub user_id : Uuid
  pub role_id : String
  pub assigned_by : Option Uuid

pub record IpAddress : Type 0 where
  pub id : Uuid
  pub ip_address : String
  pub last_seen_at : Time

pub record Session : Type 0 where
  pub id : Uuid
  pub user_id : Uuid
  pub access_token_hash : String
  pub refresh_token_hash : String
  pub refresh_token_family : Uuid
  pub token_jti : Uuid
  pub expires_at : Time
  pub last_activity_at : Option Time
  pub revoked_at : Option Time
  pub ip_address_id : Option Uuid
  pub user_agent : Option String

pub data MfaType : Type 0 where
  one_time persistent trusted_device : MfaType

pub data MfaStatus : Type 0 where
  pending completed expired failed : MfaStatus

pub record MfaTransaction : Type 0 where
  pub id : Uuid
  pub user_id : Uuid
  pub mfa_type : MfaType
  pub status : MfaStatus
  pub bound_ip : Option String
  pub trusted_device_fingerprint : Option String
  pub trusted_device_name : Option String
  pub trusted_device_user_agent : Option String
  pub consumed_at : Option Time
  pub notification_id : Option Uuid
  pub fail_count : ℕ
  pub expires_at : Time

pub record MfaNotification : Type 0 where
  pub id : Uuid
  pub mfa_transaction_id : Uuid
  pub recipient : String
  pub mfa_code_hash : String
  pub delivered_at : Option Time
  pub failed_at : Option Time
  pub failure_reason : Option String
  pub expires_at : Time
  pub verified_at : Option Time

pub record RateLimit : Type 0 where
  pub ip_address : String
  pub action : String
  pub count : ℕ
  pub max_count : ℕ
  pub window_start : Time

pub data ActorType : Type 0 where
  user system : ActorType

-- The values of the JSON states in an audit record.
pub data Value : Type 0 where
  null : Value
  boolean : Bool → Value
  number : ℕ → Value
  text : String → Value
  texts : List String → Value
  status : AccountStatus → Value
  time : Time → Value
  uuid : Uuid → Value

abbrev pub Dict : Type 0
Dict = List (String × Value)

pub record AuditLog : Type 0 where
  pub request_id : Option Uuid
  pub actor_id : Option Uuid
  pub actor_type : ActorType
  pub action : String
  pub resource : String
  pub resource_id : Option Uuid
  pub before_state : Option Dict
  pub after_state : Option Dict
  pub change_reason : Option String
  pub ip_address : Option String
  pub user_agent : Option String

pub record TrustedDevice : Type 0 where
  pub id : Uuid
  pub user_id : Uuid
  pub device_fingerprint : String
  pub device_name : Option String
  pub last_ip : Option String
  pub last_user_agent : Option String
  pub last_used_at : Time
  pub expires_at : Option Time

-- The Core database. `roles` holds the identifiers of the configured roles. Rows are in the order
-- of insertion.
pub record Db : Type 0 where
  pub users : List User
  pub roles : List String
  pub user_roles : List UserRole
  pub ip_addresses : List IpAddress
  pub sessions : List Session
  pub mfa_transactions : List MfaTransaction
  pub mfa_notifications : List MfaNotification
  pub rate_limits : List RateLimit
  pub audit_logs : List AuditLog
  pub trusted_devices : List TrustedDevice
