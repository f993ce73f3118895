-- ===== src/Auth/Sessions.antt =====
-- app/auth.py, resolve_ip_address and _create_session: a session row, its tokens and its event.
use sentinel_auth.Prelude.{
  ◌+◌, ◌*◌, String, Bool, false, ◌||◌, Option, none, some, [], ◌∷◌, ◌++◌, if◌then◌else◌, ◌==◌,
  nat_eq, string_eq, find, update,
}
use sentinel_auth.Core.{
  Time, Uuid, minute, User, IpAddress, Session, Value, AuditLog, Db, Outside, LoginEvent, Action,
  pure, ◌>>=◌, ◌>>◌, query, change, call,
}
use sentinel_auth.Auth.Events.{audit, user_audit, login_event}

pub record LoginResponse : Type 0 where
  pub access_token : String
  pub refresh_token : String
  pub mfa_required : Bool
  pub session_id : Uuid

-- app/authz.py
unfoldable pub hash_token : Outside → String → String
hash_token outside token = outside.sha256_hexdigest token

abbrev pub update_user : Uuid → (User → User) → Db → Db
update_user id f db = record db { users = update (λ u. u.id == id) f db.users }

abbrev pub is_unusable_ip : String → Bool
is_unusable_ip ip = ip == "" || ip == "unknown"

module _ (outside : Outside) where
  abbrev resolve_known : String → Option IpAddress → Action (Option Uuid)
  resolve_known ip (some row) = do
    now ← call outside.clock
    change (λ db. record db {
      ip_addresses =
          update (λ r. r.id == row.id) (λ r. record r { last_seen_at = now }) db.ip_addresses;
    })
    pure (some row.id)
  resolve_known ip none = do
    id ← call outside.uuid4
    now ← call outside.clock
    change (λ db. record db {
      ip_addresses =
          db.ip_addresses ++ record { id = id; ip_address = ip; last_seen_at = now } ∷ [];
    })
    pure (some id)

  unfoldable pub resolve_ip_address : String → Action (Option Uuid)
  resolve_ip_address ip =
      if is_unusable_ip ip
      then pure none
      else (query (λ db. find (λ r. r.ip_address == ip) db.ip_addresses) >>= resolve_known ip)

  -- The audit row of a new session.
  abbrev pub session_audit : Uuid → User → Session → String → Option String → AuditLog
  session_audit request_id user session ip agent =
      record (user_audit "login_success" "session" session.id user.id
        (("user_id", Value.uuid user.id) ∷ ("expires_at", Value.time session.expires_at) ∷ [])) {
          request_id = some request_id;
          ip_address = some ip;
          user_agent = agent;
        }

  -- The row of a new session, which lasts an hour.
  abbrev pub new_session :
      Uuid → String → String → Uuid → Uuid → Time → Option Uuid → Option String → Uuid → Session
  new_session user_id access_hash refresh_hash family jti now ip_address_id agent id = record {
    id = id;
    user_id = user_id;
    access_token_hash = access_hash;
    refresh_token_hash = refresh_hash;
    refresh_token_family = family;
    token_jti = jti;
    expires_at = now + 60 * minute;
    last_activity_at = some now;
    revoked_at = none;
    ip_address_id = ip_address_id;
    user_agent = agent;
  }

  -- Does not commit: the caller owns the transaction.
  unfoldable pub create_session :
      User → String → Option String → String → Action (LoginResponse × LoginEvent)
  create_session user client_ip user_agent fingerprint = do
    now ← call outside.clock
    access_token ← call outside.token_urlsafe
    refresh_token ← call outside.token_urlsafe
    jti ← call outside.uuid4
    family ← call outside.uuid4
    ip_address_id ← resolve_ip_address client_ip
    id ← call outside.uuid4
    let session =
        new_session user.id (hash_token outside access_token) (hash_token outside refresh_token)
          family jti now ip_address_id user_agent id
    change (λ db. record db { sessions = db.sessions ++ session ∷ [] })
    change (update_user user.id (λ u. record u { last_login_at = some now }))
    request_id ← call outside.uuid4
    event ←
        login_event outside request_id (some user.id) user.username "success" false (some client_ip)
          user_agent now fingerprint
    audit (session_audit request_id user session client_ip user_agent)
    pure (
      record {
        access_token = access_token;
        refresh_token = refresh_token;
        mfa_required = false;
        session_id = id;
      },
      event,
    )
