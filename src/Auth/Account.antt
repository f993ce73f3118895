-- ===== src/Auth/Account.antt =====
-- app/auth.py: refresh_token, logout, logout_all, list_sessions and revoke_session.
pub mod Revocation
pub mod Rotation
use sentinel_auth.Prelude.{
  ℕ, ◌+◌, String, Bool, true, false, not, ◌&&◌, ◌||◌, Option, none, some, List, [], ◌∷◌, ◌++◌, map,
  leb, ltb, if◌then◌else◌, ◌==◌, nat_eq, string_eq, is_some, is_value, length, count, find, where_,
  update,
}
use sentinel_auth.Core.{
  Time, Uuid, AccountStatus, User, UserRole, Session, Value, Db, Outside, HttpRequest, http, Action,
  pure, throw, ◌>>=◌, ◌>>◌, raise_if, fetch, query, change, commit, call,
}
use sentinel_auth.Auth.Events.{audit, user_audit}
use sentinel_auth.Auth.Sessions.{hash_token}
use sentinel_auth.Authz.{AuthContext, is_live}

abbrev pub update_session : Uuid → (Session → Session) → Db → Db
update_session id f db = record db { sessions = update (λ s. s.id == id) f db.sessions }

-- `Session.user_id == id, Session.revoked_at.is_(None)`
abbrev pub is_open_of : Uuid → Session → Bool
is_open_of id s = s.user_id == id && not (is_some s.revoked_at)

-- `.update({Session.revoked_at: now})` over the open sessions of a user, and its row count.
unfoldable pub revoke_open : Time → Uuid → Db → Db
revoke_open now id db = record db {
  sessions = update (is_open_of id) (λ s. record s { revoked_at = some now }) db.sessions;
}

unfoldable pub open_count : Uuid → Db → ℕ
open_count id db = count (is_open_of id) db.sessions

pub record RefreshResponse : Type 0 where
  pub access_token : String
  pub refresh_token : String

abbrev pub refreshable : String → Db → Option Session
refreshable hash db =
    find (λ s. s.refresh_token_hash == hash && not (is_some s.revoked_at)) db.sessions

-- The new tokens are written before the session's last activity is stamped again.
abbrev pub rotate : String → Uuid → Time → String → Session → Session
rotate access_hash jti now refresh_hash s = record s {
  access_token_hash = access_hash;
  token_jti = jti;
  last_activity_at = some now;
  refresh_token_hash = refresh_hash;
}

module _ (outside : Outside) where
  unfoldable pub refresh_token : String → Action RefreshResponse
  refresh_token token = do
    session ← fetch (refreshable (hash_token outside token)) 401 "Invalid refresh token"
    now ← call outside.clock
    raise_if (leb session.expires_at now) 401 "Session expired"
    new_access_token ← call outside.token_urlsafe
    new_jti ← call outside.uuid4
    at ← call outside.clock
    new_refresh_token ← call outside.token_urlsafe
    change (
        update_session session.id (
          rotate (hash_token outside new_access_token) new_jti at
            (hash_token outside new_refresh_token)))
    audit (
        user_audit "refresh_session" "session" session.id session.user_id
          (("expires_at", Value.time session.expires_at) ∷ []))
    commit
    pure (record { access_token = new_access_token; refresh_token = new_refresh_token })

  unfoldable pub logout : AuthContext → Action (Unit {0})
  logout ctx = do
    now ← call outside.clock
    change (update_session ctx.session.id (λ s. record s { revoked_at = some now }))
    audit (
        user_audit "logout" "session" ctx.session.id ctx.user.id
          (("revoked", Value.boolean true) ∷ []))
    commit

  unfoldable pub logout_all : AuthContext → Action (Unit {0})
  logout_all ctx = do
    now ← call outside.clock
    revoked ← query (open_count ctx.user.id)
    change (revoke_open now ctx.user.id)
    audit (
        user_audit "logout_all" "user" ctx.user.id ctx.user.id
          (("sessions_revoked", Value.number revoked) ∷ []))
    commit

  -- The rows of the answer; each is marked as current or not.
  unfoldable pub list_sessions : AuthContext → Action (List (Session × Bool))
  list_sessions ctx = do
    now ← call outside.clock
    rows ← query (λ db. where_ (λ s. s.user_id == ctx.user.id && is_live now s) db.sessions)
    pure (map (λ s. (s, s.id == ctx.session.id)) rows)

  unfoldable pub revoke_session : Uuid → AuthContext → Action (Unit {0})
  revoke_session session_id ctx = do
    target ← fetch (λ db. find (λ s. s.id == session_id) db.sessions) 404 "Session not found"
    raise_if (not (target.user_id == ctx.user.id)) 403 "Cannot revoke session of another user"
    now ← call outside.clock
    change (update_session target.id (λ s. record s { revoked_at = some now }))
    audit (
        user_audit "revoke_session" "session" target.id ctx.user.id
          (("revoked", Value.boolean true) ∷ []))
    commit
