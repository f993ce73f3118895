-- ===== src/Authz.antt =====
-- app/authz.py: authentication of a bearer token, and the role guard.
pub mod Safety
use sentinel_auth.Prelude.{
  ℕ, String, Bool, true, false, not, ◌&&◌, ◌||◌, Option, none, some, List, [], ◌∷◌, map, ltb,
  if◌then◌else◌, ◌==◌, nat_eq, string_eq, is_some, contains, find, where_,
}
use sentinel_auth.Core.{
  Time, Uuid, is_active, User, UserRole, Session, Db, Outside, HttpRequest, http, Action, pure,
  throw, ◌>>=◌, ◌>>◌, raise_if, fetch, query, call,
}
use sentinel_auth.Auth.Sessions.{hash_token}

pub record AuthContext : Type 0 where
  pub session : Session
  pub user : User
  pub roles : List String

-- A session that a token opens: not revoked, and not expired.
abbrev pub is_live : Time → Session → Bool
is_live now s = not (is_some s.revoked_at) && ltb now s.expires_at

abbrev pub session_of : String → Time → Db → Option Session
session_of token_hash now db =
    find (λ s. s.access_token_hash == token_hash && is_live now s) db.sessions

-- The join of `roles` and `user_roles`.
unfoldable pub roles_of : Uuid → Db → List String
roles_of id db =
    where_ (contains db.roles)
      (map (λ (a : UserRole). a.role_id) (where_ (λ a. a.user_id == id) db.user_roles))

module _ (outside : Outside) where
  -- Python's `lower()` on the scheme.
  unfoldable pub bearer_token : Option (List String) → Action String
  bearer_token none = throw (http 401 "Missing Authorization header")
  bearer_token (some (scheme ∷ token ∷ [])) =
      if outside.lower scheme == "bearer"
      then (raise_if (token == "") 401 "Token is empty" >> pure token)
      else throw (http 401 "Invalid Authorization header format")
  bearer_token (some _) = throw (http 401 "Invalid Authorization header format")

  unfoldable pub context_of_token : String → Action AuthContext
  context_of_token token = do
    now ← call outside.clock
    session ← fetch (session_of (hash_token outside token) now) 401 "Invalid or expired session"
    user ← fetch (λ db. find (λ u. u.id == session.user_id) db.users) 401 "User not found"
    raise_if (not (is_active user.status)) 401 "Account is not active"
    roles ← query (roles_of user.id)
    pure (record { session = session; user = user; roles = roles })

  unfoldable pub get_current_auth_context : HttpRequest → Action AuthContext
  get_current_auth_context req = bearer_token req.authorization >>= context_of_token

-- `ctx.roles & frozenset(allowed_roles)` is not empty.
abbrev pub intersects : List String → List String → Bool
intersects [] roles = false
intersects (allowed ∷ rest) roles = if contains roles allowed then true else intersects rest roles

unfoldable pub require_roles : List String → AuthContext → Action AuthContext
require_roles allowed ctx =
    if intersects allowed ctx.roles then pure ctx else throw (http 403 "Insufficient permissions")

-- `Depends(require_roles(...))`: authentication, then the guard.
unfoldable pub guarded : Outside → List String → HttpRequest → Action AuthContext
guarded outside allowed req = get_current_auth_context outside req >>= require_roles allowed
