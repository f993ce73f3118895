-- ===== src/Iam.antt =====
-- app/iam.py: the account administration of the Security Administrator.
pub mod Admins
pub mod Keep
pub mod Operations
pub mod LockOut
use Prim.Native.String.{compare}
use Prim.Native.Nat.{Ordering}
use sentinel_auth.Prelude.{
  ℕ, ◌+◌, String, Bool, not, ◌&&◌, ◌||◌, Option, none, some, List, [], ◌∷◌, ◌++◌, map, leb,
  if◌then◌else◌, ◌==◌, nat_eq, string_eq, contains, count, find, where_, delete,
}
use sentinel_auth.Core.{
  Uuid, AccountStatus, is_active, is_locked, User, UserRole, Value, ActorType, Dict, AuditLog, Db,
  Outside, HttpRequest, Action, pure, ◌>>=◌, ◌>>◌, raise_if, fetch, query, change, commit, call,
}
use sentinel_auth.Auth.Events.{audit}
use sentinel_auth.Auth.Sessions.{update_user}
use sentinel_auth.Auth.Account.{revoke_open, open_count}
use sentinel_auth.Authz.{AuthContext}

abbrev pub admin_role : String
admin_role = "SECURITY_ADMIN"

abbrev pub special_roles : List String
special_roles = "SECURITY_ADMIN" ∷ "SOC_ANALYST" ∷ "SECURITY_MANAGER" ∷ []

-- Python's `sorted` on texts.
sorted_insert : String → List String → List String
sorted_insert s [] = s ∷ []
sorted_insert s (t ∷ ts) =
    let later = sorted_insert s ts in
    elim (compare s t) [ Ordering.gt ↦ t ∷ later | _ ↦ s ∷ t ∷ ts ]

unfoldable pub sorted : List String → List String
unfolding sorted_insert
sorted [] = []
sorted (s ∷ l) = sorted_insert s (sorted l)

-- `_audit`: the actor is the caller, the address and the agent are the request's.
abbrev pub iam_audit :
    AuthContext → HttpRequest → String → String → Uuid → Option Dict → Option Dict → AuditLog
iam_audit ctx request action resource resource_id before_state after_state = record {
  request_id = none;
  actor_id = some ctx.user.id;
  actor_type = ActorType.user;
  action = action;
  resource = resource;
  resource_id = some resource_id;
  before_state = before_state;
  after_state = after_state;
  change_reason = none;
  ip_address = request.client_host;
  user_agent = request.user_agent;
}

-- `_roles`
unfoldable pub role_ids : Uuid → Db → List String
role_ids id db = map (λ (a : UserRole). a.role_id) (where_ (λ a. a.user_id == id) db.user_roles)

-- `_revoke_sessions`
unfoldable pub revoke_sessions : Outside → Uuid → Action ℕ
revoke_sessions outside id = do
  now ← call outside.clock
  revoked ← query (open_count id)
  change (revoke_open now id)
  pure revoked

abbrev pub find_user : Uuid → Db → Option User
find_user id db = find (λ u. u.id == id) db.users

abbrev pub is_active_user : Uuid → User → Bool
is_active_user id u = u.id == id && is_active u.status

abbrev pub has_role : Uuid → String → UserRole → Bool
has_role id role a = a.user_id == id && a.role_id == role

-- The rows of the join of `users` and `user_roles` that hold an active Security Administrator.
unfoldable pub admins : List User → List UserRole → ℕ
admins users [] = 0
admins users (a ∷ assignments) =
    (if a.role_id == admin_role then count (is_active_user a.user_id) users else 0)
    + admins users assignments

-- `_guard_last_active_admin`
unfoldable pub guard_last_active_admin : User → String → Action (Unit {0})
guard_last_active_admin target role_id =
    if not (role_id == admin_role) || not (is_active target.status)
    then pure tt
    else (query (λ db. admins db.users db.user_roles) >>= λ n.
        raise_if (leb n 1) 409 "Cannot remove or lock the last active SECURITY_ADMIN")

-- `_user_item`: the row and its roles, read again.
abbrev pub user_item : Uuid → Action (Option User × List String)
user_item id = query (λ db. (find_user id db, sorted (role_ids id db)))

abbrev roles_state : String → List String → Dict
roles_state key roles = (key, Value.texts roles) ∷ []

module _ (outside : Outside) (request : HttpRequest) (ctx : AuthContext) where
  -- A new assignment; its `assigned_at` is the database's default.
  unfoldable pub grant_role : User → String → List String → Action (Unit {0})
  grant_role target role_id before = do
    change (λ db. record db {
      user_roles =
          db.user_roles
          ++ record { user_id = target.id; role_id = role_id; assigned_by = some ctx.user.id } ∷ [];
    })
    revoked ← revoke_sessions outside target.id
    audit (
        iam_audit ctx request "assign_role" "user_role" target.id
          (some (("roles", Value.texts (sorted before)) ∷ []))
          (some (
            ("roles", Value.texts (sorted (before ++ role_id ∷ [])))
            ∷ ("sessions_revoked", Value.number revoked)
            ∷ [])))
    commit

  unfoldable pub assign_role : Uuid → String → Action (Option User × List String)
  assign_role user_id role_id = do
    raise_if (not (contains ("USER" ∷ special_roles) role_id)) 422 "Unsupported role"
    target ← fetch (find_user user_id) 404 "User not found"
    configured ← query (λ db. contains db.roles role_id)
    raise_if (not configured) 422 "Role is not configured"
    before ← query (role_ids target.id)
    if contains before role_id then pure tt else grant_role target role_id before
    user_item target.id

  -- The assignment is deleted by its unique key, (user_id, role_id).
  unfoldable pub revoke_role : Uuid → String → Action (Option User × List String)
  revoke_role user_id role_id = do
    raise_if (role_id == "USER") 422 "The USER base role cannot be removed"
    raise_if (not (contains special_roles role_id)) 422 "Unsupported role"
    target ← fetch (find_user user_id) 404 "User not found"
    fetch (λ db. find (has_role target.id role_id) db.user_roles) 404 "Role assignment not found"
    guard_last_active_admin target role_id
    before ← query (role_ids target.id)
    change (λ db. record db { user_roles = delete (has_role target.id role_id) db.user_roles })
    revoked ← revoke_sessions outside target.id
    audit (
        iam_audit ctx request "revoke_role" "user_role" target.id
          (some (("roles", Value.texts (sorted before)) ∷ []))
          (some (
            ("roles", Value.texts (sorted (where_ (λ r. not (r == role_id)) before)))
            ∷ ("sessions_revoked", Value.number revoked)
            ∷ [])))
    commit
    user_item target.id

  abbrev lock_state : User → Dict
  lock_state target =
      ("status", Value.status target.status)
      ∷ ("locked_at", elim target.locked_at [ none ↦ Value.null | some at ↦ Value.time at ])
      ∷ []

  unfoldable pub lock_target : User → Action (Unit {0})
  lock_target target = do
    guard_last_active_admin target admin_role
    now ← call outside.clock
    change (
        update_user target.id
          (λ u. record u { status = AccountStatus.locked; locked_at = some now }))
    revoked ← revoke_sessions outside target.id
    audit (
        iam_audit ctx request "lock_user" "user" target.id (some (lock_state target)) (
          some (
            ("status", Value.status AccountStatus.locked)
            ∷ ("sessions_revoked", Value.number revoked)
            ∷ [])))
    commit

  unfoldable pub lock_user : Uuid → Action (Option User × List String)
  lock_user user_id = do
    target ← fetch (find_user user_id) 404 "User not found"
    if is_locked target.status then pure tt else lock_target target
    user_item target.id

  unfoldable pub unlock_user : Uuid → Action (Option User × List String)
  unlock_user user_id = do
    target ← fetch (find_user user_id) 404 "User not found"
    change
        (update_user target.id (λ u. record u { status = AccountStatus.active; locked_at = none }))
    audit (
        iam_audit ctx request "unlock_user" "user" target.id (some (lock_state target))
          (some (("status", Value.status AccountStatus.active) ∷ [])))
    commit
    user_item target.id

  unfoldable pub toggle_mfa : Uuid → Bool → Action (Option User × List String)
  toggle_mfa user_id mfa_required = do
    target ← fetch (find_user user_id) 404 "User not found"
    change (update_user target.id (λ u. record u { admin_mfa_required = mfa_required }))
    revoked ← revoke_sessions outside target.id
    audit (
        iam_audit ctx request "toggle_mfa" "user" target.id
          (some (("admin_mfa_required", Value.boolean target.admin_mfa_required) ∷ []))
          (some (
            ("admin_mfa_required", Value.boolean mfa_required)
            ∷ ("sessions_revoked", Value.number revoked)
            ∷ [])))
    commit
    user_item target.id
