-- ===== src/Auth/Register.antt =====
-- app/auth.py: register. The request is as the schema lets it through, with the
-- address in lower case and a name of ASCII characters.
pub mod Known
use Prim.Native.String.{count as chars}
use mathlib.Core.Option.{map as map_option}
use sentinel_auth.Prelude.{
  ℕ, String, Bool, true, false, not, ◌||◌, Option, none, some, List, [], ◌∷◌, ◌++◌, ltb, is_some,
  ◌==◌, nat_eq, string_eq, is_value, find, given, all_chars, has_char, is_alphanumeric,
}
use sentinel_auth.Core.{
  Uuid, AccountStatus, User, UserRole, Value, Dict, AuditLog, Db, Outside, Action, pure, ◌>>=◌,
  ◌>>◌, raise_if, query, change, commit, call,
}
use sentinel_auth.Auth.Events.{audit, user_audit}

pub record UserRegisterRequest : Type 0 where
  pub username : String
  pub email : Option String
  pub password : String

pub record UserRegisterResponse : Type 0 where
  pub id : Uuid
  pub username : String
  pub email : Option String

abbrev is_name_char : ℕ → Bool
is_name_char c = is_alphanumeric c || c == 95

abbrev pub is_invalid_name : String → Bool
is_invalid_name username = not (all_chars is_name_char username)

abbrev pub is_outside_length : String → Bool
is_outside_length username = ltb (chars username) 3 || ltb 50 (chars username)

-- Without an @, or with a parenthesis.
abbrev pub is_invalid_email : Option String → Bool
is_invalid_email none = false
is_invalid_email (some e) = not (has_char 64 e) || has_char 40 e || has_char 41 e

abbrev pub named : String → User → Bool
named username u = u.username == username

abbrev is_email : Option String → String → Bool
is_email none e = false
is_email (some s) e = s == e

abbrev pub find_email : Option String → Db → Option User
find_email none db = none
find_email (some e) db = find (λ u. is_email u.email e) db.users

module _ (outside : Outside) (request : UserRegisterRequest) where
  abbrev pub email : Option String
  email = given request.email

  -- The four checks of the request, and that its name and its address are free.
  unfoldable pub check_request : Action (Unit {0})
  check_request = do
    raise_if (is_outside_length request.username) 422 "Username must be 3-50 characters"
    raise_if (is_invalid_name request.username) 422
        ("Username must be alphanumeric + underscore only")
    raise_if (ltb (chars request.password) 8) 422 "Password must be at least 8 characters"
    raise_if (is_invalid_email email) 422 "Invalid email format"

  unfoldable pub check_free : Action (Unit {0})
  check_free = do
    existing ← query (λ db. find (named request.username) db.users)
    raise_if (is_some existing) 409 "Username already exists"
    existing_email ← query (find_email email)
    raise_if (is_some existing_email) 409 "Email already exists"

  abbrev pub new_user : Uuid → String → User
  new_user id password_hash = record {
    id = id;
    username = request.username;
    password_hash = password_hash;
    email = map_option outside.lower email;
    status = AccountStatus.active;
    admin_mfa_required = false;
    detection_mfa_once = false;
    last_login_at = none;
    failed_login_count = 0;
    locked_at = none;
  }

  abbrev pub user_role : Uuid → UserRole
  user_role id = record { user_id = id; role_id = "USER"; assigned_by = none }

  abbrev optional_text : Option String → Value
  optional_text none = Value.null
  optional_text (some s) = Value.text s

  abbrev pub register_audit : User → AuditLog
  register_audit user = user_audit "register" "user" user.id user.id (
      ("username", Value.text user.username)
      ∷ ("email", optional_text user.email)
      ∷ ("status", Value.status user.status)
      ∷ ("roles", Value.texts ("USER" ∷ []))
      ∷ [])

  abbrev pub add_user : User → Db → Db
  add_user user db = record db {
    users = db.users ++ user ∷ [];
    user_roles = db.user_roles ++ user_role user.id ∷ [];
  }

  unfoldable pub create_user : Action UserRegisterResponse
  create_user = do
    password_hash ← call (λ n. outside.argon2_hash n request.password)
    id ← call outside.uuid4
    change (add_user (new_user id password_hash))
    audit (register_audit (new_user id password_hash))
    commit
    pure (record { id = id; username = request.username; email = map_option outside.lower email })

  unfoldable pub register : Action UserRegisterResponse
  register = do check_request; check_free; create_user
