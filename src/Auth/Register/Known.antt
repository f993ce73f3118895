-- ===== src/Auth/Register/Known.antt =====
-- app/auth.py: the account that a registration has made.
use Prim.Native.String.{count as chars}
use sentinel_auth.Prelude.{ℕ, String, [], ◌∷◌, ◌++◌, nat_eq, string_eq, ◌≡◌}
use sentinel_auth.Core.{Outside, Result, ok, World, raise}
use sentinel_auth.Auth.Register.{UserRegisterRequest, UserRegisterResponse, new_user, user_role}

-- What a session has done that stored the new account.
abbrev Created :
    Outside → UserRegisterRequest → World → Result UserRegisterResponse × World → Type 0
Created outside request w (ok r, w') =
    (n : ℕ) × (w'.committed.users
      ≡ w.working.users
        ++ new_user outside request r.id (outside.argon2_hash n request.password) ∷ [])
    × (w'.committed.user_roles ≡ w.working.user_roles ++ user_role outside request r.id ∷ [])
Created outside request w (raise _, w') = Unit
