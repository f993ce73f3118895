-- ===== src/Auth/Account/Revocation.antt =====
-- Revoking sessions takes effect at once.
use sentinel_auth.Prelude.{true, false, ◌≡◌, refl, some, arith, is_some, nat_eq, All-of-update}
use sentinel_auth.Core.{Time, Uuid, Session, Db, Outside, ok, World, respond}
use sentinel_auth.Authz.{AuthContext}
use sentinel_auth.Authz.Safety.{LockedOut, AllRevoked, AllRevoked-LockedOut}
use sentinel_auth.Auth.Account.{is_open_of, revoke_open, logout_all}

not-is_open_of :
    (id : Uuid) (s : Session)
    → is_open_of id s ≡ false
    → s.user_id ≡ id
    → is_some s.revoked_at ≡ true
not-is_open_of id s h e = ground arith

pub revoke_open-AllRevoked :
    (now : Time) (id : Uuid) (db : Db) → AllRevoked id (revoke_open now id db)
unfolding revoke_open
revoke_open-AllRevoked now id db =
    All-of-update (λ (s : Session). s.user_id ≡ id → is_some s.revoked_at ≡ true) (is_open_of id)
      (λ s. record s { revoked_at = some now }) db.sessions (λ s h e. refl)
      (λ s h. not-is_open_of id s h)

-- After `logout-all`, which always succeeds, no token authenticates as the user, on any request.
pub logout_all_locks_out :
    (outside : Outside) (ctx : AuthContext) (w : World)
    → ((respond (logout_all outside ctx) w).0 ≡ ok tt)
      × LockedOut outside ctx.user.id (respond (logout_all outside ctx) w).1
unfolding logout_all
logout_all_locks_out outside ctx w = (
  refl,
  AllRevoked-LockedOut outside ctx.user.id (respond (logout_all outside ctx) w).1
      (revoke_open-AllRevoked (outside.clock w.calls) ctx.user.id w.committed),
)
