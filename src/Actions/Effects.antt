-- ===== src/Actions/Effects.antt =====
-- What a protective action does to the tables.
use sentinel_auth.Prelude.{
  ◌+◌, String, true, ◌&&◌, ◌≡◌, refl, Option, none, some, List, ◌==◌, nat_eq, string_eq, find,
  update, Bool-cases, inl, inr, find-update_hit, or_else,
}
use sentinel_auth.Core.{
  Time, Uuid, AccountStatus, is_locked, User, Dict, Outside, get_internal_secret, compare_secret,
  verify_internal_secret, ok, World,
}
use sentinel_auth.Auth.Account.{revoke_open}
use sentinel_auth.Actions.{
  SecurityAction, Applied, enforce, revoke_only, lock_row, revoke_active_sessions,
}

abbrev pub by_id : Uuid → List User → Option User
by_id id users = find (λ u. u.id == id) users

-- What holds after an action: the sessions of the account are revoked, its row is still found, and
-- no audit row has been written.
pub record Enforced (user : User) (w : World) (done : Applied) (w' : World) : Type 0 where
  pub at : Time
  pub sessions : w'.working.sessions ≡ (revoke_open at user.id w.working).sessions
  pub audits : w'.working.audit_logs ≡ w.working.audit_logs
  pub still_found :
      {u : User}
      → by_id user.id w.working.users ≡ some u
      → (u' : User) × (by_id user.id w'.working.users ≡ some u') × (u'.id ≡ u.id)

module _ (outside : Outside) where
  abbrev pub Run : SecurityAction → User → Dict → World → Type 0
  Run action user details w =
      (done : Applied) × (w' : World) × (enforce outside action user details w ≡ (ok done, w'))
      × Enforced user w done w'

  revoke_only-Enforced :
      (user : User) (details : Dict) (w : World)
      → (done : Applied) × (w' : World) × (revoke_only outside user details w ≡ (ok done, w'))
        × Enforced user w done w'
  unfolding revoke_only revoke_active_sessions revoke_open
  revoke_only-Enforced user details w = (
    _,
    _,
    refl,
    record {
      at = outside.clock w.calls;
      sessions = refl;
      audits = refl;
      still_found = λ {u} e. (u, e, refl);
    },
  )

  kept_by_update :
      (id : Uuid) (f : User → User) (users : List User)
      → ((u : User) → (f u).id ≡ u.id)
      → {u : User} → by_id id users ≡ some u
      → (u' : User) × (by_id id (update (λ v. v.id == id) f users) ≡ some u') × (u'.id ≡ u.id)
  kept_by_update id f users same {u} e =
      (f u, find-update_hit (λ (v : User). v.id == id) f users (λ v h. rw (same v) h) e, same u)

  pub enforce-Enforced :
      (action : SecurityAction) (user : User) (details : Dict) (w : World)
      → Run action user details w
  unfolding enforce revoke_active_sessions revoke_open lock_row
  enforce-Enforced SecurityAction.revoke_sessions user details w =
      revoke_only-Enforced user details w
  enforce-Enforced SecurityAction.force_logout user details w = revoke_only-Enforced user details w
  enforce-Enforced SecurityAction.require_mfa user details w = (
    _,
    _,
    refl,
    record {
      at = outside.clock w.calls;
      sessions = refl;
      audits = refl;
      still_found =
          kept_by_update user.id (λ u. record u { detection_mfa_once = true }) w.working.users
            (λ u. refl);
    },
  )
  enforce-Enforced SecurityAction.lock_user user details w =
      elim (Bool-cases (is_locked user.status)) [
        | inl already ↦ rw already (
          _,
          _,
          refl,
          record {
            at = outside.clock w.calls;
            sessions = refl;
            audits = refl;
            still_found = λ {u} e. (u, e, refl);
          },
        )
        | inr open_ ↦ rw open_ (
          _,
          _,
          refl,
          record {
            at = outside.clock (w.calls + 1);
            sessions = refl;
            audits = refl;
            still_found =
                kept_by_update user.id
                  (λ u. record u {
                    status = AccountStatus.locked;
                    locked_at = some (outside.clock w.calls);
                  })
                  w.working.users (λ u. refl);
          },
        )
      ]

  -- The secret passes in every world or in none.
  compare_secret-passed :
      (given : String) (secret : Option String) (w w2 : World) {a : Unit {0}} {w' : World}
      → compare_secret outside given secret w ≡ (ok a, w')
      → compare_secret outside given secret w2 ≡ (ok tt, w2)
  compare_secret-passed given none w w2 e = cc
  compare_secret-passed given (some secret) w w2 e =
      elim (Bool-cases (outside.is_ascii given && outside.is_ascii secret)) [
        | inr other ↦ cc
        | inl plain ↦ elim (Bool-cases (given == secret)) [
          | inl same ↦ rw (plain, same) refl
          | inr different ↦ cc (rw (plain, different) at e)
        ]
      ]

  pub verify-passed :
      (header : Option String) (w w2 : World) {a : Unit {0}} {w' : World}
      → verify_internal_secret outside header w ≡ (ok a, w')
      → verify_internal_secret outside header w2 ≡ (ok tt, w2)
  unfolding verify_internal_secret
  verify-passed header w w2 e =
      compare_secret-passed (or_else header "") (get_internal_secret outside) w w2 e
