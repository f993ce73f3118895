-- ===== src/Iam/Operations.antt =====
-- The handlers of app/iam.py that change state, as the requests of a Security Administrator.
use sentinel_auth.Prelude.{
  String, Bool, not, ◌≡◌, refl, sym, subst, Option, none, some, List, [], ◌∷◌, map, ◌==◌, nat_eq,
  string_eq, nat_beq_iff, contains, find, where_, Bool-cases, Option-cases, inl, inr, find-eq-some,
}
use sentinel_auth.Core.{
  Uuid, AccountStatus, is_locked, User, UserRole, Db, Outside, HttpRequest, World, Action, respond,
}
use sentinel_auth.Authz.{AuthContext}
use sentinel_auth.Auth.Account.{revoke_open}
use sentinel_auth.Iam.{
  admin_role, special_roles, has_role, find_user, role_ids, revoke_sessions, grant_role,
  assign_role, revoke_role, lock_target, lock_user, unlock_user, toggle_mfa,
}
use sentinel_auth.Iam.Admins.{has_role-none}
use sentinel_auth.Iam.Keep.{
  IsAdministered, refused, passed, guard-cases, update-keeps, lock-keeps, revoke-keeps,
  assign-keeps,
}

pub data Operation : Type 0 where
  assign : (user_id : Uuid) (role_id : String) → Operation
  revoke : (user_id : Uuid) (role_id : String) → Operation
  lock : (user_id : Uuid) → Operation
  unlock : (user_id : Uuid) → Operation
  mfa : (user_id : Uuid) (mfa_required : Bool) → Operation

abbrev pub Kept : Db → Type 0
Kept db = IsAdministered db.users db.user_roles

module _ (outside : Outside) (request : HttpRequest) (ctx : AuthContext) where
  unfoldable pub perform : Operation → Action (Option User × List String)
  perform (Operation.assign user_id role_id) = assign_role outside request ctx user_id role_id
  perform (Operation.revoke user_id role_id) = revoke_role outside request ctx user_id role_id
  perform (Operation.lock user_id) = lock_user outside request ctx user_id
  perform (Operation.unlock user_id) = unlock_user outside request ctx user_id
  perform (Operation.mfa user_id mfa_required) = toggle_mfa outside request ctx user_id mfa_required

  module _ (w : World) (h : Kept w.committed) where
    -- A row that is found by a key is found by its own key.
    found_by_own :
        (id : Uuid) {u : User}
        → find_user id w.committed ≡ some u
        → find_user u.id w.committed ≡ some u
    found_by_own id {u} e =
        let own =
          (nat_beq_iff u.id id).0 (find-eq-some (λ (v : User). v.id == id) w.committed.users e) in
        subst (λ k. find_user k w.committed ≡ some u) (sym own) e

    unlock-Kept : (id : Uuid) → Kept (respond (unlock_user outside request ctx id) w).1.committed
    unfolding unlock_user
    unlock-Kept id = elim (Option-cases (find_user id w.committed)) [
      | inl missing ↦ rw missing h
      | inr (u, found) ↦ rw found (
          update-keeps (λ v. v.id == u.id)
            (λ v. record v { status = AccountStatus.active; locked_at = none }) w.committed.users
            w.committed.user_roles (λ v. refl) (λ v e. refl) h)
    ]

    mfa-Kept :
        (id : Uuid) (required : Bool)
        → Kept (respond (toggle_mfa outside request ctx id required) w).1.committed
    unfolding toggle_mfa revoke_sessions revoke_open
    mfa-Kept id required = elim (Option-cases (find_user id w.committed)) [
      | inl missing ↦ rw missing h
      | inr (u, found) ↦ rw found (
          update-keeps (λ v. v.id == u.id) (λ v. record v { admin_mfa_required = required })
            w.committed.users w.committed.user_roles (λ v. refl) (λ v e. e) h)
    ]

    lock-Kept : (id : Uuid) → Kept (respond (lock_user outside request ctx id) w).1.committed
    unfolding lock_user lock_target revoke_sessions revoke_open
    lock-Kept id = elim (Option-cases (find_user id w.committed)) [
      | inl missing ↦ rw missing h
      | inr (u, found) ↦
          let opened : World = record w { working = w.committed } in
          elim (Bool-cases (is_locked u.status)) [
            | inl already ↦ rw (found, already) h
            | inr open_ ↦ elim (guard-cases u admin_role opened) [
              | refused e stop ↦ rw (found, open_, stop) h
              | passed go spare ↦
                  rw (found, open_, go)
                    (lock-keeps u.id
                      (λ v. record v {
                        status = AccountStatus.locked;
                        locked_at = some (outside.clock w.calls);
                      })
                      w.committed.users (λ v. refl) w.committed.user_roles w.committed refl refl
                      (found_by_own id found) spare h)
            ]
          ]
    ]

    assign-Kept :
        (id : Uuid) (role : String)
        → Kept (respond (assign_role outside request ctx id role) w).1.committed
    unfolding assign_role grant_role revoke_sessions revoke_open role_ids
    assign-Kept id role = elim (Bool-cases (not (contains ("USER" ∷ special_roles) role))) [
      | inl unsupported ↦ rw unsupported h
      | inr supported ↦ elim (Option-cases (find_user id w.committed)) [
        | inl missing ↦ rw (supported, missing) h
        | inr (u, found) ↦ elim (Bool-cases (not (contains w.committed.roles role))) [
          | inl unknown ↦ rw (supported, found, unknown) h
          | inr known ↦
              elim (Bool-cases (
                contains
                  (map (λ (a : UserRole). a.role_id)
                    (where_ (λ a. a.user_id == u.id) w.committed.user_roles))
                  role)) [
                    | inl has ↦ rw (supported, found, known, has) h
                    | inr lacks ↦
                        rw (supported, found, known, lacks)
                          (assign-keeps u.id role w.committed.users w.committed.user_roles
                            (some ctx.user.id)
                            (has_role-none u.id role w.committed.user_roles lacks) h)
                  ]
        ]
      ]
    ]

    revoke-Kept :
        (id : Uuid) (role : String)
        → Kept (respond (revoke_role outside request ctx id role) w).1.committed
    unfolding revoke_role revoke_sessions revoke_open role_ids
    revoke-Kept id role =
        let opened : World = record w { working = w.committed } in
        elim (Bool-cases (role == "USER")) [
          | inl base ↦ rw base h
          | inr special ↦ elim (Bool-cases (not (contains special_roles role))) [
            | inl unsupported ↦ rw (special, unsupported) h
            | inr supported ↦ elim (Option-cases (find_user id w.committed)) [
              | inl missing ↦ rw (special, supported, missing) h
              | inr (u, found) ↦
                  elim (Option-cases (find (has_role u.id role) w.committed.user_roles)) [
                    | inl unassigned ↦ rw (special, supported, found, unassigned) h
                    | inr (a, assigned) ↦ elim (guard-cases u role opened) [
                      | refused e stop ↦ rw (special, supported, found, assigned, stop) h
                      | passed go spare ↦
                          rw (special, supported, found, assigned, go)
                            (revoke-keeps u.id role w.committed.users w.committed.user_roles
                              w.committed refl refl (found_by_own id found) spare h)
                    ]
                  ]
            ]
          ]
        ]

    perform-Kept : (op : Operation) → Kept (respond (perform op) w).1.committed
    unfolding perform
    perform-Kept (Operation.assign id role) = assign-Kept id role
    perform-Kept (Operation.revoke id role) = revoke-Kept id role
    perform-Kept (Operation.lock id) = lock-Kept id
    perform-Kept (Operation.unlock id) = unlock-Kept id
    perform-Kept (Operation.mfa id required) = mfa-Kept id required

-- A run of requests, each by its caller.
abbrev pub Call : Type 0
Call = HttpRequest × AuthContext × Operation

unfoldable pub perform_all : Outside → List Call → World → World
perform_all outside [] w = w
perform_all outside ((request, ctx, op) ∷ calls) w =
    perform_all outside calls (respond (perform outside request ctx op) w).1

-- Whatever role assignments, role removals, locks, unlocks and MFA settings any callers ask for,
-- and whether they are granted or refused, the keys stay unique and an active Security
-- Administrator is left, if there was one.
pub admin_remains :
    (outside : Outside) (calls : List Call) (w : World)
    → IsAdministered w.committed.users w.committed.user_roles
    → IsAdministered
        (perform_all outside calls w).committed.users
        (perform_all outside calls w).committed.user_roles
unfolding perform_all
admin_remains outside [] w h = h
admin_remains outside ((request, ctx, op) ∷ calls) w h =
    admin_remains outside calls (respond (perform outside request ctx op) w).1
      (perform-Kept outside request ctx w h op)
