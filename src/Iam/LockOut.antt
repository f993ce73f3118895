-- ===== src/Iam/LockOut.antt =====
-- A change of privileges ends the account's sessions.
use sentinel_auth.Prelude.{
  ◌+◌, String, Bool, true, false, not, ◌≡◌, refl, sym, ◌∙◌, subst, Option, some, List, ◌∷◌, map,
  arith, ◌==◌, nat_eq, string_eq, nat_beq_iff, contains, find, where_, Bool-cases, Option-cases,
  inl, inr, find-eq-some,
}
use sentinel_auth.Core.{
  Time, Uuid, is_active, is_locked, AccountStatus, User, UserRole, Db, Outside, HttpRequest, ok,
  World, respond,
}
use sentinel_auth.Authz.{AuthContext}
use sentinel_auth.Authz.Safety.{LockedOut, AllRevoked-LockedOut, context_of_token-Authentic}
use sentinel_auth.Auth.Account.{revoke_open}
use sentinel_auth.Auth.Account.Revocation.{revoke_open-AllRevoked}
use sentinel_auth.Iam.{
  admin_role, special_roles, has_role, find_user, role_ids, revoke_sessions, grant_role,
  assign_role, revoke_role, lock_target, lock_user, toggle_mfa,
}
use sentinel_auth.Iam.Keep.{refused, passed, guard-cases}
use sentinel_auth.Iam.Operations.{Operation, perform}

abbrev pub target_of : Operation → Uuid
target_of (Operation.assign id _) = id
target_of (Operation.revoke id _) = id
target_of (Operation.lock id) = id
target_of (Operation.unlock id) = id
target_of (Operation.mfa id _) = id

-- All operations but an unlock, and but the assignment of a role that the account has.
abbrev pub ends_sessions : Operation → Db → Bool
ends_sessions (Operation.assign id role) db = not (
    contains (map (λ (a : UserRole). a.role_id) (where_ (λ a. a.user_id == id) db.user_roles)) role)
ends_sessions (Operation.unlock _) db = false
ends_sessions _ db = true

own_key : (id : Uuid) (db : Db) {u : User} → find_user id db ≡ some u → u.id ≡ id
own_key id db {u} e = (nat_beq_iff u.id id).0 (find-eq-some (λ (v : User). v.id == id) db.users e)

-- No token speaks for an account that is locked.
pub locked-LockedOut :
    (outside : Outside) (id : Uuid) (w : World) {u : User}
    → find_user id w.committed ≡ some u
    → is_locked u.status ≡ true
    → LockedOut outside id w
locked-LockedOut outside id w {u} found locked token ctx w' e same =
    let a = context_of_token-Authentic outside token w e in
    let mine : find_user id w.committed ≡ some ctx.user =
      subst (λ k. find_user k w.committed ≡ some ctx.user) (sym a.owner ∙ same) a.user_found in
    let one : u ≡ ctx.user = cc in apart u.status locked (rw (← one) at a.user_active)
  where
    apart : {B : Type 0} (s : AccountStatus) → is_locked s ≡ true → is_active s ≡ true → B
    apart s l a = ground arith

module _ (outside : Outside) (request : HttpRequest) (ctx : AuthContext) where
  revoked-LockedOut :
      (now : Time) (id : Uuid) (db : Db) (w : World) {u : User}
      → find_user id db ≡ some u
      → (d : Db) → w.committed.sessions ≡ (revoke_open now u.id d).sessions
      → LockedOut outside id w
  unfolding revoke_open
  revoked-LockedOut now id db w {u} found d same =
      subst (λ k. LockedOut outside k w) (own_key id db found)
        (AllRevoked-LockedOut outside u.id w (rw same (revoke_open-AllRevoked now u.id d)))

  module _ (w : World) {r : Option User × List String} where
    mfa-LockedOut :
        (id : Uuid) (required : Bool)
        → (respond (toggle_mfa outside request ctx id required) w).0 ≡ ok r
        → LockedOut outside id (respond (toggle_mfa outside request ctx id required) w).1
    unfolding toggle_mfa revoke_sessions revoke_open
    mfa-LockedOut id required e = elim (Option-cases (find_user id w.committed)) [
      | inl missing ↦ cc (rw missing at e)
      | inr (u, found) ↦
          revoked-LockedOut (outside.clock w.calls) id w.committed
            (respond (toggle_mfa outside request ctx id required) w).1 found w.committed
            (rw found refl)
    ]

    lock-LockedOut :
        (id : Uuid)
        → (respond (lock_user outside request ctx id) w).0 ≡ ok r
        → LockedOut outside id (respond (lock_user outside request ctx id) w).1
    unfolding lock_user lock_target revoke_sessions revoke_open
    lock-LockedOut id e =
        let opened : World = record w { working = w.committed } in
        let after = (respond (lock_user outside request ctx id) w).1 in
        elim (Option-cases (find_user id w.committed)) [
          | inl missing ↦ cc (rw missing at e)
          | inr (u, found) ↦ elim (Bool-cases (is_locked u.status)) [
            | inl already ↦
                locked-LockedOut outside id after {u = u} (rw (found, already) found) already
            | inr open_ ↦ elim (guard-cases u admin_role opened) [
              | refused x stop ↦ cc (rw (found, open_, stop) at e)
              | passed go _ ↦
                  revoked-LockedOut (outside.clock (w.calls + 1)) id w.committed after found
                    w.committed (rw (found, open_, go) refl)
            ]
          ]
        ]

    assign-LockedOut :
        (id : Uuid) (role : String)
        → ends_sessions (Operation.assign id role) w.committed ≡ true
        → (respond (assign_role outside request ctx id role) w).0 ≡ ok r
        → LockedOut outside id (respond (assign_role outside request ctx id role) w).1
    unfolding assign_role grant_role revoke_sessions revoke_open role_ids
    assign-LockedOut id role new e =
        let after = (respond (assign_role outside request ctx id role) w).1 in
        elim (Bool-cases (not (contains ("USER" ∷ special_roles) role))) [
          | inl unsupported ↦ cc (rw unsupported at e)
          | inr supported ↦ elim (Option-cases (find_user id w.committed)) [
            | inl missing ↦ cc (rw (supported, missing) at e)
            | inr (u, found) ↦ elim (Bool-cases (not (contains w.committed.roles role))) [
              | inl unknown ↦ cc (rw (supported, found, unknown) at e)
              | inr known ↦
                  let lacks = lacks_own u role (rw (← own_key id w.committed found) at new) in
                  revoked-LockedOut (outside.clock w.calls) id w.committed after found w.committed
                    (rw (supported, found, known, lacks) refl)
            ]
          ]
        ]
      where
        lacks_own :
            (u : User) (role : String)
            → ends_sessions (Operation.assign u.id role) w.committed ≡ true
            → contains
                (map
                  (λ (a : UserRole). a.role_id)
                  (where_ (λ a. a.user_id == u.id) w.committed.user_roles))
                role
              ≡ false
        lacks_own u role h = ground arith

    revoke-LockedOut :
        (id : Uuid) (role : String)
        → (respond (revoke_role outside request ctx id role) w).0 ≡ ok r
        → LockedOut outside id (respond (revoke_role outside request ctx id role) w).1
    unfolding revoke_role revoke_sessions revoke_open role_ids
    revoke-LockedOut id role e =
        let opened : World = record w { working = w.committed } in
        let after = (respond (revoke_role outside request ctx id role) w).1 in
        elim (Bool-cases (role == "USER")) [
          | inl base ↦ cc (rw base at e)
          | inr special ↦ elim (Bool-cases (not (contains special_roles role))) [
            | inl unsupported ↦ cc (rw (special, unsupported) at e)
            | inr supported ↦ elim (Option-cases (find_user id w.committed)) [
              | inl missing ↦ cc (rw (special, supported, missing) at e)
              | inr (u, found) ↦
                  elim (Option-cases (find (has_role u.id role) w.committed.user_roles)) [
                    | inl unassigned ↦ cc (rw (special, supported, found, unassigned) at e)
                    | inr (a, assigned) ↦ elim (guard-cases u role opened) [
                      | refused x stop ↦ cc (rw (special, supported, found, assigned, stop) at e)
                      | passed go _ ↦
                          revoked-LockedOut (outside.clock w.calls) id w.committed after found
                            w.committed (rw (special, supported, found, assigned, go) refl)
                    ]
                  ]
            ]
          ]
        ]

    -- When a role has been assigned or removed, an account locked, or the MFA requirement set, no
    -- token that was issued before speaks for the account any more. An assignment of a role that
    -- the account has already is excepted, and so is an unlock.
    pub privilege_change_locks_out :
        (op : Operation)
        → ends_sessions op w.committed ≡ true
        → (respond (perform outside request ctx op) w).0 ≡ ok r
        → LockedOut outside (target_of op) (respond (perform outside request ctx op) w).1
    unfolding perform
    privilege_change_locks_out (Operation.assign id role) new e = assign-LockedOut id role new e
    privilege_change_locks_out (Operation.revoke id role) _ e = revoke-LockedOut id role e
    privilege_change_locks_out (Operation.lock id) _ e = lock-LockedOut id e
    privilege_change_locks_out (Operation.unlock id) ends e = cc
    privilege_change_locks_out (Operation.mfa id required) _ e = mfa-LockedOut id required e
