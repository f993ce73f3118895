-- ===== src/Iam/Keep.antt =====
-- The administration of accounts never leaves the system without an active administrator.
use sentinel_auth.Prelude.{
  ◌≤◌, String, Bool, true, false, not, ◌||◌, ◌≡◌, ◌≢◌, refl, Option, some, List, [], ◌∷◌, ◌++◌,
  arith, leb, ◌==◌, nat_eq, string_eq, nat_beq_iff, eq_of_==, count, find, update, delete,
  Bool-cases, inl, inr, ◌⊎◌,
}
use sentinel_auth.Core.{Uuid, is_active, User, UserRole, Db, Error, ok, raise, http, World}
use sentinel_auth.Iam.{admin_role, is_active_user, has_role, admins, guard_last_active_admin}
use sentinel_auth.Iam.Admins.{
  count-update_mono, count-update-le, count-delete-le, count-append, active-le_unique,
  active_of_inactive, admins_mono, admins_but_one, admins-append, admins-delete_other,
  admins-delete_one,
}

-- The keys of `users` and `user_roles` are unique, and some administrator is active.
pub record IsAdministered (users : List User) (assignments : List UserRole) : Type 0 where
  pub user_key : (i : Uuid) → count (λ u. u.id == i) users ≤ 1
  pub role_key : (i : Uuid) (role : String) → count (has_role i role) assignments ≤ 1
  pub administered : 1 ≤ admins users assignments

-- What the guard knows when it lets an operation pass.
pub data Spare (target : User) (role : String) (db : Db) : Type 0 where
  other_role : (role == admin_role) ≡ false → Spare target role db
  inactive : is_active target.status ≡ false → Spare target role db
  two_admins : 2 ≤ admins db.users db.user_roles → Spare target role db

pub data Guarded (target : User) (role : String) (w : World) : Type 0 where
  refused :
      (e : Error) → guard_last_active_admin target role w ≡ (raise e, w) → Guarded target role w
  passed :
      guard_last_active_admin target role w ≡ (ok tt, w)
      → Spare target role w.working
      → Guarded target role w

not_both : (a b : Bool) → (not a || not b) ≡ true → (a ≡ false) ⊎ (b ≡ false)
not_both true b e = ground arith
not_both false b e = inl refl

pub guard-cases : (target : User) (role : String) (w : World) → Guarded target role w
unfolding guard_last_active_admin
guard-cases target role w =
    elim (Bool-cases (not (role == admin_role) || not (is_active target.status))) [
      | inl free ↦
          passed (rw free refl)
            (elim (not_both (role == admin_role) (is_active target.status) free) [
              | inl other ↦ other_role other
              | inr off ↦ inactive off
            ])
      | inr bound ↦ elim (Bool-cases (leb (admins w.working.users w.working.user_roles) 1)) [
        | inl few ↦
            refused (http 409 "Cannot remove or lock the last active SECURITY_ADMIN")
              (rw (bound, few) refl)
        | inr more ↦ passed (rw (bound, more) refl) (two_admins (ground (arith, more)))
      ]
    ]

-- An update of accounts that keeps the keys and deactivates nobody.
pub update-keeps :
    (q : User → Bool) (f : User → User) (users : List User) (assignments : List UserRole)
    → ((u : User) → (f u).id ≡ u.id)
    → ((u : User) → is_active u.status ≡ true → is_active (f u).status ≡ true)
    → IsAdministered users assignments
    → IsAdministered (update q f users) assignments
update-keeps q f users assignments same stays h = record {
  user_key = λ i. omega (
    arith,
    h.user_key i,
    count-update-le (λ (u : User). u.id == i) q f users (λ u _ e. rw (same u) at e),
  );
  role_key = h.role_key;
  administered = omega (
    arith,
    h.administered,
    admins_mono users (update q f users) assignments
        (λ i. count-update_mono (is_active_user i) q f users (λ u _ e. active_after i u e)),
  );
}
  where
    active_after : (i : Uuid) (u : User) → is_active_user i u ≡ true → is_active_user i (f u) ≡ true
    active_after i u e = rw (same u) (ground (arith, stays u))

module _ (t : Uuid) (f : User → User) (users : List User)
    (same : (u : User) → (f u).id ≡ u.id) where
  others_stay :
      (i : Uuid)
      → i ≢ t
      → count (is_active_user i) users ≤ count (is_active_user i) (update (λ u. u.id == t) f users)
  others_stay i ne =
      count-update_mono (is_active_user i) (λ u. u.id == t) f users (λ u hit e. apart u hit e)
    where
      apart :
          (u : User)
          → (u.id == t) ≡ true
          → is_active_user i u ≡ true
          → is_active_user i (f u) ≡ true
      apart u hit e = absurd (ne (ground arith))

  inactive_stay :
      count (is_active_user t) users ≤ 0
      → (i : Uuid)
      → count (is_active_user i) users ≤ count (is_active_user i) (update (λ u. u.id == t) f users)
  inactive_stay off i = elim (Bool-cases (i == t)) [
    | inl hit ↦ rw ((nat_beq_iff i t).0 hit) (omega (arith, off))
    | inr miss ↦ others_stay i (ground (arith, miss))
  ]

  -- Locking an account that the guard let pass.
  pub lock-keeps :
      (assignments : List UserRole) (db : Db) {target : User}
      → db.users ≡ users
      → db.user_roles ≡ assignments
      → find (λ u. u.id == t) users ≡ some target
      → Spare target admin_role db
      → IsAdministered users assignments
      → IsAdministered (update (λ u. u.id == t) f users) assignments
  lock-keeps assignments db {target} eu ea found spare h = record {
    user_key = λ i. omega (
      arith,
      h.user_key i,
      count-update-le (λ (u : User). u.id == i) (λ u. u.id == t) f users
          (λ u _ e. rw (same u) at e),
    );
    role_key = h.role_key;
    administered = still spare;
  }
    where
      still : Spare target admin_role db → 1 ≤ admins (update (λ u. u.id == t) f users) assignments
      still (other_role e) = cc
      still (inactive e) = omega (
        arith,
        h.administered,
        admins_mono users (update (λ u. u.id == t) f users) assignments
            (inactive_stay (active_of_inactive t users (h.user_key t) found e)),
      )
      still (two_admins n) = omega (
        arith,
        rw (eu, ea) at n,
        h.role_key t admin_role,
        admins_but_one t users (update (λ u. u.id == t) f users) assignments others_stay
            (active-le_unique t users (h.user_key t)),
      )

module _ (t : Uuid) (role : String) (users : List User) (assignments : List UserRole) where
  other_rows :
      (role == admin_role) ≡ false
      → (a : UserRole) → has_role t role a ≡ true
      → (a.role_id == admin_role) ≡ true
      → count (is_active_user a.user_id) users ≤ 0
  other_rows other a hit admin =
      let named : a.role_id ≡ role = eq_of_== a.role_id role (ground arith) in cc

  idle_rows :
      count (is_active_user t) users ≤ 0
      → (a : UserRole) → has_role t role a ≡ true
      → (a.role_id == admin_role) ≡ true
      → count (is_active_user a.user_id) users ≤ 0
  idle_rows idle a hit admin =
      let owner : a.user_id ≡ t = (nat_beq_iff a.user_id t).0 (ground arith) in rw owner idle

  -- Deleting an assignment that the guard let pass.
  pub revoke-keeps :
      (db : Db) {target : User}
      → db.users ≡ users
      → db.user_roles ≡ assignments
      → find (λ u. u.id == t) users ≡ some target
      → Spare target role db
      → IsAdministered users assignments
      → IsAdministered users (delete (has_role t role) assignments)
  revoke-keeps db {target} eu ea found spare h = record {
    user_key = h.user_key;
    role_key = λ i r.
        omega (arith, h.role_key i r, count-delete-le (has_role i r) (has_role t role) assignments);
    administered = elim (Bool-cases (role == admin_role)) [
      | inl admin ↦ still (eq_of_== role admin_role admin) spare
      | inr other ↦ omega (
        arith,
        h.administered,
        admins-delete_other (has_role t role) users assignments (other_rows other),
      )
    ];
  }
    where
      still :
          role ≡ admin_role
          → Spare target role db
          → 1 ≤ admins users (delete (has_role t role) assignments)
      still named (other_role e) = cc (rw named at e)
      still named (inactive e) = omega (
        arith,
        h.administered,
        admins-delete_other (has_role t role) users assignments
            (idle_rows (active_of_inactive t users (h.user_key t) found e)),
      )
      still named (two_admins n) = rw named (
          omega (
            arith,
            rw (eu, ea) at n,
            h.role_key t admin_role,
            admins-delete_one t users assignments (active-le_unique t users (h.user_key t)),
          ))

  -- A new assignment of a role that the account does not have.
  pub assign-keeps :
      (by : Option Uuid)
      → count (has_role t role) assignments ≤ 0
      → IsAdministered users assignments
      → IsAdministered users
          (assignments ++ record { user_id = t; role_id = role; assigned_by = by } ∷ [])
  assign-keeps by lacks h = record {
    user_key = h.user_key;
    role_key = λ i r. key i r;
    administered = omega (arith, h.administered, admins-append users assignments row);
  }
    where
      row : UserRole
      row = record { user_id = t; role_id = role; assigned_by = by }

      key : (i : Uuid) (r : String) → count (has_role i r) (assignments ++ row ∷ []) ≤ 1
      key i r = elim (Bool-cases (has_role i r row)) [
        | inl hit ↦
            let owner : t ≡ i = (nat_beq_iff t i).0 (ground arith) in
            let named : role ≡ r = eq_of_== role r (ground arith) in
            let grown = count-append (λ (a : UserRole). has_role i r a) assignments row in
            omega (arith, rw (owner, named) at lacks, rw hit at grown)
        | inr miss ↦
            let grown = count-append (λ (a : UserRole). has_role i r a) assignments row in
            omega (arith, h.role_key i r, rw miss at grown)
      ]
