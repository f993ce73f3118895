-- ===== src/Iam/Admins.antt =====
-- Counting the active administrators, and what the updates of the tables do to the count.
use sentinel_auth.Prelude.{
  ◌+◌, ◌≤◌, String, Bool, true, false, ◌&&◌, ◌≡◌, ◌≢◌, refl, some, List, [], ◌∷◌, ◌++◌, map, arith,
  if◌then◌else◌, ◌==◌, nat_eq, string_eq, nat_beq_iff, contains, count, find, where_, update,
  delete, Bool-cases, inl, inr,
}
use sentinel_auth.Core.{Uuid, is_active, User, UserRole}
use sentinel_auth.Iam.{admin_role, is_active_user, has_role, admins}

module _ {ℓ} {A : Type ℓ} where
  count-and-le : (p q : A → Bool) (xs : List A) → count (λ x. p x && q x) xs ≤ count p xs
  count-and-le p q [] = omega arith
  count-and-le p q (x ∷ xs) = ground (arith, count-and-le p q xs)

  pub count-update_mono :
      (p q : A → Bool) (f : A → A) (xs : List A)
      → ((x : A) → q x ≡ true → p x ≡ true → p (f x) ≡ true)
      → count p xs ≤ count p (update q f xs)
  count-update_mono p q f [] keep = omega arith
  count-update_mono p q f (x ∷ xs) keep = ground (arith, keep x, count-update_mono p q f xs keep)

  pub count-update-le :
      (p q : A → Bool) (f : A → A) (xs : List A)
      → ((x : A) → q x ≡ true → p (f x) ≡ true → p x ≡ true)
      → count p (update q f xs) ≤ count p xs
  count-update-le p q f [] keep = omega arith
  count-update-le p q f (x ∷ xs) keep = ground (arith, keep x, count-update-le p q f xs keep)

  pub count-delete-le : (p q : A → Bool) (xs : List A) → count p (delete q xs) ≤ count p xs
  count-delete-le p q [] = omega arith
  count-delete-le p q (x ∷ xs) = ground (arith, count-delete-le p q xs)

  pub count-append :
      (p : A → Bool) (xs : List A) (x : A)
      → count p (xs ++ x ∷ []) ≡ count p xs + (if p x then 1 else 0)
  count-append p [] x = omega arith
  count-append p (y ∷ xs) x = omega (arith, count-append p xs x)

pub active-le_unique :
    (t : Uuid) (users : List User)
    → count (λ u. u.id == t) users ≤ 1
    → count (is_active_user t) users ≤ 1
active-le_unique t users one =
    omega (arith, count-and-le (λ (u : User). u.id == t) (λ u. is_active u.status) users)

-- The only row of an account that is not active.
pub active_of_inactive :
    (t : Uuid) (users : List User) {u : User}
    → count (λ v. v.id == t) users ≤ 1
    → find (λ v. v.id == t) users ≡ some u
    → is_active u.status ≡ false
    → count (is_active_user t) users ≤ 0
active_of_inactive t [] one found off = omega arith
active_of_inactive t (v ∷ users) {u} one found off = elim (Bool-cases (v.id == t)) [
  | inl hit ↦
      let same : v ≡ u = cc (rw hit at found) in
      let none_left = count-and-le (λ (x : User). x.id == t) (λ x. is_active x.status) users in
      rw (hit, same, off) (omega (arith, rw hit at one))
  | inr miss ↦
      let later =
        active_of_inactive t users (omega (arith, rw miss at one)) (rw miss at found) off in
      rw miss (omega (arith, later))
]

-- More active rows for every account, more administrators.
pub admins_mono :
    (users users' : List User) (assignments : List UserRole)
    → ((i : Uuid) → count (is_active_user i) users ≤ count (is_active_user i) users')
    → admins users assignments ≤ admins users' assignments
unfolding admins
admins_mono users users' [] more = omega arith
admins_mono users users' (a ∷ rest) more =
    ground (arith, more a.user_id, admins_mono users users' rest more)

-- All accounts but one keep their active rows.
pub admins_but_one :
    (t : Uuid) (users users' : List User) (assignments : List UserRole)
    → ((i : Uuid) → i ≢ t → count (is_active_user i) users ≤ count (is_active_user i) users')
    → count (is_active_user t) users ≤ 1
    → admins users assignments
      ≤ admins users' assignments + count (has_role t admin_role) assignments
unfolding admins
admins_but_one t users users' [] others one = omega arith
admins_but_one t users users' (a ∷ rest) others one = elim (Bool-cases (a.user_id == t)) [
  | inl hit ↦
      let same : a.user_id ≡ t = (nat_beq_iff a.user_id t).0 hit in
      rw (same, (nat_beq_iff t t).1 refl)
        (ground (arith, one, admins_but_one t users users' rest others one))
  | inr miss ↦ ground (arith, miss, others a.user_id, admins_but_one t users users' rest others one)
]

pub admins-append :
    (users : List User) (assignments : List UserRole) (a : UserRole)
    → admins users assignments ≤ admins users (assignments ++ a ∷ [])
unfolding admins
admins-append users [] a = omega arith
admins-append users (b ∷ rest) a = omega (arith, admins-append users rest a)

-- Deleted rows that name no active administrator.
pub admins-delete_other :
    (p : UserRole → Bool) (users : List User) (assignments : List UserRole)
    → ((a : UserRole)
        → p a ≡ true
        → (a.role_id == admin_role) ≡ true
        → count (is_active_user a.user_id) users ≤ 0)
    → admins users assignments ≤ admins users (delete p assignments)
unfolding admins
admins-delete_other p users [] idle = omega arith
admins-delete_other p users (a ∷ rest) idle =
    ground (arith, idle a, admins-delete_other p users rest idle)

pub admins-delete_one :
    (t : Uuid) (users : List User) (assignments : List UserRole)
    → count (is_active_user t) users ≤ 1
    → admins users assignments
      ≤ admins users (delete (has_role t admin_role) assignments)
        + count (has_role t admin_role) assignments
unfolding admins
admins-delete_one t users [] one = omega arith
admins-delete_one t users (a ∷ rest) one = elim (Bool-cases (a.user_id == t)) [
  | inl hit ↦
      let same : a.user_id ≡ t = (nat_beq_iff a.user_id t).0 hit in
      rw (same, (nat_beq_iff t t).1 refl) (ground (arith, one, admins-delete_one t users rest one))
  | inr miss ↦ ground (arith, miss, admins-delete_one t users rest one)
]

-- A role that is not among those of an account.
pub has_role-none :
    (t : Uuid) (role : String) (assignments : List UserRole)
    → contains (map (λ (a : UserRole). a.role_id) (where_ (λ a. a.user_id == t) assignments)) role
      ≡ false
    → count (has_role t role) assignments ≤ 0
has_role-none t role [] lacks = omega arith
has_role-none t role (a ∷ rest) lacks = ground (arith, has_role-none t role rest)
