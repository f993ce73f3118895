-- ===== src/LoginHistory/Order.antt =====
-- app/login_history.py: the order of the result.
use sentinel_auth.Prelude.{
  ℕ, Bool, true, false, List, [], ◌∷◌, nat_eq, All, All-map, Bool-cases, inl, inr, ◌≡◌, refl, ap,
  sym, ◌∙◌, count, length, ◌+◌, if◌then◌else◌, arith,
}
use sentinel_auth.Detection.Tables.{LoginAttempt}
use sentinel_auth.LoginHistory.{comes_first, insert_newest, newest_first}

-- Every row comes before all later ones.
abbrev pub IsNewestFirst : List LoginAttempt → Type 0
IsNewestFirst [] = Unit
IsNewestFirst (a ∷ rest) =
    All (λ (b : LoginAttempt). comes_first a b ≡ true) rest × IsNewestFirst rest

comes_first_trans :
    (a b c : LoginAttempt)
    → comes_first a b ≡ true
    → comes_first b c ≡ true
    → comes_first a c ≡ true
comes_first_trans a b c h k = ground arith

comes_first_total : (a b : LoginAttempt) → comes_first a b ≡ false → comes_first b a ≡ true
comes_first_total a b h = ground arith

insert_newest-All :
    (P : LoginAttempt → Type 0) (a : LoginAttempt) (rows : List LoginAttempt)
    → P a
    → All P rows
    → All P (insert_newest a rows)
insert_newest-All P a [] h k = (h, tt)
insert_newest-All P a (b ∷ rows) h k = elim (Bool-cases (comes_first a b)) [
  | inl first ↦ rw first (h, k)
  | inr later ↦ rw later (k.0, insert_newest-All P a rows h k.1)
]

insert_newest-IsNewestFirst :
    (a : LoginAttempt) (rows : List LoginAttempt)
    → IsNewestFirst rows
    → IsNewestFirst (insert_newest a rows)
insert_newest-IsNewestFirst a [] h = (tt, tt)
insert_newest-IsNewestFirst a (b ∷ rows) h = elim (Bool-cases (comes_first a b)) [
  | inl first ↦ rw first (
    (
      first,
      All-map (λ (c : LoginAttempt). comes_first b c ≡ true) (λ c. comes_first a c ≡ true) rows
          (λ c k. comes_first_trans a b c first k) h.0,
    ),
    h,
  )
  | inr later ↦ rw later (
    insert_newest-All (λ (c : LoginAttempt). comes_first b c ≡ true) a rows
        (comes_first_total a b later) h.0,
    insert_newest-IsNewestFirst a rows h.1,
  )
]

pub newest_first-IsNewestFirst : (rows : List LoginAttempt) → IsNewestFirst (newest_first rows)
unfolding newest_first
newest_first-IsNewestFirst [] = tt
newest_first-IsNewestFirst (a ∷ rows) =
    insert_newest-IsNewestFirst a (newest_first rows) (newest_first-IsNewestFirst rows)

insert_newest-count :
    (p : LoginAttempt → Bool) (a : LoginAttempt) (rows : List LoginAttempt)
    → count p (insert_newest a rows) ≡ count p (a ∷ rows)
insert_newest-count p a [] = refl
insert_newest-count p a (b ∷ rows) = elim (Bool-cases (comes_first a b)) [
  | inl first ↦ rw first refl
  | inr later ↦ rw (later, insert_newest-count p a rows) (omega arith)
]

-- Sorting leaves out no row and adds none.
pub newest_first-count :
    (p : LoginAttempt → Bool) (rows : List LoginAttempt)
    → count p (newest_first rows) ≡ count p rows
unfolding newest_first
newest_first-count p [] = refl
newest_first-count p (a ∷ rows) =
    insert_newest-count p a (newest_first rows)
    ∙ ap (λ (n : ℕ). (if p a then 1 else 0) + n) (newest_first-count p rows)

length-count : (rows : List LoginAttempt) → length rows ≡ count (λ (a : LoginAttempt). true) rows
length-count [] = refl
length-count (a ∷ rows) = rw (length-count rows) (omega arith)

pub length-newest_first : (rows : List LoginAttempt) → length (newest_first rows) ≡ length rows
length-newest_first rows =
    length-count (newest_first rows) ∙ newest_first-count (λ a. true) rows ∙ sym (length-count rows)
