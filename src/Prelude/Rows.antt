-- ===== src/Prelude/Rows.antt =====
-- Laws of the queries and updates.
use Prim.Native.Nat.{◌+◌}
use mathlib.Core.Path.{◌≡◌, ap, refl, subst}
use mathlib.Core.Logic.{inl, inr}
use mathlib.Core.Bool.{Bool, true, false}
use mathlib.Core.Option.{none, some}
use mathlib.Core.List.{List, [], ◌∷◌, ◌++◌}
use native.Mathlib.Omega.{arith}
use sentinel_auth.Prelude.Tests.{Bool-cases}
use sentinel_auth.Prelude.Lists.{All, find, count, update, where_}

module _ {ℓ} {A : Type ℓ} where
  -- A row that a query finds meets its filter.
  pub find-eq-some : (p : A → Bool) (xs : List A) {x : A} → find p xs ≡ some x → p x ≡ true
  find-eq-some p [] e = cc
  find-eq-some p (y ∷ xs) e = elim (Bool-cases (p y)) [
    | inl h ↦ ground arith
    | inr h ↦ find-eq-some p xs (rw h at e)
  ]

  pub find-All {κ} :
      (P : A → Type κ) (p : A → Bool) (xs : List A) {x : A} → All P xs → find p xs ≡ some x → P x
  find-All P p [] h e = cc
  find-All P p (y ∷ xs) h e = elim (Bool-cases (p y)) [
    | inl t ↦ subst P (cc (rw t at e)) h.0
    | inr t ↦ find-All P p xs h.1 (rw t at e)
  ]

  -- A query whose filter an update leaves alone finds the updated row.
  pub find-update_hit :
      (p : A → Bool) (f : A → A) (xs : List A)
      → ((x : A) → p x ≡ true → p (f x) ≡ true)
      → {x : A} → find p xs ≡ some x
      → find p (update p f xs) ≡ some (f x)
  find-update_hit p f [] keep e = cc
  find-update_hit p f (y ∷ xs) keep e = elim (Bool-cases (p y)) [
    | inl t ↦ ground (arith, keep y t)
    | inr t ↦ rw (t, t) (find-update_hit p f xs keep (rw t at e))
  ]

  -- An update of rows that the query does not look at.
  pub find-update_miss :
      (p q : A → Bool) (f : A → A) (xs : List A)
      → ((x : A) → q x ≡ true → (p x ≡ false) × (p (f x) ≡ false))
      → find p (update q f xs) ≡ find p xs
  find-update_miss p q f [] apart = refl
  find-update_miss p q f (y ∷ xs) apart = ground (arith, apart y, find-update_miss p q f xs apart)

  pub update-append_one :
      (q : A → Bool) (f : A → A) (xs : List A) (y : A)
      → q y ≡ true
      → update q f (xs ++ y ∷ []) ≡ update q f xs ++ f y ∷ []
  update-append_one q f [] y hit = rw hit refl
  update-append_one q f (x ∷ xs) y hit = rw (update-append_one q f xs y hit) refl

  pub All-update {κ} :
      (P : A → Type κ) (p : A → Bool) (f : A → A) (xs : List A)
      → ((x : A) → P x → p x ≡ true → P (f x))
      → All P xs
      → All P (update p f xs)
  All-update P p f [] keep h = tt
  All-update P p f (y ∷ xs) keep h = elim (Bool-cases (p y)) [
    | inl t ↦ rw t (keep y h.0 t, All-update P p f xs keep h.1)
    | inr t ↦ rw t (h.0, All-update P p f xs keep h.1)
  ]

  -- After an update every row has what the update gives, or was not concerned.
  pub All-of-update {κ} :
      (P : A → Type κ) (p : A → Bool) (f : A → A) (xs : List A)
      → ((x : A) → p x ≡ true → P (f x))
      → ((x : A) → p x ≡ false → P x)
      → All P (update p f xs)
  All-of-update P p f [] hit miss = tt
  All-of-update P p f (y ∷ xs) hit miss = elim (Bool-cases (p y)) [
    | inl t ↦ rw t (hit y t, All-of-update P p f xs hit miss)
    | inr t ↦ rw t (miss y t, All-of-update P p f xs hit miss)
  ]

  -- The same, from what is known of the rows before.
  pub All-update_from {κ μ} :
      (P : A → Type κ) (Q : A → Type μ) (p : A → Bool) (f : A → A) (xs : List A)
      → ((x : A) → P x → p x ≡ true → Q (f x))
      → ((x : A) → P x → p x ≡ false → Q x)
      → All P xs
      → All Q (update p f xs)
  All-update_from P Q p f [] hit miss h = tt
  All-update_from P Q p f (y ∷ xs) hit miss h = elim (Bool-cases (p y)) [
    | inl t ↦ rw t (hit y h.0 t, All-update_from P Q p f xs hit miss h.1)
    | inr t ↦ rw t (miss y h.0 t, All-update_from P Q p f xs hit miss h.1)
  ]

  pub find-eq-none : (p : A → Bool) (xs : List A) → All (λ x. p x ≡ false) xs → find p xs ≡ none
  find-eq-none p [] h = refl
  find-eq-none p (y ∷ xs) h = rw h.0 (find-eq-none p xs h.1)

  pub All-append {κ} : (P : A → Type κ) (xs ys : List A) → All P xs → All P ys → All P (xs ++ ys)
  All-append P [] ys hx hy = hy
  All-append P (x ∷ xs) ys hx hy = (hx.0, All-append P xs ys hx.1 hy)

  -- A row is found among the older rows first.
  pub find-append_hit :
      (p : A → Bool) (xs ys : List A) {x : A} → find p xs ≡ some x → find p (xs ++ ys) ≡ some x
  find-append_hit p [] ys e = cc
  find-append_hit p (y ∷ xs) ys e = elim (Bool-cases (p y)) [
    | inl t ↦ rw t (rw t at e)
    | inr t ↦ rw t (find-append_hit p xs ys (rw t at e))
  ]

  pub find-append_miss :
      (p : A → Bool) (xs ys : List A) → find p xs ≡ none → find p (xs ++ ys) ≡ find p ys
  find-append_miss p [] ys e = refl
  find-append_miss p (y ∷ xs) ys e = elim (Bool-cases (p y)) [
    | inl t ↦ cc (rw t at e)
    | inr t ↦ rw t (find-append_miss p xs ys (rw t at e))
  ]

  -- A query finds the updated row, when the update concerns every row that the query may find and
  -- leaves the filter alone.
  pub find-update_within :
      (p q : A → Bool) (f : A → A) (xs : List A)
      → ((x : A) → p x ≡ true → q x ≡ true)
      → ((x : A) → p (f x) ≡ p x)
      → {x : A} → find p xs ≡ some x
      → find p (update q f xs) ≡ some (f x)
  find-update_within p q f [] wide keep e = cc
  find-update_within p q f (y ∷ xs) wide keep e = elim (Bool-cases (p y)) [
    | inl t ↦
        let one = rw t at e in
        rw (wide y t, keep y, t) (ap (λ o. elim o [ none ↦ none | some z ↦ some (f z) ]) one)
    | inr t ↦ elim (Bool-cases (q y)) [
      | inl u ↦ rw (u, keep y, t) (find-update_within p q f xs wide keep (rw t at e))
      | inr u ↦ rw (u, t) (find-update_within p q f xs wide keep (rw t at e))
    ]
  ]

  pub count-append : (p : A → Bool) (xs ys : List A) → count p (xs ++ ys) ≡ count p xs + count p ys
  count-append p [] ys = omega arith
  count-append p (x ∷ xs) ys = omega (arith, count-append p xs ys)

  -- An update that leaves the filter alone changes no count.
  pub count-update :
      (p q : A → Bool) (f : A → A) (xs : List A)
      → ((x : A) → p (f x) ≡ p x)
      → count p (update q f xs) ≡ count p xs
  count-update p q f [] keep = refl
  count-update p q f (x ∷ xs) keep = elim (Bool-cases (q x)) [
    | inl hit ↦ rw (hit, keep x, count-update p q f xs keep)
    | inr miss ↦ rw (miss, count-update p q f xs keep)
  ]

  pub count-eq-zero : (p : A → Bool) (xs : List A) → find p xs ≡ none → count p xs ≡ 0
  count-eq-zero p [] e = refl
  count-eq-zero p (x ∷ xs) e = elim (Bool-cases (p x)) [
    | inl hit ↦ cc (rw hit at e)
    | inr miss ↦ rw miss (omega (arith, count-eq-zero p xs (rw miss at e)))
  ]

  -- Rows that a filter does not take.
  pub where_-append_idle :
      (p : A → Bool) (xs ys : List A)
      → All (λ x. p x ≡ false) ys
      → where_ p (xs ++ ys) ≡ where_ p xs
  where_-append_idle p [] [] h = refl
  where_-append_idle p [] (y ∷ ys) h = rw h.0 (where_-append_idle p [] ys h.1)
  where_-append_idle p (x ∷ xs) ys h = rw (where_-append_idle p xs ys h)

  pub count-append_idle :
      (p : A → Bool) (xs ys : List A) → All (λ x. p x ≡ false) ys → count p (xs ++ ys) ≡ count p xs
  count-append_idle p [] [] h = refl
  count-append_idle p [] (y ∷ ys) h = rw h.0 (omega (arith, count-append_idle p [] ys h.1))
  count-append_idle p (x ∷ xs) ys h = rw (count-append_idle p xs ys h)

  pub All-map {κ μ} :
      (P : A → Type κ) (Q : A → Type μ) (xs : List A) → ((x : A) → P x → Q x) → All P xs → All Q xs
  All-map P Q [] f h = tt
  All-map P Q (x ∷ xs) f h = (f x h.0, All-map P Q xs f h.1)
