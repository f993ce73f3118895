-- ===== src/Core/Kept.antt =====
-- What a request keeps, whether it returns or raises: a predicate on what is committed and on what
-- the session sees.
use sentinel_auth.Prelude.{
  ◌≡◌, ◌∙◌, refl, ==_refl, ℕ, String, Bool, true, false, ◌&&◌, Option, none, some, or_else,
  Bool-cases, Option-cases, inl, inr, ◌==◌, string_eq,
}
use sentinel_auth.Core.Request.{
  Result, ok, raise, WorldOf, ActionOf, pure, and_then, ◌>>=◌, query, change, commit, rollback,
  lift, when, attempted, call, respond, raise_if, fetch,
}
use sentinel_auth.Core.Externals.{Outside}
use sentinel_auth.Core.Secret.{get_internal_secret, compare_secret, verify_internal_secret}

abbrev pub Both : {D : Type 0} → (D → Type 0) → WorldOf D → Type 0
Both P w = P w.committed × P w.working

pub record Keeps {ℓ} {D : Type 0} {A : Type ℓ} (P : D → Type 0) (m : ActionOf D A) : Type ℓ where
  pub at : (w : WorldOf D) → Both P w → Both P (m w).1

module _ {ℓ} {D : Type 0} {A : Type ℓ} {P : D → Type 0} where
  pub Keeps-pure : (a : A) → Keeps P (pure a)
  Keeps-pure a = record { at = λ w h. h }

  pub Keeps-lift : (r : Result A) → Keeps P (lift r)
  Keeps-lift r = record { at = λ w h. h }

  pub Keeps-query : (f : D → A) → Keeps P (query f)
  Keeps-query f = record { at = λ w h. h }

  pub Keeps-call : (f : ℕ → A) → Keeps P (call f)
  Keeps-call f = record { at = λ w h. h }

  pub Keeps-attempted : (m : ActionOf D A) → Keeps P m → Keeps P (attempted m)
  Keeps-attempted m k = record { at = λ w h. k.at w h }

  pub Keeps-respond :
      (m : ActionOf D A) → Keeps P m → (w : WorldOf D) → P w.committed → P (respond m w).1.committed
  Keeps-respond m k w h = (k.at (record w { working = w.committed }) (h, h)).0

module _ {D : Type 0} {P : D → Type 0} where
  pub Keeps-change : (f : D → D) → ((d : D) → P d → P (f d)) → Keeps P (change f)
  Keeps-change f h = record { at = λ w k. (k.0, h w.working k.1) }

  pub Keeps-commit : Keeps P commit
  Keeps-commit = record { at = λ w k. (k.1, k.1) }

  pub Keeps-rollback : Keeps P rollback
  Keeps-rollback = record { at = λ w k. (k.0, k.0) }

  pub Keeps-when : (b : Bool) (m : ActionOf D (Unit {0})) → Keeps P m → Keeps P (when b m)
  Keeps-when true m k = k
  Keeps-when false m k = record { at = λ w h. h }

module _ {ℓ κ} {D : Type 0} {A : Type ℓ} {B : Type κ} {P : D → Type 0} where
  pub and_then-Both :
      (r : Result A) (f : A → ActionOf D B) (w : WorldOf D)
      → ((a : A) → Keeps P (f a))
      → Both P w
      → Both P (and_then r f w).1
  and_then-Both (ok a) f w k h = (k a).at w h
  and_then-Both (raise e) f w k h = h

  pub Keeps-bind :
      (m : ActionOf D A) (f : A → ActionOf D B)
      → Keeps P m
      → ((a : A) → Keeps P (f a))
      → Keeps P (m >>= f)
  Keeps-bind m f km kf = record {
    at = λ w h. let (r, w') = m w in and_then-Both r f w' kf (km.at w h);
  }

  -- The rest of the handler may use what a query has found.
  pub Keeps-query_bind :
      (f : D → A) (k : A → ActionOf D B)
      → ((w : WorldOf D) → Both P w → Both P (k (f w.working) w).1)
      → Keeps P (query f >>= k)
  Keeps-query_bind f k h = record { at = h }

module _ {D : Type 0} {P : D → Type 0} (outside : Outside) where
  compare_secret-Keeps :
      (given : String) (secret : Option String) → Keeps P (compare_secret outside given secret)
  compare_secret-Keeps given none = Keeps-lift _
  compare_secret-Keeps given (some secret) =
      elim (Bool-cases (outside.is_ascii given && outside.is_ascii secret)) [
        | inl ascii ↦ elim (Bool-cases (given == secret)) [
          | inl same ↦ rw (ascii, same) (Keeps-pure tt)
          | inr other ↦ rw (ascii, other) (Keeps-lift _)
        ]
        | inr other ↦ rw other (Keeps-lift _)
      ]

  pub verify_internal_secret-Keeps :
      (given : Option String) → Keeps P (verify_internal_secret outside given)
  unfolding verify_internal_secret
  verify_internal_secret-Keeps given =
      compare_secret-Keeps (or_else given "") (get_internal_secret outside)

module _ {D : Type 0} {P : D → Type 0} where
  pub Keeps-raise_if :
      (b : Bool) (status_code : ℕ) (detail : String) → Keeps P (raise_if b status_code detail)
  Keeps-raise_if true _ _ = record { at = λ w h. h }
  Keeps-raise_if false _ _ = record { at = λ w h. h }

module _ {ℓ κ} {D : Type 0} {A : Type ℓ} {B : Type κ} {P : D → Type 0} where
  -- The rest of the handler may use what the row is.
  pub Keeps-fetch_bind :
      (f : D → Option A) (status_code : ℕ) (detail : String) (k : A → ActionOf D B)
      → ((w : WorldOf D) (a : A) → Both P w → f w.working ≡ some a → Both P (k a w).1)
      → Keeps P (fetch f status_code detail >>= k)
  Keeps-fetch_bind f status_code detail k h = record {
    at = λ w both. elim (Option-cases (f w.working)) [
      | inl missing ↦ rw missing both
      | inr (a, found) ↦ rw found (h w a both found)
    ];
  }

-- A step that returns.
abbrev pub Total {ℓ} : {D : Type 0} {A : Type ℓ} → ActionOf D A → WorldOf D → Type ℓ
Total {D = D} {A = A} m w = (a : A) × (w' : WorldOf D) × (m w ≡ (ok a, w'))

pub Total-bind {ℓ κ} :
    {D : Type 0} {A : Type ℓ} {B : Type κ} (m : ActionOf D A) (f : A → ActionOf D B) (w : WorldOf D)
    → Total m w
    → ((a : A) (w' : WorldOf D) → m w ≡ (ok a, w') → Total (f a) w')
    → Total (m >>= f) w
Total-bind m f w (a, w', ran) rest = let (b, w2, after) = rest a w' ran in (b, w2, rw ran after)

-- The header carries the configured secret, an ASCII text.
abbrev pub IsInternal : Outside → Option String → Type 0
IsInternal outside header =
    (secret : String) × (get_internal_secret outside ≡ some secret)
    × (or_else header "" ≡ secret)
    × (outside.is_ascii secret ≡ true)

pub verify_internal_secret-passes :
    {D : Type 0} (outside : Outside) (header : Option String) (w : WorldOf D)
    → IsInternal outside header
    → verify_internal_secret outside header w ≡ (ok tt, w)
unfolding verify_internal_secret
verify_internal_secret-passes outside header w (secret, configured, given, ascii) =
    rw (configured, given, ascii, ==_refl secret) refl

-- A step after which what is committed and what was posted are as before, whether it returns or
-- raises.
pub record Leaves {ℓ} {D : Type 0} {A : Type ℓ} (m : ActionOf D A) : Type ℓ where
  pub committed : (w : WorldOf D) → (m w).1.committed ≡ w.committed
  pub posted : (w : WorldOf D) → (m w).1.posted ≡ w.posted

-- A step that neither commits nor posts.
abbrev pub leaves {ℓ} :
    {D : Type 0} {A : Type ℓ} {m : ActionOf D A}
    → ((w : WorldOf D) → (m w).1.committed ≡ w.committed)
    → ((w : WorldOf D) → (m w).1.posted ≡ w.posted)
    → Leaves m
leaves c p = record { committed = c; posted = p }

pub Leaves-when : {D : Type 0} (b : Bool) (f : D → D) → Leaves (when b (change f))
Leaves-when true f = leaves (λ w. refl) (λ w. refl)
Leaves-when false f = leaves (λ w. refl) (λ w. refl)

module _ {ℓ κ} {D : Type 0} {A : Type ℓ} {B : Type κ} where
  and_then-committed :
      (r : Result A) (f : A → ActionOf D B) (w : WorldOf D)
      → ((a : A) → Leaves (f a))
      → (and_then r f w).1.committed ≡ w.committed
  and_then-committed (ok a) f w k = (k a).committed w
  and_then-committed (raise e) f w k = refl

  and_then-posted :
      (r : Result A) (f : A → ActionOf D B) (w : WorldOf D)
      → ((a : A) → Leaves (f a))
      → (and_then r f w).1.posted ≡ w.posted
  and_then-posted (ok a) f w k = (k a).posted w
  and_then-posted (raise e) f w k = refl

  pub Leaves-bind :
      (m : ActionOf D A) (f : A → ActionOf D B)
      → Leaves m
      → ((a : A) → Leaves (f a))
      → Leaves (m >>= f)
  Leaves-bind m f first rest =
      leaves (λ w. and_then-committed (m w).0 f (m w).1 rest ∙ first.committed w)
        (λ w. and_then-posted (m w).0 f (m w).1 rest ∙ first.posted w)
