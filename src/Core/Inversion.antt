-- ===== src/Core/Inversion.antt =====
-- What a successful step has done. A guard that passes leaves the world as it was.
use sentinel_auth.Prelude.{ℕ, String, Bool, true, false, ◌≡◌, refl, Option, none, some}
use sentinel_auth.Core.Request.{
  Result, ok, raise, WorldOf, ActionOf, and_then, ◌>>=◌, raise_if, or_raise, fetch, respond,
}

module _ {ℓ κ} {D : Type 0} {A : Type ℓ} {B : Type κ} where
  pub >>=-eq-ok :
      (m : ActionOf D A) (f : A → ActionOf D B) (w : WorldOf D) {b : B} {w' : WorldOf D}
      → (m >>= f) w ≡ (ok b, w')
      → (a : A) × (w1 : WorldOf D) × (m w ≡ (ok a, w1)) × (f a w1 ≡ (ok b, w'))
  >>=-eq-ok m f w {b} {w'} e = split (m w) refl e
    where
      split :
          (r : Result A × WorldOf D)
          → m w ≡ r
          → and_then r.0 f r.1 ≡ (ok b, w')
          → (a : A) × (w1 : WorldOf D) × (m w ≡ (ok a, w1)) × (f a w1 ≡ (ok b, w'))
      split (ok a, w1) ran e = (a, w1, ran, e)
      split (raise _, w1) ran e = cc

pub or_raise-eq-ok {ℓ} :
    {D : Type 0} {A : Type ℓ} (o : Option A) (status_code : ℕ) (detail : String) (w : WorldOf D)
    {a : A} {w' : WorldOf D}
    → or_raise o status_code detail w ≡ (ok a, w')
    → (o ≡ some a) × (w' ≡ w)
or_raise-eq-ok none _ _ w e = cc
or_raise-eq-ok (some _) _ _ w e = (cc, cc)

pub raise_if-eq-ok :
    {D : Type 0} (b : Bool) (status_code : ℕ) (detail : String) (w : WorldOf D) {a : Unit {0}}
    {w' : WorldOf D}
    → raise_if b status_code detail w ≡ (ok a, w')
    → (b ≡ false) × (w' ≡ w)
raise_if-eq-ok true _ _ w e = cc
raise_if-eq-ok false _ _ w e = (refl, cc)

-- A fetched row, and the rest of the handler on it.
pub fetch-eq-ok {ℓ κ} :
    {D : Type 0} {A : Type ℓ} {B : Type κ} (f : D → Option A) (status_code : ℕ) (detail : String)
    (k : A → ActionOf D B) (w : WorldOf D) {b : B} {w' : WorldOf D}
    → (fetch f status_code detail >>= k) w ≡ (ok b, w')
    → (a : A) × (f w.working ≡ some a) × (k a w ≡ (ok b, w'))
fetch-eq-ok {D} {A} f status_code detail k w {b} {w'} e = split (f w.working) refl e
  where
    split :
        (o : Option A)
        → f w.working ≡ o
        → (or_raise o status_code detail >>= k) w ≡ (ok b, w')
        → (a : A) × (f w.working ≡ some a) × (k a w ≡ (ok b, w'))
    split none found e = cc
    split (some a) found e = (a, found, e)

-- A guard that passed, and the rest of the handler.
pub guard-eq-ok {κ} :
    {D : Type 0} {B : Type κ} (c : Bool) (status_code : ℕ) (detail : String)
    (k : Unit {0} → ActionOf D B) (w : WorldOf D) {b : B} {w' : WorldOf D}
    → (raise_if c status_code detail >>= k) w ≡ (ok b, w')
    → (c ≡ false) × (k tt w ≡ (ok b, w'))
guard-eq-ok true _ _ k w e = cc
guard-eq-ok false _ _ k w e = (refl, e)

-- A request that succeeds, on the session that it opened.
pub respond-eq-ok {ℓ} :
    {D : Type 0} {A : Type ℓ} (m : ActionOf D A) (w : WorldOf D) {a : A} {w' : WorldOf D}
    → respond m w ≡ (ok a, w')
    → (v : WorldOf D) × (m (record w { working = w.committed }) ≡ (ok a, v))
      × (w' ≡ record v { working = v.committed })
respond-eq-ok {D} {A} m w {a} {w'} e = split (m (record w { working = w.committed })) refl e
  where
    split :
        (r : Result A × WorldOf D)
        → m (record w { working = w.committed }) ≡ r
        → ◌≡◌ {A = Result A × WorldOf D} (r.0, record r.1 { working = r.1.committed }) (ok a, w')
        → (v : WorldOf D) × (m (record w { working = w.committed }) ≡ (ok a, v))
          × (w' ≡ record v { working = v.committed })
    split (ok b, v) ran e = (v, rw ran (cc), cc)
    split (raise _, v) ran e = cc
