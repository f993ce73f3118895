-- ===== src/Core/Request.antt =====
-- One request: a handler runs over a database session and may raise. `working` is the session's
-- view with its uncommitted changes; closing the session (app/db.py, get_core_db) drops them.
use sentinel_auth.Prelude.{
  ℕ, ◌+◌, String, Bool, true, false, ◌≡◌, refl, Option, none, some, List, ◌∷◌,
}
use sentinel_auth.Core.Tables.{Time, Uuid, Db}

-- app/auth.py, LoginEvent. `outcome` is one of the texts that the handlers pass.
pub record LoginEvent : Type 0 where
  pub event_id : Uuid
  pub request_id : Uuid
  pub user_id : Option Uuid
  pub username_attempted : String
  pub outcome : String
  pub mfa_used : Bool
  pub ip_address : Option String
  pub user_agent : Option String
  pub timestamp : Time
  pub device_fingerprint : Option String

-- An HTTPException, or an exception that the handler lets escape.
pub data Error : Type 0 where
  http : (status_code : ℕ) (detail : String) → Error
  unhandled : (exception : String) → Error

pub data Result {ℓ} (A : Type ℓ) : Type ℓ where
  ok : A → Result A
  raise : Error → Result A

-- `calls` counts the calls of the outside world, `posted` holds the events posted to Detection,
-- the latest first.
pub record WorldOf (D : Type 0) : Type 0 where
  pub committed : D
  pub working : D
  pub calls : ℕ
  pub posted : List LoginEvent

abbrev pub ActionOf {ℓ} : Type 0 → Type ℓ → Type ℓ
ActionOf D A = WorldOf D → Result A × WorldOf D

abbrev pub World : Type 0
World = WorldOf Db

abbrev pub Action {ℓ} : Type ℓ → Type ℓ
Action A = ActionOf Db A

module _ {ℓ} {D : Type 0} {A : Type ℓ} where
  abbrev pub pure : A → ActionOf D A
  pure a w = (ok a, w)

  abbrev pub throw : Error → ActionOf D A
  throw e w = (raise e, w)

  abbrev pub and_then {κ} : {B : Type κ} → Result A → (A → ActionOf D B) → ActionOf D B
  and_then (ok a) f w = f a w
  and_then (raise e) f w = (raise e, w)

  pub and_then-eq-ok {κ} :
      {B : Type κ} (r : Result A) (f : A → ActionOf D B) (w : WorldOf D) {b : B} {w' : WorldOf D}
      → and_then r f w ≡ (ok b, w')
      → (a : A) × (r ≡ ok a) × (f a w ≡ (ok b, w'))
  and_then-eq-ok (ok a) f w e = (a, refl, e)
  and_then-eq-ok (raise _) f w e = cc

infixl 5 ◌>>=◌ ◌>>◌
abbrev pub ◌>>=◌ {ℓ κ} :
    {D : Type 0} {A : Type ℓ} {B : Type κ} → ActionOf D A → (A → ActionOf D B) → ActionOf D B
◌>>=◌ m f w = let (r, w') = m w in and_then r f w'

abbrev pub ◌>>◌ {ℓ κ} :
    {D : Type 0} {A : Type ℓ} {B : Type κ} → ActionOf D A → ActionOf D B → ActionOf D B
m >> k = m >>= λ _. k

abbrev pub raise_if : {D : Type 0} → Bool → ℕ → String → ActionOf D (Unit {0})
raise_if true status_code detail = throw (http status_code detail)
raise_if false _ _ = pure tt

-- A row, or `raise HTTPException(...)` when there is none.
abbrev pub or_raise {ℓ} : {D : Type 0} {A : Type ℓ} → Option A → ℕ → String → ActionOf D A
or_raise none status_code detail = throw (http status_code detail)
or_raise (some a) _ _ = pure a

abbrev pub query {ℓ} : {D : Type 0} {A : Type ℓ} → (D → A) → ActionOf D A
query f w = (ok (f w.working), w)

-- `.first()`, and `raise HTTPException(...)` when there is no row.
abbrev pub fetch {ℓ} : {D : Type 0} {A : Type ℓ} → (D → Option A) → ℕ → String → ActionOf D A
fetch f status_code detail w = or_raise (f w.working) status_code detail w

abbrev pub change : {D : Type 0} → (D → D) → ActionOf D (Unit {0})
change f w = (ok tt, record w { working = f w.working })

abbrev pub commit : {D : Type 0} → ActionOf D (Unit {0})
commit w = (ok tt, record w { committed = w.working })

-- `db.rollback()`
abbrev pub rollback : {D : Type 0} → ActionOf D (Unit {0})
rollback w = (ok tt, record w { working = w.committed })

-- The value of a computation that may raise.
abbrev pub lift {ℓ} : {D : Type 0} {A : Type ℓ} → Result A → ActionOf D A
lift r w = (r, w)

abbrev pub when : {D : Type 0} → Bool → ActionOf D (Unit {0}) → ActionOf D (Unit {0})
when true m = m
when false m = pure tt

-- The rest of a handler after `try: ... except Exception: ... else: ...`, with what the body raised
-- or returned.
abbrev pub attempted {ℓ} : {D : Type 0} {A : Type ℓ} → ActionOf D A → ActionOf D (Result A)
attempted m w = let (r, w') = m w in (ok r, w')

-- One call of the outside world.
abbrev pub call {ℓ} : {D : Type 0} {A : Type ℓ} → (ℕ → A) → ActionOf D A
call f w = (ok (f w.calls), record w { calls = w.calls + 1 })

abbrev pub post_event : {D : Type 0} → LoginEvent → ActionOf D (Unit {0})
post_event e w = (ok tt, record w { posted = e ∷ w.posted })

-- The handler as the client sees it: its session opens on what is committed and is closed at the
-- end, so what was not committed is lost.
abbrev pub respond {ℓ} : {D : Type 0} {A : Type ℓ} → ActionOf D A → WorldOf D → Result A × WorldOf D
respond m w =
    let (r, w') = m (record w { working = w.committed }) in
    (r, record w' { working = w'.committed })
