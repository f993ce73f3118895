-- ===== src/Pipeline/Replay.antt =====
-- A repeated delivery of an event.
use sentinel_auth.Prelude.{
  if◌then◌else◌, Bool, true, false, ◌≡◌, refl, ◌∙◌, some, List, [], ◌∷◌, ◌==◌, nat_eq, find, update,
  Bool-cases, inl, inr, is_value, find-append_hit,
}
use sentinel_auth.Core.{Uuid}
use sentinel_auth.Detection.Tables.{LoginAttempt}
use sentinel_auth.Policies.Config.{Arithmetic}
use sentinel_auth.Pipeline.Store.{Store}
use sentinel_auth.Pipeline.Stable.{KeepsIdentity, IsStable}
use sentinel_auth.Pipeline.Once.{save_assessment-soc}

-- A row that a query finds is still found after an update that leaves the filter alone.
find-update_kept :
    {R : Type 0} (p q : R → Bool) (f : R → R) (rows : List R)
    → ((r : R) → p (f r) ≡ p r)
    → {row : R} → find p rows ≡ some row
    → find p (update q f rows) ≡ some (if q row then f row else row)
find-update_kept p q f [] keep e = cc
find-update_kept p q f (r ∷ rows) keep {row} e = elim (Bool-cases (p r)) [
  | inl hit ↦
      let same : r ≡ row = cc (rw hit at e) in
      elim (Bool-cases (q r)) [
        | inl t ↦ rw (t, keep r, hit, ← same, t)
        | inr t ↦ rw (t, hit, ← same, t)
      ]
  | inr miss ↦
      let later = find-update_kept p q f rows keep (rw miss at e) in
      elim (Bool-cases (q r)) [ inl t ↦ rw (t, keep r, miss) later | inr t ↦ rw (t, miss) later ]
]

abbrev pub by_event : Uuid → Uuid → Uuid → Bool
by_event wanted event_id id = event_id == wanted

abbrev pub by_id : Uuid → Uuid → Uuid → Bool
by_id wanted event_id id = id == wanted

module _ (A : Arithmetic) where
  -- An attempt with the identifier is what a look-up by event and identifier finds.
  abbrev pub Found : (Uuid → Uuid → Bool) → Uuid → Store A.Number → Type 0
  Found test id db =
      (a : LoginAttempt) × (find (λ (a : LoginAttempt). test a.event_id a.id) db.soc.login_attempts
        ≡ some a)
      × (a.id ≡ id)

  pub Found-IsStable : (test : Uuid → Uuid → Bool) (id : Uuid) → IsStable A (Found test id)
  Found-IsStable test id = record {
    logged = λ row db h. h;
    assigned = λ key f db keep h. (
      if is_value key h.0.id then f h.0 else h.0,
      find-update_kept (λ (a : LoginAttempt). test a.event_id a.id) (λ a. is_value key a.id) f
          db.soc.login_attempts (λ a. rw (keep.same_event a, keep.same_id a)) h.1,
      same f keep h.0 (is_value key h.0.id) ∙ h.2,
    );
    assessed = λ v i db h. rw (save_assessment-soc A v i db) h;
    alerted = λ alert db fresh h. h;
    told = λ row db h. h;
    inserted = λ row db fresh h. (
      h.0,
      find-append_hit (λ (a : LoginAttempt). test a.event_id a.id) db.soc.login_attempts (row ∷ [])
          h.1,
      h.2,
    );
  }
    where
      same :
          (f : LoginAttempt → LoginAttempt)
          → KeepsIdentity f
          → (a : LoginAttempt) (b : Bool) → (if b then f a else a).id ≡ a.id
      same f keep a true = keep.same_id a
      same f keep a false = refl
