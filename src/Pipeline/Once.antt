-- ===== src/Pipeline/Once.antt =====
-- One row for each event, and one assessment and one alert for each attempt.
use sentinel_auth.Prelude.{
  update, ◌≤◌, Bool, ◌≡◌, refl, none, some, List, [], ◌∷◌, ◌++◌, ◌==◌, nat_eq, nat_beq_iff, count,
  find, Bool-cases, Option-cases, inl, inr, is_value, count-append, count-update, count-eq-zero,
  arith,
}
use mathlib.Core.Path.{fun_ext}
use sentinel_auth.Core.{Uuid, Outside, WorldOf}
use sentinel_auth.Detection.Tables.{LoginAttempt, Alert}
use sentinel_auth.Policies.Config.{Arithmetic}
use sentinel_auth.Pipeline.Store.{RiskAssessment, Store, assessment_of}
use sentinel_auth.Pipeline.Attempt.{Judgement, save_assessment}
use sentinel_auth.Pipeline.Stable.{IsStable}
use sentinel_auth.Pipeline.Runs.{Served, serve_all, serve_all-Stable}

-- At most one row has the key.
abbrev pub UniqueBy : {R : Type 0} → (R → Uuid) → List R → Type 0
UniqueBy key rows = (k : Uuid) → count (λ r. key r == k) rows ≤ 1

beq_comm : (a b : Uuid) → (a == b) ≡ (b == a)
beq_comm a b = ground arith

module _ {R : Type 0} (key : R → Uuid) where
  -- A look-up `value == column` that finds nothing.
  none_of :
      (k : Uuid) (rows : List R)
      → find (λ r. k == key r) rows ≡ none
      → count (λ r. key r == k) rows ≡ 0
  none_of k rows e =
      rw (fun_ext (λ (r : R). beq_comm (key r) k)) (count-eq-zero (λ r. k == key r) rows e)

  append-UniqueBy :
      (rows : List R) (row : R)
      → count (λ r. key r == key row) rows ≡ 0
      → UniqueBy key rows
      → UniqueBy key (rows ++ row ∷ [])
  append-UniqueBy rows row fresh unique k = elim (Bool-cases (key row == k)) [
    | inl same ↦
        let here : count (λ r. key r == k) rows ≡ 0 =
          rw ((nat_beq_iff (key row) k).0 same) at fresh in
        rw (count-append (λ r. key r == k) rows (row ∷ []), same, here) (omega arith)
    | inr other ↦
        rw (count-append (λ r. key r == k) rows (row ∷ []), other) (omega (arith, unique k))
  ]

  update-UniqueBy :
      (q : R → Bool) (f : R → R) (rows : List R)
      → ((r : R) → key (f r) ≡ key r)
      → UniqueBy key rows
      → UniqueBy key (update q f rows)
  update-UniqueBy q f rows keep unique k =
      rw (count-update (λ r. key r == k) q f rows (λ r. rw (keep r))) (unique k)

module _ (A : Arithmetic) where
  pub record Once (db : Store A.Number) : Type 0 where
    pub events : UniqueBy (λ (a : LoginAttempt). a.event_id) db.soc.login_attempts
    pub assessments :
        UniqueBy (λ (r : RiskAssessment A.Number). r.login_attempt_id) db.risk_assessments
    pub alerts : UniqueBy (λ (a : Alert). a.login_attempt_id) db.soc.alerts

  save_assessment-UniqueBy :
      (v : Judgement A.Number) (id : Uuid) (db : Store A.Number)
      → UniqueBy (λ (r : RiskAssessment A.Number). r.login_attempt_id) db.risk_assessments
      → UniqueBy
          (λ (r : RiskAssessment A.Number). r.login_attempt_id)
          (save_assessment A v id db).risk_assessments
  unfolding save_assessment
  save_assessment-UniqueBy v id db h =
      let key = λ (r : RiskAssessment A.Number). r.login_attempt_id in
      elim (Option-cases (assessment_of (some id) db)) [
        | inl fresh ↦
            rw fresh (
              append-UniqueBy key db.risk_assessments _ (none_of key id db.risk_assessments fresh)
                h)
        | inr (old, found) ↦ rw found (update-UniqueBy key _ _ db.risk_assessments (λ r. refl) h)
      ]

  pub save_assessment-soc :
      (v : Judgement A.Number) (id : Uuid) (db : Store A.Number)
      → (save_assessment A v id db).soc ≡ db.soc
  unfolding save_assessment
  save_assessment-soc v id db = elim (Option-cases (assessment_of (some id) db)) [
    | inl fresh ↦ rw fresh
    | inr (old, found) ↦ rw found
  ]

  Once-IsStable : IsStable A Once
  Once-IsStable = record {
    logged =
        λ row db h. record { events = h.events; assessments = h.assessments; alerts = h.alerts };
    assigned = λ key f db keep h. record {
      events =
          update-UniqueBy (λ (a : LoginAttempt). a.event_id) (λ a. is_value key a.id) f
            db.soc.login_attempts keep.same_event h.events;
      assessments = h.assessments;
      alerts = h.alerts;
    };
    assessed = λ v id db h. record {
      events = rw (save_assessment-soc v id db) h.events;
      assessments = save_assessment-UniqueBy v id db h.assessments;
      alerts = rw (save_assessment-soc v id db) h.alerts;
    };
    alerted = λ alert db fresh h. record {
      events = h.events;
      assessments = h.assessments;
      alerts =
          append-UniqueBy (λ (a : Alert). a.login_attempt_id) db.soc.alerts alert
            (none_of (λ (a : Alert). a.login_attempt_id) alert.login_attempt_id db.soc.alerts fresh)
            h.alerts;
    };
    told = λ row db h. record { events = h.events; assessments = h.assessments; alerts = h.alerts };
    inserted = λ row db fresh h. record {
      events =
          append-UniqueBy (λ (a : LoginAttempt). a.event_id) db.soc.login_attempts row
            (count-eq-zero (λ a. a.event_id == row.event_id) db.soc.login_attempts fresh) h.events;
      assessments = h.assessments;
      alerts = h.alerts;
    };
  }

  -- Over any run of deliveries, sweeps and checks, with any answers of the ML service and of Core, and
  -- with deliveries that race each other: an event has one attempt at most, and an attempt has one
  -- assessment and one alert at most, if it was so before.
  pub serve_all-Once :
      (outside : Outside) (requests : List (Served A outside)) (w : WorldOf (Store A.Number))
      → Once w.committed
      → Once (serve_all A outside requests w).committed
  serve_all-Once outside requests w h = serve_all-Stable A outside Once-IsStable requests w h
