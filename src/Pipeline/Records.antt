-- ===== src/Pipeline/Records.antt =====
-- What a persisted scoring leaves in the database.
use sentinel_auth.Prelude.{
  find-eq-some, ℕ, Bool, true, false, ◌≡◌, refl, sym, ap, subst, ◌∙◌, Option, none, some, List, [],
  ◌∷◌, ◌++◌, ◌==◌, nat_eq, is_value, Option-cases, inl, inr, find, find-append_miss,
  find-update_hit, find-update_within, ==_refl, nat_beq_iff, arith,
}
use sentinel_auth.Core.{Uuid, Outside, Result, ok, WorldOf, >>=-eq-ok, Both}
use sentinel_auth.Detection.Tables.{AttemptStatus, RiskLevel, LoginAttempt, Alert}
use sentinel_auth.Policies.Config.{Arithmetic}
use sentinel_auth.Policies.Activation.{Policy}
use sentinel_auth.Pipeline.Features.{Features}
use sentinel_auth.Pipeline.Ml.{MlReply}
use sentinel_auth.Pipeline.Levels.{creates_alert}
use sentinel_auth.Pipeline.Store.{
  RiskAssessment, Store, add_alert, alert_of, update_attempt, assessment_of, find_attempt,
  get_active_policy,
}
use sentinel_auth.Pipeline.Attempt.{
  DetectionResponse, Judgement, decision_for, assessment, save_assessment, response_of,
  score_attempt,
}
use sentinel_auth.Pipeline.Process.{
  new_alert, announce, create_alert, reuse_alert, alert_if, alert_for, put_alert, processed,
  write_verdict, process_attempt,
}
use sentinel_auth.Pipeline.Stable.{score_attempt-Keeps, put_alert-Keeps, save-Keeps}
use sentinel_auth.Pipeline.Replay.{Found, Found-IsStable, by_id}
use sentinel_auth.Pipeline.Verdict.{response_of-eq-ok}

module _ (A : Arithmetic) where
  abbrev W : Type 0
  W = WorldOf (Store A.Number)

  -- The assessment of the attempt says what the judgement says.
  abbrev Assessed : Uuid → Judgement A.Number → Store A.Number → Type 0
  Assessed id v db =
      (s : RiskAssessment A.Number) × (assessment_of (some id) db ≡ some s)
      × (s.risk_level ≡ v.risk_level)
      × (s.decision ≡ decision_for v)
      × (s.combined_score ≡ v.combined)

  save_assessment-Assessed :
      (v : Judgement A.Number) (id : Uuid) (db : Store A.Number)
      → Assessed id v (save_assessment A v id db)
  unfolding save_assessment
  save_assessment-Assessed v id db = elim (Option-cases (assessment_of (some id) db)) [
    | inl missing ↦
        let row = assessment A v id in
        let found : assessment_of (some id)
              (record db { risk_assessments = db.risk_assessments ++ row ∷ [] })
            ≡ some row =
          find-append_miss (λ (r : RiskAssessment A.Number). is_value (some id) r.login_attempt_id)
            db.risk_assessments (row ∷ []) missing
          ∙ (rw (==_refl id)) in
        (row, rw missing found, refl, refl, refl)
    | inr (old, found) ↦
        let row = assessment A v old.login_attempt_id in
        let hit =
          find-update_hit (λ (r : RiskAssessment A.Number). is_value (some id) r.login_attempt_id)
            (λ r. assessment A v r.login_attempt_id) db.risk_assessments (λ r h. h) found in
        (row, rw found hit, refl, refl, refl)
  ]

  module _ (outside : Outside) (ml : ℕ → Uuid → Features A.Number → MlReply A.Number) (id : Uuid)
      (attempt : LoginAttempt) (request_id : Uuid) where
    -- The alert that the answer names, if the level asks for one.
    abbrev Alerted : Judgement A.Number → Option Uuid → Store A.Number → Type 0
    Alerted v answered db =
        creates_alert v.risk_level ≡ true
        → (l : Alert) × (alert_of (some id) db ≡ some l) × (answered ≡ some l.id)

    abbrev AlertStep : Judgement A.Number → W → Result (Option Uuid) × W → Type 0
    AlertStep v w q =
        (answered : Option Uuid) × (w' : W) × (q ≡ (ok answered, w'))
        × (w'.working.risk_assessments ≡ w.working.risk_assessments)
        × Alerted v answered w'.working

    create_alert-AlertStep :
        (v : Judgement A.Number) (w : W)
        → alert_of (some id) w.working ≡ none
        → AlertStep v w (create_alert A outside ml true (some id) attempt request_id v id w)
    unfolding create_alert announce
    create_alert-AlertStep v w missing =
        let alert_id = outside.uuid4 w.calls in
        let row = new_alert A v request_id id alert_id in
        let found : alert_of (some id) (add_alert row w.working) ≡ some row =
          find-append_miss (λ (a : Alert). is_value (some id) a.login_attempt_id)
            w.working.soc.alerts (row ∷ []) missing
          ∙ (rw (==_refl id)) in
        (some alert_id, _, refl, refl, λ _. (row, found, refl))

    alert_for-AlertStep :
        (v : Judgement A.Number) (w : W) (found : Option Alert)
        → alert_of (some id) w.working ≡ found
        → AlertStep v w (alert_for A outside ml true (some id) attempt request_id v found w)
    unfolding reuse_alert
    alert_for-AlertStep v w (some alert) e = (some alert.id, _, refl, refl, λ _. (alert, e, refl))
    alert_for-AlertStep v w none e = asked (creates_alert v.risk_level) refl
      where
        asked :
            (b : Bool)
            → creates_alert v.risk_level ≡ b
            → AlertStep v w
                (alert_if A outside ml true (some id) attempt request_id v b true (some id) w)
        asked true h = create_alert-AlertStep v w e
        asked false h = (none, _, refl, refl, λ yes. cc)

    -- The row of the attempt after the last write.
    processed-row :
        (v : Judgement A.Number) (db : Store A.Number)
        → Found A (by_id id) id db
        → (a : LoginAttempt) × (find_attempt id (
              update_attempt
                (some id)
                (processed A outside ml true (some id) attempt request_id v)
                db)
            ≡ some a)
          × (a.status ≡ AttemptStatus.processed)
          × (a.risk_level ≡ some v.risk_level)
          × (a.detection_decision ≡ some (decision_for v))
    processed-row v db (a, found, own) = (
      processed A outside ml true (some id) attempt request_id v a,
      find-update_within (λ (b : LoginAttempt). b.id == id) (λ b. is_value (some id) b.id)
          (processed A outside ml true (some id) attempt request_id v) db.soc.login_attempts
          (λ b h. ground arith) (λ b. refl) found,
      refl,
      refl,
      refl,
    )

    -- What the attempt, its assessment and its alert say after a scoring that has answered.
    abbrev pub Recorded : DetectionResponse A.Number → Store A.Number → Type 0
    Recorded r db =
        ((a : LoginAttempt) × (find_attempt id db ≡ some a)
          × (a.status ≡ AttemptStatus.processed)
          × (a.risk_level ≡ some r.risk_level)
          × (a.detection_decision ≡ some r.decision))
        × ((s : RiskAssessment A.Number) × (assessment_of (some id) db ≡ some s)
            × (s.risk_level ≡ r.risk_level)
            × (s.decision ≡ r.decision))
        × (creates_alert r.risk_level ≡ true
            → (l : Alert) × (alert_of (some id) db ≡ some l) × (r.alert_id ≡ some l.id))

    write_verdict-Recorded :
        (v : Judgement A.Number) (w : W) {r : DetectionResponse A.Number} {w' : W}
        → Both (Found A (by_id id) id) w
        → write_verdict A outside ml true (some id) attempt request_id v w ≡ (ok r, w')
        → Recorded r w'.committed
    unfolding write_verdict put_alert
    write_verdict-Recorded v w {r} {w'} there ran =
        let w1 : W = record w { working = save_assessment A v id w.working } in
        let stable = Found-IsStable A (by_id id) id in
        let there1 =
          (save-Keeps A stable outside ml true (some id) attempt request_id v true (some id)).at w
            there in
        let (answered, w2, put, same, alerted) =
          alert_for-AlertStep v w1 (alert_of (some id) w1.working) refl in
        let there2 : Found A (by_id id) id w2.working =
          subst (λ (q : Result (Option Uuid) × W). Found A (by_id id) id q.1.working) put
            ((put_alert-Keeps A stable outside ml true (some id) attempt request_id v).at w1
              there1).1 in
        let written =
          update_attempt (some id) (processed A outside ml true (some id) attempt request_id v)
            w2.working in
        let w3 : W = record w2 { committed = written; working = written } in
        let ended : ◌≡◌ {A = Result (DetectionResponse A.Number) × W} (response_of A v answered, w3)
            (ok r, w') =
          rw put at ran in
        let (level, decided, named) =
          response_of-eq-ok A v answered
            (ap (λ (q : Result (DetectionResponse A.Number) × W). q.0) ended) in
        let (a, row, status, a_level, a_decision) = processed-row v w2.working there2 in
        let (s, saved, s_level, s_decision, _) = save_assessment-Assessed v id w.working in
        let kept =
          subst
            (λ (rows : List (RiskAssessment A.Number)).
              find (λ (q : RiskAssessment A.Number). is_value (some id) q.login_attempt_id) rows
              ≡ some s)
            (sym same) saved in
        subst (λ (d : Store A.Number). Recorded r d)
          (ap (λ (q : Result (DetectionResponse A.Number) × W). q.1.committed) ended)
          (
            (a, row, status, a_level ∙ ap some (sym level), a_decision ∙ ap some (sym decided)),
            (s, kept, s_level ∙ sym level, s_decision ∙ sym decided),
            λ yes.
                let (l, alert, own) =
                  alerted (subst (λ (x : RiskLevel). creates_alert x ≡ true) level yes) in
                (l, alert, named ∙ own),
          )

    -- When the scoring of a stored attempt answers, with a policy in force, the committed database has
    -- the attempt as processed with the level and the decision of the answer, an assessment of the
    -- attempt with the same level and decision, and for a high or critical level an alert of the
    -- attempt, the one that the answer names.
    pub process_attempt-Recorded :
        (w : WorldOf (Store A.Number)) {policy : Policy A.Number} {r : DetectionResponse A.Number}
        {w' : WorldOf (Store A.Number)} {a b : LoginAttempt}
        → get_active_policy w.working ≡ some policy
        → find_attempt id w.working ≡ some a
        → find_attempt id w.committed ≡ some b
        → process_attempt A outside ml true (some id) attempt request_id w ≡ (ok r, w')
        → Recorded r w'.committed
    unfolding process_attempt
    process_attempt-Recorded w {policy} {r} {w'} {a} {b} active seen stored ran =
        let stable = Found-IsStable A (by_id id) id in
        let own = λ (db : Store A.Number) (c : LoginAttempt) (found : find_attempt id db ≡ some c).
          (nat_beq_iff c.id id).0
            (find-eq-some (λ (d : LoginAttempt). d.id == id) db.soc.login_attempts found) in
        let there : Both (Found A (by_id id) id) w =
          ((b, stored, own w.committed b stored), (a, seen, own w.working a seen)) in
        let (v, w1, scored, rest) =
          >>=-eq-ok (score_attempt A outside ml true (some id) attempt request_id policy) _ w
            (rw active at ran) in
        let kept =
          (score_attempt-Keeps A stable outside ml true (some id) attempt request_id policy).at w
            there in
        write_verdict-Recorded v w1
          (subst (λ (q : Result (Judgement A.Number) × W). Both (Found A (by_id id) id) q.1) scored
            kept)
          rest
