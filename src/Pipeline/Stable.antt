-- ===== src/Pipeline/Stable.antt =====
-- What the scoring of an attempt keeps: a property of the database that holds after each of the
-- writes that it makes holds after all of it.
use sentinel_auth.Prelude.{
  ℕ, ◌+◌, Bool, true, false, ◌≡◌, refl, Option, none, some, List, [], ◌∷◌, Bool-cases, inl, inr,
}
use sentinel_auth.Core.{
  Uuid, Outside, WorldOf, pure, call, Both, Keeps, Keeps-pure, Keeps-lift, Keeps-query, Keeps-call,
  Keeps-change, Keeps-commit, Keeps-rollback, Keeps-when, Keeps-bind, Keeps-query_bind,
  is_internal_auth_configured,
}
use sentinel_auth.Detection.Tables.{LoginAttempt, Alert, AlertTimeline}
use sentinel_auth.Policies.Config.{Json, Arithmetic, Problem, resolve_config}
use sentinel_auth.Policies.Activation.{Policy}
use sentinel_auth.Pipeline.Features.{Features, build_features}
use sentinel_auth.Pipeline.Evaluation.{RuleHit, RuleProblem, Evaluation, evaluate_rules}
use sentinel_auth.Pipeline.Ml.{MlOutcome, MlReply, outcome_of_response, call_ml_service}
use sentinel_auth.Pipeline.Levels.{creates_alert}
use sentinel_auth.Pipeline.Store.{
  DetectionLog, Store, add_log, add_attempt, add_alert, add_timeline, update_attempt, find_event,
  alert_of,
}
use sentinel_auth.Pipeline.Attempt.{
  Judgement, response_of, judge, ml_row, verdict_row, log, log_config, log_hits, log_problems,
  score_attempt, save_assessment,
}
use sentinel_auth.Pipeline.Process.{
  new_alert, created_entry, created_row, reused_row, announce, link_alert, create_alert,
  reuse_alert, alert_if, alert_for, put_alert, save, finish, write_verdict, without_policy,
  with_policy, process_attempt,
}

-- An assignment that leaves the identifier and the event of an attempt alone.
pub record KeepsIdentity (f : LoginAttempt → LoginAttempt) : Type 0 where
  pub same_id : (a : LoginAttempt) → (f a).id ≡ a.id
  pub same_event : (a : LoginAttempt) → (f a).event_id ≡ a.event_id

module _ (A : Arithmetic) where
  pub record IsStable (P : Store A.Number → Type 0) : Type 0 where
    pub logged : (row : DetectionLog A.Number) (db : Store A.Number) → P db → P (add_log row db)
    pub assigned :
        (key : Option Uuid) (f : LoginAttempt → LoginAttempt) (db : Store A.Number)
        → KeepsIdentity f
        → P db
        → P (update_attempt key f db)
    pub assessed :
        (v : Judgement A.Number) (id : Uuid) (db : Store A.Number)
        → P db
        → P (save_assessment A v id db)
    pub alerted :
        (alert : Alert) (db : Store A.Number)
        → alert_of (some alert.login_attempt_id) db ≡ none
        → P db
        → P (add_alert alert db)
    pub told : (row : AlertTimeline) (db : Store A.Number) → P db → P (add_timeline row db)
    pub inserted :
        (row : LoginAttempt) (db : Store A.Number)
        → find_event row.event_id db ≡ none
        → P db
        → P (add_attempt row db)

  module _ {P : Store A.Number → Type 0} (stable : IsStable P) where
    module _ (outside : Outside) (ml : ℕ → Uuid → Features A.Number → MlReply A.Number)
        (persist : Bool) (key : Option Uuid) (attempt : LoginAttempt) (request_id : Uuid) where
      log-Keeps :
          (row : DetectionLog A.Number)
          → Keeps P (log A outside ml persist key attempt request_id row)
      log-Keeps row = Keeps-when persist _ (Keeps-change _ (stable.logged row))

      log_config-Keeps :
          (problems : List Problem)
          → Keeps P (log_config A outside ml persist key attempt request_id problems)
      unfolding log_config
      log_config-Keeps [] = Keeps-pure tt
      log_config-Keeps (_ ∷ rest) = Keeps-bind _ _ (log-Keeps _) (λ _. log_config-Keeps rest)

      log_hits-Keeps :
          (features : Features A.Number) (rules : Json A.Number) (hits : List (RuleHit A.Number))
          → Keeps P (log_hits A outside ml persist key attempt request_id features rules hits)
      unfolding log_hits
      log_hits-Keeps features rules [] = Keeps-pure tt
      log_hits-Keeps features rules (hit ∷ rest) =
          Keeps-bind _ _ (Keeps-lift _)
            (λ value. Keeps-bind _ _ (log-Keeps _) (λ _. log_hits-Keeps features rules rest))

      log_problems-Keeps :
          (problems : List (RuleProblem A.Number))
          → Keeps P (log_problems A outside ml persist key attempt request_id problems)
      unfolding log_problems
      log_problems-Keeps [] = Keeps-pure tt
      log_problems-Keeps (_ ∷ rest) = Keeps-bind _ _ (log-Keeps _) (λ _. log_problems-Keeps rest)

      call_ml_service-Keeps :
          (features : Features A.Number)
          → Keeps P (call_ml_service A outside ml features request_id)
      unfolding call_ml_service
      call_ml_service-Keeps features = elim (Bool-cases (is_internal_auth_configured outside)) [
        | inl on ↦ rw on (
            Keeps-bind (call (λ n. ml n request_id features))
              (λ reply. pure (outcome_of_response A reply)) (Keeps-call _)
              (λ reply. Keeps-pure (outcome_of_response A reply)))
        | inr off ↦ rw off (Keeps-pure _)
      ]

      pub score_attempt-Keeps :
          (policy : Policy A.Number)
          → Keeps P (score_attempt A outside ml persist key attempt request_id policy)
      unfolding score_attempt
      score_attempt-Keeps policy =
          let config = (resolve_config A policy.config).0 in
          Keeps-bind _ _ (log_config-Keeps (resolve_config A policy.config).1) (λ _.
            Keeps-bind _ _ (Keeps-query (λ db. build_features A attempt db.soc.login_attempts))
              (λ (features : Features A.Number).
                Keeps-bind _ _ (Keeps-lift (evaluate_rules A policy.rules features))
                  (λ (evaluation : Evaluation A.Number).
                    Keeps-bind _ _ (log_hits-Keeps features policy.rules evaluation.hits) (λ _.
                      Keeps-bind _ _ (log_problems-Keeps evaluation.problems) (λ _.
                        Keeps-bind _ _ (call_ml_service-Keeps features)
                          (λ (outcome : MlOutcome A.Number).
                            let verdict =
                              judge A outside ml persist key attempt request_id policy features
                                config evaluation outcome in
                            Keeps-bind _ _
                              (log-Keeps
                                (ml_row A outside ml persist key attempt request_id outcome))
                              (λ _.
                                Keeps-bind _ _
                                  (log-Keeps (
                                    verdict_row A outside ml persist key attempt request_id
                                      verdict))
                                  (λ _. Keeps-pure verdict))))))))

      link_alert-Keeps :
          (id : Uuid) → Keeps P (link_alert A outside ml persist key attempt request_id id)
      link_alert-Keeps id = Keeps-change _ (λ db.
          stable.assigned key (λ a. record a { primary_alert_id = some id }) db
            (record { same_id = λ a. refl; same_event = λ a. refl }))

      announce-Keeps :
          (v : Judgement A.Number) (id : Uuid)
          → Keeps P (announce A outside ml persist key attempt request_id v id)
      unfolding announce
      announce-Keeps v id = Keeps-bind _ _ (link_alert-Keeps id) (λ _.
          Keeps-bind _ _ (Keeps-change _ (stable.told (created_entry A v id))) (λ _.
            Keeps-bind _ _ (log-Keeps (created_row A outside ml persist key attempt request_id v))
              (λ _. Keeps-pure (some id))))

      create_alert-at :
          (v : Judgement A.Number) (attempt_id : Uuid) (w : WorldOf (Store A.Number))
          → alert_of (some attempt_id) w.working ≡ none
          → Both P w
          → Both P (create_alert A outside ml persist key attempt request_id v attempt_id w).1
      unfolding create_alert
      create_alert-at v attempt_id w fresh h =
          let id = outside.uuid4 w.calls in
          let row = new_alert A v request_id attempt_id id in
          (announce-Keeps v id).at
            (record w { working = add_alert row w.working; calls = w.calls + 1 })
            (h.0, stable.alerted row w.working fresh h.1)

      reuse_alert-Keeps :
          (v : Judgement A.Number) (alert : Alert)
          → Keeps P (reuse_alert A outside ml persist key attempt request_id v alert)
      unfolding reuse_alert
      reuse_alert-Keeps v alert = Keeps-bind _ _ (link_alert-Keeps alert.id) (λ _.
          Keeps-bind _ _ (log-Keeps (reused_row A outside ml persist key attempt request_id v))
            (λ _. Keeps-pure (some alert.id)))

      alert_if-at :
          (v : Judgement A.Number) (create save : Bool) (id : Option Uuid)
          (w : WorldOf (Store A.Number))
          → alert_of id w.working ≡ none
          → Both P w
          → Both P (alert_if A outside ml persist key attempt request_id v create save id w).1
      alert_if-at v true true (some id) w fresh h = create_alert-at v id w fresh h
      alert_if-at v true true none w fresh h = h
      alert_if-at v true false id w fresh h = h
      alert_if-at v false save id w fresh h =
          (Keeps-bind (log A outside ml persist key attempt request_id _) _ (log-Keeps _)
              (λ _. Keeps-pure none)).at
            w h

      alert_for-at :
          (v : Judgement A.Number) (w : WorldOf (Store A.Number)) (found : Option Alert)
          → alert_of key w.working ≡ found
          → Both P w
          → Both P (alert_for A outside ml persist key attempt request_id v found w).1
      alert_for-at v w (some alert) e h = (reuse_alert-Keeps v alert).at w h
      alert_for-at v w none e h = alert_if-at v (creates_alert v.risk_level) persist key w e h

      pub save-Keeps :
          (v : Judgement A.Number) (b : Bool) (id : Option Uuid)
          → Keeps P (save A outside ml persist key attempt request_id v b id)
      save-Keeps v true (some id) = Keeps-change _ (stable.assessed v id)
      save-Keeps v true none = Keeps-pure tt
      save-Keeps v false id = Keeps-pure tt

      finish-Keeps :
          (v : Judgement A.Number) (b : Bool)
          → Keeps P (finish A outside ml persist key attempt request_id v b)
      finish-Keeps v true =
          Keeps-bind _ _
            (Keeps-change _ (λ db.
              stable.assigned key _ db (record { same_id = λ a. refl; same_event = λ a. refl })))
            (λ _. Keeps-commit)
      finish-Keeps v false = Keeps-rollback

      pub put_alert-Keeps :
          (v : Judgement A.Number)
          → Keeps P (put_alert A outside ml persist key attempt request_id v)
      unfolding put_alert
      put_alert-Keeps v =
          Keeps-query_bind (alert_of key) (alert_for A outside ml persist key attempt request_id v)
            (λ w h. alert_for-at v w (alert_of key w.working) refl h)

      write_verdict-Keeps :
          (v : Judgement A.Number)
          → Keeps P (write_verdict A outside ml persist key attempt request_id v)
      unfolding write_verdict
      write_verdict-Keeps v = Keeps-bind _ _ (save-Keeps v persist key) (λ _.
          Keeps-bind _ _ (put_alert-Keeps v) (λ (alert_id : Option Uuid).
            Keeps-bind _ _ (finish-Keeps v persist) (λ _. Keeps-lift (response_of A v alert_id))))

      without_policy-Keeps : Keeps P (without_policy A outside ml persist key attempt request_id)
      unfolding without_policy
      without_policy-Keeps = Keeps-bind _ _ (log-Keeps _) (λ _.
          Keeps-bind _ _
            (Keeps-when persist _ (
              Keeps-bind _ _
                (Keeps-change _ (λ db.
                  stable.assigned key _ db
                    (record { same_id = λ a. refl; same_event = λ a. refl })))
                (λ _. Keeps-commit)))
            (λ _. Keeps-pure _))

      with_policy-Keeps :
          (policy : Option (Policy A.Number))
          → Keeps P (with_policy A outside ml persist key attempt request_id policy)
      with_policy-Keeps none = without_policy-Keeps
      with_policy-Keeps (some policy) =
          Keeps-bind _ _ (score_attempt-Keeps policy) write_verdict-Keeps

      pub process_attempt-Keeps :
          Keeps P (process_attempt A outside ml persist key attempt request_id)
      unfolding process_attempt
      process_attempt-Keeps = Keeps-bind _ _ (Keeps-query _) with_policy-Keeps
