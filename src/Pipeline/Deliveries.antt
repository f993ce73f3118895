-- ===== src/Pipeline/Deliveries.antt =====
-- What the delivery of an event and the request to Core keep.
use sentinel_auth.Prelude.{
  ℕ, String, Bool, true, false, refl, Option, none, some, Bool-cases, Option-cases, inl, inr,
  contains, string_eq,
}
use sentinel_auth.Core.{
  Uuid, Outside, Result, ok, raise, unhandled, WorldOf, pure, call, Both, Keeps, Keeps-pure,
  Keeps-lift, Keeps-query, Keeps-call, Keeps-attempted, Keeps-change, Keeps-commit, Keeps-rollback,
  Keeps-bind, query, is_internal_auth_configured, verify_internal_secret-Keeps,
}
use sentinel_auth.Actions.{ActionRequest}
use sentinel_auth.Detection.Tables.{LoginAttempt, RiskLevel}
use sentinel_auth.Detection.Client.{
  CoreReply, ActionOutcome, enforced, outcome_of_reply, enforce_action_in_core_detailed,
}
use sentinel_auth.Policies.Config.{Arithmetic, Fields, end, field}
use sentinel_auth.Policies.Rules.{allowed_features}
use sentinel_auth.Pipeline.Features.{Features}
use sentinel_auth.Pipeline.Ml.{MlReply}
use sentinel_auth.Pipeline.Store.{Store, find_event, find_attempt}
use sentinel_auth.Pipeline.Attempt.{DetectionResponse}
use sentinel_auth.Pipeline.Enforcement.{
  outcome_row, record_action_outcome, send, protective_request, enforce_action_in_core,
}
use sentinel_auth.Pipeline.Events.{
  LoginEventRequest, accepted, lost_race, fail_attempt, engine_error, supplied_row, admit,
  insert_attempt, insert_unique, fits_inet, log_fields, log_supplied, park_failed, or_uuid,
  attempt_row, current, enforce_or_park, score_event, after_insert, deliver_if, receive_login_event,
}
use sentinel_auth.Pipeline.Stable.{IsStable, process_attempt-Keeps}

module _ (A : Arithmetic) (outside : Outside) where
  module _ {P : Store A.Number → Type 0} (stable : IsStable A P) where
    module _ (core : ℕ → ActionRequest → CoreReply) where
      enforce_detailed-Keeps :
          (request : ActionRequest) → Keeps P (enforce_action_in_core_detailed outside core request)
      unfolding enforce_action_in_core_detailed
      enforce_detailed-Keeps request = elim (Bool-cases (is_internal_auth_configured outside)) [
        | inl on ↦ rw on (
            Keeps-bind (call (λ n. core n request)) (λ reply. pure (outcome_of_reply reply))
              (Keeps-call _) (λ reply. Keeps-pure (outcome_of_reply reply)))
        | inr off ↦ rw off (Keeps-pure _)
      ]

      send-Keeps :
          (attempt : LoginAttempt) (request : Option ActionRequest)
          → Keeps P (send outside core attempt request)
      unfolding record_action_outcome
      send-Keeps attempt none = Keeps-pure false
      send-Keeps attempt (some request) =
          Keeps-bind _ _ (enforce_detailed-Keeps request) (λ (outcome : ActionOutcome).
            Keeps-bind _ _
              (Keeps-bind _ _
                (Keeps-change _ (stable.logged (outcome_row attempt request.action outcome)))
                (λ _. Keeps-commit))
              (λ _. Keeps-pure (enforced outcome)))

      pub enforce-Keeps :
          (attempt : LoginAttempt) (level : RiskLevel) (alert_id : Option Uuid)
          → Keeps P (enforce_action_in_core outside core attempt level alert_id)
      unfolding enforce_action_in_core
      enforce-Keeps attempt level alert_id =
          send-Keeps attempt (protective_request outside attempt level alert_id)

    module _ (ml : ℕ → Uuid → Features A.Number → MlReply A.Number)
        (core : ℕ → ActionRequest → CoreReply) where
      pub current-Keeps : (id : Uuid) → Keeps P (current A outside ml core id)
      current-Keeps id = record { at = λ w h. unchanged w (find_attempt id w.working) h }
        where
          unchanged :
              (w : WorldOf (Store A.Number)) (o : Option LoginAttempt)
              → Both P w
              → Both P (
                  let r : Result LoginAttempt × WorldOf (Store A.Number) = elim o [
                    | none ↦ (raise (unhandled "AttributeError"), w)
                    | some attempt ↦ (ok attempt, w)
                  ] in
                  r.1)
          unchanged w none h = h
          unchanged w (some _) h = h

      park_failed-Keeps :
          (id request_id : Uuid) → Keeps P (park_failed {N = A.Number} id request_id)
      unfolding park_failed
      park_failed-Keeps id request_id = Keeps-bind _ _ Keeps-rollback (λ _.
          Keeps-bind _ _
            (Keeps-change _ (λ db.
              stable.assigned (some id) fail_attempt db
                (record { same_id = λ a. refl; same_event = λ a. refl })))
            (λ _.
              Keeps-bind _ _ (Keeps-change _ (stable.logged (engine_error id request_id)))
                (λ _. Keeps-commit)))

      pub enforce_or_park-Keeps :
          (id request_id : Uuid) (r : Result (DetectionResponse A.Number))
          → Keeps P (enforce_or_park A outside ml core id request_id r)
      enforce_or_park-Keeps id request_id (raise _) = park_failed-Keeps id request_id
      enforce_or_park-Keeps id request_id (ok result) =
          Keeps-bind _ _ (current-Keeps id) (λ (attempt : LoginAttempt).
            Keeps-bind _ _ (enforce-Keeps core attempt result.risk_level result.alert_id)
              (λ _. Keeps-pure tt))

      log_fields-P :
          (id request_id : Uuid) (fields : Fields A.Number) (db : Store A.Number)
          → P db
          → P (log_fields id request_id fields db)
      unfolding log_fields
      log_fields-P id request_id end db h = h
      log_fields-P id request_id (field key value rest) db h =
          log_fields-P id request_id rest _ (elim (Bool-cases (contains allowed_features key)) [
            | inl known ↦ rw known (stable.logged (supplied_row id request_id) db h)
            | inr other ↦ rw other h
          ])

      pub log_supplied-P :
          (id request_id : Uuid) (features : Option (Fields A.Number)) (db : Store A.Number)
          → P db
          → P (log_supplied id request_id features db)
      log_supplied-P id request_id none db h = h
      log_supplied-P id request_id (some fields) db h = log_fields-P id request_id fields db h

      pub score_event-Keeps :
          (payload : LoginEventRequest A.Number) (attempt : LoginAttempt)
          → Keeps P (score_event A outside ml core payload attempt)
      unfolding score_event
      score_event-Keeps payload attempt =
          Keeps-bind _ _
            (Keeps-change _ (log_supplied-P attempt.id attempt.request_id payload.features))
            (λ _.
              Keeps-bind _ _
                (Keeps-attempted _ (
                  process_attempt-Keeps A stable outside ml true (some attempt.id) attempt
                    attempt.request_id))
                (λ (result : Result (DetectionResponse A.Number)).
                  Keeps-bind _ _ (enforce_or_park-Keeps attempt.id attempt.request_id result) (λ _.
                    Keeps-bind _ _ (current-Keeps attempt.id)
                      (λ (scored : LoginAttempt). Keeps-pure (accepted payload.event_id scored)))))

      admit-P : (rival : Option LoginAttempt) (db : Store A.Number) → P db → P (admit rival db)
      admit-P none db h = h
      admit-P (some row) db h = elim (Option-cases (find_event row.event_id db)) [
        | inl fresh ↦ rw fresh (stable.inserted row db fresh h)
        | inr (old, found) ↦ rw found h
      ]

      insert_unique-Both :
          (row : LoginAttempt) (seen : Store A.Number) (w : WorldOf (Store A.Number))
          → P seen
          → Both P (insert_unique row seen w).1
      unfolding insert_unique
      insert_unique-Both row seen w base = elim (Option-cases (find_event row.event_id seen)) [
        | inl fresh ↦
            rw fresh (stable.inserted row seen fresh base, stable.inserted row seen fresh base)
        | inr (old, found) ↦ rw found (base, base)
      ]

      insert_attempt-Keeps :
          (rival : Option LoginAttempt) (row : LoginAttempt)
          → Keeps P (insert_attempt {N = A.Number} outside rival row)
      unfolding insert_attempt
      insert_attempt-Keeps rival row = record {
        at = λ w h.
            let base = admit-P rival w.committed h.0 in
            elim (Bool-cases (fits_inet outside row.ip_address)) [
              | inl fits ↦ rw fits (insert_unique-Both row (admit rival w.committed) w base)
              | inr other ↦ rw other (base, base)
            ];
      }

      lost_race-Keeps :
          (event_id : Uuid) (found : Option LoginAttempt)
          → Keeps P (lost_race A outside ml core event_id found)
      lost_race-Keeps event_id none = Keeps-lift (raise (unhandled "IntegrityError"))
      lost_race-Keeps event_id (some row) = Keeps-pure (accepted event_id row)

      after_insert-Keeps :
          (payload : LoginEventRequest A.Number) (attempt : LoginAttempt) (inserted : Bool)
          → Keeps P (after_insert A outside ml core payload attempt inserted)
      after_insert-Keeps payload attempt true = score_event-Keeps payload attempt
      after_insert-Keeps payload attempt false =
          Keeps-bind (query (find_event payload.event_id))
            (lost_race A outside ml core payload.event_id) (Keeps-query _)
            (lost_race-Keeps payload.event_id)

      deliver_if-Keeps :
          (rival : Option LoginAttempt) (payload : LoginEventRequest A.Number) (request_id : Uuid)
          (found : Option LoginAttempt)
          → Keeps P (deliver_if A outside ml core rival payload request_id found)
      deliver_if-Keeps rival payload request_id (some row) =
          Keeps-pure (accepted payload.event_id row)
      deliver_if-Keeps rival payload request_id none =
          Keeps-bind _ _ (Keeps-call outside.uuid4) (λ (id : Uuid).
            let row = attempt_row A outside ml core payload request_id id in
            Keeps-bind _ _ (insert_attempt-Keeps rival row) (after_insert-Keeps payload row))

      or_uuid-Keeps : (id : Option Uuid) → Keeps P (or_uuid {N = A.Number} outside id)
      or_uuid-Keeps none = Keeps-call outside.uuid4
      or_uuid-Keeps (some id) = Keeps-pure id

      pub receive_login_event-Keeps :
          (rival : Option LoginAttempt) (payload : LoginEventRequest A.Number)
          (secret : Option String)
          → Keeps P (receive_login_event A outside ml core rival payload secret)
      unfolding receive_login_event
      receive_login_event-Keeps rival payload secret =
          Keeps-bind _ _ (verify_internal_secret-Keeps outside secret) (λ _.
            Keeps-bind _ _ (or_uuid-Keeps payload.request_id) (λ (request_id : Uuid).
              Keeps-bind (query (find_event payload.event_id))
                (deliver_if A outside ml core rival payload request_id) (Keeps-query _)
                (deliver_if-Keeps rival payload request_id)))
