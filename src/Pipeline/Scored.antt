-- ===== src/Pipeline/Scored.antt =====
-- app/detection.py: the scoring of an event that has its row.
use sentinel_auth.Prelude.{
  ℕ, true, false, ◌≡◌, refl, ap, subst, ◌∙◌, Option, none, some, [], ◌∷◌, ◌==◌, nat_eq, Bool-cases,
  Option-cases, inl, inr, find-append_miss, find-append_hit, find-eq-some, nat_beq_iff, ==_refl,
}
use sentinel_auth.Core.{
  Uuid, Outside, Result, ok, raise, WorldOf, Both, Total, Total-bind, is_internal_auth_configured,
}
use sentinel_auth.Actions.{ActionRequest}
use sentinel_auth.Detection.Tables.{LoginAttempt}
use sentinel_auth.Detection.Client.{
  CoreReply, ActionOutcome, enforced, enforce_action_in_core_detailed,
}
use sentinel_auth.Policies.Config.{Arithmetic}
use sentinel_auth.Pipeline.Features.{Features}
use sentinel_auth.Pipeline.Ml.{MlReply}
use sentinel_auth.Pipeline.Store.{Store, find_event, find_attempt, add_attempt}
use sentinel_auth.Pipeline.Attempt.{DetectionResponse}
use sentinel_auth.Pipeline.Process.{process_attempt}
use sentinel_auth.Pipeline.Enforcement.{
  record_action_outcome, send, protective_request, enforce_action_in_core,
}
use sentinel_auth.Pipeline.Events.{
  LoginEventRequest, LoginEventResponse, accepted, log_supplied, park_failed, current,
  enforce_or_park, score_event,
}
use sentinel_auth.Pipeline.Stable.{process_attempt-Keeps}
use sentinel_auth.Pipeline.Deliveries.{enforce_or_park-Keeps, log_supplied-P}
use sentinel_auth.Pipeline.Replay.{Found, Found-IsStable, by_event, by_id}

module _ (A : Arithmetic) (outside : Outside) (ml : ℕ → Uuid → Features A.Number → MlReply A.Number)
    (core : ℕ → ActionRequest → CoreReply) where
  abbrev W : Type 0
  W = WorldOf (Store A.Number)

  enforce_detailed-Total :
      (request : ActionRequest) (w : W)
      → Total (enforce_action_in_core_detailed outside core request) w
  unfolding enforce_action_in_core_detailed
  enforce_detailed-Total request w = elim (Bool-cases (is_internal_auth_configured outside)) [
    | inl on ↦ rw on (_, _, refl)
    | inr off ↦ rw off (_, _, refl)
  ]

  send-Total :
      (attempt : LoginAttempt) (request : Option ActionRequest) (w : W)
      → Total (send outside core attempt request) w
  unfolding record_action_outcome
  send-Total attempt none w = (false, w, refl)
  send-Total attempt (some request) w =
      Total-bind (enforce_action_in_core_detailed outside core request) _ w
        (enforce_detailed-Total request w)
        (λ (outcome : ActionOutcome) w' ran. (enforced outcome, _, refl))

  current-Total :
      (id : Uuid) (w : W)
      → Found A (by_id id) id w.working
      → (a : LoginAttempt) × (current A outside ml core id w ≡ (ok a, w)) × (a.id ≡ id)
  current-Total id w (a, found, own) = (a, rw (found, current) refl, own)

  enforce_or_park-Total :
      (id request_id : Uuid) (r : Result (DetectionResponse A.Number)) (w : W)
      → Found A (by_id id) id w.working
      → Total (enforce_or_park A outside ml core id request_id r) w
  unfolding park_failed enforce_action_in_core
  enforce_or_park-Total id request_id (raise _) w h = (tt, _, refl)
  enforce_or_park-Total id request_id (ok result) w h =
      let (a, ran, own) = current-Total id w h in
      Total-bind (current A outside ml core id) _ w (a, w, ran)
        (λ (attempt : LoginAttempt) w' _.
          Total-bind
            (send outside core attempt
              (protective_request outside attempt result.risk_level result.alert_id))
            _ w' (send-Total attempt _ w') (λ _ w2 _. (tt, w2, refl)))

  pub score_event-Total :
      (payload : LoginEventRequest A.Number) (row : LoginAttempt) (w : W)
      → Both (Found A (by_id row.id) row.id) w
      → (r : LoginEventResponse) × (w' : W) × (score_event A outside ml core payload row w
          ≡ (ok r, w'))
        × (r.login_attempt_id ≡ row.id)
  unfolding score_event
  score_event-Total payload row w h =
      let stable = Found-IsStable A (by_id row.id) row.id in
      let w1 : W = record w {
        working = log_supplied row.id row.request_id payload.features w.working;
      } in
      let h1 : Both (Found A (by_id row.id) row.id) w1 = (
        h.0,
        log_supplied-P A outside stable ml core row.id row.request_id payload.features w.working
            h.1,
      ) in
      let step = process_attempt A outside ml true (some row.id) row row.request_id in
      let w2 = (step w1).1 in
      let h2 =
        (process_attempt-Keeps A stable outside ml true (some row.id) row row.request_id).at w1
          h1 in
      let parked = enforce_or_park A outside ml core row.id row.request_id (step w1).0 in
      let (_, w3, ran) = enforce_or_park-Total row.id row.request_id (step w1).0 w2 h2.1 in
      let h3 =
        (enforce_or_park-Keeps A outside stable ml core row.id row.request_id (step w1).0).at w2
          h2 in
      let h4 : Found A (by_id row.id) row.id w3.working =
        subst (λ (u : W). Found A (by_id row.id) row.id u.working)
          (ap (λ (q : Result (Unit {0}) × W). q.1) ran) h3.1 in
      let (a, read, own) = current-Total row.id w3 h4 in
      (accepted payload.event_id a, w3, rw (ran, read) refl, own)

  -- A new row is found by its identifier and by its event.
  pub fresh_by_id :
      (row : LoginAttempt) (db : Store A.Number)
      → Found A (by_id row.id) row.id (add_attempt row db)
  fresh_by_id row db = elim (Option-cases (find_attempt row.id db)) [
    | inr (a, found) ↦ (
      a,
      find-append_hit (λ (b : LoginAttempt). b.id == row.id) db.soc.login_attempts (row ∷ []) found,
      (nat_beq_iff a.id row.id).0
          (find-eq-some (λ (b : LoginAttempt). b.id == row.id) db.soc.login_attempts found),
    )
    | inl missing ↦ (
      row,
      find-append_miss (λ (b : LoginAttempt). b.id == row.id) db.soc.login_attempts (row ∷ [])
            missing
          ∙ (rw (==_refl row.id)),
      refl,
    )
  ]

  pub fresh_by_event :
      (row : LoginAttempt) (db : Store A.Number)
      → find_event row.event_id db ≡ none
      → Found A (by_event row.event_id) row.id (add_attempt row db)
  fresh_by_event row db missing = (
    row,
    find-append_miss (λ (b : LoginAttempt). b.event_id == row.event_id) db.soc.login_attempts
          (row ∷ []) missing
        ∙ (rw (==_refl row.event_id)),
    refl,
  )
