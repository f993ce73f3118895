-- ===== src/Pipeline/Answers.antt =====
-- app/detection.py: the answer to a delivery.
use sentinel_auth.Prelude.{
  ℕ, String, true, false, ◌≡◌, refl, sym, ap, subst, ◌∙◌, Option, none, some, nat_eq, Bool-cases,
  Option-cases, inl, inr, ◌+◌,
}
use sentinel_auth.Core.{
  Uuid, Outside, Result, ok, raise, ActionOf, ◌>>=◌, WorldOf, respond, IsInternal,
  verify_internal_secret-passes,
}
use sentinel_auth.Actions.{ActionRequest}
use sentinel_auth.Detection.Tables.{LoginAttempt}
use sentinel_auth.Detection.Client.{CoreReply}
use sentinel_auth.Policies.Config.{Arithmetic}
use sentinel_auth.Pipeline.Features.{Features}
use sentinel_auth.Pipeline.Ml.{MlReply}
use sentinel_auth.Pipeline.Store.{Store, find_event, add_attempt}
use sentinel_auth.Pipeline.Events.{
  LoginEventRequest, LoginEventResponse, admit, fits_inet, insert_unique, insert_attempt,
  after_insert, attempt_row, score_event, deliver_new, deliver_if, or_uuid, receive_login_event,
  lost_race,
}
use sentinel_auth.Pipeline.Deliveries.{score_event-Keeps}
use sentinel_auth.Pipeline.Replay.{Found, Found-IsStable, by_event}
use sentinel_auth.Pipeline.Scored.{score_event-Total, fresh_by_id, fresh_by_event}

module _ (A : Arithmetic) (outside : Outside) (ml : ℕ → Uuid → Features A.Number → MlReply A.Number)
    (core : ℕ → ActionRequest → CoreReply) where
  abbrev W : Type 0
  W = WorldOf (Store A.Number)

  -- What an answer says of the database that it leaves: an attempt of the event is there. Without an
  -- answer the address did not fit its column.
  abbrev Stored : LoginEventRequest A.Number → Result LoginEventResponse → W → Type 0
  Stored payload (ok r) w' = Found A (by_event payload.event_id) r.login_attempt_id w'.committed
  Stored payload (raise _) _ = fits_inet outside payload.ip_address ≡ false

  abbrev Answers :
      LoginEventRequest A.Number → ActionOf (Store A.Number) LoginEventResponse → W → Type 0
  Answers payload action w = Stored payload (action w).0 (action w).1

  Stored-Answers :
      (payload : LoginEventRequest A.Number) (action : ActionOf (Store A.Number) LoginEventResponse)
      (w : W) {q : Result LoginEventResponse × W}
      → action w ≡ q
      → Stored payload q.0 q.1
      → Answers payload action w
  Stored-Answers payload action w ran h =
      subst (λ (q : Result LoginEventResponse × W). Stored payload q.0 q.1) (sym ran) h

  insert_new-Answers :
      (payload : LoginEventRequest A.Number) (request_id id : Uuid) (seen : Store A.Number) (w : W)
      → let row = attempt_row A outside ml core payload request_id id in
        Answers payload (insert_unique row seen >>= after_insert A outside ml core payload row) w
  unfolding insert_unique
  insert_new-Answers payload request_id id seen w =
      let row = attempt_row A outside ml core payload request_id id in
      elim (Option-cases (find_event payload.event_id seen)) [
        | inr (old, found) ↦ rw found (rw (found, lost_race) (old, found, refl))
        | inl missing ↦
            let w1 : W = record w {
              committed = add_attempt row seen;
              working = add_attempt row seen;
            } in
            let here = fresh_by_id A outside ml core row seen in
            let event = fresh_by_event A outside ml core row seen missing in
            let (r, w', ran, own) =
              score_event-Total A outside ml core payload row w1 (here, here) in
            let kept =
              (score_event-Keeps A outside (Found-IsStable A (by_event payload.event_id) row.id) ml
                  core payload row).at
                w1 (event, event) in
            rw missing (
              Stored-Answers payload (score_event A outside ml core payload row) w1 ran (
                subst (λ (i : Uuid). Found A (by_event payload.event_id) i w'.committed) (sym own)
                  (subst (λ (u : W). Found A (by_event payload.event_id) row.id u.committed)
                    (ap (λ (q : Result LoginEventResponse × W). q.1) ran) kept.0)))
      ]

  deliver_new-Answers :
      (rival : Option LoginAttempt) (payload : LoginEventRequest A.Number) (request_id : Uuid)
      (w : W)
      → Answers payload (deliver_new A outside ml core rival payload request_id) w
  unfolding insert_attempt
  deliver_new-Answers rival payload request_id w =
      elim (Bool-cases (fits_inet outside payload.ip_address)) [
        | inl fits ↦ rw fits (
            insert_new-Answers payload request_id (outside.uuid4 w.calls) (admit rival w.committed)
              (record w { calls = w.calls + 1 }))
        | inr other ↦ rw other other
      ]

  deliver_if-Answers :
      (rival : Option LoginAttempt) (payload : LoginEventRequest A.Number) (request_id : Uuid)
      (w : W) (found : Option LoginAttempt)
      → w.working ≡ w.committed
      → find_event payload.event_id w.working ≡ found
      → Answers payload (deliver_if A outside ml core rival payload request_id found) w
  deliver_if-Answers rival payload request_id w none opened e =
      deliver_new-Answers rival payload request_id w
  deliver_if-Answers rival payload request_id w (some row) opened e = (row, rw opened at e, refl)

  receive-Answers :
      (rival : Option LoginAttempt) (payload : LoginEventRequest A.Number) (secret : Option String)
      (w : W)
      → IsInternal outside secret
      → w.working ≡ w.committed
      → Answers payload (receive_login_event A outside ml core rival payload secret) w
  unfolding receive_login_event
  receive-Answers rival payload secret w internal opened =
      let given = identified payload.request_id in
      let (request_id, w1, ran, same, still) = given in
      let answered =
        deliver_if-Answers rival payload request_id w1 (find_event payload.event_id w1.working)
          (still ∙ opened ∙ sym same) refl in
      rw (verify_internal_secret-passes outside secret w internal, ran) answered
    where
      identified :
          (id : Option Uuid)
          → (i : Uuid) × (w1 : W) × (or_uuid {N = A.Number} outside id w ≡ (ok i, w1))
            × (w1.committed ≡ w.committed)
            × (w1.working ≡ w.working)
      identified none = (_, _, refl, refl, refl)
      identified (some id) = (id, w, refl, refl, refl)

  respond-Stored :
      (payload : LoginEventRequest A.Number) (action : ActionOf (Store A.Number) LoginEventResponse)
      (w : W) (q : Result LoginEventResponse) (u : W)
      → action (record w { working = w.committed }) ≡ (q, u)
      → Stored payload q u
      → Answers payload (respond action) w
  respond-Stored payload action w (ok r) u ran h = rw ran h
  respond-Stored payload action w (raise _) u ran h = rw ran h

  -- A served delivery is answered with an attempt of the event, or its address did not fit.
  respond-Answers :
      (rival : Option LoginAttempt) (payload : LoginEventRequest A.Number) (secret : Option String)
      (w : W)
      → IsInternal outside secret
      → Answers payload (respond (receive_login_event A outside ml core rival payload secret)) w
  respond-Answers rival payload secret w internal =
      let opened : W = record w { working = w.committed } in
      let action = receive_login_event A outside ml core rival payload secret in
      respond-Stored payload action w (action opened).0 (action opened).1 refl
        (receive-Answers rival payload secret opened internal refl)

  -- An answer to a delivery names an attempt of the event that is then in the database.
  pub answered-Stored :
      (rival : Option LoginAttempt) (payload : LoginEventRequest A.Number) (secret : Option String)
      (w : W) {r : LoginEventResponse} {w' : W}
      → IsInternal outside secret
      → respond (receive_login_event A outside ml core rival payload secret) w ≡ (ok r, w')
      → Found A (by_event payload.event_id) r.login_attempt_id w'.committed
  answered-Stored rival payload secret w internal answered =
      subst (λ (q : Result LoginEventResponse × W). Stored payload q.0 q.1) answered
        (respond-Answers rival payload secret w internal)

  -- A delivery that carries the configured secret, and no address or one that PostgreSQL reads as an
  -- INET value, is answered, whatever the policy in force, the reply of the ML service and the reply
  -- of Core are, and also when another delivery of the event commits first; the answer names an
  -- attempt of the event that is then in the database.
  pub receive_login_event_answers :
      (rival : Option LoginAttempt) (payload : LoginEventRequest A.Number) (secret : Option String)
      (w : WorldOf (Store A.Number))
      → IsInternal outside secret
      → fits_inet outside payload.ip_address ≡ true
      → (r : LoginEventResponse) × (w' : WorldOf (Store A.Number)) × (respond
            (receive_login_event A outside ml core rival payload secret)
            w
          ≡ (ok r, w'))
        × (a : LoginAttempt) × (find_event payload.event_id w'.committed ≡ some a)
        × (a.id ≡ r.login_attempt_id)
  receive_login_event_answers rival payload secret w internal fits =
      let opened : W = record w { working = w.committed } in
      let run = receive_login_event A outside ml core rival payload secret opened in
      named run.0 run.1 refl (receive-Answers rival payload secret opened internal refl)
    where
      named :
          (q : Result LoginEventResponse) (u : W)
          → receive_login_event A outside ml core rival payload secret
              (record w { working = w.committed })
            ≡ (q, u)
          → Stored payload q u
          → (r : LoginEventResponse) × (w' : W) × (respond
                (receive_login_event A outside ml core rival payload secret)
                w
              ≡ (ok r, w'))
            × (a : LoginAttempt) × (find_event payload.event_id w'.committed ≡ some a)
            × (a.id ≡ r.login_attempt_id)
      named (ok r) u ran (a, found, own) =
          (r, record u { working = u.committed }, rw ran refl, a, found, own)
      named (raise _) u ran unfit = absurd cc
