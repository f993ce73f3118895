-- ===== src/Pipeline/Runs.antt =====
-- The requests that the scoring serves, and runs of them: each takes its own answers of the ML
-- service and of Core, and a delivery also what another delivery commits in between.
use sentinel_auth.Prelude.{ℕ, ◌+◌, String, true, false, Option, none, some, List, [], ◌∷◌, nat_eq}
use sentinel_auth.Core.{
  Time, Uuid, Outside, Result, ok, raise, WorldOf, Keeps, Keeps-pure, Keeps-query, Keeps-call,
  Keeps-attempted, Keeps-respond, Keeps-rollback, Keeps-bind, verify_internal_secret-Keeps, respond,
}
use sentinel_auth.Actions.{ActionRequest}
use sentinel_auth.Detection.Tables.{LoginAttempt}
use sentinel_auth.Detection.Client.{CoreReply}
use sentinel_auth.Policies.Config.{Arithmetic}
use sentinel_auth.Pipeline.Features.{Features}
use sentinel_auth.Pipeline.Ml.{MlReply}
use sentinel_auth.Pipeline.Store.{Store}
use sentinel_auth.Pipeline.Attempt.{DetectionResponse}
use sentinel_auth.Pipeline.Events.{LoginEventRequest, receive_login_event}
use sentinel_auth.Pipeline.Sweep.{rescored, rescore_one, rescore_all, rescore_failed_attempts}
use sentinel_auth.Pipeline.Gate.{
  check_attempt, PreTokenCheckRequest, degraded_response, scored_response, pre_token_check,
  verdict_of, or_now, transient,
}
use sentinel_auth.Pipeline.Stable.{IsStable, process_attempt-Keeps}
use sentinel_auth.Pipeline.Deliveries.{current-Keeps, enforce-Keeps, receive_login_event-Keeps}

pub data Request (N : Type 0) : Type 0 where
  deliver :
      (rival : Option LoginAttempt) (payload : LoginEventRequest N) (secret : Option String)
      → Request N
  sweep : (limit : ℕ) → Request N
  check : (payload : PreTokenCheckRequest) (secret : Option String) → Request N

module _ (A : Arithmetic) (outside : Outside) where
  pub record Served : Type 0 where
    pub ml : ℕ → Uuid → Features A.Number → MlReply A.Number
    pub core : ℕ → ActionRequest → CoreReply
    pub request : Request A.Number

  abbrev pub World : Type 0
  World = WorldOf (Store A.Number)

  abbrev serve_as :
      (ℕ → Uuid → Features A.Number → MlReply A.Number)
      → (ℕ → ActionRequest → CoreReply)
      → Request A.Number
      → World
      → World
  serve_as ml core (deliver rival payload secret) w =
      (respond (receive_login_event A outside ml core rival payload secret) w).1
  serve_as ml core (sweep limit) w = (respond (rescore_failed_attempts A outside ml core limit) w).1
  serve_as ml core (check payload secret) w =
      (respond (pre_token_check A outside ml payload secret) w).1

  abbrev pub serve : Served → World → World
  serve s w = serve_as s.ml s.core s.request w

  unfoldable pub serve_all : List Served → World → World
  serve_all [] w = w
  serve_all (s ∷ rest) w = serve_all rest (serve s w)

  module _ {P : Store A.Number → Type 0} (stable : IsStable A P) where
    module _ (ml : ℕ → Uuid → Features A.Number → MlReply A.Number)
        (core : ℕ → ActionRequest → CoreReply) where
      rescored-Keeps :
          (attempt : LoginAttempt) (r : Result (DetectionResponse A.Number))
          → Keeps P (rescored A outside ml core attempt r)
      rescored-Keeps attempt (raise _) = Keeps-bind _ _ Keeps-rollback (λ _. Keeps-pure 0)
      rescored-Keeps attempt (ok result) =
          Keeps-bind _ _ (current-Keeps A outside stable ml core attempt.id)
            (λ (scored : LoginAttempt).
              Keeps-bind _ _
                (enforce-Keeps A outside stable core scored result.risk_level result.alert_id)
                (λ _. Keeps-pure 1))

      rescore_one-Keeps : (attempt : LoginAttempt) → Keeps P (rescore_one A outside ml core attempt)
      unfolding rescore_one
      rescore_one-Keeps attempt =
          Keeps-bind _ _
            (Keeps-attempted _ (
              process_attempt-Keeps A stable outside ml true (some attempt.id) attempt
                attempt.request_id))
            (rescored-Keeps attempt)

      rescore_all-Keeps :
          (attempts : List LoginAttempt) → Keeps P (rescore_all A outside ml core attempts)
      unfolding rescore_all
      rescore_all-Keeps [] = Keeps-pure 0
      rescore_all-Keeps (attempt ∷ rest) = Keeps-bind _ _ (rescore_one-Keeps attempt) (λ (one : ℕ).
          Keeps-bind _ _ (rescore_all-Keeps rest) (λ (more : ℕ). Keeps-pure (one + more)))

      rescore_failed_attempts-Keeps :
          (limit : ℕ) → Keeps P (rescore_failed_attempts A outside ml core limit)
      unfolding rescore_failed_attempts
      rescore_failed_attempts-Keeps limit = Keeps-bind _ _ (Keeps-query _) rescore_all-Keeps

      verdict_of-Keeps :
          (r : Result (DetectionResponse A.Number)) → Keeps P (verdict_of A outside ml r)
      verdict_of-Keeps (raise _) =
          Keeps-bind _ _ Keeps-rollback (λ _. Keeps-pure (degraded_response A outside ml))
      verdict_of-Keeps (ok result) = Keeps-pure (scored_response A outside ml result)

      or_now-Keeps : (t : Option Time) → Keeps P (or_now A outside ml t)
      or_now-Keeps none = Keeps-call outside.clock
      or_now-Keeps (some t) = Keeps-pure t

      check_attempt-Keeps :
          (payload : PreTokenCheckRequest) (event_id : Uuid) (timestamp : Time)
          → Keeps P (check_attempt A outside ml payload event_id timestamp)
      unfolding check_attempt
      check_attempt-Keeps payload event_id timestamp =
          Keeps-bind _ _ (Keeps-call outside.uuid4) (λ (request_id : Uuid).
            Keeps-bind _ _
              (Keeps-attempted _ (
                process_attempt-Keeps A stable outside ml false none
                  (transient A outside ml payload event_id timestamp) request_id))
              verdict_of-Keeps)

      pre_token_check-Keeps :
          (payload : PreTokenCheckRequest) (secret : Option String)
          → Keeps P (pre_token_check A outside ml payload secret)
      unfolding pre_token_check
      pre_token_check-Keeps payload secret =
          Keeps-bind _ _ (verify_internal_secret-Keeps outside secret) (λ _.
            Keeps-bind _ _ (Keeps-call outside.uuid4) (λ (event_id : Uuid).
              Keeps-bind _ _ (or_now-Keeps payload.timestamp)
                (λ (timestamp : Time). check_attempt-Keeps payload event_id timestamp)))

      serve_as-Stable :
          (request : Request A.Number) (w : World)
          → P w.committed
          → P (serve_as ml core request w).committed
      serve_as-Stable (deliver rival payload secret) =
          Keeps-respond _ (receive_login_event-Keeps A outside stable ml core rival payload secret)
      serve_as-Stable (sweep limit) = Keeps-respond _ (rescore_failed_attempts-Keeps limit)
      serve_as-Stable (check payload secret) =
          Keeps-respond _ (pre_token_check-Keeps payload secret)

    pub serve_all-Stable :
        (requests : List Served) (w : World) → P w.committed → P (serve_all requests w).committed
    unfolding serve_all
    serve_all-Stable [] w h = h
    serve_all-Stable (s ∷ rest) w h =
        serve_all-Stable rest (serve s w) (serve_as-Stable s.ml s.core s.request w h)
