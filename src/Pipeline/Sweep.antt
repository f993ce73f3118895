-- ===== src/Pipeline/Sweep.antt =====
-- app/detection.py, rescore_failed_attempts: failed attempts are scored again.
use sentinel_auth.Prelude.{
  ℕ, ◌+◌, Bool, true, false, some, List, [], ◌∷◌, if◌then◌else◌, leb, where_,
}
use sentinel_auth.Core.{
  Uuid, Outside, Result, ok, raise, ActionOf, pure, ◌>>=◌, ◌>>◌, query, rollback, attempted,
}
use sentinel_auth.Actions.{ActionRequest}
use sentinel_auth.Detection.Tables.{AttemptStatus, LoginAttempt}
use sentinel_auth.Detection.Client.{CoreReply}
use sentinel_auth.Policies.Config.{Arithmetic}
use sentinel_auth.Pipeline.Features.{Features, take}
use sentinel_auth.Pipeline.Ml.{MlReply}
use sentinel_auth.Pipeline.Store.{Store}
use sentinel_auth.Pipeline.Attempt.{DetectionResponse}
use sentinel_auth.Pipeline.Process.{process_attempt}
use sentinel_auth.Pipeline.Enforcement.{enforce_action_in_core}
use sentinel_auth.Pipeline.Events.{current}

-- `order_by(timestamp)`
abbrev insert_by_time : LoginAttempt → List LoginAttempt → List LoginAttempt
insert_by_time a [] = a ∷ []
insert_by_time a (b ∷ bs) =
    let rest = insert_by_time a bs in if leb a.timestamp b.timestamp then a ∷ (b ∷ bs) else b ∷ rest

unfoldable pub by_time : List LoginAttempt → List LoginAttempt
by_time [] = []
by_time (a ∷ rest) = insert_by_time a (by_time rest)

abbrev is_failed : AttemptStatus → Bool
is_failed AttemptStatus.failed = true
is_failed _ = false

module _ (A : Arithmetic) (outside : Outside) (ml : ℕ → Uuid → Features A.Number → MlReply A.Number)
    (core : ℕ → ActionRequest → CoreReply) where
  abbrev pub Sweeping : Type 0
  Sweeping = ActionOf (Store A.Number) ℕ

  -- One row of the sweep: whether it was recovered.
  abbrev pub rescored : LoginAttempt → Result (DetectionResponse A.Number) → Sweeping
  rescored attempt (raise _) = do rollback; pure 0
  rescored attempt (ok result) = do
    scored ← current A outside ml core attempt.id
    _ ← enforce_action_in_core outside core scored result.risk_level result.alert_id
    pure 1

  unfoldable pub rescore_one : LoginAttempt → Sweeping
  rescore_one attempt = do
    result ←
        attempted (process_attempt A outside ml true (some attempt.id) attempt attempt.request_id)
    rescored attempt result

  unfoldable pub rescore_all : List LoginAttempt → Sweeping
  rescore_all [] = pure 0
  rescore_all (attempt ∷ rest) = do
    one ← rescore_one attempt
    more ← rescore_all rest
    pure (one + more)

  unfoldable pub rescore_failed_attempts : (limit : ℕ) → Sweeping
  rescore_failed_attempts limit = do
    failed ←
        query (λ db. take limit (by_time (where_ (λ a. is_failed a.status) db.soc.login_attempts)))
    rescore_all failed
