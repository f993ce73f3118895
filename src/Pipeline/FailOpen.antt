-- ===== src/Pipeline/FailOpen.antt =====
-- app/detection.py, pre_token_check: it answers, and it writes nothing.
use sentinel_auth.Prelude.{
  ℕ, ◌+◌, String, Bool, true, false, not, ◌≡◌, refl, sym, ap, ◌∙◌, ◌⊎◌, Option, none, some, inl,
  inr, is_some,
}
use sentinel_auth.Core.{
  Time, Uuid, Outside, Result, ok, raise, WorldOf, ◌>>=◌, respond, IsInternal,
  verify_internal_secret-passes,
}
use sentinel_auth.Detection.Tables.{RiskLevel, Decision}
use sentinel_auth.Policies.Config.{Arithmetic}
use sentinel_auth.Pipeline.Features.{Features}
use sentinel_auth.Pipeline.Ml.{MlReply}
use sentinel_auth.Pipeline.Levels.{decision_of, risk_action}
use sentinel_auth.Pipeline.Store.{Store}
use sentinel_auth.Pipeline.Attempt.{DetectionResponse}
use sentinel_auth.Pipeline.Process.{process_attempt}
use sentinel_auth.Pipeline.Gate.{
  check_attempt, PreTokenCheckRequest, PreTokenCheckResponse, degraded_response, scored_response,
  verdict_of, or_now, transient, pre_token_check,
}
use sentinel_auth.Pipeline.ReadOnly.{process_attempt-Leaves}
use sentinel_auth.Pipeline.Verdict.{process_attempt-decision}

abbrev pub is_allow : Decision → Bool
is_allow Decision.allow = true
is_allow _ = false

-- A degraded check lets the login through. Any other has a level and the decision of the level, and
-- asks for MFA unless the decision is to allow.
abbrev pub IsVerdict : PreTokenCheckResponse → Type 0
IsVerdict r =
    ((r.degraded ≡ true) × (r.decision ≡ Decision.allow) × (r.require_mfa ≡ false))
    ⊎ ((level : RiskLevel) × (r.degraded ≡ false)
        × (r.risk_level ≡ some level)
        × (r.decision ≡ decision_of level)
        × (r.require_mfa ≡ not (is_allow r.decision)))

mfa_of_level :
    (level : RiskLevel) → is_some (risk_action level) ≡ not (is_allow (decision_of level))
unfolding risk_action decision_of
mfa_of_level RiskLevel.low = refl
mfa_of_level RiskLevel.medium = refl
mfa_of_level RiskLevel.high = refl
mfa_of_level RiskLevel.critical = refl

module _ (A : Arithmetic) (outside : Outside)
    (ml : ℕ → Uuid → Features A.Number → MlReply A.Number) where
  abbrev W : Type 0
  W = WorldOf (Store A.Number)

  judged :
      (w w2 : W) (res : Result (DetectionResponse A.Number))
      → ((r : DetectionResponse A.Number) → res ≡ ok r → r.decision ≡ decision_of r.risk_level)
      → w2.committed ≡ w.committed
      → w2.posted ≡ w.posted
      → (r : PreTokenCheckResponse) × (w' : W) × (verdict_of A outside ml res w2 ≡ (ok r, w'))
        × (w'.committed ≡ w.committed)
        × (w'.posted ≡ w.posted)
        × IsVerdict r
  judged w w2 (raise _) decides same idle =
      (degraded_response A outside ml, _, refl, same, idle, inl (refl, refl, refl))
  judged w w2 (ok result) decides same idle =
      let decided = decides result refl in
      (
        scored_response A outside ml result,
        w2,
        refl,
        same,
        idle,
        inr (
          result.risk_level,
          refl,
          refl,
          decided,
          mfa_of_level result.risk_level ∙ ap (λ d. not (is_allow d)) (sym decided),
        ),
      )

  -- The world and the answer that a check leaves.
  abbrev pub AnswersIdly : W → Result PreTokenCheckResponse × W → Type 0
  AnswersIdly w q =
      (r : PreTokenCheckResponse) × (w' : W) × (q ≡ (ok r, w'))
      × (w'.committed ≡ w.committed)
      × (w'.posted ≡ w.posted)
      × IsVerdict r

  check_attempt_lem :
      (payload : PreTokenCheckRequest) (event_id : Uuid) (timestamp : Time) (w w1 : W)
      → w1.committed ≡ w.committed
      → w1.posted ≡ w.posted
      → AnswersIdly w (check_attempt A outside ml payload event_id timestamp w1)
  unfolding check_attempt
  check_attempt_lem payload event_id timestamp w w1 same idle =
      let row = transient A outside ml payload event_id timestamp in
      let request_id = outside.uuid4 w1.calls in
      let w2 : W = record w1 { calls = w1.calls + 1 } in
      let step = process_attempt A outside ml false none row request_id in
      let quiet = process_attempt-Leaves A outside ml row request_id in
      judged w (step w2).1 (step w2).0
        (λ r e.
          process_attempt-decision A outside ml false none row request_id w2 {w' = (step w2).1}
            (ap (λ (q : Result (DetectionResponse A.Number)). (q, (step w2).1)) e))
        (quiet.committed w2 ∙ same) (quiet.posted w2 ∙ idle)

  timed :
      (payload : PreTokenCheckRequest) (event_id : Uuid) (t : Option Time) (w w1 : W)
      → w1.committed ≡ w.committed
      → w1.posted ≡ w.posted
      → AnswersIdly w (
          (or_now A outside ml t >>= λ timestamp.
          check_attempt A outside ml payload event_id timestamp)
            w1)
  timed payload event_id none w w1 same idle =
      check_attempt_lem payload event_id (outside.clock w1.calls) w
        (record w1 { calls = w1.calls + 1 }) same idle
  timed payload event_id (some t) w w1 same idle =
      check_attempt_lem payload event_id t w w1 same idle

  -- With the configured secret the check always answers, whatever the scoring raises, and changes
  -- nothing that is committed. The answer is degraded and lets the login through, or has a level with
  -- the decision of that level, and asks for MFA exactly when the decision is not to allow.
  pub pre_token_check_writes_nothing :
      (payload : PreTokenCheckRequest) (secret : Option String) (w : W)
      → IsInternal outside secret
      → (r : PreTokenCheckResponse) × (w' : W) × (respond
            (pre_token_check A outside ml payload secret)
            w
          ≡ (ok r, w'))
        × (w'.committed ≡ w.committed)
        × IsVerdict r
  unfolding pre_token_check
  pre_token_check_writes_nothing payload secret w internal =
      let opened : W = record w { working = w.committed } in
      let (r, w', ran, same, idle, verdict) =
        timed payload (outside.uuid4 w.calls) payload.timestamp w
          (record opened { calls = w.calls + 1 }) refl refl in
      (
        r,
        record w' { working = w'.committed },
        rw (verify_internal_secret-passes outside secret opened internal, ran) refl,
        same,
        verdict,
      )
