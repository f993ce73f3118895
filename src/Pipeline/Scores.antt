-- ===== src/Pipeline/Scores.antt =====
-- app/detection.py, process_attempt: the scores that a whole scoring arrives at.
use sentinel_auth.Prelude.{ℕ, Bool, true, ◌≡◌, subst, ap, Option}
use sentinel_auth.Core.{
  Uuid, Outside, Result, ok, WorldOf, ActionOf, lift, pure, ◌>>=◌, ◌>>◌, >>=-eq-ok,
}
use sentinel_auth.Detection.Tables.{LoginAttempt}
use sentinel_auth.Policies.Config.{Arithmetic, ResolvedConfig, resolve_config, in_unit}
use sentinel_auth.Policies.Activation.{Policy}
use sentinel_auth.Pipeline.Features.{Features, build_features}
use sentinel_auth.Pipeline.Evaluation.{Evaluation, evaluate_rules}
use sentinel_auth.Pipeline.Ml.{MlReply, call_ml_service}
use sentinel_auth.Pipeline.Store.{Store}
use sentinel_auth.Pipeline.Attempt.{
  Judgement, judge, log, log_config, log_hits, log_problems, ml_row, verdict_row, score_attempt,
}
use sentinel_auth.Pipeline.Bounds.{IsOrdered, IsBounded, combine_bounds, evaluate_rules_bounds}

module _ (A : Arithmetic) where
  answer_of :
      {B : Type 0} {x y : B} {w w' : WorldOf (Store A.Number)}
      → ◌≡◌ {A = Result B × WorldOf (Store A.Number)} (ok x, w) (ok y, w')
      → x ≡ y
  answer_of e = cc

  -- The combined score is in [0, 1], and so are the hits of the rules; their score is at most 1.
  abbrev pub InBounds : Judgement A.Number → Type 0
  InBounds v = (in_unit A v.combined ≡ true) × IsBounded A v.evaluation

  module _ (laws : IsOrdered A) (outside : Outside)
      (ml : ℕ → Uuid → Features A.Number → MlReply A.Number) (persist : Bool) (key : Option Uuid)
      (attempt : LoginAttempt) (request_id : Uuid) where
    -- The scoring after the rules.
    abbrev judged :
        Policy A.Number
        → Features A.Number
        → ResolvedConfig A.Number
        → Evaluation A.Number
        → ActionOf (Store A.Number) (Judgement A.Number)
    judged policy features config evaluation = do
      outcome ← call_ml_service A outside ml features request_id
      log A outside ml persist key attempt request_id
          (ml_row A outside ml persist key attempt request_id outcome)
      let verdict =
          judge A outside ml persist key attempt request_id policy features config evaluation
            outcome
      log A outside ml persist key attempt request_id
          (verdict_row A outside ml persist key attempt request_id verdict)
      pure verdict

    judged_bounds :
        (policy : Policy A.Number) (features : Features A.Number) (config : ResolvedConfig A.Number)
        (evaluation : Evaluation A.Number) (w : WorldOf (Store A.Number)) {v : Judgement A.Number}
        {w' : WorldOf (Store A.Number)}
        → IsBounded A evaluation
        → judged policy features config evaluation w ≡ (ok v, w')
        → InBounds v
    judged_bounds policy features config evaluation w {v} {w'} bounded ran =
        let (outcome, w1, _, k1) =
          >>=-eq-ok (call_ml_service A outside ml features request_id) _ w ran in
        let (_, w2, _, k2) =
          >>=-eq-ok
            (log A outside ml persist key attempt request_id
              (ml_row A outside ml persist key attempt request_id outcome))
            _ w1 k1 in
        let verdict =
          judge A outside ml persist key attempt request_id policy features config evaluation
            outcome in
        let (_, w3, _, k3) =
          >>=-eq-ok
            (log A outside ml persist key attempt request_id
              (verdict_row A outside ml persist key attempt request_id verdict))
            _ w2 k2 in
        let own : verdict ≡ v = answer_of k3 in
        subst InBounds own
          (combine_bounds A laws config.weights evaluation.rule_score outcome, bounded)

    -- Whatever the policy holds, and whatever the ML service answers, a scoring that arrives at a
    -- judgement, over numbers with the order laws, has a combined score in [0, 1], a score of the
    -- rules of at most 1, and hits whose score, weight and contribution are in [0, 1].
    pub score_attempt_bounds :
        (policy : Policy A.Number) (w : WorldOf (Store A.Number)) {v : Judgement A.Number}
        {w' : WorldOf (Store A.Number)}
        → score_attempt A outside ml persist key attempt request_id policy w ≡ (ok v, w')
        → InBounds v
    unfolding score_attempt
    score_attempt_bounds policy w {v} {w'} ran =
        let config = (resolve_config A policy.config).0 in
        let (_, w1, _, k1) =
          >>=-eq-ok
            (log_config A outside ml persist key attempt request_id
              (resolve_config A policy.config).1)
            _ w ran in
        let features = build_features A attempt w1.working.soc.login_attempts in
        let (evaluation, w3, scored, k3) =
          >>=-eq-ok (lift (evaluate_rules A policy.rules features)) _ w1 k1 in
        let (_, w4, _, k4) =
          >>=-eq-ok
            (log_hits A outside ml persist key attempt request_id features policy.rules
              evaluation.hits)
            _ w3 k3 in
        let (_, w5, _, k5) =
          >>=-eq-ok (log_problems A outside ml persist key attempt request_id evaluation.problems) _
            w4 k4 in
        judged_bounds policy features config evaluation w5
          (evaluate_rules_bounds A laws policy.rules features
            (ap (λ (q : Result (Evaluation A.Number) × WorldOf (Store A.Number)). q.0) scored))
          k5
