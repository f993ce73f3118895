-- ===== src/Pipeline/Attempt.antt =====
-- app/detection.py, process_attempt: one login attempt is scored, and what follows is written.
use Prim.Native.String.{◌++◌ as concat}
use sentinel_auth.Prelude.{
  ℕ, String, Bool, true, false, ◌&&◌, Option, none, some, List, [], ◌∷◌, if◌then◌else◌, update,
  is_value, is_some, nat_eq,
}
use sentinel_auth.Core.{
  Uuid, Outside, Result, ok, raise, unhandled, ActionOf, pure, ◌>>=◌, ◌>>◌, query, change, lift,
  when,
}
use sentinel_auth.Detection.Tables.{RiskLevel, Decision, LoginAttempt}
use sentinel_auth.Policies.Config.{
  Json, Items, nil, cons, Arithmetic, Problem, ResolvedConfig, resolve_config, in_unit,
}
use sentinel_auth.Policies.Activation.{Policy}
use sentinel_auth.Pipeline.Features.{Features, build_features}
use sentinel_auth.Pipeline.Evaluation.{
  RuleHit, RuleProblem, Evaluation, evaluate_rules, matched_value, str,
}
use sentinel_auth.Pipeline.Ml.{MlStatus, MlOutcome, MlReply, call_ml_service}
use sentinel_auth.Pipeline.Levels.{
  level_value, decision_of, action_label, map_score_to_risk_level, combine,
}
use sentinel_auth.Pipeline.Store.{
  RiskAssessment, DetectionLog, Store, add_log, add_assessment, assessment_of,
}

pub record DetectionResponse (N : Type 0) : Type 0 where
  pub rule_score : N
  pub ml_score : Option N
  pub combined_score : N
  pub ml_status : MlStatus
  pub ml_model_version : Option String
  pub ml_reason_codes : List String
  pub risk_level : RiskLevel
  pub decision : Decision
  pub rule_hits : List (RuleHit N)
  pub alert_id : Option Uuid

-- Everything that the scoring has computed before it writes its verdict.
pub record Judgement (N : Type 0) : Type 0 where
  pub policy_id : Uuid
  pub features : Features N
  pub evaluation : Evaluation N
  pub ml : MlOutcome N
  pub combined : N
  pub risk_level : RiskLevel

abbrev pub decision_for : {N : Type 0} → Judgement N → Decision
decision_for v = decision_of v.risk_level

module _ (A : Arithmetic) where
  abbrev pub Scoring {ℓ} : Type ℓ → Type ℓ
  Scoring B = ActionOf (Store A.Number) B

  -- Python's `str` of a score that may be None.
  abbrev pub score_text : Option A.Number → String
  score_text none = "None"
  score_text (some x) = A.str (Json.number x)

  abbrev scores_text : Judgement A.Number → String
  scores_text v =
      concat "rule="
        (concat (A.fixed4 v.evaluation.rule_score) (concat ", ml=" (score_text v.ml.score)))

  abbrev final_reason : Judgement A.Number → String
  final_reason v = concat (scores_text v) (
      concat ", combined=" (
        concat (A.fixed4 v.combined) (
          concat ", level="
            (concat (level_value v.risk_level) (concat ", action=" (action_label v.risk_level))))))

  -- `DetectionResponse(...)` checks its fields.
  abbrev texts : Items A.Number → Option (List String)
  texts nil = some []
  texts (cons (Json.text s) rest) =
      let more = texts rest in elim more [ none ↦ none | some ss ↦ some (s ∷ ss) ]
  texts (cons _ rest) = none

  abbrev pub reason_codes : Json A.Number → Option (List String)
  reason_codes (Json.array items) = texts items
  reason_codes _ = none

  abbrev pub version_text : Option (Json A.Number) → Option (Option String)
  version_text none = some none
  version_text (some (Json.text s)) = some (some s)
  version_text (some _) = none

  abbrev pub unit_score : Option A.Number → Bool
  unit_score none = true
  unit_score (some x) = in_unit A (A.round4 x)

  abbrev rounded : Option A.Number → Option A.Number
  rounded none = none
  rounded (some x) = some (A.round4 x)

  abbrev pub checked_response :
      Judgement A.Number
      → Option Uuid
      → Option (Option String)
      → Option (List String)
      → Result (DetectionResponse A.Number)
  checked_response v alert_id (some version) (some codes) =
      if unit_score (some v.evaluation.rule_score)
        && (unit_score v.ml.score && unit_score (some v.combined))
      then ok (record {
        rule_score = A.round4 v.evaluation.rule_score;
        ml_score = rounded v.ml.score;
        combined_score = A.round4 v.combined;
        ml_status = v.ml.status;
        ml_model_version = version;
        ml_reason_codes = codes;
        risk_level = v.risk_level;
        decision = decision_for v;
        rule_hits = v.evaluation.hits;
        alert_id = alert_id;
      })
      else raise (unhandled "ValidationError")
  checked_response v alert_id _ _ = raise (unhandled "ValidationError")

  unfoldable pub response_of :
      Judgement A.Number → Option Uuid → Result (DetectionResponse A.Number)
  response_of v alert_id =
      checked_response v alert_id (version_text v.ml.model_version) (reason_codes v.ml.reason_codes)

  abbrev pub unscored : DetectionResponse A.Number
  unscored = record {
    rule_score = A.decimal 0 0;
    ml_score = none;
    combined_score = A.decimal 0 0;
    ml_status = MlStatus.unavailable;
    ml_model_version = none;
    ml_reason_codes = [];
    risk_level = RiskLevel.low;
    decision = Decision.allow;
    rule_hits = [];
    alert_id = none;
  }

  -- The columns of an assessment, for a new row and for the one that is there.
  abbrev pub assessment : Judgement A.Number → Uuid → RiskAssessment A.Number
  assessment v id = record {
    login_attempt_id = id;
    policy_id = some v.policy_id;
    rule_score = v.evaluation.rule_score;
    ml_score = v.ml.score;
    combined_score = v.combined;
    ml_status = v.ml.status;
    ml_model_version = v.ml.model_version;
    rule_hits = v.evaluation.hits;
    ml_reason_codes = v.ml.reason_codes;
    ml_features_used = v.features;
    risk_level = v.risk_level;
    decision = decision_for v;
  }

  abbrev update_assessment : Judgement A.Number → Uuid → Store A.Number → Store A.Number
  update_assessment v id db = record db {
    risk_assessments =
        update (λ (r : RiskAssessment A.Number). is_value (some id) r.login_attempt_id)
          (λ r. assessment v r.login_attempt_id) db.risk_assessments;
  }

  unfoldable pub save_assessment : Judgement A.Number → Uuid → Store A.Number → Store A.Number
  save_assessment v id db =
      if is_some (assessment_of (some id) db)
      then update_assessment v id db
      else add_assessment (assessment v id) db

  -- What the whole run is about: `persist`, the identifier of the attempt (none for one that is not
  -- in the database) and the request.
  module _ (outside : Outside) (ml : ℕ → Uuid → Features A.Number → MlReply A.Number)
      (persist : Bool) (key : Option Uuid) (attempt : LoginAttempt) (request_id : Uuid) where
    abbrev pub log_row : String → String → DetectionLog A.Number
    log_row stage stage_detail = record {
      login_attempt_id = key;
      request_id = request_id;
      stage = stage;
      stage_detail = stage_detail;
      rule_name = none;
      triggered = none;
      score_contribution = none;
      field_value = none;
      decision = none;
      reason = none;
    }

    abbrev pub log : DetectionLog A.Number → Scoring (Unit {0})
    log row = when persist (change (add_log row))

    unfoldable pub log_config : List Problem → Scoring (Unit {0})
    log_config [] = pure tt
    log_config (_ ∷ rest) = do
      log (record (log_row "scoring" "policy_config") { reason = some "invalid_thresholds" })
      log_config rest

    abbrev hit_row : RuleHit A.Number → Option A.Number → DetectionLog A.Number
    hit_row hit value = record (log_row "rule_evaluation" hit.rule_name) {
      rule_name = some hit.rule_name;
      triggered = some true;
      score_contribution = some hit.score_contribution;
      field_value = value;
      reason = some hit.reason;
    }

    unfoldable pub log_hits :
        Features A.Number → Json A.Number → List (RuleHit A.Number) → Scoring (Unit {0})
    log_hits features rules [] = pure tt
    log_hits features rules (hit ∷ rest) = do
      value ← lift (matched_value A features hit.rule_name rules)
      log (hit_row hit value)
      log_hits features rules rest

    -- The columns are texts: they take a name that is not one as its text.
    abbrev problem_row : RuleProblem A.Number → DetectionLog A.Number
    problem_row p = record (log_row "rule_evaluation" (str A p.rule_name)) {
      rule_name = some (str A p.rule_name);
      triggered = some false;
      reason = some p.reason;
    }

    unfoldable pub log_problems : List (RuleProblem A.Number) → Scoring (Unit {0})
    log_problems [] = pure tt
    log_problems (p ∷ rest) = do log (problem_row p); log_problems rest

    abbrev failure_text : Option String → String
    failure_text none = "ml_failed"
    failure_text (some e) = e

    abbrev ml_detail : MlStatus → Option String → String
    ml_detail MlStatus.success _ = "ml_inference"
    ml_detail _ error = failure_text error

    abbrev pub ml_row : MlOutcome A.Number → DetectionLog A.Number
    ml_row o = record (log_row "ml_call" (ml_detail o.status o.error)) { reason = o.error }

    abbrev pub verdict_row : Judgement A.Number → DetectionLog A.Number
    verdict_row v = record (log_row "scoring" "final_decision") {
      decision = some (decision_for v);
      reason = some (final_reason v);
    }

    -- Steps 3 to 5.
    abbrev pub judge :
        Policy A.Number
        → Features A.Number
        → ResolvedConfig A.Number
        → Evaluation A.Number
        → MlOutcome A.Number
        → Judgement A.Number
    judge policy features config evaluation outcome =
        let combined = combine A config.weights evaluation.rule_score outcome in
        record {
          policy_id = policy.id;
          features = features;
          evaluation = evaluation;
          ml = outcome;
          combined = combined;
          risk_level = map_score_to_risk_level A combined config.thresholds;
        }

    -- The computation up to the verdict, with its logs.
    unfoldable pub score_attempt : Policy A.Number → Scoring (Judgement A.Number)
    score_attempt policy = do
      let (config, config_problems) = resolve_config A policy.config
      log_config config_problems
      features ← query (λ db. build_features A attempt db.soc.login_attempts)
      evaluation ← lift (evaluate_rules A policy.rules features)
      log_hits features policy.rules evaluation.hits
      log_problems evaluation.problems
      outcome ← call_ml_service A outside ml features request_id
      log (ml_row outcome)
      let verdict = judge policy features config evaluation outcome
      log (verdict_row verdict)
      pure verdict
