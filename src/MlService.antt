-- ===== src/MlService.antt =====
-- app/ml.py: the service that scores a login. What joblib loads from a path, the estimator and the
-- scaler are parameters; the request is as its strict schema reads the body, none for a refusal.
mod Tables
pub use Tables.*
pub mod Contract
pub mod Answers
use sentinel_auth.Prelude.{
  ℕ, ◌-◌, ◌/◌, String, Bool, true, false, not, ◌&&◌, ◌||◌, Option, none, some, List, [], ◌∷◌, ◌++◌,
  if◌then◌else◌, leb, ltb, length, is_some, ◌==◌, nat_eq, string_eq, find, given,
}
use sentinel_auth.Core.{
  Uuid, Outside, http, unhandled, ActionOf, pure, throw, ◌>>=◌, ◌>>◌, query, change, commit, call,
  verify_internal_secret,
}
use sentinel_auth.Policies.Config.{Arithmetic, in_unit}

abbrev pub feature_fields : List String
feature_fields =
    "hour_of_day" ∷ "fail_count_24h" ∷ "ip_change_rate_7d" ∷ "new_device"
    ∷ "average_login_interval_seconds" ∷ "deviation_score" ∷ []

abbrev same_texts : List String → List String → Bool
same_texts [] [] = true
same_texts (s ∷ ss) (t ∷ ts) = s == t && same_texts ss ts
same_texts _ _ = false

abbrev is_active_model : ModelVersion → Bool
is_active_model v = v.status == "active" && v.is_production

-- The path of the model, none when there is none or it is empty, and the row's identifier.
abbrev pub source_of : Option String → Option ModelVersion → Option String × Option Uuid
source_of configured none = (given configured, none)
source_of configured (some v) = (given (some v.model_path), some v.id)

module _ {N : Type 0} where
  -- IsolationForestRuntime.load
  abbrev pub check_bundle : Bundle N → Option (Bundle N)
  check_bundle bundle =
      if same_texts bundle.features feature_fields
        && is_some bundle.decision_function
        && is_some bundle.predict
        && is_some bundle.transform
      then some bundle
      else none

  abbrev pub load : Option (Bundle N) → Option (Bundle N)
  load none = none
  load (some bundle) = check_bundle bundle

  unfoldable pub resolve_model_source : Option String → MlDb N → Option String × Option Uuid
  resolve_model_source configured db = source_of configured (find is_active_model db.model_versions)

  abbrev pub cached_at : String → Cache N → Option (Bundle N)
  cached_at path none = none
  cached_at path (some (kept, bundle)) = if kept == path then some bundle else none

  abbrev pub keep : String → Option (Bundle N) → Cache N → Cache N
  keep path none cache = cache
  keep path (some bundle) cache = some (path, bundle)

  -- The runtime, and what is kept of it.
  abbrev pub runtime_at :
      (String → Option (Bundle N)) → Cache N → Option String → Option (Bundle N) × Cache N
  runtime_at joblib cache none = (none, cache)
  runtime_at joblib cache (some path) = elim (cached_at path cache) [
    | some bundle ↦ (some bundle, cache)
    | none ↦ (load (joblib path), keep path (load (joblib path)) cache)
  ]

module _ (A : Arithmetic) where
  -- `np.clip(x, 0.0, 1.0)`, which leaves NaN as it is.
  unfoldable pub clip : A.Number → A.Number
  clip x =
      if A.lt x (A.decimal 0 0)
      then A.decimal 0 0
      else if A.lt (A.decimal 1 0) x
      then A.decimal 1 0
      else x

  abbrev apply :
      {B : Type 0} → Option (LoginFeatures A.Number → Option B) → LoginFeatures A.Number → Option B
  apply none features = none
  apply (some f) features = f features

  abbrev pub normalize : Option (A.Number → Option A.Number) → A.Number → Option A.Number
  normalize none x = none
  normalize (some f) x = elim (f x) [ none ↦ none | some y ↦ some (clip y) ]

  -- The raw score, the score and whether it is an anomaly; none when something raises.
  abbrev pub Scored : Type 0
  Scored = A.Number × A.Number × Bool

  abbrev with_raw : Bundle A.Number → LoginFeatures A.Number → Option A.Number → Option Scored
  with_raw bundle features none = none
  with_raw bundle features (some raw) =
      elim (normalize bundle.transform (A.sub (A.decimal 0 0) raw)) [
        | none ↦ none
        | some score ↦ elim (apply bundle.predict features) [
          | none ↦ none
          | some is_anomaly ↦ some (raw, score, is_anomaly)
        ]
      ]

  unfoldable pub runtime_score : Bundle A.Number → LoginFeatures A.Number → Option Scored
  runtime_score bundle features = with_raw bundle features (apply bundle.decision_function features)

  abbrev evidence : LoginFeatures A.Number → List String
  evidence f =
      (if ltb f.hour_of_day 6 || leb 23 f.hour_of_day then "unusual_hour" ∷ [] else [])
      ++ (if leb 5 f.fail_count_24h then "high_fail_count" ∷ [] else [])
      ++ (if A.lt (A.decimal 5 1) f.ip_change_rate_7d then "new_ip" ∷ [] else [])
      ++ (if f.new_device then "new_device" ∷ [] else [])
      ++ (if A.le (A.decimal 7 1) f.deviation_score then "behavioral_deviation" ∷ [] else [])

  unfoldable pub reason_codes : LoginFeatures A.Number → List String
  reason_codes f =
      evidence f ++ (if leb 2 (length (evidence f)) then "multiple_factors" ∷ [] else [])

  abbrev pub Serving : Type 0 → Type 0
  Serving B = ActionOf (MlDb A.Number) B

  abbrev raw_column : Option A.Number → Option (Option A.Number)
  raw_column none = some none
  raw_column (some x) = elim (A.numeric 10 6 x) [ none ↦ none | some y ↦ some (some y) ]

  -- The row as the table holds it: raw_score is NUMERIC(10, 6), normalized_score NUMERIC(5, 4).
  abbrev pub held : InferenceLog A.Number → Option (InferenceLog A.Number)
  held row = elim (raw_column row.raw_score) [
    | none ↦ none
    | some raw ↦ elim (A.numeric 5 4 row.normalized_score) [
      | none ↦ none
      | some score ↦ some (record row { raw_score = raw; normalized_score = score })
    ]
  ]

  -- The column request_id is unique.
  abbrev insert_held : InferenceLog A.Number → Serving (Unit {0})
  insert_held row = do
    logged ← query (λ db.
        find (λ (r : InferenceLog A.Number). r.request_id == row.request_id) db.inference_logs)
    elim (is_some logged) [
      | true ↦ throw (unhandled "IntegrityError")
      | false ↦
          change (λ db. record db { inference_logs = db.inference_logs ++ row ∷ [] }) >> commit
    ]

  -- `db.add(...)` and `db.commit()`: the values are put in their columns before the key is looked at.
  unfoldable pub insert_log : InferenceLog A.Number → Serving (Unit {0})
  insert_log row = elim (held row) [
    | none ↦ throw (unhandled "DataError")
    | some kept ↦ insert_held kept
  ]

  abbrev pub failed_row : MlScoreRequest A.Number → InferenceLog A.Number
  failed_row payload = record {
    request_id = payload.request_id;
    model_version_id = none;
    model_version_used = "unavailable";
    features = payload.features;
    raw_score = none;
    normalized_score = A.decimal 0 0;
    is_anomaly = false;
    reason_codes = [];
    model_status = "error";
  }

  abbrev pub ready_row :
      MlScoreRequest A.Number → Option Uuid → Bundle A.Number → Scored → InferenceLog A.Number
  ready_row payload version_id bundle (raw, score, is_anomaly) = record {
    request_id = payload.request_id;
    model_version_id = version_id;
    model_version_used = bundle.version;
    features = payload.features;
    raw_score = some raw;
    normalized_score = score;
    is_anomaly = is_anomaly;
    reason_codes = reason_codes payload.features;
    model_status = "ready";
  }

  -- The response, which pydantic refuses when the score is not in [0, 1].
  abbrev pub checked_score :
      MlScoreRequest A.Number → Bundle A.Number → Scored → ℕ → Serving (MlScoreResponse A.Number)
  checked_score payload bundle (raw, score, is_anomaly) elapsed =
      if in_unit A score
      then pure (record {
        request_id = payload.request_id;
        normalized_anomaly_score = score;
        is_anomaly = is_anomaly;
        model_version = bundle.version;
        reason_codes = reason_codes payload.features;
        model_status = "ready";
        processing_time_ms = elapsed;
      })
      else throw (unhandled "ValidationError")

  module _ (outside : Outside) (joblib : String → Option (Bundle A.Number))
      (configured : Option String) where
    abbrev pub fail : MlScoreRequest A.Number → Serving (MlScoreResponse A.Number)
    fail payload = do
      _ ← call outside.clock
      insert_log (failed_row payload)
      throw (http 503 "ML model unavailable")

    abbrev pub succeed :
        MlScoreRequest A.Number
        → Option Uuid
        → ℕ
        → Bundle A.Number
        → Scored
        → Serving (MlScoreResponse A.Number)
    succeed payload version_id started bundle scored = do
      ended ← call outside.clock
      insert_log (ready_row payload version_id bundle scored)
      checked_score payload bundle scored ((ended - started) / 1000)

    abbrev pub judge_scored :
        MlScoreRequest A.Number
        → Option Uuid
        → ℕ
        → Bundle A.Number
        → Option Scored
        → Serving (MlScoreResponse A.Number)
    judge_scored payload version_id started bundle none = fail payload
    judge_scored payload version_id started bundle (some scored) =
        succeed payload version_id started bundle scored

    abbrev pub judge :
        MlScoreRequest A.Number
        → Option Uuid
        → ℕ
        → Option (Bundle A.Number)
        → Serving (MlScoreResponse A.Number)
    judge payload version_id started none = fail payload
    judge payload version_id started (some bundle) =
        judge_scored payload version_id started bundle (runtime_score bundle payload.features)

    abbrev pub score_payload :
        Cache A.Number → Option (MlScoreRequest A.Number) → Serving (MlScoreResponse A.Number)
    score_payload cache none = throw (http 400 "Invalid ML request")
    score_payload cache (some payload) = do
      started ← call outside.clock
      source ← query (resolve_model_source configured)
      judge payload source.1 started (runtime_at joblib cache source.0).0

    unfoldable pub score :
        Cache A.Number
        → Option (MlScoreRequest A.Number)
        → Option String
        → Serving (MlScoreResponse A.Number)
    score cache payload x_internal_secret = do
      verify_internal_secret outside x_internal_secret
      score_payload cache payload

    -- What is kept after the request, when it gets as far as the model.
    unfoldable pub cache_after : Cache A.Number → MlDb A.Number → Cache A.Number
    cache_after cache db = (runtime_at joblib cache (resolve_model_source configured db).0).1
