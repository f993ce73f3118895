-- ===== src/MlService/Tables.antt =====
-- app/ml.py and app/models.py: the requests and rows of the service, and an artifact.
use sentinel_auth.Prelude.{ℕ, String, Bool, Option, List}
use sentinel_auth.Core.{Uuid}

pub record LoginFeatures (N : Type 0) : Type 0 where
  pub hour_of_day : ℕ
  pub fail_count_24h : ℕ
  pub ip_change_rate_7d : N
  pub new_device : Bool
  pub average_login_interval_seconds : ℕ
  pub deviation_score : N

pub record MlScoreRequest (N : Type 0) : Type 0 where
  pub request_id : Uuid
  pub features : LoginFeatures N

pub record MlScoreResponse (N : Type 0) : Type 0 where
  pub request_id : Uuid
  pub normalized_anomaly_score : N
  pub is_anomaly : Bool
  pub model_version : String
  pub reason_codes : List String
  pub model_status : String
  pub processing_time_ms : ℕ

pub record ModelVersion : Type 0 where
  pub id : Uuid
  pub model_path : String
  pub status : String
  pub is_production : Bool

pub record InferenceLog (N : Type 0) : Type 0 where
  pub request_id : Uuid
  pub model_version_id : Option Uuid
  pub model_version_used : String
  pub features : LoginFeatures N
  pub raw_score : Option N
  pub normalized_score : N
  pub is_anomaly : Bool
  pub reason_codes : List String
  pub model_status : String

pub record MlDb (N : Type 0) : Type 0 where
  pub model_versions : List ModelVersion
  pub inference_logs : List (InferenceLog N)

-- A bundle with its four keys. A method that the estimator or the scaler lacks is none, and so is
-- the answer of a method that raises.
pub record Bundle (N : Type 0) : Type 0 where
  pub features : List String
  pub version : String
  pub decision_function : Option (LoginFeatures N → Option N)
  pub predict : Option (LoginFeatures N → Option Bool)
  pub transform : Option (N → Option N)

-- The runtime that is kept between requests, with its path.
abbrev pub Cache : Type 0 → Type 0
Cache N = Option (String × Bundle N)
