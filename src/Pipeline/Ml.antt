-- ===== src/Pipeline/Ml.antt =====
-- app/detection.py, call_ml_service: the score of the ML service, or why there is none.
use Prim.Native.String.{◌++◌ as concat}
use sentinel_auth.Prelude.{
  ℕ, String, Bool, false, Option, none, some, leb, if◌then◌else◌, ◌==◌, string_eq,
}
use sentinel_auth.Core.{Uuid, Outside, is_internal_auth_configured, ActionOf, pure, ◌>>=◌, call}
use sentinel_auth.Policies.Config.{Json, nil, Fields, Arithmetic, lookup, in_unit}
use sentinel_auth.Pipeline.Features.{Features}
use sentinel_auth.Pipeline.Evaluation.{if_truthy}

pub data MlStatus : Type 0 where
  success unavailable error : MlStatus

-- A reason code list is kept as the service sent it.
pub record MlOutcome (N : Type 0) : Type 0 where
  pub score : Option N
  pub status : MlStatus
  pub model_version : Option (Json N)
  pub reason_codes : Json N
  pub error : Option String

-- What comes back: a timeout, another error of the HTTP client, or a response with its code, the
-- code's text and its body, which is none when it is not JSON.
pub data MlReply (N : Type 0) : Type 0 where
  timeout : MlReply N
  http_error : (exception : String) → MlReply N
  response : (status_code : ℕ) (code : String) → Option (Json N) → MlReply N

module _ {N : Type 0} where
  abbrev failure : MlStatus → String → MlOutcome N
  failure status reason = record {
    score = none;
    status = status;
    model_version = none;
    reason_codes = Json.array nil;
    error = some reason;
  }

  -- A value that is null counts as missing.
  abbrev present : Option (Json N) → Option (Json N)
  present (some Json.null) = none
  present v = v

  abbrev is_error : Option (Json N) → Bool
  is_error (some (Json.text s)) = s == "error"
  is_error _ = false

  -- `body.get(key, body.get(other))`
  abbrev get_or : Option (Json N) → Option (Json N) → Option (Json N)
  get_or none other = other
  get_or (some v) other = some v

module _ (A : Arithmetic) where
  abbrev pub codes_of : Option (Json A.Number) → Json A.Number
  codes_of none = Json.array nil
  codes_of (some v) = v

  abbrev scored : Fields A.Number → Option (Json A.Number) → MlOutcome A.Number
  scored body (some (Json.number score)) =
      if in_unit A score
      then record {
        score = some score;
        status = MlStatus.success;
        model_version = present (lookup "model_version" body);
        reason_codes = codes_of (if_truthy A (lookup "reason_codes" body));
        error = none;
      }
      else failure MlStatus.error "ml_service_score_out_of_range"
  scored body _ = failure MlStatus.error "ml_service_bad_payload"

  abbrev outcome_of_body : Option (Json A.Number) → MlOutcome A.Number
  outcome_of_body none = failure MlStatus.error "ml_bad_response: JSONDecodeError"
  outcome_of_body (some (Json.object body)) =
      if is_error (lookup "model_status" body)
      then failure MlStatus.error "ml_model_status_error"
      else scored body
          (get_or (lookup "normalized_anomaly_score" body) (lookup "anomaly_score" body))
  outcome_of_body (some _) = failure MlStatus.error "ml_service_bad_payload"

  unfoldable pub outcome_of_response : MlReply A.Number → MlOutcome A.Number
  outcome_of_response MlReply.timeout = failure MlStatus.unavailable "ml_timeout"
  outcome_of_response (MlReply.http_error exception) =
      failure MlStatus.unavailable (concat "ml_unreachable: " exception)
  outcome_of_response (MlReply.response status code body) =
      if leb 400 status
      then failure MlStatus.error (concat "ml_service_http_" code)
      else outcome_of_body body

  -- `ml n r f` is what the network answers to the n-th call, which posts the features `f` under the
  -- request `r`.
  unfoldable pub call_ml_service :
      {D : Type 0}
      → Outside
      → (ℕ → Uuid → Features A.Number → MlReply A.Number)
      → Features A.Number
      → Uuid
      → ActionOf D (MlOutcome A.Number)
  call_ml_service outside ml features request_id =
      if is_internal_auth_configured outside
      then (call (λ n. ml n request_id features) >>= λ reply. pure (outcome_of_response reply))
      else pure (failure MlStatus.unavailable "internal_auth_not_configured")
