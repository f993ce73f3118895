-- ===== src/Tests/MlService.antt =====
-- The service of the model: an answer, a repeated request, a model that is missing.
use sentinel_auth.Prelude.{ℕ, String, true, false, Option, none, some, [], ◌∷◌, ◌≡◌, ◌⊎◌, refl}
use sentinel_auth.Core.{
  Result, ok, raise, http, unhandled, WorldOf, respond, get_internal_secret, verify_internal_secret,
  IsInternal,
}
use sentinel_auth.Pipeline.Ml.{MlReply, outcome_of_response}
use sentinel_auth.MlService.{
  MlScoreRequest, MlScoreResponse, MlDb, Bundle, feature_fields, runtime_at, resolve_model_source,
  clip, runtime_score, reason_codes, insert_log, score,
}
use sentinel_auth.MlService.Contract.{HasRoom, score_refuses_again}
use sentinel_auth.MlService.Answers.{response_body, taken, score_answer_taken}
use sentinel_auth.Tests.Sample.{outside}
use sentinel_auth.Tests.Policies.{arithmetic}

abbrev Number : Type 0
Number = ℕ × ℕ

-- The decision is -0.9, and the scaler lets it as it is.
abbrev bundle : Bundle Number
bundle = record {
  features = feature_fields;
  version = "v1";
  decision_function = some (λ f. some (0, 900_000));
  predict = some (λ f. some true);
  transform = some (λ x. some x);
}

abbrev joblib : String → Option (Bundle Number)
joblib path = some bundle

abbrev empty : MlDb Number
empty = record { model_versions = []; inference_logs = [] }

abbrev world : WorldOf (MlDb Number)
world = record { committed = empty; working = empty; calls = 0; posted = [] }

abbrev at_night : MlScoreRequest Number
at_night = record {
  request_id = 7;
  features = record {
    hour_of_day = 3;
    fail_count_24h = 5;
    ip_change_rate_7d = (0, 0);
    new_device = false;
    average_login_interval_seconds = 60;
    deviation_score = (0, 0);
  };
}

abbrev secret : Option String
secret = some "0123456789abcdef0123456789abcdef"

internal : IsInternal outside secret
unfolding get_internal_secret
internal = ("0123456789abcdef0123456789abcdef", refl, refl, refl)

abbrev run : Result (MlScoreResponse Number) × WorldOf (MlDb Number)
run = respond (score arithmetic outside joblib (some "model") none (some at_night) secret) world

abbrev answer : MlScoreResponse Number
answer = record {
  request_id = 7;
  normalized_anomaly_score = (900_000, 0);
  is_anomaly = true;
  model_version = "v1";
  reason_codes = "unusual_hour" ∷ "high_fail_count" ∷ "multiple_factors" ∷ [];
  model_status = "ready";
  processing_time_ms = 0;
}

answered : run ≡ (ok answer, run.1)
unfolding score verify_internal_secret get_internal_secret resolve_model_source insert_log
    runtime_score clip reason_codes
answered = refl

score_answer_taken_example :
    outcome_of_response arithmetic
      (MlReply.response 200 "200" (some (response_body arithmetic outside answer)))
    ≡ taken arithmetic outside answer
score_answer_taken_example =
    score_answer_taken arithmetic outside joblib (some "model") none (some at_night) secret world
      answered

abbrev logged : MlDb Number
logged = record empty {
  inference_logs =
      record {
        request_id = 7;
        model_version_id = none;
        model_version_used = "v1";
        features = at_night.features;
        raw_score = none;
        normalized_score = (0, 0);
        is_anomaly = false;
        reason_codes = [];
        model_status = "ready";
      }
      ∷ [];
}

abbrev later : WorldOf (MlDb Number)
later = record world { committed = logged; working = logged }

score_refuses_again_example :
    let again =
      respond (score arithmetic outside joblib (some "model") none (some at_night) secret) later in
    ((again.0 ≡ raise (unhandled "IntegrityError"))
      ⊎ ((again.0 ≡ raise (unhandled "DataError"))
          × (¬ (
              HasRoom arithmetic
                (runtime_at joblib none (resolve_model_source (some "model") logged).0).0
                at_night.features))))
    × (again.1.committed ≡ logged)
score_refuses_again_example =
    score_refuses_again arithmetic outside joblib (some "model") none at_night secret later internal
      refl

no_model :
    (respond (score arithmetic outside joblib none none (some at_night) secret) world).0
    ≡ raise (http 503 "ML model unavailable")
unfolding score verify_internal_secret get_internal_secret resolve_model_source insert_log
no_model = refl
