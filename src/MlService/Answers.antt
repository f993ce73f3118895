-- ===== src/MlService/Answers.antt =====
-- app/ml.py and app/detection.py: what Detection makes of the service's answer.
use sentinel_auth.Prelude.{
  ℕ, ◌+◌, ◌-◌, ◌/◌, String, true, inl, inr, Option, none, some, List, [], ◌∷◌, Bool-cases, nat_eq,
  string_eq, ◌≡◌, refl, ap, subst,
}
use sentinel_auth.Core.{
  Uuid, Outside, Result, ok, raise, WorldOf, respond, and_then, ◌>>=◌, throw, http, respond-eq-ok,
  verify_internal_secret,
}
use sentinel_auth.Policies.Config.{Arithmetic, Json, Items, nil, cons, field, end, in_unit, lookup}
use sentinel_auth.Pipeline.Ml.{MlStatus, MlOutcome, codes_of, MlReply, outcome_of_response}
use sentinel_auth.Pipeline.Evaluation.{if_truthy}
use sentinel_auth.MlService.{
  MlScoreRequest, MlScoreResponse, MlDb, Bundle, Cache, Scored, Serving, runtime_at,
  resolve_model_source, runtime_score, insert_log, ready_row, failed_row, checked_score, fail,
  judge, judge_scored, score_payload, score,
}

module _ (A : Arithmetic) (outside : Outside) where
  abbrev text_items : List String → Items A.Number
  text_items [] = nil
  text_items (s ∷ ss) = cons (Json.text s) (text_items ss)

  -- The response as FastAPI writes it.
  abbrev pub response_body : MlScoreResponse A.Number → Json A.Number
  response_body r = Json.object (
      field "request_id" (Json.text (outside.uuid_text r.request_id)) (
        field "normalized_anomaly_score" (Json.number r.normalized_anomaly_score) (
          field "is_anomaly" (Json.boolean r.is_anomaly) (
            field "model_version" (Json.text r.model_version) (
              field "reason_codes" (Json.array (text_items r.reason_codes)) (
                field "model_status" (Json.text r.model_status) (
                  field "processing_time_ms" (Json.number (A.of_nat r.processing_time_ms))
                    end)))))))

  abbrev pub taken : MlScoreResponse A.Number → MlOutcome A.Number
  taken r = record {
    score = some r.normalized_anomaly_score;
    status = MlStatus.success;
    model_version = some (Json.text r.model_version);
    reason_codes = Json.array (text_items r.reason_codes);
    error = none;
  }

  abbrev Sound : Result (MlScoreResponse A.Number) × WorldOf (MlDb A.Number) → Type 0
  Sound (ok r, w) = (in_unit A r.normalized_anomaly_score ≡ true) × (r.model_status ≡ "ready")
  Sound (raise _, w) = Unit

  codes_kept :
      (codes : List String)
      → codes_of A (if_truthy A (some (Json.array (text_items codes))))
        ≡ Json.array (text_items codes)
  codes_kept [] = refl
  codes_kept (_ ∷ _) = refl

  Sound-taken :
      (r : MlScoreResponse A.Number) (w : WorldOf (MlDb A.Number))
      → Sound (ok r, w)
      → outcome_of_response A (MlReply.response 200 "200" (some (response_body r))) ≡ taken r
  unfolding outcome_of_response lookup
  Sound-taken r w (inside, ready) =
      rw (ready, inside)
        (ap (λ (codes : Json A.Number). record (taken r) { reason_codes = codes })
          (codes_kept r.reason_codes))

  and_then-Sound :
      {B : Type 0} (r : Result B) (f : B → Serving A (MlScoreResponse A.Number))
      (w : WorldOf (MlDb A.Number))
      → ((b : B) (v : WorldOf (MlDb A.Number)) → Sound (f b v))
      → Sound (and_then r f w)
  and_then-Sound (ok b) f w sound = sound b w
  and_then-Sound (raise _) f w sound = tt

  bind-Sound :
      {B : Type 0} (m : Serving A B) (f : B → Serving A (MlScoreResponse A.Number))
      → ((b : B) (v : WorldOf (MlDb A.Number)) → Sound (f b v))
      → (w : WorldOf (MlDb A.Number)) → Sound ((m >>= f) w)
  bind-Sound m f sound w = and_then-Sound (m w).0 f (m w).1 sound

  checked_score-Sound :
      (payload : MlScoreRequest A.Number) (bundle : Bundle A.Number) (scored : Scored A)
      (elapsed : ℕ) (w : WorldOf (MlDb A.Number))
      → Sound (checked_score A payload bundle scored elapsed w)
  checked_score-Sound payload bundle (raw, value, is_anomaly) elapsed w =
      elim (Bool-cases (in_unit A value)) [
        | inl inside ↦ rw inside (inside, refl)
        | inr beyond ↦ rw beyond tt
      ]

  module _ (joblib : String → Option (Bundle A.Number)) (configured : Option String) where
    fail-Sound :
        (payload : MlScoreRequest A.Number) (w : WorldOf (MlDb A.Number))
        → Sound (fail A outside joblib configured payload w)
    fail-Sound payload w =
        bind-Sound (insert_log A (failed_row A payload))
          (λ _. throw (http 503 "ML model unavailable")) (λ b v. tt)
          (record w { calls = w.calls + 1 })

    judge_scored-Sound :
        (payload : MlScoreRequest A.Number) (version_id : Option Uuid) (started : ℕ)
        (bundle : Bundle A.Number) (scored : Option (Scored A)) (w : WorldOf (MlDb A.Number))
        → Sound
            (judge_scored A outside joblib configured payload version_id started bundle scored w)
    judge_scored-Sound payload version_id started bundle none w = fail-Sound payload w
    judge_scored-Sound payload version_id started bundle (some scored) w =
        let elapsed = (outside.clock w.calls - started) / 1000 in
        bind-Sound (insert_log A (ready_row A payload version_id bundle scored))
          (λ _. checked_score A payload bundle scored elapsed)
          (λ b v. checked_score-Sound payload bundle scored elapsed v)
          (record w { calls = w.calls + 1 })

    judge-Sound :
        (payload : MlScoreRequest A.Number) (version_id : Option Uuid) (started : ℕ)
        (runtime : Option (Bundle A.Number)) (w : WorldOf (MlDb A.Number))
        → Sound (judge A outside joblib configured payload version_id started runtime w)
    judge-Sound payload version_id started none w = fail-Sound payload w
    judge-Sound payload version_id started (some bundle) w =
        judge_scored-Sound payload version_id started bundle
          (runtime_score A bundle payload.features) w

    score_payload-Sound :
        (cache : Cache A.Number) (payload : Option (MlScoreRequest A.Number))
        (w : WorldOf (MlDb A.Number))
        → Sound (score_payload A outside joblib configured cache payload w)
    score_payload-Sound cache none w = tt
    score_payload-Sound cache (some payload) w =
        let source = resolve_model_source configured w.working in
        judge-Sound payload source.1 (outside.clock w.calls) (runtime_at joblib cache source.0).0
          (record w { calls = w.calls + 1 })

    -- Every answer of the service with the code 200 is one that Detection takes: as a success, with
    -- the same score, model version and reason codes.
    pub score_answer_taken :
        (cache : Cache A.Number) (payload : Option (MlScoreRequest A.Number))
        (secret : Option String) (w : WorldOf (MlDb A.Number)) {r : MlScoreResponse A.Number}
        {w' : WorldOf (MlDb A.Number)}
        → respond (score A outside joblib configured cache payload secret) w ≡ (ok r, w')
        → outcome_of_response A (MlReply.response 200 "200" (some (response_body r))) ≡ taken r
    unfolding score
    score_answer_taken cache payload secret w {r} {w'} ran =
        let (v, answered, _) =
          respond-eq-ok (score A outside joblib configured cache payload secret) w ran in
        Sound-taken r v (
          subst Sound answered (
            bind-Sound (verify_internal_secret outside secret)
              (λ _. score_payload A outside joblib configured cache payload)
              (λ b v. score_payload-Sound cache payload v) (record w { working = w.committed })))
