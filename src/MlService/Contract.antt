-- ===== src/MlService/Contract.antt =====
-- app/ml.py: one row for each request, and answers that Detection takes.
use sentinel_auth.Prelude.{
  ℕ, String, Bool, true, false, ◌⊎◌, inl, inr, Option, none, some, [], ◌∷◌, ◌++◌, ◌==◌, nat_eq,
  string_eq, is_some, find, Option-cases, ◌+◌, ◌≡◌, refl,
}
use sentinel_auth.Core.{
  Uuid, Outside, Result, ok, raise, http, unhandled, WorldOf, respond, IsInternal,
  verify_internal_secret-passes,
}
use sentinel_auth.Policies.Config.{Arithmetic, in_unit}
use sentinel_auth.MlService.{
  LoginFeatures, MlScoreRequest, MlScoreResponse, InferenceLog, MlDb, Bundle, Cache, Scored,
  runtime_at, resolve_model_source, runtime_score, insert_log, fail, succeed, judge, judge_scored,
  score,
}

module _ (A : Arithmetic) where
  -- How an answer and the row that is logged for it belong together.
  abbrev pub Matches : Result (MlScoreResponse A.Number) → InferenceLog A.Number → Type 0
  Matches (ok r) row =
      (row.model_status ≡ "ready")
      × (A.numeric 5 4 r.normalized_anomaly_score ≡ some row.normalized_score)
      × (row.reason_codes ≡ r.reason_codes)
  Matches (raise e) row =
      ((e ≡ http 503 "ML model unavailable") × (row.model_status ≡ "error"))
      ⊎ ((e ≡ unhandled "ValidationError")
          × (x : A.Number) × (A.numeric 5 4 x ≡ some row.normalized_score)
          × (in_unit A x ≡ false))

  abbrev pub Fits : ℕ → ℕ → A.Number → Type 0
  Fits p s x = (y : A.Number) × (A.numeric p s x ≡ some y)

  none-some : {B : Type 0} → ¬ ((y : B) × (◌≡◌ {A = Option B} none (some y)))
  none-some (y, e) = cc

  abbrev RoomForScore : Option (Scored A) → Type 0
  RoomForScore none = Unit {0}
  RoomForScore (some (raw, value, is_anomaly)) = Fits 10 6 raw × Fits 5 4 value

  abbrev RoomForRun : Option (Bundle A.Number) → LoginFeatures A.Number → Type 0
  RoomForRun none features = Unit {0}
  RoomForRun (some bundle) features = RoomForScore (runtime_score A bundle features)

  -- The columns have room for what the model computes, and for the 0 of an error row.
  abbrev pub HasRoom : Option (Bundle A.Number) → LoginFeatures A.Number → Type 0
  HasRoom runtime features = Fits 5 4 (A.decimal 0 0) × RoomForRun runtime features

  abbrev pub is_logged : Uuid → MlDb A.Number → Bool
  is_logged id db =
      is_some (find (λ (r : InferenceLog A.Number). r.request_id == id) db.inference_logs)

  abbrev Logged :
      MlScoreRequest A.Number
      → MlDb A.Number
      → Result (MlScoreResponse A.Number) × WorldOf (MlDb A.Number)
      → Type 0
  Logged payload db (r, w') =
      (row : InferenceLog A.Number) × (w'.committed.inference_logs ≡ db.inference_logs ++ row ∷ [])
      × (row.request_id ≡ payload.request_id)
      × Matches r row

  -- How a repeated request ends: with the error of the key, or with that of a column that has no
  -- room, and then there is none.
  abbrev pub Refused :
      Type 0
      → WorldOf (MlDb A.Number)
      → Result (MlScoreResponse A.Number) × WorldOf (MlDb A.Number)
      → Type 0
  Refused room w run =
      ((run.0 ≡ raise (unhandled "IntegrityError"))
        ⊎ ((run.0 ≡ raise (unhandled "DataError")) × (¬ room)))
      × (run.1.committed ≡ w.committed)

  Refused-anti :
      {room more : Type 0} (w : WorldOf (MlDb A.Number))
      (run : Result (MlScoreResponse A.Number) × WorldOf (MlDb A.Number))
      → (more → room)
      → Refused room w run
      → Refused more w run
  Refused-anti w run f (inl key, same) = (inl key, same)
  Refused-anti w run f (inr (column, full), same) = (inr (column, λ m. full (f m)), same)

  module _ (outside : Outside) (joblib : String → Option (Bundle A.Number))
      (configured : Option String) where
    fail-Refused :
        (payload : MlScoreRequest A.Number) (w : WorldOf (MlDb A.Number))
        → is_logged payload.request_id w.working ≡ true
        → Refused (Fits 5 4 (A.decimal 0 0)) w (fail A outside joblib configured payload w)
    unfolding insert_log
    fail-Refused payload w again = elim (Option-cases (A.numeric 5 4 (A.decimal 0 0))) [
      | inl full ↦ rw full (inr (refl, none-some), refl)
      | inr (zero, room) ↦ rw (room, again) (inl refl, refl)
    ]

    succeed-Refused :
        (payload : MlScoreRequest A.Number) (version_id : Option Uuid) (started : ℕ)
        (bundle : Bundle A.Number) (scored : Scored A) (w : WorldOf (MlDb A.Number))
        → is_logged payload.request_id w.working ≡ true
        → Refused
            (RoomForScore (some scored))
            w
            (succeed A outside joblib configured payload version_id started bundle scored w)
    unfolding insert_log
    succeed-Refused payload version_id started bundle (raw, value, is_anomaly) w again =
        elim (Option-cases (A.numeric 10 6 raw)) [
          | inl full ↦ rw full (inr (refl, λ fits. none-some fits.0), refl)
          | inr (kept_raw, raw_room) ↦ elim (Option-cases (A.numeric 5 4 value)) [
            | inl full ↦ rw (raw_room, full) (inr (refl, λ fits. none-some fits.1), refl)
            | inr (kept_value, value_room) ↦ rw (raw_room, value_room, again) (inl refl, refl)
          ]
        ]

    judge_scored-Refused :
        (payload : MlScoreRequest A.Number) (version_id : Option Uuid) (started : ℕ)
        (bundle : Bundle A.Number) (scored : Option (Scored A)) (w : WorldOf (MlDb A.Number))
        → is_logged payload.request_id w.working ≡ true
        → Refused
            (Fits 5 4 (A.decimal 0 0) × RoomForScore scored)
            w
            (judge_scored A outside joblib configured payload version_id started bundle scored w)
    judge_scored-Refused payload version_id started bundle none w again =
        Refused-anti w (fail A outside joblib configured payload w) (λ room. room.0)
          (fail-Refused payload w again)
    judge_scored-Refused payload version_id started bundle (some scored) w again =
        Refused-anti w
          (succeed A outside joblib configured payload version_id started bundle scored w)
          (λ room. room.1) (succeed-Refused payload version_id started bundle scored w again)

    judge-Refused :
        (payload : MlScoreRequest A.Number) (version_id : Option Uuid) (started : ℕ)
        (runtime : Option (Bundle A.Number)) (w : WorldOf (MlDb A.Number))
        → is_logged payload.request_id w.working ≡ true
        → Refused
            (HasRoom runtime payload.features)
            w
            (judge A outside joblib configured payload version_id started runtime w)
    judge-Refused payload version_id started none w again =
        Refused-anti w (fail A outside joblib configured payload w) (λ room. room.0)
          (fail-Refused payload w again)
    judge-Refused payload version_id started (some bundle) w again =
        judge_scored-Refused payload version_id started bundle
          (runtime_score A bundle payload.features) w again

    -- A second request with an identifier that has been logged is not answered: whatever it asks to
    -- score and whatever the model does, the log is as it was, and the request ends with the
    -- IntegrityError of the unique column, or with a DataError when the columns have no room for its
    -- numbers.
    pub score_refuses_again :
        (cache : Cache A.Number) (payload : MlScoreRequest A.Number) (secret : Option String)
        (w : WorldOf (MlDb A.Number))
        → IsInternal outside secret
        → is_logged payload.request_id w.committed ≡ true
        → let run = respond (score A outside joblib configured cache (some payload) secret) w in
          let runtime =
            (runtime_at joblib cache (resolve_model_source configured w.committed).0).0 in
          ((run.0 ≡ raise (unhandled "IntegrityError"))
            ⊎ ((run.0 ≡ raise (unhandled "DataError")) × (¬ (HasRoom runtime payload.features))))
          × (run.1.committed ≡ w.committed)
    unfolding score
    score_refuses_again cache payload secret w internal again =
        let opened : WorldOf (MlDb A.Number) = record w { working = w.committed } in
        let source = resolve_model_source configured w.committed in
        rw (verify_internal_secret-passes outside secret opened internal) (
          judge-Refused payload source.1 (outside.clock w.calls)
            (runtime_at joblib cache source.0).0 (record opened { calls = opened.calls + 1 }) again)
