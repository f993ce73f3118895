-- ===== src/Pipeline/Protective.antt =====
-- The protective action for an attempt, as Core receives it (app/internal_actions.py).
use Prim.Native.String.{◌++◌ as concat, count as char_count}
use text.Mathlib.TextLemmas.{length-append}
use sentinel_auth.Prelude.{
  String, false, ◌==◌, eq_of_==, Bool-cases, inl, inr, string_eq, ◌≡◌, refl, ap, Option, none, some,
  arith,
}
use sentinel_auth.Core.{Uuid, Value, Outside, ok, World, respond}
use sentinel_auth.Actions.{
  action_value, SecurityAction, ActionRequest, ActionResponse, get, idempotency_reason,
  apply_action,
}
use sentinel_auth.Actions.Idempotency.{apply_action_once}
use sentinel_auth.Detection.Tables.{RiskLevel, LoginAttempt}
use sentinel_auth.Pipeline.Levels.{risk_action}
use sentinel_auth.Pipeline.Enforcement.{attempt_key, protective_request}

module _ (detection : Outside) where
  key_is_not_empty :
      (id : Uuid) (action : SecurityAction) → (attempt_key detection id action == "") ≡ false
  unfolding attempt_key
  key_is_not_empty id action = elim (Bool-cases (attempt_key detection id action == "")) [
    | inr text ↦ text
    | inl empty ↦
        let rest = concat (detection.uuid_text id) (concat ":" (action_value action)) in
        let e : attempt_key detection id action ≡ "" = eq_of_== _ "" empty in
        absurd (omega (arith, length-append "detection:" rest, ap char_count e))
  ]

  -- Two requests for one attempt and one level agree in all that Core recognises a retry by.
  abbrev AgreesWith : LoginAttempt → ActionRequest → ActionRequest → Type 0
  AgreesWith attempt p q =
      (q.action ≡ p.action)
      × (q.target_user_id ≡ p.target_user_id)
      × (q.idempotency_key ≡ p.idempotency_key)
      × (action : SecurityAction) × (p.idempotency_key
          ≡ some (attempt_key detection attempt.id action))

  request_agrees :
      (attempt again : LoginAttempt) (level : RiskLevel) (alert_id later_alert : Option Uuid)
      {p q : ActionRequest}
      → again.id ≡ attempt.id
      → again.user_id ≡ attempt.user_id
      → protective_request detection attempt level alert_id ≡ some p
      → protective_request detection again level later_alert ≡ some q
      → AgreesWith attempt p q
  unfolding protective_request
  request_agrees attempt again level alert_id later_alert {p} {q} same_id same_user e f =
      split (risk_action level) attempt.user_id refl refl
    where
      split :
          (a : Option SecurityAction) (u : Option Uuid)
          → risk_action level ≡ a
          → attempt.user_id ≡ u
          → AgreesWith attempt p q
      split none u ea eu = cc (rw (ea, protective_request) at e)
      split (some a) none ea eu = cc (rw (ea, eu, protective_request) at e)
      split (some a) (some u) ea eu =
          let e' = rw (ea, eu, protective_request) at e in
          let f' = rw (ea, same_user, eu, protective_request) at f in (cc, cc, cc, a, cc)

  -- Core executes the protective action for an attempt and a level once: when it has answered a
  -- request of Detection for them, a later request for the same attempt and level, with another
  -- alert or a changed attempt, changes nothing in Core and is answered as already applied.
  pub protective_action_once :
      (core : Outside) (attempt again : LoginAttempt) (level : RiskLevel)
      (alert_id later_alert : Option Uuid) (secret : Option String) (w : World)
      {p q : ActionRequest} {r : ActionResponse} {w' : World}
      → again.id ≡ attempt.id
      → again.user_id ≡ attempt.user_id
      → protective_request detection attempt level alert_id ≡ some p
      → protective_request detection again level later_alert ≡ some q
      → respond (apply_action core p secret) w ≡ (ok r, w')
      → (r' : ActionResponse) × (respond (apply_action core q secret) w' ≡ (ok r', w'))
        × (r'.status ≡ "already_applied")
        × (get "sessions_revoked" r'.details ≡ some (Value.number 0))
  protective_action_once core attempt again level alert_id later_alert secret w {p} {q} same_id
        same_user e f ran =
      let (same_action, same_target, same_key, action, key) =
        request_agrees attempt again level alert_id later_alert same_id same_user e f in
      let recognised : idempotency_reason p.idempotency_key
          ≡ some (concat "idempotency:" (attempt_key detection attempt.id action)) =
        rw (key, key_is_not_empty attempt.id action) refl in
      let (r', replayed, status, _, revoked) =
        apply_action_once core p q secret w recognised same_action same_target same_key ran in
      (r', replayed, status, revoked)
