-- ===== src/Pipeline/Held.antt =====
-- app/detection.py, pre_token_check, and app/auth.py, login: the verdict of Detection at Core.
use sentinel_auth.Prelude.{
  ℕ, ◌+◌, String, true, not, Option, none, some, inl, inr, Bool-cases, ◌≡◌, refl, sym, ◌∙◌, subst,
}
use sentinel_auth.Core.{
  Uuid, Outside, is_internal_auth_configured, Reply, HttpRequest, ok, World, WorldOf, respond,
  IsInternal,
}
use sentinel_auth.Auth.Risk.{is_gated_level, risk_of_verdict, risk_of_reply, pre_token_risk}
use sentinel_auth.Auth.Sessions.{LoginResponse}
use sentinel_auth.Auth.Login.{LoginRequest, login}
use sentinel_auth.Auth.Login.Safety.{login_tokens, login_challenge}
use sentinel_auth.Detection.Tables.{RiskLevel}
use sentinel_auth.Policies.Config.{Arithmetic}
use sentinel_auth.Pipeline.Features.{Features}
use sentinel_auth.Pipeline.Ml.{MlReply}
use sentinel_auth.Pipeline.Levels.{level_value, decision_of}
use sentinel_auth.Pipeline.Store.{Store}
use sentinel_auth.Pipeline.Gate.{PreTokenCheckRequest, PreTokenCheckResponse, pre_token_check}
use sentinel_auth.Pipeline.FailOpen.{is_allow, IsVerdict, pre_token_check_writes_nothing}

abbrev level_text : Option RiskLevel → String
level_text none = "unknown"
level_text (some level) = level_value level

-- The response as it reaches Core.
abbrev pub reply_of : PreTokenCheckResponse → Reply
reply_of r = Reply.object 200 (record {
  degraded = r.degraded;
  require_mfa = r.require_mfa;
  risk_level = some (level_text r.risk_level);
})

gated_level :
    (level : RiskLevel)
    → not (is_allow (decision_of level)) ≡ true
    → is_gated_level (level_value level) ≡ true
unfolding decision_of
gated_level RiskLevel.low h = cc
gated_level RiskLevel.medium h = cc
gated_level RiskLevel.high h = refl
gated_level RiskLevel.critical h = refl

-- A verdict that asks for MFA is one that Core acts on.
acts_on :
    (r : PreTokenCheckResponse)
    → IsVerdict r
    → r.require_mfa ≡ true
    → (level : String) × (risk_of_verdict (record {
      degraded = r.degraded;
      require_mfa = r.require_mfa;
      risk_level = some (level_text r.risk_level);
    })
        ≡ some level)
acts_on r (inl (_, _, none_asked)) asked = cc
acts_on r (inr (level, sound, named, decided, mfa)) asked =
    let gated = gated_level level (rw (sym decided) (sym mfa ∙ asked)) in
    (level_value level, rw (sound, asked, named, gated) refl)

module _ (core : Outside) where
  pre_token_risk-held :
      (r : PreTokenCheckResponse) (v : World)
      → core.detection_url_set ≡ true
      → core.run_pre_token_check ≡ true
      → is_internal_auth_configured core ≡ true
      → ((n : ℕ) → core.detection n ≡ reply_of r)
      → pre_token_risk core v ≡ (
        ok (
            risk_of_verdict (record {
              degraded = r.degraded;
              require_mfa = r.require_mfa;
              risk_level = some (level_text r.risk_level);
            })),
        record v { calls = v.calls + 1 },
      )
  unfolding pre_token_risk risk_of_reply is_internal_auth_configured
  pre_token_risk-held r v set run configured answers =
      simp (set, run, configured, answers v.calls) refl

  module _ (A : Arithmetic) (detection : Outside)
      (ml : ℕ → Uuid → Features A.Number → MlReply A.Number) where
    -- A verdict of Detection is carried out by Core. When the check, asked with the internal secret,
    -- has answered that MFA is required, and Core's gate is on and its calls are answered with that
    -- response, then no login gets tokens: every login that succeeds is answered with a challenge,
    -- and opens no session.
    pub verdict_holds_token :
        (payload : PreTokenCheckRequest) (secret : Option String) (dw : WorldOf (Store A.Number))
        {r : PreTokenCheckResponse} {dw' : WorldOf (Store A.Number)} (request : LoginRequest)
        (req : HttpRequest) (w : World) {l : LoginResponse} {w' : World}
        → IsInternal detection secret
        → respond (pre_token_check A detection ml payload secret) dw ≡ (ok r, dw')
        → r.require_mfa ≡ true
        → core.detection_url_set ≡ true
        → core.run_pre_token_check ≡ true
        → is_internal_auth_configured core ≡ true
        → ((n : ℕ) → core.detection n ≡ reply_of r)
        → respond (login core request req) w ≡ (ok l, w')
        → (l.mfa_required ≡ true)
          × (l.access_token ≡ "")
          × (w'.committed.sessions ≡ w.committed.sessions)
    verdict_holds_token payload secret dw {r} {dw'} request req w {l} {w'} internal checked asked
          set run configured answers ran =
        let (r0, dw0, ran0, _, verdict) =
          pre_token_check_writes_nothing A detection ml payload secret dw internal in
        let same : r0 ≡ r = cc in
        let (level, acts) = acts_on r (subst IsVerdict same verdict) asked in
        elim (Bool-cases l.mfa_required) [
          | inl challenged ↦
              let (_, _, no_access, _, sessions, _, _, _, _, _, _) =
                login_challenge core request req w ran challenged in
              (challenged, no_access, sessions)
          | inr free ↦
              let (_, _, _, _, (v, v', _, ungated), _) = login_tokens core request req w ran free in
              let held = pre_token_risk-held r v set run configured answers in cc (rw acts at held)
        ]
