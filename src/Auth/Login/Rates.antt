-- ===== src/Auth/Login/Rates.antt =====
-- Every way in which a login ends, as far as its rate limit goes.
use sentinel_auth.Prelude.{
  ℕ, ◌+◌, String, Bool, true, false, not, ◌||◌, ◌&&◌, leb, ◌≡◌, refl, ap, ◌∙◌, Option, none, some,
  inl, inr, Bool-cases, Option-cases, find, ◌==◌, nat_eq, string_eq, if◌then◌else◌,
}
use sentinel_auth.Core.{
  Time, Uuid, is_locked, User, Db, Outside, Verification, verified, mismatch, invalid_hash, Reply,
  HttpRequest, LoginEvent, Error, http, unhandled, Result, ok, raise, World, Action, ◌>>=◌,
  is_internal_auth_configured,
}
use sentinel_auth.Auth.Events.{login_event}
use sentinel_auth.Auth.Risk.{risk_of_reply, pre_token_risk}
use sentinel_auth.Auth.Sessions.{LoginResponse, update_user}
use sentinel_auth.Auth.Login.{
  LoginRequest, refuse, attempt_event, after_verify, authenticate, check_status, after_risk,
  risk_gate, issue_challenge, open_session,
}
use sentinel_auth.Auth.Login.Steps.{refuse_lem, open_session_lem, issue_challenge_lem}

-- Answers that a request with a counted attempt may give: all but 429 and a crash.
abbrev pub is_counted {ℓ} : {A : Type ℓ} → Result A → Bool
is_counted (ok _) = true
is_counted (raise (http status_code _)) = not (status_code == 429)
is_counted (raise (unhandled _)) = false

-- A stage goes on without a commit, crashes without one, or refuses after one.
pub data Stage {ℓ} {A : Type ℓ} (w : World) (p : Result A × World) : Type ℓ where
  goes_on :
      (a : A) (w1 : World)
      → p ≡ (ok a, w1)
      → w1.committed ≡ w.committed
      → w1.working.rate_limits ≡ w.working.rate_limits
      → Stage w p
  crashes :
      (x : String) (w1 : World)
      → p ≡ (raise (unhandled x), w1)
      → w1.committed ≡ w.committed
      → Stage w p
  refuses :
      (e : Error) (w1 : World)
      → p ≡ (raise e, w1)
      → w1.committed.rate_limits ≡ w.working.rate_limits
      → is_counted {A = A} (raise e) ≡ true
      → Stage w p

-- The end of the handler: a crash without a commit, or a counted answer after one.
pub data Ended {ℓ} {A : Type ℓ} (w : World) (p : Result A × World) : Type ℓ where
  crashed : p.1.committed ≡ w.committed → is_counted p.0 ≡ false → Ended w p
  answered : p.1.committed.rate_limits ≡ w.working.rate_limits → is_counted p.0 ≡ true → Ended w p

pub Stage-then {ℓ κ} :
    {A : Type ℓ} {B : Type κ} (m : Action A) (f : A → Action B) (w : World)
    → Stage w (m w)
    → ((a : A) (w1 : World)
        → w1.committed ≡ w.committed
        → w1.working.rate_limits ≡ w.working.rate_limits
        → Ended w (f a w1))
    → Ended w ((m >>= f) w)
Stage-then m f w (goes_on a w1 e c r) k = rw e (k a w1 c r)
Stage-then m f w (crashes x w1 e c) k = rw e (crashed c refl)
Stage-then m f w (refuses (http s d) w1 e c h) k = rw e (answered c h)
Stage-then m f w (refuses (unhandled x) w1 e c h) k = cc

-- The same answer, from where the handler started.
pub Ended-from {ℓ} :
    {A : Type ℓ} (v w : World) (p : Result A × World)
    → v.committed ≡ w.committed
    → v.working.rate_limits ≡ w.working.rate_limits
    → Ended v p
    → Ended w p
Ended-from v w p c r (crashed e h) = crashed (e ∙ c) h
Ended-from v w p c r (answered e h) = answered (e ∙ r) h

module _ (outside : Outside) (request : LoginRequest) (req : HttpRequest) (request_id : Uuid)
    (now : Time) where
  refuse-Stage {ℓ} :
      {A : Type ℓ} (event : LoginEvent) (status_code : ℕ) (detail : String) (v w : World)
      → v.working.rate_limits ≡ w.working.rate_limits
      → (status_code == 429) ≡ false
      → Stage w (refuse outside {A = A} event status_code detail v)
  refuse-Stage event status_code detail v w r other =
      let (w1, ran, committed) = refuse_lem outside event status_code detail v in
      refuses (http status_code detail) w1 ran (ap (λ (d : Db). d.rate_limits) committed ∙ r)
        (rw other refl)

  after_verify-Stage :
      (user : User) (v : Verification) (w : World)
      → Stage w (after_verify outside request req request_id now user v w)
  unfolding after_verify attempt_event login_event
  after_verify-Stage user verified w = goes_on user w refl refl refl
  after_verify-Stage user mismatch w = refuse-Stage _ 401 _ _ w refl refl
  after_verify-Stage user invalid_hash w = crashes "InvalidHash" w refl refl

  pub authenticate-Stage : (w : World) → Stage w (authenticate outside request req request_id now w)
  unfolding authenticate attempt_event login_event
  authenticate-Stage w =
      elim (Option-cases (find (λ v. v.username == request.username) w.working.users)) [
        | inl missing ↦ rw missing (refuse-Stage _ 401 _ _ w refl refl)
        | inr (user, found) ↦ rw found (after_verify-Stage user _ w)
      ]

  pub check_status-Stage :
      (user : User) (w : World) → Stage w (check_status outside request req request_id now user w)
  unfolding check_status attempt_event login_event
  check_status-Stage user w = elim (Bool-cases (is_locked user.status)) [
    | inl locked ↦ rw locked (refuse-Stage _ 423 _ _ w refl refl)
    | inr unlocked ↦ rw unlocked (goes_on tt w refl refl refl)
  ]

  risk_of_reply-Stage : (reply : Reply) (w : World) → Stage w (risk_of_reply reply w)
  unfolding risk_of_reply
  risk_of_reply-Stage Reply.http_error w = goes_on none w refl refl refl
  risk_of_reply-Stage (Reply.not_json _) w = goes_on none w refl refl refl
  risk_of_reply-Stage (Reply.not_object status) w = elim (Bool-cases (leb 400 status)) [
    | inl bad ↦ rw bad (goes_on none w refl refl refl)
    | inr good ↦ rw good (crashes "AttributeError" w refl refl)
  ]
  risk_of_reply-Stage (Reply.object status v) w = elim (Bool-cases (leb 400 status)) [
    | inl bad ↦ rw bad (goes_on none w refl refl refl)
    | inr good ↦ rw good (goes_on _ w refl refl refl)
  ]

  Stage-from {ℓ} :
      {A : Type ℓ} (v w : World) (p : Result A × World)
      → v.committed ≡ w.committed
      → v.working.rate_limits ≡ w.working.rate_limits
      → Stage v p
      → Stage w p
  Stage-from v w p c r (goes_on a w1 e d s) = goes_on a w1 e (d ∙ c) (s ∙ r)
  Stage-from v w p c r (crashes x w1 e d) = crashes x w1 e (d ∙ c)
  Stage-from v w p c r (refuses x w1 e d h) = refuses x w1 e (d ∙ r) h

  pre_token_risk-Stage : (w : World) → Stage w (pre_token_risk outside w)
  unfolding pre_token_risk
  pre_token_risk-Stage w =
      elim (Bool-cases (
        outside.detection_url_set
        && outside.run_pre_token_check
        && is_internal_auth_configured outside)) [
          | inl on ↦ rw on (
              Stage-from (record w { calls = w.calls + 1 }) w _ refl refl
                (risk_of_reply-Stage (outside.detection w.calls)
                  (record w { calls = w.calls + 1 })))
          | inr off ↦ rw off (goes_on none w refl refl refl)
        ]

  -- The rest of the login, from the risk gate on.
  abbrev pub demanded : User → Bool → Action LoginResponse
  demanded user demand =
      if user.admin_mfa_required || demand
      then issue_challenge outside request req request_id now user
      else open_session outside request req request_id now user

  pub demanded-Ended : (user : User) (demand : Bool) (w : World) → Ended w (demanded user demand w)
  demanded-Ended user demand w = elim (Bool-cases (user.admin_mfa_required || demand)) [
    | inl mfa ↦
        let (r, w1, ran, done) = issue_challenge_lem outside request req request_id now user w in
        rw (mfa, ran) (answered done.rates refl)
    | inr free ↦
        let (r, w1, ran, done) = open_session_lem outside request req request_id now user w in
        rw (free, ran) (answered done.rates refl)
  ]

  after_risk-Stage :
      (user : User) (level : Option String) (w : World)
      → Stage w (after_risk outside request req request_id now user level w)
  after_risk-Stage user none w = goes_on user.detection_mfa_once w refl refl refl
  after_risk-Stage user (some _) w = goes_on true _ refl refl refl

  pub risk_gate-Stage :
      (user : User) (w : World) → Stage w (risk_gate outside request req request_id now user w)
  unfolding risk_gate
  risk_gate-Stage user w =
      let reset : World = record w {
        working = update_user user.id (λ u. record u { failed_login_count = 0 }) w.working;
      } in
      Stage-from reset w _ refl refl (gate reset (pre_token_risk-Stage reset))
    where
      gate :
          (v : World)
          → Stage v (pre_token_risk outside v)
          → Stage v
              ((pre_token_risk outside >>= after_risk outside request req request_id now user) v)
      gate v (goes_on level w1 e c r) =
          rw e (Stage-from w1 v _ c r (after_risk-Stage user level w1))
      gate v (crashes x w1 e c) = rw e (crashes x w1 refl c)
      gate v (refuses x w1 e c h) = rw e (refuses x w1 refl c h)
