-- ===== src/Auth/Login/Steps.antt =====
-- The stages of `login`: what a stage has checked when it succeeds, and what it leaves alone.
use sentinel_auth.Prelude.{
  ℕ, ◌+◌, String, Bool, true, false, ◌≡◌, refl, sym, ap, ◌∙◌, Option, none, some, inl, inr, arith,
  Bool-cases, Option-cases, find, ◌==◌, nat_eq, string_eq, update, List, [], ◌∷◌, ◌++◌,
}
use sentinel_auth.Core.{
  Time, Uuid, is_locked, User, Session, MfaStatus, MfaTransaction, Db, Outside, Verification,
  verified, mismatch, invalid_hash, HttpRequest, get_client_ip, fingerprint_from_request,
  LoginEvent, ok, raise, http, World, >>=-eq-ok,
}
use sentinel_auth.Auth.Events.{login_event}
use sentinel_auth.Auth.RateLimits.{rate_of, is_exceeded, count_request}
use sentinel_auth.Auth.Risk.{risk_of_reply, pre_token_risk}
use sentinel_auth.Auth.Sessions.{LoginResponse, update_user}
use sentinel_auth.Auth.Login.{
  LoginRequest, refuse, attempt_event, check_rate_limit, after_verify, authenticate, check_status,
  after_risk, send_otp_email, challenge_row, risk_gate, issue_challenge, open_session,
}
use sentinel_auth.Auth.Frame.{
  IsQuiet, send_login_event-IsQuiet, send_login_event_lem, create_session-Opened,
}

module _ (outside : Outside) where
  -- A refusal commits what the request has written so far.
  pub refuse_lem {ℓ} :
      {A : Type ℓ} (event : LoginEvent) (status_code : ℕ) (detail : String) (w : World)
      → (w' : World) × (refuse outside {A = A} event status_code detail w
          ≡ (raise (http status_code detail), w'))
        × (w'.committed ≡ w.working)
  unfolding refuse
  refuse_lem event status_code detail w =
      rw (send_login_event_lem outside) (_, refl, (send_login_event-IsQuiet outside _ _).3)

  pub refuse-ne-ok {ℓ} :
      {A : Type ℓ} (event : LoginEvent) (status_code : ℕ) (detail : String) (w : World) {a : A}
      {w' : World}
      → refuse outside event status_code detail w ≡ (ok a, w')
      → ⊥
  refuse-ne-ok {A} event status_code detail w e =
      let (v, ran, _) = refuse_lem {A = A} event status_code detail w in cc (ran)

  -- Asking Detection changes nothing in the database.
  pub pre_token_risk-quiet :
      (w : World) {level : Option String} {w' : World}
      → pre_token_risk outside w ≡ (ok level, w')
      → (w'.committed ≡ w.committed) × (w'.working ≡ w.working)
  unfolding pre_token_risk risk_of_reply
  pre_token_risk-quiet w e = ground arith

-- Detection, asked with the n-th call, or switched off, demands no MFA.
abbrev pub Ungated : Outside → ℕ → Type 0
Ungated outside n =
    (v : World) × (v' : World) × (v.calls ≡ n) × (pre_token_risk outside v ≡ (ok none, v'))

module _ (outside : Outside) (request : LoginRequest) (req : HttpRequest) (request_id : Uuid)
    (now : Time) where
  -- What the rate limit does: it refuses with 429, or counts the request.
  pub check_rate_limit-exceeded :
      (w : World)
      → is_exceeded now (rate_of (get_client_ip req) "login" w.working) ≡ true
      → (w' : World) × (check_rate_limit outside request req request_id now w
          ≡ (raise (http 429 "Too many requests. Try again later."), w'))
        × (w'.committed ≡ w.working)
  unfolding check_rate_limit attempt_event login_event
  check_rate_limit-exceeded w e = rw e (refuse_lem outside _ 429 _ _)

  pub check_rate_limit-counted :
      (w : World)
      → is_exceeded now (rate_of (get_client_ip req) "login" w.working) ≡ false
      → check_rate_limit outside request req request_id now w ≡ (
        ok tt,
        record w {
          working =
              count_request
                (get_client_ip req)
                "login"
                now
                (rate_of (get_client_ip req) "login" w.working)
                w.working;
        },
      )
  unfolding check_rate_limit
  check_rate_limit-counted w e = rw e

  pub after_verify-eq-ok :
      (user : User) (v : Verification) (w : World) {u : User} {w' : World}
      → after_verify outside request req request_id now user v w ≡ (ok u, w')
      → (v ≡ verified) × (u ≡ user) × (w' ≡ w)
  unfolding after_verify attempt_event login_event
  after_verify-eq-ok user verified w e = (refl, cc, cc)
  after_verify-eq-ok user mismatch w e = absurd (refuse-ne-ok outside _ 401 _ _ e)
  after_verify-eq-ok user invalid_hash w e = cc

  pub authenticate-eq-ok :
      (w : World) {u : User} {w' : World}
      → authenticate outside request req request_id now w ≡ (ok u, w')
      → (find (λ v. v.username == request.username) w.working.users ≡ some u)
        × (outside.argon2_verify u.password_hash request.password ≡ verified)
        × (w' ≡ w)
  unfolding authenticate attempt_event login_event
  authenticate-eq-ok w {u} {w'} e =
      elim (Option-cases (find (λ v. v.username == request.username) w.working.users)) [
        | inl missing ↦ absurd (refuse-ne-ok outside _ 401 _ _ (rw missing at e))
        | inr (user, found) ↦
            let (matches, same, kept) = after_verify-eq-ok user _ w (rw found at e) in
            (found ∙ ap some (sym same), rw same matches, kept)
      ]

  pub check_status-eq-ok :
      (user : User) (w : World) {a : Unit {0}} {w' : World}
      → check_status outside request req request_id now user w ≡ (ok a, w')
      → (is_locked user.status ≡ false) × (w' ≡ w)
  unfolding check_status attempt_event login_event
  check_status-eq-ok user w e = elim (Bool-cases (is_locked user.status)) [
    | inl locked ↦ absurd (refuse-ne-ok outside _ 423 _ _ (rw locked at e))
    | inr unlocked ↦ (unlocked, cc (rw unlocked at e))
  ]

  after_risk-eq-ok :
      (user : User) (level : Option String) (w : World) {b : Bool} {w' : World}
      → after_risk outside request req request_id now user level w ≡ (ok b, w')
      → (b ≡ false → (user.detection_mfa_once ≡ false) × (level ≡ none))
        × (w'.committed ≡ w.committed)
        × (rows : List User) × (w'.working ≡ record w.working { users = rows })
  after_risk-eq-ok user none w e = (λ h. (cc, refl), cc, w.working.users, cc)
  after_risk-eq-ok user (some _) w e = (
    λ h. cc,
    cc,
    update (λ u. u.id == user.id) (λ u. record u { detection_mfa_once = true }) w.working.users,
    cc,
  )

  -- The gate can only add a demand for MFA, none of them when Detection has been asked and has none,
  -- and writes to `users` alone.
  pub risk_gate-eq-ok :
      (user : User) (w : World) {b : Bool} {w' : World}
      → risk_gate outside request req request_id now user w ≡ (ok b, w')
      → (b ≡ false → (user.detection_mfa_once ≡ false) × Ungated outside w.calls)
        × (w'.committed ≡ w.committed)
        × (rows : List User) × (w'.working ≡ record w.working { users = rows })
  unfolding risk_gate
  risk_gate-eq-ok user w e =
      let reset : World = record w {
        working = update_user user.id (λ u. record u { failed_login_count = 0 }) w.working;
      } in
      let (level, w1, asked, rest) =
        >>=-eq-ok (pre_token_risk outside) (after_risk outside request req request_id now user)
          reset e in
      let (c1, v1) = pre_token_risk-quiet outside reset asked in
      let (demand, c2, rows, v2) = after_risk-eq-ok user level w1 rest in
      (
        λ h. (
          (demand h).0,
          (reset, w1, refl, asked ∙ ap (λ (l : Option String). (ok l, w1)) (demand h).1),
        ),
        c2 ∙ c1,
        rows,
        v2 ∙ ap (λ (d : Db). record d { users = rows }) v1,
      )

-- What a login without MFA has done.
pub record SignedIn (user : User) (w : World) (r : LoginResponse) (w' : World) : Type 0 where
  pub row : Session
  pub owner : row.user_id ≡ user.id
  pub unrevoked : row.revoked_at ≡ none
  pub named : r.session_id ≡ row.id
  pub no_challenge : r.mfa_required ≡ false
  pub sessions : w'.committed.sessions ≡ w.working.sessions ++ row ∷ []
  pub rates : w'.committed.rate_limits ≡ w.working.rate_limits

-- What a login with MFA has done: a pending challenge, and no token.
pub record Challenged (user : User) (w : World) (r : LoginResponse) (w' : World) : Type 0 where
  pub row : MfaTransaction
  pub owner : row.user_id ≡ user.id
  pub pending : row.status ≡ MfaStatus.pending
  pub unspent : row.fail_count ≡ 0
  pub named : r.session_id ≡ row.id
  pub challenge : r.mfa_required ≡ true
  pub no_access : r.access_token ≡ ""
  pub no_refresh : r.refresh_token ≡ ""
  pub transactions :
      w'.committed.mfa_transactions
      ≡ update
          (λ t. t.id == row.id)
          (λ t. record t { notification_id = row.notification_id })
          (w.working.mfa_transactions ++ record row { notification_id = none } ∷ [])
  pub sessions : w'.committed.sessions ≡ w.working.sessions
  pub rates : w'.committed.rate_limits ≡ w.working.rate_limits

module _ (outside : Outside) (request : LoginRequest) (req : HttpRequest) (request_id : Uuid)
    (now : Time) where
  pub open_session_lem :
      (user : User) (w : World)
      → (r : LoginResponse) × (w' : World) × (open_session outside request req request_id now user w
          ≡ (ok r, w'))
        × SignedIn user w r w'
  unfolding open_session
  open_session_lem user w =
      let (r, event, w1, ran, opened) =
        create_session-Opened outside user (get_client_ip req) req.user_agent
          (fingerprint_from_request outside req) w in
      rw (ran, send_login_event_lem outside)
        (
          r,
          _,
          refl,
          record {
            row = opened.row;
            owner = opened.owner;
            unrevoked = opened.unrevoked;
            named = opened.named;
            no_challenge = opened.no_challenge;
            sessions =
                ap (λ (d : Db). d.sessions) (send_login_event-IsQuiet outside _ _).3
                ∙ opened.sessions;
            rates =
                ap (λ (d : Db). d.rate_limits) (send_login_event-IsQuiet outside _ _).3
                ∙ opened.rates;
          },
        )

  -- Sending the code always returns.
  send_otp_email-IsQuiet :
      (recipient : String) (w : World)
      → IsQuiet (send_otp_email outside request req request_id now recipient) w
  unfolding send_otp_email
  send_otp_email-IsQuiet recipient w = elim (Bool-cases (recipient == "")) [
    | inl blank ↦ rw blank (_, _, refl, refl, refl)
    | inr given ↦ rw given (_, _, refl, refl, refl)
  ]

  send_otp_email_lem :
      (recipient : String) (w : World)
      → send_otp_email outside request req request_id now recipient w
        ≡ (ok (send_otp_email-IsQuiet recipient w).0, (send_otp_email-IsQuiet recipient w).1)
  send_otp_email_lem recipient w = (send_otp_email-IsQuiet recipient w).2

  pub issue_challenge_lem :
      (user : User) (w : World)
      → (r : LoginResponse) × (w' : World) × (issue_challenge outside request req request_id now
            user w
          ≡ (ok r, w'))
        × Challenged user w r w'
  unfolding issue_challenge attempt_event login_event
  issue_challenge_lem user w =
      let n = w.calls in
      rw (send_otp_email_lem, send_login_event_lem outside)
        (
          _,
          _,
          refl,
          record {
            row = record (challenge_row outside request req request_id now (outside.uuid4 n) user) {
              notification_id = some (outside.uuid4 (n + 1 + 1 + 1));
            };
            owner = refl;
            pending = refl;
            unspent = refl;
            named = refl;
            challenge = refl;
            no_access = refl;
            no_refresh = refl;
            transactions =
                ap (λ (d : Db). d.mfa_transactions) (send_login_event-IsQuiet outside _ _).3
                ∙ ap (λ (d : Db). d.mfa_transactions) (send_otp_email-IsQuiet _ _).4;
            sessions =
                ap (λ (d : Db). d.sessions) (send_login_event-IsQuiet outside _ _).3
                ∙ ap (λ (d : Db). d.sessions) (send_otp_email-IsQuiet _ _).4;
            rates =
                ap (λ (d : Db). d.rate_limits) (send_login_event-IsQuiet outside _ _).3
                ∙ ap (λ (d : Db). d.rate_limits) (send_otp_email-IsQuiet _ _).4;
          },
        )
