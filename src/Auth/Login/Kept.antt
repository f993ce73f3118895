-- ===== src/Auth/Login/Kept.antt =====
-- What `login` does to the transactions: it adds a challenge and links it to its notification.
use sentinel_auth.Prelude.{
  ℕ, String, Bool, true, false, ◌&&◌, ◌||◌, ◌≡◌, refl, Option, none, some, or_else, List, [], ◌∷◌,
  ◌++◌, leb, ◌==◌, nat_eq, string_eq, if◌then◌else◌, find, update, Bool-cases, inl, inr,
}
use sentinel_auth.Core.{
  Time, Uuid, is_locked, User, MfaTransaction, RateLimit, query, change, Db, Outside, Verification,
  verified, mismatch, invalid_hash, Reply, is_internal_auth_configured, HttpRequest, get_client_ip,
  LoginEvent, World, Action, ◌>>=◌, ◌>>◌, commit, Keeps, Keeps-pure, Keeps-lift, Keeps-query,
  Keeps-call, Keeps-change, Keeps-commit, Keeps-bind,
}
use sentinel_auth.Auth.Events.{login_event, send_login_event}
use sentinel_auth.Auth.Frame.{IsQuiet, send_login_event-IsQuiet, create_session-Opened}
use sentinel_auth.Auth.RateLimits.{rate_of, is_exceeded, count_request}
use sentinel_auth.Auth.Risk.{risk_of_reply, pre_token_risk}
use sentinel_auth.Auth.Sessions.{create_session}
use sentinel_auth.Auth.Login.Rates.{demanded}
use sentinel_auth.Auth.Login.{
  LoginRequest, refuse, attempt_event, check_rate_limit, after_verify, authenticate_found,
  authenticate, check_status, after_risk, risk_gate, update_transaction, update_notification,
  add_notification, record_delivery, add_challenge, send_challenge, send_otp_email, issue_challenge,
  open_session, login_at, login,
}

pub count_request-apart :
    (ip action : String) (now : Time) (rate : Option RateLimit) (db : Db)
    → (count_request ip action now rate db).mfa_transactions ≡ db.mfa_transactions
unfolding count_request
count_request-apart ip action now none db = refl
count_request-apart ip action now (some _) db = refl

abbrev pub OfTransactions : (List MfaTransaction → Type 0) → Db → Type 0
OfTransactions Q db = Q db.mfa_transactions

module _ (Q : List MfaTransaction → Type 0) (outside : Outside) where
  abbrev P : Db → Type 0
  P = OfTransactions Q

  pub quiet-Keeps {ℓ} : {A : Type ℓ} (m : Action A) → ((w : World) → IsQuiet m w) → Keeps P m
  quiet-Keeps m quiet = record { at = λ w h. let (a, w', ran, c, v) = quiet w in rw (ran, c, v) h }

  pub event-Keeps :
      (request_id : Uuid) (user_id : Option Uuid) (username outcome : String) (mfa_used : Bool)
      (ip agent : Option String) (timestamp : Time) (fingerprint : String)
      → Keeps P (
          login_event outside request_id user_id username outcome mfa_used ip agent timestamp
            fingerprint)
  unfolding login_event
  event-Keeps _ _ _ _ _ _ _ _ _ = record { at = λ w h. h }

  pub create_session-Keeps :
      (user : User) (ip : String) (agent : Option String) (fingerprint : String)
      → Keeps P (create_session outside user ip agent fingerprint)
  create_session-Keeps user ip agent fingerprint = record {
    at = λ w h.
        let (r, event, w', ran, opened) =
          create_session-Opened outside user ip agent fingerprint w in
        rw (ran, opened.committed, opened.transactions) h;
  }

  risk_of_reply-Keeps : (reply : Reply) → Keeps P (risk_of_reply reply)
  unfolding risk_of_reply
  risk_of_reply-Keeps Reply.http_error = Keeps-pure none
  risk_of_reply-Keeps (Reply.not_json _) = Keeps-pure none
  risk_of_reply-Keeps (Reply.not_object status) = elim (Bool-cases (leb 400 status)) [
    | inl bad ↦ rw bad (Keeps-pure none)
    | inr good ↦ rw good (Keeps-lift _)
  ]
  risk_of_reply-Keeps (Reply.object status v) = elim (Bool-cases (leb 400 status)) [
    | inl bad ↦ rw bad (Keeps-pure none)
    | inr good ↦ rw good (Keeps-pure _)
  ]

  pub pre_token_risk-Keeps : Keeps P (pre_token_risk outside)
  unfolding pre_token_risk
  pre_token_risk-Keeps =
      elim (Bool-cases (
        outside.detection_url_set
        && outside.run_pre_token_check
        && is_internal_auth_configured outside)) [
          | inl on ↦ rw on (Keeps-bind _ _ (Keeps-call outside.detection) risk_of_reply-Keeps)
          | inr off ↦ rw off (Keeps-pure none)
        ]

  pub tell-Keeps {ℓ} :
      {A : Type ℓ} (event : LoginEvent) (last : Action A)
      → Keeps P last
      → Keeps P (commit >> send_login_event outside event >> last)
  tell-Keeps event last k =
      Keeps-bind _ _
        (Keeps-bind _ _ Keeps-commit (λ _. quiet-Keeps _ (send_login_event-IsQuiet outside event)))
        (λ _. k)

  pub refuse-Keeps {ℓ} :
      {A : Type ℓ} (event : LoginEvent) (status_code : ℕ) (detail : String)
      → Keeps P (refuse outside {A = A} event status_code detail)
  unfolding refuse
  refuse-Keeps event status_code detail = tell-Keeps event _ (Keeps-lift _)

  -- A change of another table.
  pub apart-Keeps :
      (f : Db → Db)
      → ((db : Db) → (f db).mfa_transactions ≡ db.mfa_transactions)
      → Keeps P (change f)
  apart-Keeps f same = Keeps-change f (λ db h. rw (same db) h)

  module _ (request : LoginRequest) (req : HttpRequest) (request_id : Uuid) (now : Time) where
    attempt_event-Keeps :
        (user_id : Option Uuid) (outcome : String) (mfa_used : Bool) (agent : Option String)
        → Keeps P (attempt_event outside request req request_id now user_id outcome mfa_used agent)
    unfolding attempt_event
    attempt_event-Keeps user_id outcome mfa_used agent = event-Keeps _ _ _ _ _ _ _ _ _

    abbrev deny {ℓ} : {A : Type ℓ} → Option Uuid → String → Option String → ℕ → String → Action A
    deny user_id outcome agent status_code detail =
        attempt_event outside request req request_id now user_id outcome false agent >>= λ event.
        refuse outside event status_code detail

    deny-Keeps {ℓ} :
        {A : Type ℓ} (user_id : Option Uuid) (outcome : String) (agent : Option String)
        (status_code : ℕ) (detail : String)
        → Keeps P (deny {A = A} user_id outcome agent status_code detail)
    deny-Keeps user_id outcome agent status_code detail =
        Keeps-bind _ _ (attempt_event-Keeps user_id outcome false agent)
          (λ event. refuse-Keeps event status_code detail)

    check_rate_limit-Keeps : Keeps P (check_rate_limit outside request req request_id now)
    unfolding check_rate_limit
    check_rate_limit-Keeps =
        Keeps-bind (query (rate_of (get_client_ip req) "login")) _ (Keeps-query _)
          (λ rate. counted rate (is_exceeded now rate))
      where
        counted :
            (rate : Option RateLimit) (over : Bool)
            → Keeps P (
                if over
                then deny none "rate_limited" none 429 "Too many requests. Try again later."
                else change (count_request (get_client_ip req) "login" now rate))
        counted rate true = deny-Keeps none "rate_limited" none 429 _
        counted rate false =
            apart-Keeps _ (count_request-apart (get_client_ip req) "login" now rate)

    after_verify-Keeps :
        (user : User) (v : Verification)
        → Keeps P (after_verify outside request req request_id now user v)
    unfolding after_verify
    after_verify-Keeps user verified = Keeps-pure user
    after_verify-Keeps user invalid_hash = Keeps-lift _
    after_verify-Keeps user mismatch =
        Keeps-bind _ _ (apart-Keeps _ (λ db. refl))
          (λ _. deny-Keeps (some user.id) "failure" req.user_agent 401 "Invalid credentials")

    authenticate-Keeps : Keeps P (authenticate outside request req request_id now)
    unfolding authenticate
    authenticate-Keeps =
        Keeps-bind (query (λ (db : Db). find (λ u. u.username == request.username) db.users)) _
          (Keeps-query _) (λ found. found-Keeps found)
      where
        found-Keeps :
            (found : Option User)
            → Keeps P (authenticate_found outside request req request_id now found)
        found-Keeps none = deny-Keeps none "failure" req.user_agent 401 _
        found-Keeps (some user) = after_verify-Keeps user _

    check_status-Keeps :
        (user : User) → Keeps P (check_status outside request req request_id now user)
    unfolding check_status
    check_status-Keeps user = elim (Bool-cases (is_locked user.status)) [
      | inl locked ↦ rw locked (deny-Keeps (some user.id) "locked" req.user_agent 423 _)
      | inr unlocked ↦ rw unlocked (Keeps-pure tt)
    ]

    risk_gate-Keeps : (user : User) → Keeps P (risk_gate outside request req request_id now user)
    unfolding risk_gate
    risk_gate-Keeps user =
        Keeps-bind _ _ (apart-Keeps _ (λ db. refl))
          (λ _. Keeps-bind _ _ pre_token_risk-Keeps (λ level. after level))
      where
        after :
            (level : Option String)
            → Keeps P (after_risk outside request req request_id now user level)
        after none = Keeps-pure user.detection_mfa_once
        after (some _) = Keeps-bind _ _ (apart-Keeps _ (λ db. refl)) (λ _. Keeps-pure true)

    open_session-Keeps :
        (user : User) → Keeps P (open_session outside request req request_id now user)
    unfolding open_session
    open_session-Keeps user =
        Keeps-bind _ _ (create_session-Keeps user (get_client_ip req) req.user_agent _)
          (λ p. tell-Keeps p.1 _ (Keeps-pure p.0))

    send_otp_email-Keeps :
        (recipient : String) → Keeps P (send_otp_email outside request req request_id now recipient)
    unfolding send_otp_email
    send_otp_email-Keeps recipient = elim (Bool-cases (recipient == "")) [
      | inl missing ↦ rw missing (Keeps-pure _)
      | inr given ↦ rw given (Keeps-call outside.smtp)
    ]

    send_challenge-Keeps :
        (user : User) (txn_id id : Uuid)
        → Keeps P (send_challenge outside request req request_id now user txn_id id)
    send_challenge-Keeps user txn_id id =
        Keeps-bind _ _ (send_otp_email-Keeps (or_else user.email "")) (λ failure.
          Keeps-bind _ _ (Keeps-call outside.clock) (λ at.
            Keeps-bind _ _
              (apart-Keeps
                (update_notification id
                  (record_delivery outside request req request_id now at failure))
                (λ db. refl))
              (λ _.
                Keeps-bind _ _
                  (attempt_event-Keeps (some user.id) "mfa_required" true req.user_agent)
                  (λ event. tell-Keeps event _ (
                    Keeps-pure (record {
                      access_token = "";
                      refresh_token = "";
                      mfa_required = true;
                      session_id = txn_id;
                    }))))))

    module _
        (grow : (rows : List MfaTransaction) (t : MfaTransaction) → Q rows → Q (rows ++ t ∷ []))
        (link : (id : Uuid) (n : Option Uuid) (rows : List MfaTransaction)
          → Q rows
          → Q (update (λ t. t.id == id) (λ t. record t { notification_id = n }) rows)) where
      issue_challenge-Keeps :
          (user : User) → Keeps P (issue_challenge outside request req request_id now user)
      unfolding issue_challenge
      issue_challenge-Keeps user = Keeps-bind _ _ (Keeps-call outside.uuid4) (λ txn_id.
          Keeps-bind _ _
            (Keeps-change (add_challenge outside request req request_id now txn_id user)
              (λ db h. grow db.mfa_transactions _ h))
            (λ _. Keeps-bind _ _ (Keeps-call outside.otp_digits) (λ otp.
              Keeps-bind _ _ (Keeps-call (λ n. outside.argon2_hash n otp)) (λ otp_hash.
                Keeps-bind _ _ (Keeps-call outside.uuid4) (λ id.
                  Keeps-bind _ _
                    (apart-Keeps
                      (add_notification outside request req request_id now id txn_id
                        (or_else user.email "") otp_hash)
                      (λ db. refl))
                    (λ _.
                      Keeps-bind _ _
                        (Keeps-change
                          (update_transaction txn_id (λ t. record t { notification_id = some id }))
                          (λ db h. link txn_id (some id) db.mfa_transactions h))
                        (λ _. send_challenge-Keeps user txn_id id)))))))

      demanded-Keeps :
          (user : User) (demand : Bool)
          → Keeps P (demanded outside request req request_id now user demand)
      demanded-Keeps user demand = elim (Bool-cases (user.admin_mfa_required || demand)) [
        | inl mfa ↦ rw mfa (issue_challenge-Keeps user)
        | inr free ↦ rw free (open_session-Keeps user)
      ]

      login_at-Keeps : Keeps P (login_at outside request req request_id now)
      unfolding login_at
      login_at-Keeps = Keeps-bind _ _ check_rate_limit-Keeps (λ _.
          Keeps-bind _ _ authenticate-Keeps (λ user.
            Keeps-bind _ _ (check_status-Keeps user)
              (λ _. Keeps-bind _ _ (risk_gate-Keeps user) (λ demand. demanded-Keeps user demand))))

  -- A login keeps what a new row and a new link keep.
  pub login-Keeps :
      (request : LoginRequest) (req : HttpRequest)
      → ((rows : List MfaTransaction) (t : MfaTransaction) → Q rows → Q (rows ++ t ∷ []))
      → ((id : Uuid) (n : Option Uuid) (rows : List MfaTransaction)
          → Q rows
          → Q (update (λ t. t.id == id) (λ t. record t { notification_id = n }) rows))
      → Keeps P (login outside request req)
  unfolding login
  login-Keeps request req grow link = Keeps-bind _ _ (Keeps-call outside.uuid4) (λ request_id.
      Keeps-bind _ _ (Keeps-call outside.clock)
        (λ now. login_at-Keeps request req request_id now grow link))
