-- ===== src/Devices/Waiting/Kept.antt =====
-- app/devices.py: what the handlers do to a request that waits for its owner's approval.
use sentinel_auth.Prelude.{
  ℕ, ◌+◌, ◌*◌, String, Bool, true, false, ◌||◌, ◌≡◌, refl, Option, none, some, List, [], ◌∷◌, ◌++◌,
  ◌==◌, nat_eq, string_eq, find, is_some, if◌then◌else◌,
}
use sentinel_auth.Core.{
  Time, Uuid, minute, is_locked, User, MfaStatus, MfaTransaction, TrustedDevice, Value, AuditLog,
  Db, Outside, Verification, verified, mismatch, invalid_hash, HttpRequest, get_client_ip,
  fingerprint_from_request, raise, pure, http, ◌>>◌, query, commit, Keeps, Keeps-pure, Keeps-lift,
  Keeps-query, Keeps-call, Keeps-change, Keeps-commit, Keeps-bind, Keeps-raise_if, Keeps-fetch_bind,
}
use sentinel_auth.Auth.Events.{audit}
use sentinel_auth.Auth.RateLimits.{rate_of, is_exceeded, count_request}
use sentinel_auth.Auth.Login.{update_transaction}
use sentinel_auth.Auth.Login.Kept.{
  count_request-apart, OfTransactions, apart-Keeps, pre_token_risk-Keeps, create_session-Keeps,
  tell-Keeps,
}
use sentinel_auth.Devices.{find_device, device_audit}
use sentinel_auth.Devices.Approval.{
  set_status, bound_ip_of, count_approval, verify_password, check_user, check_credentials,
  is_same_request, expire, trusted_already, live_request, add_request, new_request,
  request_or_reuse, request_trusted_device_approval,
}
use sentinel_auth.Devices.Completion.{close_request, finish_login}
use sentinel_auth.Devices.Waiting.{is_completed, Lasting}

module _ (Q : List MfaTransaction → Type 0) (lasting : Lasting Q) where
  abbrev P : Db → Type 0
  P = OfTransactions Q

  pub set_status-Keeps :
      (key : Uuid) (s : MfaStatus) → is_completed s ≡ false → Keeps P (set_status key s)
  set_status-Keeps key s open_still =
      Keeps-change _ (λ db h. lasting.close key s db.mfa_transactions open_still h)

  close_request-Keeps :
      (key : Uuid) (s : MfaStatus) (status_code : ℕ) (detail : String)
      → is_completed s ≡ false
      → Keeps P (close_request key s status_code detail)
  close_request-Keeps key s status_code detail open_still =
      Keeps-bind _ _ (set_status-Keeps key s open_still)
        (λ _. Keeps-bind _ _ Keeps-commit (λ _. Keeps-lift (raise (http status_code detail))))

  -- A test of an approval that closes the request when it fails.
  pub close_if-Keeps :
      (b : Bool) (key : Uuid) (s : MfaStatus) (status_code : ℕ) (detail : String)
      → is_completed s ≡ false
      → Keeps P (if b then close_request key s status_code detail else pure tt)
  close_if-Keeps true key s status_code detail open_still =
      close_request-Keeps key s status_code detail open_still
  close_if-Keeps false key s status_code detail open_still = Keeps-pure tt

  pub settle-Keeps {ℓ} :
      {A : Type ℓ} (row : AuditLog) (a : A) → Keeps P (audit row >> (commit >> pure a))
  settle-Keeps row a = record { at = λ w h. (h.1, h.1) }

  module _ (outside : Outside) (request : HttpRequest) where
    count_approval-Keeps : (now : Time) → Keeps P (count_approval outside request now)
    unfolding count_approval
    count_approval-Keeps now =
        Keeps-bind (query (rate_of (get_client_ip request) "trusted_device_approval")) _
          (Keeps-query _)
          (λ rate.
            Keeps-bind _ _
              (Keeps-raise_if (is_exceeded now rate) 429 "Too many device approval requests")
              (λ _.
                Keeps-bind _ _
                  (apart-Keeps Q outside
                    (count_request (get_client_ip request) "trusted_device_approval" now rate)
                    (count_request-apart (get_client_ip request) "trusted_device_approval" now
                      rate))
                  (λ _. Keeps-commit)))

    verify_password-Keeps : (v : Verification) → Keeps P (verify_password outside request v)
    verify_password-Keeps verified = Keeps-pure tt
    verify_password-Keeps mismatch = Keeps-lift _
    verify_password-Keeps invalid_hash = Keeps-lift _

    check_user-Keeps :
        (password : String) (user : User) → Keeps P (check_user outside request password user)
    check_user-Keeps password user =
        Keeps-bind _ _ (verify_password-Keeps (outside.argon2_verify user.password_hash password))
          (λ _.
            Keeps-bind _ _ (Keeps-raise_if (is_locked user.status) 423 "Account is locked") (λ _.
              Keeps-bind _ _
                (Keeps-raise_if (user.admin_mfa_required || user.detection_mfa_once) 409
                  "Complete the required MFA through the normal login flow before trusting a device")
                (λ _. Keeps-bind _ _ (pre_token_risk-Keeps Q outside) (λ level.
                  Keeps-bind _ _
                    (Keeps-raise_if (is_some level) 409
                      "Detection requires MFA; trusted-device approval cannot bypass it")
                    (λ _. Keeps-pure user)))))

    check_credentials-Keeps :
        (username password : String) → Keeps P (check_credentials outside request username password)
    unfolding check_credentials
    check_credentials-Keeps username password =
        Keeps-fetch_bind (λ (db : Db). find (λ u. u.username == username) db.users) 401
          "Invalid credentials" (check_user outside request password)
          (λ w user h _. (check_user-Keeps password user).at w h)

    expire-Keeps : (old : Option MfaTransaction) → Keeps P (expire outside request old)
    expire-Keeps none = Keeps-pure tt
    expire-Keeps (some t) = set_status-Keeps t.id MfaStatus.expired refl

    new_request-Keeps :
        (user : User) (device_name : Option String) (now : Time) (old : Option MfaTransaction)
        → Keeps P (new_request outside request user device_name now old)
    unfolding new_request
    new_request-Keeps user device_name now old = Keeps-bind _ _ (expire-Keeps old) (λ _.
        Keeps-bind _ _ (Keeps-call outside.uuid4) (λ key.
          Keeps-bind _ _
            (Keeps-change (add_request outside request key user device_name (now + 5 * minute))
              (λ db h. lasting.append db.mfa_transactions _ h))
            (λ _.
              settle-Keeps
                (device_audit request user.id "trusted_device_requested" key
                  (("expires_at", Value.time (now + 5 * minute)) ∷ []))
                (record { request_id = key; status = "pending"; expires_at = now + 5 * minute }))))

    request_or_reuse-Keeps :
        (user : User) (device_name : Option String) (now : Time) (trusted : Option TrustedDevice)
        (live old : Option MfaTransaction)
        → Keeps P (request_or_reuse outside request user device_name now trusted live old)
    request_or_reuse-Keeps user device_name now (some d) live old = Keeps-pure _
    request_or_reuse-Keeps user device_name now none (some t) old = Keeps-pure _
    request_or_reuse-Keeps user device_name now none none old =
        new_request-Keeps user device_name now old

    -- Asking for approval.
    pub request-Keeps :
        (username password : String) (device_name : Option String)
        → Keeps P (request_trusted_device_approval outside request username password device_name)
    unfolding request_trusted_device_approval
    request-Keeps username password device_name =
        let ip = bound_ip_of outside request (get_client_ip request) in
        Keeps-bind _ _
          (Keeps-raise_if (ip == "" || ip == "unknown") 400 "A valid client IP is required")
          (λ _. Keeps-bind _ _ (Keeps-call outside.clock) (λ counted_at.
            Keeps-bind _ _ (count_approval-Keeps counted_at) (λ _.
              Keeps-bind _ _ (check_credentials-Keeps username password) (λ user.
                Keeps-bind _ _ (Keeps-call outside.clock) (λ now.
                  Keeps-bind
                    (query (find_device user.id (some (fingerprint_from_request outside request))))
                    _ (Keeps-query _)
                    (λ existing.
                      Keeps-bind
                        (query (λ (db : Db).
                          find (is_same_request outside request user.id) db.mfa_transactions))
                        _ (Keeps-query _)
                        (λ old.
                          request_or_reuse-Keeps user device_name now
                            (trusted_already outside request now existing)
                            (live_request outside request now old) old)))))))

    -- An approved request is consumed.
    pub finish_login-Keeps :
        (pending : MfaTransaction) (user : User) (now : Time)
        → Keeps P (finish_login outside request pending user now)
    unfolding finish_login
    finish_login-Keeps pending user now =
        Keeps-bind _ _
          (Keeps-change (update_transaction pending.id (λ t. record t { consumed_at = some now }))
            (λ db h. lasting.consume pending.id now db.mfa_transactions h))
          (λ _.
            Keeps-bind _ _
              (create_session-Keeps Q outside user (get_client_ip request) request.user_agent
                (fingerprint_from_request outside request))
              (λ p.
                Keeps-bind _ _
                  (apart-Keeps Q outside
                    (λ (db : Db). record db {
                      audit_logs =
                          db.audit_logs
                          ++ device_audit request user.id "trusted_device_login" pending.id
                              (("session_id", Value.uuid p.0.session_id) ∷ [])
                            ∷ [];
                    })
                    (λ db. refl))
                  (λ _. tell-Keeps Q outside p.1 _ (Keeps-pure p.0))))
