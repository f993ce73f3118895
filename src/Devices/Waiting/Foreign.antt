-- ===== src/Devices/Waiting/Foreign.antt =====
-- app/devices.py: completions, and approvals that are not the owner's, of a request that waits.
use sentinel_auth.Prelude.{
  update, ◌+◌, ◌*◌, String, Bool, true, false, not, ◌&&◌, ◌||◌, ◌≡◌, refl, sym, ◌∙◌, subst, Option,
  none, some, List, [], ◌∷◌, leb, ◌==◌, nat_eq, string_eq, arith, is_some, is_value, find-eq-some,
}
use native.Mathlib.Decide.{ℕ_discrete}
use sentinel_auth.Core.{
  Time, Uuid, day, User, MfaStatus, MfaTransaction, TrustedDevice, Value, Db, Outside, HttpRequest,
  get_client_ip, fingerprint_from_request, query, Keeps, Keeps-pure, Keeps-lift, Keeps-query,
  Keeps-call, Keeps-change, Keeps-bind, Keeps-raise_if, Keeps-fetch_bind,
}
use sentinel_auth.Auth.Login.{update_transaction}
use sentinel_auth.Auth.Login.Kept.{OfTransactions, pre_token_risk-Keeps}
use sentinel_auth.Authz.{AuthContext}
use sentinel_auth.Devices.{find_device, device_audit, same_ip, session_ip, session_ip_matches}
use sentinel_auth.Devices.Approval.{is_device_type, is_void, find_request}
use sentinel_auth.Devices.Completion.{
  store_approved, mark_approved, approve_own, approve_trusted_device, check_approved, check_risk,
  find_active, finish_checked, complete_approved, complete_trusted_device_login,
}
use sentinel_auth.Devices.Waiting.{
  Lasting, Waiting, Waiting-Lasting, Held-other, IsWaiting, find_request-Waiting,
}
use sentinel_auth.Devices.Waiting.Kept.{close_if-Keeps, settle-Keeps, finish_login-Keeps}

module _ (Q : List MfaTransaction → Type 0) (lasting : Lasting Q) where
  abbrev P : Db → Type 0
  P = OfTransactions Q

  module _ (outside : Outside) (request : HttpRequest) where
    check_approved-Keeps : (s : MfaStatus) → Keeps P (check_approved outside request s)
    unfolding check_approved
    check_approved-Keeps MfaStatus.pending = Keeps-lift _
    check_approved-Keeps MfaStatus.completed = Keeps-pure tt
    check_approved-Keeps MfaStatus.expired = Keeps-lift _
    check_approved-Keeps MfaStatus.failed = Keeps-lift _

    check_risk-Keeps :
        (pending : MfaTransaction) (level : Option String)
        → Keeps P (check_risk outside request pending level)
    check_risk-Keeps pending none = Keeps-pure tt
    check_risk-Keeps pending (some _) =
        close_if-Keeps Q lasting true pending.id MfaStatus.failed 409
          "Detection requires MFA for this login" refl

    finish_checked-Keeps :
        (pending : MfaTransaction) (now : Time) (user : User)
        → Keeps P (finish_checked outside request pending now user)
    finish_checked-Keeps pending now user =
        Keeps-bind _ _
          (close_if-Keeps Q lasting (user.admin_mfa_required || user.detection_mfa_once) pending.id
            MfaStatus.failed 409 "MFA is required for this login" refl)
          (λ _. Keeps-bind _ _ (pre_token_risk-Keeps Q outside) (λ level.
            Keeps-bind _ _ (check_risk-Keeps pending level)
              (λ _. finish_login-Keeps Q lasting outside request pending user now)))

    complete_approved-Keeps :
        (pending : MfaTransaction) → Keeps P (complete_approved outside request pending)
    unfolding complete_approved
    complete_approved-Keeps pending = Keeps-bind _ _ (Keeps-call outside.clock) (λ now.
        Keeps-bind _ _
          (Keeps-raise_if (is_some pending.consumed_at) 409
            "Trusted-device request already completed")
          (λ _.
            Keeps-bind _ _
              (close_if-Keeps Q lasting (leb pending.expires_at now) pending.id MfaStatus.expired
                410 "Trusted-device request expired" refl)
              (λ _.
                Keeps-bind _ _
                  (Keeps-raise_if (not (same_ip outside pending.bound_ip (get_client_ip request)))
                    403 "Trusted-device IP does not match the request")
                  (λ _.
                    Keeps-bind _ _
                      (Keeps-raise_if
                        (not (
                          is_value pending.trusted_device_fingerprint
                            (fingerprint_from_request outside request)))
                        403 "Trusted-device fingerprint does not match the request")
                      (λ _.
                        Keeps-fetch_bind (find_active outside request pending.user_id) 401
                          "Account is not active" (finish_checked outside request pending now)
                          (λ w user h _. (finish_checked-Keeps pending now user).at w h))))))

    pub complete-Keeps :
        (request_id : Uuid) → Keeps P (complete_trusted_device_login outside request request_id)
    unfolding complete_trusted_device_login
    complete-Keeps request_id =
        Keeps-fetch_bind (find_request request_id) 404 "Trusted-device request not found" _
          (λ w pending h _.
            (Keeps-bind _ _ (check_approved-Keeps pending.status)
                (λ _. complete_approved-Keeps pending)).at
              w h)

    store_approved-Keeps :
        (t : MfaTransaction) (user_id : Uuid) (now : Time) (device : Option TrustedDevice)
        → Keeps P (store_approved outside request t user_id now device)
    store_approved-Keeps t user_id now (some d) = record { at = λ w h. h }
    store_approved-Keeps t user_id now none = record { at = λ w h. h }

    -- The approval keeps what the mark keeps.
    pub approve_own-Keeps :
        (ctx : AuthContext) (pending : MfaTransaction)
        → ((rows : List MfaTransaction)
            → Q rows
            → Q (
                update
                  (λ t. t.id == pending.id)
                  (λ t. record t { status = MfaStatus.completed })
                  rows))
        → Keeps P (approve_own outside request ctx pending)
    unfolding session_ip_matches
    approve_own-Keeps ctx pending marking = Keeps-bind _ _ (Keeps-call outside.clock) (λ now.
        Keeps-bind _ _
          (close_if-Keeps Q lasting (leb pending.expires_at now) pending.id MfaStatus.expired 410
            "Trusted-device request expired" refl)
          (λ _.
            Keeps-bind _ _
              (Keeps-raise_if (is_void pending.status) 410
                "Trusted-device request is no longer valid")
              (λ _.
                Keeps-bind
                  (query (λ (db : Db).
                    same_ip outside (session_ip outside ctx.session db) (get_client_ip request)))
                  _ (Keeps-query _)
                  (λ familiar.
                    Keeps-bind _ _
                      (Keeps-raise_if (not familiar) 403
                        "Approval must come from the current session's familiar IP")
                      (λ _.
                        Keeps-bind
                          (query (find_device ctx.user.id pending.trusted_device_fingerprint)) _
                          (Keeps-query _)
                          (λ device.
                            Keeps-bind _ _ (store_approved-Keeps pending ctx.user.id now device)
                              (λ device_id. approved now device_id)))))))
      where
        approved :
            (now : Time) (device_id : Uuid)
            → Keeps P (mark_approved outside request ctx pending now device_id)
        approved now device_id =
            Keeps-bind _ _
              (Keeps-change
                (update_transaction pending.id (λ t. record t { status = MfaStatus.completed }))
                (λ db h. marking db.mfa_transactions h))
              (λ _.
                settle-Keeps Q lasting
                  (device_audit request ctx.user.id "trusted_device_approved" device_id (
                    ("request_id", Value.uuid pending.id)
                    ∷ ("expires_at", Value.time (now + 30 * day))
                    ∷ []))
                  (device_id, now + 30 * day))

    -- Any approval keeps what every mark keeps.
    pub any_approval-Keeps :
        (key : Uuid) (ctx : AuthContext)
        → ((other : Uuid) (rows : List MfaTransaction)
            → Q rows
            → Q (update (λ t. t.id == other) (λ t. record t { status = MfaStatus.completed }) rows))
        → Keeps P (approve_trusted_device outside request key ctx)
    unfolding approve_trusted_device
    any_approval-Keeps key ctx marking =
        Keeps-fetch_bind (find_request key) 404 "Trusted-device request not found" _
          (λ w pending h found.
            (Keeps-bind _ _
                (Keeps-raise_if (not (pending.user_id == ctx.user.id)) 404
                  "Trusted-device request not found")
                (λ _. approve_own-Keeps ctx pending (marking pending.id))).at
              w h)

module _ (id owner : Uuid) where
  abbrev R : List MfaTransaction → Type 0
  R = Waiting id owner

  -- Not this request, or not its owner.
  abbrev pub is_foreign : Uuid → AuthContext → Bool
  is_foreign key ctx = not (key == id && ctx.user.id == owner)

  module _ (outside : Outside) (request : HttpRequest) where
    -- The row that the approval finds, when the key is the waiting request's.
    found_waiting :
        (db : Db) {pending : MfaTransaction}
        → R db.mfa_transactions
        → find_request id db ≡ some pending
        → pending.user_id ≡ owner
    found_waiting db {pending} (t, found, (device, owned, _)) named =
        let one : t ≡ pending =
          cc (find_request-Waiting id owner db.mfa_transactions t found device, named) in
        subst (λ (u : MfaTransaction). u.user_id ≡ owner) one owned

    own_key :
        (key : Uuid) (db : Db) {pending : MfaTransaction}
        → find_request key db ≡ some pending
        → pending.id ≡ key
    own_key key db {pending} found = ground (
      arith,
      find-eq-some (λ (u : MfaTransaction). u.id == key && is_device_type u.mfa_type)
          db.mfa_transactions found,
    )

    pub approve-Keeps :
        (key : Uuid) (ctx : AuthContext)
        → is_foreign key ctx ≡ true
        → Keeps (OfTransactions R) (approve_trusted_device outside request key ctx)
    unfolding approve_trusted_device
    approve-Keeps key ctx foreign =
        Keeps-fetch_bind (find_request key) 404 "Trusted-device request not found" _
          (λ w pending h found. elim (ℕ_discrete key id) [
            | no other ↦
                (Keeps-bind _ _
                    (Keeps-raise_if (not (pending.user_id == ctx.user.id)) 404
                      "Trusted-device request not found")
                    (λ _.
                      approve_own-Keeps R (Waiting-Lasting id owner) outside request ctx pending
                        (λ rows.
                          Held-other id (IsWaiting id owner) pending.id
                            (λ t. record t { status = MfaStatus.completed }) rows (λ t. refl)
                            (λ e. other (sym (own_key key w.working found) ∙ e))))).at
                  w h
            | yes same ↦
                let owned = found_waiting w.working h.1 (rw same at found) in
                let away : (pending.user_id == ctx.user.id) ≡ false =
                  ground (arith, owned, same, foreign) in
                rw away h
          ])
