-- ===== src/Devices/Waiting/Consent.antt =====
-- The five handlers that write to mfa_transactions, over a request that waits for its approval.
use sentinel_auth.Prelude.{
  ◌+◌, true, false, arith, ◌≡◌, refl, sym, ◌∙◌, List, All, ◌==◌, nat_eq, nat_beq_iff, find-eq-some,
  Option-cases, inl, inr,
}
use native.Mathlib.Decide.{ℕ_discrete}
use sentinel_auth.Core.{
  Time, Uuid, MfaType, MfaStatus, MfaTransaction, Outside, HttpRequest, Result, Error, raise, World,
  respond, Keeps-respond,
}
use sentinel_auth.Auth.Sessions.{LoginResponse}
use sentinel_auth.Auth.Mfa.{
  MfaVerifyRequest, count_failure, check_state, verify_pending, find_transaction, mfa_verify,
}
use sentinel_auth.Auth.Mfa.Budget.{Outcome, kept, closed, counted, verify_pending-Outcome}
use sentinel_auth.Devices.Approval.{is_device_type}
use sentinel_auth.Devices.Completion.{check_approved, complete_trusted_device_login}
use sentinel_auth.Devices.Waiting.{
  is_completed, Waiting, Waiting-Lasting, Held-other, IsWaiting, find_request-Waiting,
}
use sentinel_auth.Transactions.{Step, ask, approve, complete, log_in, verify, served_all}
use sentinel_auth.Transactions.Kept.{Marks, served-Kept, served_all-Kept}
use sentinel_auth.Devices.Waiting.Foreign.{is_foreign, approve-Keeps}

module _ (id owner : Uuid) where
  -- No approval of the request by its owner.
  abbrev pub Foreign : Step × HttpRequest → Type 0
  Foreign (approve request_id ctx, req) = is_foreign id owner request_id ctx ≡ true
  Foreign _ = Unit {0}

  Outcome-Waiting :
      {txn : MfaTransaction} {rows rows' : List MfaTransaction} {res : Result LoginResponse}
      → ((txn.id ≡ id) → ⊥)
      → Waiting id owner rows
      → Outcome txn rows res rows'
      → Waiting id owner rows'
  Outcome-Waiting other h (kept _ e) = rw e h
  Outcome-Waiting other h (closed s _ _ e) =
      rw e
        (Held-other id (IsWaiting id owner) _ (λ t. record t { status = s }) _ (λ t. refl) other h)
  Outcome-Waiting other h (counted _ e) =
      rw e (Held-other id (IsWaiting id owner) _ count_failure _ (λ t. refl) other h)

  device_type : (m : MfaType) → is_device_type m ≡ true → m ≡ MfaType.trusted_device
  device_type m e = ground arith

  -- A code never touches a request for approval.
  verify_pending-device :
      (outside : Outside) (req : HttpRequest) (now : Time) (request : MfaVerifyRequest)
      (txn : MfaTransaction) (w : World)
      → is_device_type txn.mfa_type ≡ true
      → (verify_pending outside req now request txn w).1 ≡ w
  unfolding verify_pending check_state
  verify_pending-device outside req now request txn w e = rw (device_type txn.mfa_type e) refl

  verify-Waiting :
      (outside : Outside) (request : MfaVerifyRequest) (req : HttpRequest) (w : World)
      → Waiting id owner w.committed.mfa_transactions
      → Waiting id owner (respond (mfa_verify outside request req) w).1.committed.mfa_transactions
  unfolding mfa_verify
  verify-Waiting outside request req w (t, found, waits) =
      elim (Option-cases (find_transaction request.session_id w.committed)) [
        | inl missing ↦ rw missing (t, found, waits)
        | inr (txn, named) ↦ elim (ℕ_discrete request.session_id id) [
          | yes same ↦
              let one : t ≡ txn = cc (found, rw same at named) in
              let device : is_device_type txn.mfa_type ≡ true = rw (← one) waits.0 in
              let opened : World = record w { working = w.committed; calls = w.calls + 1 } in
              rw
                (
                  named,
                  verify_pending-device outside req (outside.clock w.calls) request txn opened
                      device,
                )
                (t, found, waits)
          | no other ↦
              let opened : World = record w { working = w.committed; calls = w.calls + 1 } in
              let own : txn.id ≡ request.session_id = (nat_beq_iff txn.id request.session_id).0 (
                find-eq-some (λ (u : MfaTransaction). u.id == request.session_id)
                  w.committed.mfa_transactions named) in
              rw named (
                Outcome-Waiting (λ e. other (sym own ∙ e)) (t, found, waits)
                  (verify_pending-Outcome outside req (outside.clock w.calls) request txn opened
                    refl))
        ]
      ]

  Marks-Waiting :
      (outside : Outside) (step : Step × HttpRequest)
      → Foreign step
      → Marks (Waiting id owner) outside step
  Marks-Waiting outside (approve request_id ctx, req) foreign =
      λ w h. Keeps-respond _ (approve-Keeps id owner outside req request_id ctx foreign) w h
  Marks-Waiting outside (verify request, req) foreign = verify-Waiting outside request req
  Marks-Waiting outside (ask _ _ _, req) foreign = tt
  Marks-Waiting outside (complete _, req) foreign = tt
  Marks-Waiting outside (log_in _, req) foreign = tt

  check_approved-refused :
      (outside : Outside) (req : HttpRequest) (s : MfaStatus) (w : World)
      → is_completed s ≡ false
      → (e : Error) × (check_approved outside req s w ≡ (raise e, w))
  unfolding check_approved
  check_approved-refused outside req MfaStatus.pending w h = (_, refl)
  check_approved-refused outside req MfaStatus.completed w h = cc
  check_approved-refused outside req MfaStatus.expired w h = (_, refl)
  check_approved-refused outside req MfaStatus.failed w h = (_, refl)

  -- A request for approval that is not marked as approved stays without effect unless a session of
  -- its own user approves it: after any run of requests for approval, completions, logins, MFA codes
  -- and approvals of other requests or by other users, from any clients, its completion is refused,
  -- whoever asks.
  pub no_login_without_consent :
      (outside : Outside) (steps : List (Step × HttpRequest)) (w : World) (req : HttpRequest)
      → Waiting id owner w.committed.mfa_transactions
      → All Foreign steps
      → (e : Error) × ((respond
            (complete_trusted_device_login outside req id)
            (served_all outside steps w)).0
          ≡ raise e)
  unfolding complete_trusted_device_login
  no_login_without_consent outside steps w req h foreign =
      let v = served_all outside steps w in
      let (t, found, (device, _, unapproved)) =
        served_all-Kept (Waiting id owner) outside Foreign
          (λ step allowed.
            served-Kept (Waiting id owner) outside (Waiting-Lasting id owner) step
              (Marks-Waiting outside step allowed))
          steps w foreign h in
      let (e, ran) =
        check_approved-refused outside req t.status (record v { working = v.committed })
          unapproved in
      (e, rw (find_request-Waiting id owner v.committed.mfa_transactions t found device, ran) refl)
