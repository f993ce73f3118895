-- ===== src/Transactions/Settled.antt =====
-- app/auth.py: a challenge whose code has been verified, over logins and verifications.
use sentinel_auth.Prelude.{
  ◌+◌, ◌≡◌, ◌≢◌, refl, sym, ◌∙◌, List, All, ◌==◌, nat_eq, nat_beq_iff, find-eq-some, Option-cases,
  inl, inr,
}
use native.Mathlib.Decide.{ℕ_discrete}
use sentinel_auth.Core.{
  Time, Uuid, MfaTransaction, Outside, HttpRequest, Result, ok, raise, http, World, respond,
  Keeps-respond,
}
use sentinel_auth.Auth.Sessions.{LoginResponse}
use sentinel_auth.Auth.Login.Kept.{login-Keeps}
use sentinel_auth.Auth.Mfa.{
  MfaVerifyRequest, count_failure, verify_pending, find_transaction, mfa_verify,
}
use sentinel_auth.Auth.Mfa.Budget.{Outcome, kept, closed, counted, verify_pending-Outcome}
use sentinel_auth.Auth.Mfa.Once.{
  IsSettled, Settled, mfa_verify-Settled, mfa_verify-completed, check_state-completed,
}
use sentinel_auth.Devices.Waiting.{Held-append, Held-other, Held-update}
use sentinel_auth.Transactions.{Step, ask, approve, complete, log_in, verify, served_all}
use sentinel_auth.Transactions.Kept.{KeptBy, served_all-Kept}

-- The handlers of app/auth.py: a login or a code.
abbrev pub IsSignIn : Step × HttpRequest → Type 0
IsSignIn (log_in _, req) = Unit {0}
IsSignIn (verify _, req) = Unit {0}
IsSignIn _ = ⊥

module _ (outside : Outside) (id : Uuid) where
  verify_pending-settled :
      (req : HttpRequest) (now : Time) (request : MfaVerifyRequest) (txn : MfaTransaction)
      (w : World)
      → IsSettled txn
      → (verify_pending outside req now request txn w).1 ≡ w
  unfolding verify_pending
  verify_pending-settled req now request txn w (by_code, done) =
      rw (done, check_state-completed txn.mfa_type _ by_code) refl

  Outcome-Settled :
      {txn : MfaTransaction} {rows rows' : List MfaTransaction} {res : Result LoginResponse}
      → txn.id ≢ id
      → Settled id rows
      → Outcome txn rows res rows'
      → Settled id rows'
  Outcome-Settled other h (kept _ e) = rw e h
  Outcome-Settled other h (closed s _ _ e) =
      rw e (Held-other id IsSettled _ (λ t. record t { status = s }) _ (λ t. refl) other h)
  Outcome-Settled other h (counted _ e) =
      rw e (Held-other id IsSettled _ count_failure _ (λ t. refl) other h)

  verify-Kept :
      (request : MfaVerifyRequest) (req : HttpRequest)
      → KeptBy (Settled id) outside (verify request, req)
  unfolding mfa_verify
  verify-Kept request req w (t, found, settled) =
      elim (Option-cases (find_transaction request.session_id w.committed)) [
        | inl missing ↦ rw missing (t, found, settled)
        | inr (txn, named) ↦
            let opened : World = record w { working = w.committed; calls = w.calls + 1 } in
            elim (ℕ_discrete request.session_id id) [
              | yes same ↦
                  let one : t ≡ txn = cc (found, rw same at named) in
                  rw
                    (
                      named,
                      verify_pending-settled req (outside.clock w.calls) request txn opened
                          (rw (← one) settled),
                    )
                    (t, found, settled)
              | no other ↦
                  let own : txn.id ≡ request.session_id =
                    (nat_beq_iff txn.id request.session_id).0 (
                      find-eq-some (λ (u : MfaTransaction). u.id == request.session_id)
                        w.committed.mfa_transactions named) in
                  rw named (
                    Outcome-Settled (λ e. other (sym own ∙ e)) (t, found, settled)
                      (verify_pending-Outcome outside req (outside.clock w.calls) request txn opened
                        refl))
            ]
      ]

  sign_in-Kept : (step : Step × HttpRequest) → IsSignIn step → KeptBy (Settled id) outside step
  sign_in-Kept (log_in request, req) allowed w h =
      Keeps-respond _
        (login-Keeps (Settled id) outside request req (Held-append id IsSettled) (λ key n rows.
          Held-update id IsSettled key (λ t. record t { notification_id = n }) rows (λ t. refl)
            (λ t settled. settled)))
        w h
  sign_in-Kept (verify request, req) allowed w h = verify-Kept request req w h
  sign_in-Kept (ask _ _ _, req) allowed w h = absurd allowed
  sign_in-Kept (approve _ _, req) allowed w h = absurd allowed
  sign_in-Kept (complete _, req) allowed w h = absurd allowed

-- When a challenge has been verified, every later request for the same transaction, with any code
-- and from any client, after any run of logins and verifications, is refused as already completed.
pub mfa_verify_once :
    (outside : Outside) (first second : MfaVerifyRequest) (req req' : HttpRequest)
    (steps : List (Step × HttpRequest)) (w : World) {r : LoginResponse} {w' : World}
    → second.session_id ≡ first.session_id
    → respond (mfa_verify outside first req) w ≡ (ok r, w')
    → All IsSignIn steps
    → (respond (mfa_verify outside second req') (served_all outside steps w')).0
      ≡ raise (http 409 "MFA transaction already completed")
mfa_verify_once outside first second req req' steps w {r} {w'} same e allowed =
    let id = first.session_id in
    let (t, found, (by_code, done)) =
      served_all-Kept (Settled id) outside IsSignIn (sign_in-Kept outside id) steps w' allowed
        (mfa_verify-Settled outside first req w e) in
    mfa_verify-completed outside second req' (served_all outside steps w') {txn = t} (rw same found)
      by_code done
