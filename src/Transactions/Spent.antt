-- ===== src/Transactions/Spent.antt =====
-- app/devices.py: a request for approval whose device has completed its login.
use sentinel_auth.Prelude.{
  ◌+◌, Bool, true, false, ◌&&◌, ◌≡◌, refl, ◌∙◌, some, List, [], ◌∷◌, update, ◌==◌, nat_eq, is_some,
  find-append_hit, find-update_within, find-update_miss, ◌≢◌, Option-cases, inl, inr, arith,
}
use native.Mathlib.Decide.{ℕ_discrete}
use sentinel_auth.Core.{
  ◌>>◌, Uuid, MfaStatus, MfaTransaction, Outside, HttpRequest, Result, Error, ok, raise, http,
  World, respond, Keeps-respond,
}
use sentinel_auth.Auth.Sessions.{LoginResponse}
use sentinel_auth.Auth.Mfa.{MfaVerifyRequest, count_failure, find_transaction, mfa_verify}
use sentinel_auth.Auth.Mfa.Budget.{Outcome, kept, closed, counted, verify_pending-Outcome}
use sentinel_auth.Devices.Approval.{is_device_type}
use sentinel_auth.Devices.Completion.{
  check_approved, complete_approved, complete_trusted_device_login,
}
use sentinel_auth.Devices.Completion.Once.{Spent, trusted_device_login-Spent}
use sentinel_auth.Devices.Waiting.{Lasting}
use sentinel_auth.Devices.Waiting.Foreign.{any_approval-Keeps}
use sentinel_auth.Transactions.{Step, ask, approve, complete, log_in, verify, served, served_all}
use sentinel_auth.Transactions.Kept.{Marks, served-Kept}

module _ (id : Uuid) where
  abbrev is_own_request : MfaTransaction → Bool
  is_own_request t = t.id == id && is_device_type t.mfa_type

  -- No assignment that leaves the key, the type and the use alone.
  Spent-update :
      (key : Uuid) (f : MfaTransaction → MfaTransaction) (rows : List MfaTransaction)
      → ((t : MfaTransaction) → (f t).id ≡ t.id)
      → ((t : MfaTransaction) → (f t).mfa_type ≡ t.mfa_type)
      → ((t : MfaTransaction) → is_some t.consumed_at ≡ true → is_some (f t).consumed_at ≡ true)
      → Spent id rows
      → Spent id (update (λ t. t.id == key) f rows)
  Spent-update key f rows keep kind used (t, found, spent) = elim (ℕ_discrete key id) [
    | yes same ↦ (
      f t,
      find-update_within is_own_request (λ u. u.id == key) f rows (λ u h. rw same (own u h))
          (λ u. rw (keep u, kind u) refl) found,
      used t spent,
    )
    | no other ↦ (
      t,
      find-update_miss is_own_request (λ u. u.id == key) f rows (λ u h. apart u other h) ∙ found,
      spent,
    )
  ]
    where
      own : (u : MfaTransaction) → is_own_request u ≡ true → (u.id == id) ≡ true
      own u h = ground arith

      apart :
          (u : MfaTransaction)
          → key ≢ id
          → (u.id == key) ≡ true
          → (is_own_request u ≡ false) × (is_own_request (f u) ≡ false)
      apart u other h = rw (keep u, kind u) (ground arith)

  Spent-status :
      (key : Uuid) (s : MfaStatus) (rows : List MfaTransaction)
      → Spent id rows
      → Spent id (update (λ t. t.id == key) (λ t. record t { status = s }) rows)
  Spent-status key s rows =
      Spent-update key (λ t. record t { status = s }) rows (λ t. refl) (λ t. refl) (λ t h. h)

  Spent-Lasting : Lasting (Spent id)
  Spent-Lasting = record {
    append = λ rows row h. (h.0, find-append_hit is_own_request rows (row ∷ []) h.1, h.2);
    close = λ key s rows _. Spent-status key s rows;
    consume = λ key now rows.
        Spent-update key (λ t. record t { consumed_at = some now }) rows (λ t. refl) (λ t. refl)
          (λ t h. refl);
    link = λ key n rows.
        Spent-update key (λ t. record t { notification_id = n }) rows (λ t. refl) (λ t. refl)
          (λ t h. h);
  }

  Outcome-Spent :
      {txn : MfaTransaction} {rows rows' : List MfaTransaction} {res : Result LoginResponse}
      → Spent id rows
      → Outcome txn rows res rows'
      → Spent id rows'
  Outcome-Spent h (kept _ e) = rw e h
  Outcome-Spent h (closed s _ _ e) = rw e (Spent-status _ s _ h)
  Outcome-Spent h (counted _ e) =
      rw e (Spent-update _ count_failure _ (λ t. refl) (λ t. refl) (λ t spent. spent) h)

  module _ (outside : Outside) where
    verify-Kept :
        (request : MfaVerifyRequest) (req : HttpRequest)
        → Marks (Spent id) outside (verify request, req)
    unfolding mfa_verify
    verify-Kept request req w h =
        elim (Option-cases (find_transaction request.session_id w.committed)) [
          | inl missing ↦ rw missing h
          | inr (txn, named) ↦
              let opened : World = record w { working = w.committed; calls = w.calls + 1 } in
              rw named (
                Outcome-Spent h (
                  verify_pending-Outcome outside req (outside.clock w.calls) request txn opened
                    refl))
        ]

    Marks-Spent : (step : Step × HttpRequest) → Marks (Spent id) outside step
    Marks-Spent (approve request_id ctx, req) = λ w h.
        Keeps-respond _
          (any_approval-Keeps (Spent id) Spent-Lasting outside req request_id ctx
            (λ key rows. Spent-status key MfaStatus.completed rows))
          w h
    Marks-Spent (verify request, req) = verify-Kept request req
    Marks-Spent (ask _ _ _, req) = tt
    Marks-Spent (complete _, req) = tt
    Marks-Spent (log_in _, req) = tt

    served_all-Spent :
        (steps : List (Step × HttpRequest)) (w : World)
        → Spent id w.committed.mfa_transactions
        → Spent id (served_all outside steps w).committed.mfa_transactions
    unfolding served_all
    served_all-Spent [] w h = h
    served_all-Spent (step ∷ rest) w h =
        served_all-Spent rest (served outside step w)
          (served-Kept (Spent id) outside Spent-Lasting step (Marks-Spent step) w h)

    refused_at :
        (req : HttpRequest) (t : MfaTransaction) (s : MfaStatus) (w : World)
        → is_some t.consumed_at ≡ true
        → (e : Error) × (((check_approved outside req s >> complete_approved outside req t) w).0
            ≡ raise e)
    unfolding check_approved complete_approved
    refused_at req t MfaStatus.pending w h = (_, refl)
    refused_at req t MfaStatus.expired w h = (_, refl)
    refused_at req t MfaStatus.failed w h = (_, refl)
    refused_at req t MfaStatus.completed w h =
        (http 409 "Trusted-device request already completed", rw h refl)

-- When a device has completed its login, every later completion of the same request, from any
-- device, is refused, after any run of requests for approval, approvals, completions, logins and MFA
-- codes, from any clients.
pub trusted_device_login_once :
    (outside : Outside) (request later : HttpRequest) (id : Uuid)
    (steps : List (Step × HttpRequest)) (w : World) {r : LoginResponse} {w' : World}
    → respond (complete_trusted_device_login outside request id) w ≡ (ok r, w')
    → (e : Error) × ((respond
          (complete_trusted_device_login outside later id)
          (served_all outside steps w')).0
        ≡ raise e)
unfolding complete_trusted_device_login
trusted_device_login_once outside request later id steps w {r} {w'} e =
    let v = served_all outside steps w' in
    let (t, found, spent) =
      served_all-Spent id outside steps w' (trusted_device_login-Spent outside request id w e) in
    let (error, ran) =
      refused_at id outside later t t.status (record v { working = v.committed }) spent in
    (error, rw found ran)
