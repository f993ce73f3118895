-- ===== src/Auth/Mfa/Budget.antt =====
-- A challenge answers three wrong codes, whoever asks and however often.
use sentinel_auth.Prelude.{
  ℕ, String, Bool, true, false, not, ◌&&◌, ◌≡◌, refl, ap, ◌∙◌, ◌⊎◌, inl, inr, Option, none, some,
  is_some, ◌==◌, nat_eq, string_eq, update, List, leb, Bool-cases, Option-cases,
}
use sentinel_auth.Core.{
  Time, User, MfaNotification, Action, ◌>>◌, MfaType, MfaStatus, MfaTransaction, Db, Outside,
  Verification, verified, mismatch, invalid_hash, HttpRequest, get_client_ip, Result, ok, raise,
  http, unhandled, Error, World, raise_if,
}
use sentinel_auth.Auth.Sessions.{LoginResponse}
use sentinel_auth.Auth.Login.{normalize_ip, update_transaction}
use sentinel_auth.Auth.Mfa.{
  MfaVerifyRequest, count_failure, check_state, check_expiry, check_code, check_binding, consume,
  compare_ips, find_user, find_notification, verify_pending,
}
use sentinel_auth.Auth.Mfa.Steps.{reject_code_lem, consume_lem}

-- The answer to a wrong code.
abbrev pub is_wrong_error : Error → Bool
is_wrong_error (http status_code detail) = status_code == 401 && detail == "Invalid MFA code"
is_wrong_error (unhandled _) = false

abbrev pub is_wrong : Result LoginResponse → Bool
is_wrong (ok _) = false
is_wrong (raise e) = is_wrong_error e

abbrev pub is_pending : MfaStatus → Bool
is_pending MfaStatus.pending = true
is_pending _ = false

-- How one request may leave the rows of the transactions.
pub data Outcome (txn : MfaTransaction) (rows : List MfaTransaction) (res : Result LoginResponse)
    (rows' : List MfaTransaction) : Type 0 where
  kept : is_wrong res ≡ false → rows' ≡ rows → Outcome txn rows res rows'
  closed :
      (s : MfaStatus)
      → is_pending s ≡ false
      → is_wrong res ≡ false
      → rows' ≡ update (λ t. t.id == txn.id) (λ t. record t { status = s }) rows
      → Outcome txn rows res rows'
  counted :
      txn.status ≡ MfaStatus.pending
      → rows' ≡ update (λ t. t.id == txn.id) count_failure rows
      → Outcome txn rows res rows'

check_state-cases :
    (t : MfaType) (s : MfaStatus) (w : World)
    → ((s ≡ MfaStatus.pending) × (check_state t s w ≡ (ok tt, w)))
      ⊎ ((e : Error) × (is_wrong_error e ≡ false) × (check_state t s w ≡ (raise e, w)))
unfolding check_state
check_state-cases MfaType.trusted_device _ w = inr (_, refl, refl)
check_state-cases MfaType.one_time MfaStatus.pending w = inl (refl, refl)
check_state-cases MfaType.one_time MfaStatus.completed w = inr (_, refl, refl)
check_state-cases MfaType.one_time MfaStatus.expired w = inr (_, refl, refl)
check_state-cases MfaType.one_time MfaStatus.failed w = inr (_, refl, refl)
check_state-cases MfaType.persistent MfaStatus.pending w = inl (refl, refl)
check_state-cases MfaType.persistent MfaStatus.completed w = inr (_, refl, refl)
check_state-cases MfaType.persistent MfaStatus.expired w = inr (_, refl, refl)
check_state-cases MfaType.persistent MfaStatus.failed w = inr (_, refl, refl)

raise_if-cases :
    (b : Bool) (status_code : ℕ) (detail : String) (w : World)
    → is_wrong_error (http status_code detail) ≡ false
    → (raise_if b status_code detail w ≡ (ok tt, w))
      ⊎ ((e : Error) × (is_wrong_error e ≡ false)
          × (raise_if b status_code detail w ≡ (raise e, w)))
raise_if-cases true _ _ w h = inr (_, h, refl)
raise_if-cases false _ _ w h = inl refl

module _ (outside : Outside) where
  compare_ips-cases :
      (a b : Option String) (w : World)
      → (compare_ips outside a b w ≡ (ok tt, w))
        ⊎ ((e : Error) × (is_wrong_error e ≡ false) × (compare_ips outside a b w ≡ (raise e, w)))
  compare_ips-cases (some a) (some b) w = raise_if-cases (not (a == b)) 403 _ w refl
  compare_ips-cases (some a) none w = inr (_, refl, refl)
  compare_ips-cases none _ w = inr (_, refl, refl)

  check_binding-cases :
      (bound : Option String) (ip : String) (w : World)
      → (check_binding outside bound ip w ≡ (ok tt, w))
        ⊎ ((e : Error) × (is_wrong_error e ≡ false)
            × (check_binding outside bound ip w ≡ (raise e, w)))
  unfolding check_binding
  check_binding-cases none ip w = inl refl
  check_binding-cases (some bound) ip w = elim (Bool-cases (bound == "")) [
    | inl blank ↦ rw blank (inl refl)
    | inr given ↦ elim (Bool-cases (ip == "unknown")) [
      | inl unknown ↦ rw (given, unknown) (inr (_, refl, refl))
      | inr known ↦
          rw (given, known)
            (compare_ips-cases (normalize_ip outside bound) (normalize_ip outside ip) w)
    ]
  ]

module _ (outside : Outside) (req : HttpRequest) (now : Time) (request : MfaVerifyRequest)
    (txn : MfaTransaction) where
  abbrev pub Leaves : World → Result LoginResponse × World → Type 0
  Leaves w out = Outcome txn w.committed.mfa_transactions out.0 out.1.committed.mfa_transactions

  check_code-cases :
      (user : User) (v : Verification) (w : World)
      → (check_code outside req now txn user v w ≡ (ok tt, w))
        ⊎ ((w' : World) × (check_code outside req now txn user v w
              ≡ (raise (http 401 "Invalid MFA code"), w'))
            × (w'.committed ≡ update_transaction txn.id count_failure w.working))
  check_code-cases user verified w = inl refl
  check_code-cases user mismatch w =
      let (w', ran, left, _) = reject_code_lem outside req now txn user w in inr (w', ran, left)
  check_code-cases user invalid_hash w =
      let (w', ran, left, _) = reject_code_lem outside req now txn user w in inr (w', ran, left)

  -- The part of `verify_pending` behind the rows.
  abbrev finish : User → MfaNotification → Action LoginResponse
  finish user n =
      raise_if (is_some n.verified_at) 409 "MFA code already used"
      >> (check_code outside req now txn user
            (outside.argon2_verify n.mfa_code_hash request.mfa_code)
          >> (check_binding outside txn.bound_ip (get_client_ip req)
              >> consume outside req now txn n user))

  finish-Outcome :
      (user : User) (n : MfaNotification) (w : World)
      → w.working ≡ w.committed
      → txn.status ≡ MfaStatus.pending
      → Leaves w (finish user n w)
  finish-Outcome user n w view pending = elim (Bool-cases (is_some n.verified_at)) [
    | inl used ↦ rw used (kept refl refl)
    | inr fresh ↦
        elim (check_code-cases user (outside.argon2_verify n.mfa_code_hash request.mfa_code) w) [
          | inr (w', ran, left) ↦
              rw (fresh, ran) (counted pending (ap (λ (d : Db). d.mfa_transactions) left ∙ rw view))
          | inl ran ↦ elim (check_binding-cases outside txn.bound_ip (get_client_ip req) w) [
            | inr (e, h, away) ↦ rw (fresh, ran, away) (kept h refl)
            | inl same ↦
                let (r, w', took, effects) = consume_lem outside req now txn n user w in
                rw (fresh, ran, same, took)
                  (closed MfaStatus.completed refl refl (effects.transactions ∙ rw view))
          ]
        ]
  ]

  pub verify_pending-Outcome :
      (w : World)
      → w.working ≡ w.committed
      → Leaves w (verify_pending outside req now request txn w)
  unfolding verify_pending check_expiry
  verify_pending-Outcome w view = elim (check_state-cases txn.mfa_type txn.status w) [
    | inr (e, h, ran) ↦ rw ran (kept h refl)
    | inl (pending, ran) ↦ elim (Bool-cases (leb txn.expires_at now)) [
      | inl late ↦ rw (ran, late) (closed MfaStatus.expired refl refl (rw view))
      | inr early ↦ elim (Option-cases (find_user txn.user_id w.working)) [
        | inl missing ↦ rw (ran, early, missing) (kept refl refl)
        | inr (user, owner) ↦
            elim (Option-cases (find_notification txn.notification_id w.working)) [
              | inl missing ↦ rw (ran, early, owner, missing) (kept refl refl)
              | inr (n, told) ↦ rw (ran, early, owner, told) (finish-Outcome user n w view pending)
            ]
      ]
    ]
  ]
