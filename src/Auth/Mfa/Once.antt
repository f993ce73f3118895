-- ===== src/Auth/Mfa/Once.antt =====
-- app/auth.py: what the verification of a code leaves of its challenge.
use sentinel_auth.Prelude.{
  ◌<◌, false, ◌≡◌, ◌≢◌, refl, sym, ap, ◌∙◌, subst, subst₂, Option, none, some, arith, is_some, find,
  ◌==◌, nat_eq, nat_beq_iff, find-eq-some, find-update_hit, update, List,
}
use sentinel_auth.Core.{
  Time, Uuid, User, MfaType, MfaStatus, MfaTransaction, MfaNotification, Outside, Verification,
  verified, HttpRequest, get_client_ip, ok, raise, http, World, respond, >>=-eq-ok, fetch-eq-ok,
  guard-eq-ok, respond-eq-ok,
}
use sentinel_auth.Auth.Sessions.{LoginResponse}
use sentinel_auth.Auth.Mfa.{
  MfaVerifyRequest, check_state, check_expiry, check_code, check_binding, consume, find_user,
  find_notification, verify_pending, find_transaction, mfa_verify,
}
use sentinel_auth.Auth.Mfa.Steps.{
  check_state-eq-ok, check_binding-eq-ok, check_expiry-eq-ok, reject_code_lem, Consumed,
  consume_lem,
}

module _ (outside : Outside) (req : HttpRequest) (now : Time) where
  check_code-eq-ok :
      (txn : MfaTransaction) (user : User) (v : Verification) (w : World) {a : Unit {0}}
      {w' : World}
      → check_code outside req now txn user v w ≡ (ok a, w')
      → (v ≡ verified) × (w' ≡ w)
  check_code-eq-ok txn user v w e = ground (arith, reject_code_lem outside req now txn user w)

  -- What has been checked when a challenge is accepted.
  pub record Accepted (request : MfaVerifyRequest) (txn : MfaTransaction) (w : World)
      (r : LoginResponse) (w' : World) : Type 0 where
    pub user : User
    pub notification : MfaNotification
    pub by_code : txn.mfa_type ≢ MfaType.trusted_device
    pub was_pending : txn.status ≡ MfaStatus.pending
    pub in_time : now < txn.expires_at
    pub owner : find_user txn.user_id w.working ≡ some user
    pub unused : notification.verified_at ≡ none
    pub code_matches : outside.argon2_verify notification.mfa_code_hash request.mfa_code ≡ verified
    pub effects : Consumed txn user w r w'

  is_some-eq-false {ℓ} : {A : Type ℓ} (o : Option A) → is_some o ≡ false → o ≡ none
  is_some-eq-false none e = refl
  is_some-eq-false (some a) e = cc

  pub verify_pending-Accepted :
      (request : MfaVerifyRequest) (txn : MfaTransaction) (w : World) {r : LoginResponse}
      {w' : World}
      → verify_pending outside req now request txn w ≡ (ok r, w')
      → Accepted request txn w r w'
  unfolding verify_pending
  verify_pending-Accepted request txn w {r} {w'} e =
      let (_, w1, e1, k1) = >>=-eq-ok (check_state txn.mfa_type txn.status) _ w e in
      let (by_code, was_pending, s1) = check_state-eq-ok _ _ w e1 in
      let (_, w2, e2, k2) = >>=-eq-ok (check_expiry outside req now txn) _ w1 k1 in
      let (in_time, s2) = check_expiry-eq-ok outside req now txn w1 e2 in
      let (user, owner, k3) = fetch-eq-ok (find_user txn.user_id) 404 "User not found" _ w2 k2 in
      let (n, _, k4) =
        fetch-eq-ok (find_notification txn.notification_id) 404 "MFA notification not found" _ w2
          k3 in
      let (unused, k5) = guard-eq-ok (is_some n.verified_at) 409 "MFA code already used" _ w2 k4 in
      let verdict = outside.argon2_verify n.mfa_code_hash request.mfa_code in
      let (_, w6, e6, k6) = >>=-eq-ok (check_code outside req now txn user verdict) _ w2 k5 in
      let (matches, s6) = check_code-eq-ok txn user verdict w2 e6 in
      let (_, w7, e7, k7) =
        >>=-eq-ok (check_binding outside txn.bound_ip (get_client_ip req)) _ w6 k6 in
      let s7 = check_binding-eq-ok outside _ _ w6 e7 in
      let same2 : w2 ≡ w = s2 ∙ s1 in
      let same : w7 ≡ w = s7 ∙ s6 ∙ same2 in
      let (r0, w0, ran, effects) = consume_lem outside req now txn n user w in
      let ended : consume outside req now txn n user w ≡ (ok r, w') = rw same at k7 in
      let pairs : (r0 ≡ r) × (w0 ≡ w') = (cc, cc) in
      record {
        user = user;
        notification = n;
        by_code = by_code;
        was_pending = was_pending;
        in_time = in_time;
        owner = ap (λ (v : World). find_user txn.user_id v.working) (sym same2) ∙ owner;
        unused = is_some-eq-false _ unused;
        code_matches = matches;
        effects = subst₂ (Consumed txn user w) pairs.0 pairs.1 effects;
      }

pub check_state-completed :
    (t : MfaType) (w : World)
    → t ≢ MfaType.trusted_device
    → check_state t MfaStatus.completed w
      ≡ (raise (http 409 "MFA transaction already completed"), w)
unfolding check_state
check_state-completed t w h = ground arith

-- A transaction that is found as completed is refused.
pub mfa_verify-completed :
    (outside : Outside) (request : MfaVerifyRequest) (req : HttpRequest) (w : World)
    {txn : MfaTransaction}
    → find_transaction request.session_id w.committed ≡ some txn
    → txn.mfa_type ≢ MfaType.trusted_device
    → txn.status ≡ MfaStatus.completed
    → (respond (mfa_verify outside request req) w).0
      ≡ raise (http 409 "MFA transaction already completed")
unfolding mfa_verify verify_pending
mfa_verify-completed outside request req w {txn} found kind done =
    rw (found, done, check_state-completed txn.mfa_type _ kind) refl

-- The row that a request found, as an assignment to it leaves it.
pub row_after :
    (id : Uuid) (f : MfaTransaction → MfaTransaction) (rows : List MfaTransaction)
    {txn : MfaTransaction}
    → ((t : MfaTransaction) → (f t).id ≡ t.id)
    → find (λ t. t.id == id) rows ≡ some txn
    → find (λ t. t.id == id) (update (λ t. t.id == txn.id) f rows) ≡ some (f txn)
row_after id f rows {txn} keep found =
    let same : txn.id ≡ id =
      (nat_beq_iff txn.id id).0 (find-eq-some (λ t. t.id == id) rows found) in
    subst (λ k. find (λ t. t.id == id) (update (λ t. t.id == k) f rows) ≡ some (f txn)) (sym same)
      (find-update_hit (λ (t : MfaTransaction). t.id == id) f rows (λ t h. rw (keep t) h) found)

-- The first row of the key is a challenge whose code has been verified.
abbrev pub IsSettled : MfaTransaction → Type 0
IsSettled t = (t.mfa_type ≢ MfaType.trusted_device) × (t.status ≡ MfaStatus.completed)

abbrev pub Settled : Uuid → List MfaTransaction → Type 0
Settled id rows = (t : MfaTransaction) × (find (λ u. u.id == id) rows ≡ some t) × IsSettled t

pub mfa_verify-Settled :
    (outside : Outside) (request : MfaVerifyRequest) (req : HttpRequest) (w : World)
    {r : LoginResponse} {w' : World}
    → respond (mfa_verify outside request req) w ≡ (ok r, w')
    → Settled request.session_id w'.committed.mfa_transactions
unfolding mfa_verify
mfa_verify-Settled outside request req w e =
    let (v, ran, ended) = respond-eq-ok (mfa_verify outside request req) w e in
    let (txn, found, rest) =
      fetch-eq-ok (find_transaction request.session_id) 404 "Transaction not found" _ _ ran in
    let accepted = verify_pending-Accepted outside req _ request txn _ rest in
    let done =
      ap (find (λ t. t.id == request.session_id)) accepted.effects.transactions
      ∙ row_after request.session_id _ _ (λ t. refl) found in
    rw ended (record txn { status = MfaStatus.completed }, done, (accepted.by_code, refl))
