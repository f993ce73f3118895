-- ===== src/Devices/Completion/Steps.antt =====
-- What a device that completes its login has gone through.
use sentinel_auth.Prelude.{
  ℕ, ◌+◌, ◌<◌, String, Bool, true, false, not, ◌≡◌, refl, sym, ap, ◌∙◌, subst, subst₂, Option, none,
  some, inl, inr, arith, is_some, is_value, find, ◌==◌, nat_eq, string_eq, update, Bool-cases,
  Option-cases, [], ◌∷◌, ◌++◌,
}
use sentinel_auth.Core.{
  Time, Uuid, is_active, User, Session, MfaStatus, MfaTransaction, Db, Outside, HttpRequest,
  get_client_ip, fingerprint_from_request, Result, ok, World, >>=-eq-ok, fetch-eq-ok, guard-eq-ok,
}
use sentinel_auth.Auth.Risk.{pre_token_risk}
use sentinel_auth.Auth.Sessions.{LoginResponse}
use sentinel_auth.Auth.Login.{update_transaction}
use sentinel_auth.Auth.Login.Steps.{Ungated, pre_token_risk-quiet}
use sentinel_auth.Auth.Frame.{send_login_event-IsQuiet, send_login_event_lem, create_session-Opened}
use sentinel_auth.Devices.{same_ip}
use sentinel_auth.Devices.Completion.{
  check_approved, check_lifetime, check_mfa, check_risk, find_active, finish_login,
  complete_approved,
}

-- What a completed login has done.
pub record Finished (pending : MfaTransaction) (user : User) (now : Time) (w : World)
    (r : LoginResponse) (w' : World) : Type 0 where
  pub row : Session
  pub owner : row.user_id ≡ user.id
  pub unrevoked : row.revoked_at ≡ none
  pub named : r.session_id ≡ row.id
  pub sessions : w'.committed.sessions ≡ w.working.sessions ++ row ∷ []
  pub transactions :
      w'.committed.mfa_transactions
      ≡ update
          (λ t. t.id == pending.id)
          (λ t. record t { consumed_at = some now })
          w.working.mfa_transactions

same_run {ℓ} :
    {A : Type ℓ} {a b : A} {v w : World}
    → ◌≡◌ {A = Result A × World} (ok a, v) (ok b, w)
    → (a ≡ b) × (v ≡ w)
same_run e = (cc, cc)

module _ (outside : Outside) (request : HttpRequest) where
  finish_login-Finished :
      (pending : MfaTransaction) (user : User) (now : Time) (w : World)
      → (r : LoginResponse) × (w' : World) × (finish_login outside request pending user now w
          ≡ (ok r, w'))
        × Finished pending user now w r w'
  unfolding finish_login
  finish_login-Finished pending user now w =
      let before : World = record w {
        working =
            update_transaction pending.id (λ t. record t { consumed_at = some now }) w.working;
      } in
      let (r, event, w1, ran, opened) =
        create_session-Opened outside user (get_client_ip request) request.user_agent
          (fingerprint_from_request outside request) before in
      rw (ran, send_login_event_lem outside)
        (
          r,
          _,
          refl,
          record {
            row = opened.row;
            owner = opened.owner;
            unrevoked = opened.unrevoked;
            named = opened.named;
            sessions =
                ap (λ (d : Db). d.sessions) (send_login_event-IsQuiet outside _ _).3
                ∙ opened.sessions;
            transactions =
                ap (λ (d : Db). d.mfa_transactions) (send_login_event-IsQuiet outside _ _).3
                ∙ opened.transactions;
          },
        )

  pub check_approved-eq-ok :
      (s : MfaStatus) (w : World) {a : Unit {0}} {w' : World}
      → check_approved outside request s w ≡ (ok a, w')
      → (s ≡ MfaStatus.completed) × (w' ≡ w)
  unfolding check_approved
  check_approved-eq-ok s w e = ground arith

  check_lifetime-eq-ok :
      (t : MfaTransaction) (now : Time) (w : World) {a : Unit {0}} {w' : World}
      → check_lifetime outside request t now w ≡ (ok a, w')
      → (now < t.expires_at) × (w' ≡ w)
  check_lifetime-eq-ok t now w e = ground arith

  check_mfa-eq-ok :
      (t : MfaTransaction) (u : User) (w : World) {a : Unit {0}} {w' : World}
      → check_mfa outside request t u w ≡ (ok a, w')
      → (u.admin_mfa_required ≡ false) × (u.detection_mfa_once ≡ false) × (w' ≡ w)
  check_mfa-eq-ok t u w e = ground arith

  check_risk-eq-ok :
      (t : MfaTransaction) (level : Option String) (w : World) {a : Unit {0}} {w' : World}
      → check_risk outside request t level w ≡ (ok a, w')
      → (level ≡ none) × (w' ≡ w)
  check_risk-eq-ok t level w e = ground arith

  not-eq-false : (b : Bool) → not b ≡ false → b ≡ true
  not-eq-false b e = ground arith

  is_some-eq-false {ℓ} : {A : Type ℓ} (o : Option A) → is_some o ≡ false → o ≡ none
  is_some-eq-false none e = refl
  is_some-eq-false (some a) e = cc

  find_active-eq-some :
      (id : Uuid) (db : Db) {u : User}
      → find_active outside request id db ≡ some u
      → (find (λ v. v.id == id) db.users ≡ some u) × (is_active u.status ≡ true)
  find_active-eq-some id db {u} e = elim (Option-cases (find (λ (v : User). v.id == id) db.users)) [
    | inl missing ↦ cc (rw missing at e)
    | inr (v, found) ↦ elim (Bool-cases (is_active v.status)) [
      | inl on ↦ let one : v ≡ u = cc (rw (found, on) at e) in rw (← one) (found, on)
      | inr off ↦ cc (rw (found, off) at e)
    ]
  ]

  -- What has been checked when a device completes its login.
  pub record Completed (pending : MfaTransaction) (now : Time) (asked : ℕ) (db : Db) (user : User)
      : Type 0 where
    pub approved : pending.status ≡ MfaStatus.completed
    pub unconsumed : pending.consumed_at ≡ none
    pub in_time : now < pending.expires_at
    pub same_address : same_ip outside pending.bound_ip (get_client_ip request) ≡ true
    pub same_device :
        is_value pending.trusted_device_fingerprint (fingerprint_from_request outside request)
        ≡ true
    pub owner : find (λ u. u.id == pending.user_id) db.users ≡ some user
    pub owner_active : is_active user.status ≡ true
    pub no_admin_mfa : user.admin_mfa_required ≡ false
    pub no_detection_mfa : user.detection_mfa_once ≡ false
    pub ungated : Ungated outside asked

  pub complete_approved-Completed :
      (pending : MfaTransaction) (w : World) {r : LoginResponse} {w' : World}
      → pending.status ≡ MfaStatus.completed
      → complete_approved outside request pending w ≡ (ok r, w')
      → (user : User) × Completed pending (outside.clock w.calls) (w.calls + 1) w.working user
        × (before : World) × (before.working ≡ w.working)
        × Finished pending user (outside.clock w.calls) before r w'
  unfolding complete_approved
  complete_approved-Completed pending w {r} {w'} approved e =
      let now = outside.clock w.calls in
      let w0 : World = record w { calls = w.calls + 1 } in
      let (unconsumed, k1) =
        guard-eq-ok (is_some pending.consumed_at) 409 "Trusted-device request already completed" _
          w0 e in
      let (_, w1, e1, k2) = >>=-eq-ok (check_lifetime outside request pending now) _ w0 k1 in
      let (in_time, s1) = check_lifetime-eq-ok pending now w0 e1 in
      let (address, k3) =
        guard-eq-ok (not (same_ip outside pending.bound_ip (get_client_ip request))) 403
          "Trusted-device IP does not match the request" _ w1 k2 in
      let (device, k4) =
        guard-eq-ok
          (not (
            is_value pending.trusted_device_fingerprint (fingerprint_from_request outside request)))
          403 "Trusted-device fingerprint does not match the request" _ w1 k3 in
      let (user, active, k5) =
        fetch-eq-ok (find_active outside request pending.user_id) 401 "Account is not active" _ w1
          k4 in
      let (_, w2, e2, k6) = >>=-eq-ok (check_mfa outside request pending user) _ w1 k5 in
      let (admin, detection, s2) = check_mfa-eq-ok pending user w1 e2 in
      let (level, w3, e3, k7) = >>=-eq-ok (pre_token_risk outside) _ w2 k6 in
      let (_, s3) = pre_token_risk-quiet outside w2 e3 in
      let (_, w4, e4, k8) = >>=-eq-ok (check_risk outside request pending level) _ w3 k7 in
      let (quiet, s4) = check_risk-eq-ok pending level w3 e4 in
      let same : w4.working ≡ w.working =
        ap (λ (v : World). v.working) s4 ∙ s3 ∙ ap (λ (v : World). v.working) (s2 ∙ s1) in
      let (owner, on) = find_active-eq-some pending.user_id w1.working active in
      let (r0, w5, ran, finished) = finish_login-Finished pending user now w4 in
      let (answer, world) = same_run (sym ran ∙ k8) in
      (
        user,
        record {
          approved = approved;
          unconsumed = is_some-eq-false pending.consumed_at unconsumed;
          in_time = in_time;
          same_address = not-eq-false _ address;
          same_device = not-eq-false _ device;
          owner =
              subst (λ (v : World). find (λ u. u.id == pending.user_id) v.working.users ≡ some user)
                s1 owner;
          owner_active = on;
          no_admin_mfa = admin;
          no_detection_mfa = detection;
          ungated = (
            w2,
            w3,
            ap (λ (v : World). v.calls) (s2 ∙ s1),
            e3 ∙ ap (λ (l : Option String). (ok l, w3)) quiet,
          );
        },
        w4,
        same,
        subst₂ (Finished pending user now w4) answer world finished,
      )
