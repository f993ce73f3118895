-- ===== src/Devices/Completion/Once.antt =====
-- app/devices.py: what the login of an approved device asks for, and what it leaves of the request.
use sentinel_auth.Prelude.{
  ◌+◌, is_some, true, ◌&&◌, ◌≡◌, refl, ap, ◌∙◌, some, arith, find, ◌==◌, nat_eq, string_eq,
  find-eq-some, find-update_within, update, List, [], ◌∷◌, ◌++◌,
}
use sentinel_auth.Core.{
  Time, Uuid, User, Session, MfaTransaction, Db, Outside, HttpRequest, ok, World, respond,
  >>=-eq-ok, fetch-eq-ok, respond-eq-ok,
}
use sentinel_auth.Auth.Sessions.{LoginResponse}
use sentinel_auth.Devices.Approval.{is_device_type, find_request}
use sentinel_auth.Devices.Completion.{check_approved, complete_trusted_device_login}
use sentinel_auth.Devices.Completion.Steps.{
  Completed, check_approved-eq-ok, complete_approved-Completed,
}

-- The request that the key finds has been used.
abbrev pub Spent : Uuid → List MfaTransaction → Type 0
Spent id rows =
    (t : MfaTransaction) × (find (λ u. u.id == id && is_device_type u.mfa_type) rows ≡ some t)
    × (is_some t.consumed_at ≡ true)

module _ (outside : Outside) (request : HttpRequest) where
  -- A trusted-device login succeeds only for a request that is marked as approved and is
  -- neither consumed nor expired, from the address and with the fingerprint that asked, of an
  -- active account of which neither the administrator nor Detection demands MFA, in the stored flags
  -- and in Detection's answer to the second call of this login, when it is asked; it adds exactly
  -- one session, of that account.
  pub trusted_device_login :
      (id : Uuid) (w : World) {r : LoginResponse} {w' : World}
      → respond (complete_trusted_device_login outside request id) w ≡ (ok r, w')
      → (pending : MfaTransaction) × (find_request id w.committed ≡ some pending)
        × (user : User) × Completed outside request pending
            (outside.clock w.calls)
            (w.calls + 1)
            w.committed
            user
        × (row : Session) × (row.user_id ≡ user.id)
        × (w'.committed.sessions ≡ w.committed.sessions ++ row ∷ [])
  unfolding complete_trusted_device_login
  trusted_device_login id w e =
      let opened : World = record w { working = w.committed } in
      let (v, ran, ended) = respond-eq-ok (complete_trusted_device_login outside request id) w e in
      let (pending, found, k1) =
        fetch-eq-ok (find_request id) 404 "Trusted-device request not found" _ opened ran in
      let (_, w1, e1, k2) = >>=-eq-ok (check_approved outside request pending.status) _ opened k1 in
      let (approved, s1) = check_approved-eq-ok outside request pending.status opened e1 in
      let (user, checked, before, start, finished) =
        complete_approved-Completed outside request pending opened approved (rw s1 at k2) in
      (
        pending,
        found,
        user,
        checked,
        finished.row,
        finished.owner,
        ap (λ (u : World). u.committed.sessions) ended
            ∙ finished.sessions
            ∙ ap (λ (d : Db). d.sessions ++ finished.row ∷ []) start,
      )

  -- The request of a completed login, as it is found afterwards.
  consumed_row :
      (id : Uuid) (now : Time) (rows : List MfaTransaction) {t : MfaTransaction}
      → find (λ u. u.id == id && is_device_type u.mfa_type) rows ≡ some t
      → find
          (λ u. u.id == id && is_device_type u.mfa_type)
          (update (λ u. u.id == t.id) (λ u. record u { consumed_at = some now }) rows)
        ≡ some (record t { consumed_at = some now })
  consumed_row id now rows {t} found =
      let p = λ (u : MfaTransaction). u.id == id && is_device_type u.mfa_type in
      let own = own_key id t (find-eq-some p rows found) in
      find-update_within p (λ u. u.id == t.id) (λ u. record u { consumed_at = some now }) rows
        (λ u h. wide u own h) (λ u. refl) found
    where
      own_key :
          (i : Uuid) (u : MfaTransaction)
          → (u.id == i && is_device_type u.mfa_type) ≡ true
          → u.id ≡ i
      own_key i u h = ground arith

      wide :
          (u : MfaTransaction)
          → t.id ≡ id
          → (u.id == id && is_device_type u.mfa_type) ≡ true
          → (u.id == t.id) ≡ true
      wide u own h = ground arith

  pub trusted_device_login-Spent :
      (id : Uuid) (w : World) {r : LoginResponse} {w' : World}
      → respond (complete_trusted_device_login outside request id) w ≡ (ok r, w')
      → Spent id w'.committed.mfa_transactions
  unfolding complete_trusted_device_login
  trusted_device_login-Spent id w e =
      let opened : World = record w { working = w.committed } in
      let (v, ran, ended) = respond-eq-ok (complete_trusted_device_login outside request id) w e in
      let (pending, found, k1) =
        fetch-eq-ok (find_request id) 404 "Trusted-device request not found" _ opened ran in
      let (_, w1, e1, k2) = >>=-eq-ok (check_approved outside request pending.status) _ opened k1 in
      let (approved, s1) = check_approved-eq-ok outside request pending.status opened e1 in
      let (user, checked, before, start, finished) =
        complete_approved-Completed outside request pending opened approved (rw s1 at k2) in
      let now = outside.clock w.calls in
      let there =
        ap (find (λ (t : MfaTransaction). t.id == id && is_device_type t.mfa_type)) (
          finished.transactions
          ∙ ap
              (λ (d : Db).
                update (λ t. t.id == pending.id) (λ t. record t { consumed_at = some now })
                  d.mfa_transactions)
              start)
        ∙ consumed_row id now w.committed.mfa_transactions found in
      rw ended (record pending { consumed_at = some now }, there, refl)
