-- ===== src/Actions/Idempotency.antt =====
-- A retry of a protective action changes nothing, and an action ends the account's sessions.
use sentinel_auth.Prelude.{
  String, Bool, true, ◌≡◌, refl, sym, ap, ◌∙◌, subst, Option, none, some, List, [], ◌∷◌, ◌++◌, ◌==◌,
  nat_eq, string_eq, nat_beq_iff, ==_refl, Option-cases, inl, inr, find-eq-some,
}
use sentinel_auth.Core.{
  Time, Uuid, User, Value, AuditLog, Db, Outside, verify_internal_secret, ok, World, respond,
  respond-eq-ok, >>=-eq-ok, fetch-eq-ok,
}
use sentinel_auth.Auth.Account.{revoke_open}
use sentinel_auth.Authz.Safety.{LockedOut, AllRevoked-LockedOut}
use sentinel_auth.Auth.Account.Revocation.{revoke_open-AllRevoked}
use sentinel_auth.Actions.{
  ActionRequest, ActionResponse, put, get, latest, is_previous, idempotency_reason, log_action,
  text_or_null, request_details, replay, apply_new, apply_action, apply_or_replay, action_audit,
  find_previous,
}
use sentinel_auth.Actions.Details.{replay_details}
use sentinel_auth.Actions.Effects.{by_id, enforce-Enforced, verify-passed}

latest-append :
    (p : AuditLog → Bool) (rows : List AuditLog) (r : AuditLog)
    → p r ≡ true
    → latest p (rows ++ r ∷ []) ≡ some r
unfolding latest
latest-append p [] r h = rw h refl
latest-append p (x ∷ rows) r h = rw (latest-append p rows r h) refl

module _ (outside : Outside) (payload : ActionRequest) where
  -- What a first application leaves: its audit row, and the account's row.
  record Recorded (user : User) (w : World) (w' : World) : Type 0 where
    at : Time
    row : AuditLog
    ended : w'.working ≡ w'.committed
    sessions : w'.committed.sessions ≡ (revoke_open at user.id w.working).sessions
    audits : w'.committed.audit_logs ≡ w.working.audit_logs ++ row ∷ []
    recognised :
        {reason : String}
        → idempotency_reason payload.idempotency_key ≡ some reason
        → is_previous payload.action user.id reason row ≡ true
    still_found :
        {u : User}
        → by_id user.id w.working.users ≡ some u
        → (u' : User) × (by_id user.id w'.committed.users ≡ some u') × (u'.id ≡ u.id)

  apply_new-Recorded :
      (user : User) (w : World) {r : ActionResponse} {w' : World}
      → apply_new outside payload user w ≡ (ok r, w')
      → Recorded user w w'
  unfolding apply_new
  apply_new-Recorded user w {r} {w'} e =
      let (done, w1, ran, effects) =
        enforce-Enforced outside payload.action user (request_details payload) w in
      let details = put "idempotency_key" (text_or_null payload.idempotency_key) done.details in
      let row = action_audit payload user done details in
      let after = record w1 {
        working = record w1.working { audit_logs = w1.working.audit_logs ++ row ∷ [] };
        committed = record w1.working { audit_logs = w1.working.audit_logs ++ row ∷ [] };
      } in
      let here : after ≡ w' = cc (rw ran at e) in
      rw (← here) (record {
        at = effects.at;
        row = row;
        ended = refl;
        sessions = effects.sessions;
        audits = ap (λ l. l ++ row ∷ []) effects.audits;
        recognised = λ {reason} k.
            rw (k, ==_refl (log_action payload.action), ==_refl user.id, ==_refl reason) refl;
        still_found = effects.still_found;
      })

own_id : (id : Uuid) (users : List User) {u : User} → by_id id users ≡ some u → u.id ≡ id
own_id id users {u} e = (nat_beq_iff u.id id).0 (find-eq-some (λ (v : User). v.id == id) users e)

module _ (outside : Outside) (payload : ActionRequest) (secret : Option String) where
  -- A request that finds its audit row changes nothing.
  retried :
      (w v : World) (u : User) (previous : AuditLog) {a : Unit {0}}
      → verify_internal_secret outside secret v ≡ (ok a, v)
      → by_id payload.target_user_id w.committed.users ≡ some u
      → find_previous payload u.id w.committed ≡ some previous
      → respond (apply_action outside payload secret) w
        ≡ (ok (replay payload u previous), record w { working = w.committed })
  unfolding apply_action
  retried w v u previous passed found seen =
      rw (verify-passed outside secret v (record w { working = w.committed }) passed, found, seen)
        refl

  -- What a run that succeeded has gone through.
  record Served (w : World) (r : ActionResponse) (w' : World) : Type 0 where
    user : User
    found : by_id payload.target_user_id w.committed.users ≡ some user
    passed : verify_internal_secret outside secret w ≡ (ok tt, w)
    after : World
    closed : w' ≡ record after { working = after.committed }
    ran :
        apply_or_replay outside payload user
          (find_previous payload user.id w.committed)
          (record w { working = w.committed })
        ≡ (ok r, after)

  apply_action-Served :
      (w : World) {r : ActionResponse} {w' : World}
      → respond (apply_action outside payload secret) w ≡ (ok r, w')
      → Served w r w'
  unfolding apply_action
  apply_action-Served w e =
      let opened : World = record w { working = w.committed } in
      let (v, ran, ended) = respond-eq-ok (apply_action outside payload secret) w e in
      let (_, w1, checked, k1) = >>=-eq-ok (verify_internal_secret outside secret) _ opened ran in
      let there = verify-passed outside secret opened opened checked in
      let same : w1 ≡ opened = cc in
      let (u, found, k2) =
        fetch-eq-ok (λ (db : Db). by_id payload.target_user_id db.users) 404 "Target user not found"
          _ w1 k1 in
      record {
        user = u;
        found = rw same at found;
        passed = verify-passed outside secret opened w checked;
        after = v;
        closed = ended;
        ran = rw same at k2;
      }

  -- After a run that succeeded, a retry finds the audit row.
  record Ready (v : World) : Type 0 where
    user : User
    previous : AuditLog
    found : by_id payload.target_user_id v.committed.users ≡ some user
    seen : find_previous payload user.id v.committed ≡ some previous
    closed : v.working ≡ v.committed

  find_previous_lem :
      (id : Uuid) (db : Db) {reason : String}
      → idempotency_reason payload.idempotency_key ≡ some reason
      → find_previous payload id db ≡ latest (is_previous payload.action id reason) db.audit_logs
  find_previous_lem id db key = rw key refl

  Served-Ready :
      (w : World) {r : ActionResponse} {w' : World} {reason : String}
      → idempotency_reason payload.idempotency_key ≡ some reason
      → Served w r w'
      → Ready w'
  Served-Ready w {r} {w'} {reason} key s =
      elim (Option-cases (find_previous payload s.user.id w.committed)) [
        | inr (previous, seen) ↦
            let same : record w { working = w.committed } ≡ s.after = cc (rw seen at s.ran) in
            let closed : w' ≡ record w { working = w.committed } = s.closed ∙ rw (← same) refl in
            rw closed (record {
              user = s.user;
              previous = previous;
              found = s.found;
              seen = seen;
              closed = refl;
            })
        | inl new ↦
            let opened : World = record w { working = w.committed } in
            let recorded = apply_new-Recorded outside payload s.user opened (rw new at s.ran) in
            let own = own_id payload.target_user_id w.committed.users s.found in
            let (u, found, named) =
              recorded.still_found {u = s.user}
                (subst (λ k. by_id k w.committed.users ≡ some s.user) (sym own) s.found) in
            rw s.closed (record {
              user = u;
              previous = recorded.row;
              found = rw (← own) found;
              seen = rw (named) (
                  find_previous_lem s.user.id s.after.committed key
                  ∙ rw recorded.audits (
                      latest-append (is_previous payload.action s.user.id reason)
                        w.committed.audit_logs recorded.row (recorded.recognised key)));
              closed = refl;
            })
      ]

-- A protective action with an idempotency key is executed once. When it has been answered, the
-- same action on the same account with the same key changes nothing, answers "already_applied",
-- and reports no revoked session, whatever else the retry says.
pub apply_action_once :
    (outside : Outside) (payload again : ActionRequest) (secret : Option String) (w : World)
    {r : ActionResponse} {w' : World} {reason : String}
    → idempotency_reason payload.idempotency_key ≡ some reason
    → again.action ≡ payload.action
    → again.target_user_id ≡ payload.target_user_id
    → again.idempotency_key ≡ payload.idempotency_key
    → respond (apply_action outside payload secret) w ≡ (ok r, w')
    → (r' : ActionResponse) × (respond (apply_action outside again secret) w' ≡ (ok r', w'))
      × (r'.status ≡ "already_applied")
      × (get "deduplicated" r'.details ≡ some (Value.boolean true))
      × (get "sessions_revoked" r'.details ≡ some (Value.number 0))
unfolding replay
apply_action_once outside payload again secret w {r} {w'} {reason} key action target same_key e =
    let served = apply_action-Served outside payload secret w e in
    let ready = Served-Ready outside payload secret w key served in
    let seen : find_previous again ready.user.id w'.committed ≡ some ready.previous =
      rw (action, same_key) ready.seen in
    let found : by_id again.target_user_id w'.committed.users ≡ some ready.user =
      rw target ready.found in
    let answered =
      retried outside again secret w' w ready.user ready.previous served.passed found seen in
    let still : record w' { working = w'.committed } ≡ w' =
      ap (λ (d : Db). record w' { working = d }) (sym ready.closed) in
    let (dup, none_revoked) = replay_details again ready.user ready.previous in
    let answer = replay again ready.user ready.previous in
    (answer, answered ∙ ap (λ (v : World). (ok answer, v)) still, refl, dup, none_revoked)

-- A protective action that is executed, and not recognised as a retry, locks its target out: no
-- token that was issued before speaks for the account any more.
pub apply_action_locks_out :
    (outside : Outside) (payload : ActionRequest) (secret : Option String) (w : World)
    {r : ActionResponse} {w' : World}
    → find_previous payload payload.target_user_id w.committed ≡ none
    → respond (apply_action outside payload secret) w ≡ (ok r, w')
    → LockedOut outside payload.target_user_id w'
unfolding revoke_open
apply_action_locks_out outside payload secret w {r} {w'} new e =
    let s = apply_action-Served outside payload secret w e in
    let own = own_id payload.target_user_id w.committed.users s.found in
    let unseen : find_previous payload s.user.id w.committed ≡ none =
      subst (λ k. find_previous payload k w.committed ≡ none) (sym own) new in
    let recorded =
      apply_new-Recorded outside payload s.user (record w { working = w.committed })
        (rw unseen at s.ran) in
    let gone = revoke_open-AllRevoked recorded.at s.user.id w.committed in
    subst (λ k. LockedOut outside k w') own
      (AllRevoked-LockedOut outside s.user.id w' (rw (s.closed, recorded.sessions) gone))
