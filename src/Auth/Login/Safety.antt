-- ===== src/Auth/Login/Safety.antt =====
-- When `login` hands out tokens.
use sentinel_auth.Prelude.{
  ◌+◌, ℕ, update, ==_refl, update-append_one, true, false, ◌≡◌, refl, sym, ap, ◌∙◌, none, arith,
  ◌==◌, nat_eq, string_eq, List, [], ◌∷◌, ◌++◌, subst,
}
use sentinel_auth.Core.{
  Time, Uuid, User, Session, MfaStatus, MfaTransaction, Db, Outside, HttpRequest, ok, World,
  respond, respond-eq-ok,
}
use sentinel_auth.Auth.Sessions.{LoginResponse}
use sentinel_auth.Auth.Login.{LoginRequest, login}
use sentinel_auth.Auth.Login.Steps.{Ungated, Challenged}
use sentinel_auth.Auth.Login.Outcomes.{
  Cleared, Outcome, signed_in, challenged, Passed, login_at-Passed,
}

-- The session that a login without MFA opens.
pub record Signed (user : User) (w : World) (r : LoginResponse) (w' : World) : Type 0 where
  pub row : Session
  pub owner : row.user_id ≡ user.id
  pub unrevoked : row.revoked_at ≡ none
  pub named : r.session_id ≡ row.id
  pub sessions : w'.committed.sessions ≡ w.committed.sessions ++ row ∷ []

tokens_of_Outcome :
    (outside : Outside) (asked : ℕ) (user : User) (w before : World) (r : LoginResponse) (v : World)
    → before.working.sessions ≡ w.committed.sessions
    → r.mfa_required ≡ false
    → Outcome outside asked user before r v
    → (user.admin_mfa_required ≡ false)
      × (user.detection_mfa_once ≡ false)
      × Ungated outside asked
      × Signed user w r (record v { working = v.committed })
tokens_of_Outcome outside asked user w before r v same free (signed_in a d u s) = (
  a,
  d,
  u,
  record {
    row = s.row;
    owner = s.owner;
    unrevoked = s.unrevoked;
    named = s.named;
    sessions = s.sessions ∙ ap (λ (l : List Session). l ++ s.row ∷ []) same;
  },
)
tokens_of_Outcome outside asked user w before r v same free (challenged c) = cc (c.challenge)

-- The row is the last of the transactions, behind the ones that were there.
abbrev pub Added : MfaTransaction → World → World → Type 0
Added row w w' =
    w'.committed.mfa_transactions
    ≡ update (λ t. t.id == row.id) (λ t. record t { notification_id = row.notification_id })
        w.committed.mfa_transactions
      ++ row ∷ []

Challenged-Added :
    (user : User) (w before : World) (r : LoginResponse) (v : World)
    → before.working.mfa_transactions ≡ w.committed.mfa_transactions
    → (c : Challenged user before r v) → Added c.row w v
Challenged-Added user w before r v same c =
    c.transactions
    ∙ update-append_one (λ (t : MfaTransaction). t.id == c.row.id)
        (λ t. record t { notification_id = c.row.notification_id }) before.working.mfa_transactions
        (record c.row { notification_id = none }) (==_refl c.row.id)
    ∙ ap
        (λ (l : List MfaTransaction).
          update (λ t. t.id == c.row.id) (λ t. record t { notification_id = c.row.notification_id })
            l
          ++ c.row ∷ [])
        same

challenge_of_Outcome :
    (outside : Outside) (asked : ℕ) (user : User) (w before : World) (r : LoginResponse) (v : World)
    → before.working.sessions ≡ w.committed.sessions
    → before.working.mfa_transactions ≡ w.committed.mfa_transactions
    → r.mfa_required ≡ true
    → Outcome outside asked user before r v
    → (r.access_token ≡ "")
      × (r.refresh_token ≡ "")
      × (v.committed.sessions ≡ w.committed.sessions)
      × (row : MfaTransaction) × Added row w v
      × (row.id ≡ r.session_id)
      × (row.user_id ≡ user.id)
      × (row.status ≡ MfaStatus.pending)
      × (row.fail_count ≡ 0)
challenge_of_Outcome outside asked user w before r v same rows need (signed_in a d u s) =
    cc (s.no_challenge)
challenge_of_Outcome outside asked user w before r v same rows need (challenged c) = (
  c.no_access,
  c.no_refresh,
  c.sessions ∙ same,
  c.row,
  Challenged-Added user w before r v rows c,
  sym c.named,
  c.owner,
  c.pending,
  c.unspent,
)

module _ (outside : Outside) (request : LoginRequest) (req : HttpRequest) (w : World) where
  login-Passed :
      {r : LoginResponse} {w' : World}
      → respond (login outside request req) w ≡ (ok r, w')
      → (v : World) × (w' ≡ record v { working = v.committed })
        × (opened : World) × (opened.working ≡ w.committed)
        × (opened.calls ≡ w.calls + 2)
        × (id : Uuid) × (now : Time) × Passed outside request req id now opened r v
  unfolding login
  login-Passed e =
      let (v, ran, ended) = respond-eq-ok (login outside request req) w e in
      (
        v,
        ended,
        record w { working = w.committed; calls = w.calls + 1 + 1 },
        refl,
        omega arith,
        outside.uuid4 w.calls,
        outside.clock (w.calls + 1),
        login_at-Passed outside request req _ _ _ ran,
      )

  -- A login that answers with tokens (mfa_required is false) was made with the password of an
  -- account that is not locked and of which neither the administrator nor Detection demands MFA,
  -- neither in the stored flags nor in Detection's answer to the third call of this login, when it is
  -- asked; it added exactly one session, of that account, which is not revoked.
  pub login_tokens :
      {r : LoginResponse} {w' : World}
      → respond (login outside request req) w ≡ (ok r, w')
      → r.mfa_required ≡ false
      → (user : User) × Cleared outside request w.committed user
        × (user.admin_mfa_required ≡ false)
        × (user.detection_mfa_once ≡ false)
        × Ungated outside (w.calls + 2)
        × Signed user w r w'
  login_tokens {r} {w'} e free =
      let (v, ended, opened, start, third, id, now, p) = login-Passed e in
      let (a, d, u, s) =
        tokens_of_Outcome outside (w.calls + 2) p.user w p.before r v
          (p.sessions ∙ ap (λ (d : Db). d.sessions) start) free
          (subst (λ n. Outcome outside n p.user p.before r v) third p.outcome) in
      (
        p.user,
        subst (λ (d : Db). Cleared outside request d p.user) start p.cleared,
        a,
        d,
        u,
        rw ended s,
      )

  -- A login that answers with a challenge (mfa_required is true) was made with the password of an
  -- account that is not locked; it gives no token, adds no session, and names a pending challenge
  -- of the account, which is the row that the login has added to the transactions.
  pub login_challenge :
      {r : LoginResponse} {w' : World}
      → respond (login outside request req) w ≡ (ok r, w')
      → r.mfa_required ≡ true
      → (user : User) × Cleared outside request w.committed user
        × (r.access_token ≡ "")
        × (r.refresh_token ≡ "")
        × (w'.committed.sessions ≡ w.committed.sessions)
        × (row : MfaTransaction) × Added row w w'
        × (row.id ≡ r.session_id)
        × (row.user_id ≡ user.id)
        × (row.status ≡ MfaStatus.pending)
        × (row.fail_count ≡ 0)
  login_challenge {r} {w'} e need =
      let (v, ended, opened, start, third, id, now, p) = login-Passed e in
      let (a, b, s, row, added, named, owner, pending, unspent) =
        challenge_of_Outcome outside (w.calls + 2) p.user w p.before r v
          (p.sessions ∙ ap (λ (d : Db). d.sessions) start)
          (p.transactions ∙ ap (λ (d : Db). d.mfa_transactions) start) need
          (subst (λ n. Outcome outside n p.user p.before r v) third p.outcome) in
      (
        p.user,
        subst (λ (d : Db). Cleared outside request d p.user) start p.cleared,
        a,
        b,
        ap (λ (u : World). u.committed.sessions) ended ∙ s,
        row,
        ap (λ (u : World). u.committed.mfa_transactions) ended ∙ added,
        named,
        owner,
        pending,
        unspent,
      )
