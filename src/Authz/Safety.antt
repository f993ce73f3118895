-- ===== src/Authz/Safety.antt =====
-- Who a bearer token speaks for.
use sentinel_auth.Prelude.{
  ◌<◌, String, Bool, true, false, not, ◌&&◌, ◌≡◌, ◌≢◌, refl, sym, ap, subst, ◌∙◌, Option, none,
  some, arith, is_some, find, All, ◌==◌, nat_eq, nat_beq_iff, string_eq, eq_of_==, find-eq-some,
  find-All, List, [], ◌∷◌, Bool-cases, inl, inr,
}
use sentinel_auth.Core.{
  Time, Uuid, is_active, Session, Db, Outside, HttpRequest, ok, World, respond, >>=-eq-ok,
  fetch-eq-ok, guard-eq-ok, respond-eq-ok,
}
use sentinel_auth.Auth.Sessions.{hash_token}
use sentinel_auth.Authz.{
  AuthContext, is_live, session_of, roles_of, bearer_token, get_current_auth_context,
  context_of_token, guarded, intersects, require_roles,
}

-- What holds of an authenticated context, in the database and at the time of the request.
pub record Authentic (outside : Outside) (token : String) (now : Time) (db : Db) (ctx : AuthContext)
    : Type 0 where
  pub session_found : session_of (hash_token outside token) now db ≡ some ctx.session
  pub token_matches : ctx.session.access_token_hash ≡ hash_token outside token
  pub unrevoked : is_some ctx.session.revoked_at ≡ false
  pub unexpired : now < ctx.session.expires_at
  pub user_found : find (λ u. u.id == ctx.session.user_id) db.users ≡ some ctx.user
  pub owner : ctx.user.id ≡ ctx.session.user_id
  pub user_active : is_active ctx.user.status ≡ true
  pub roles : ctx.roles ≡ roles_of ctx.user.id db

live_facts :
    (hash : String) (now : Time) (s : Session)
    → (s.access_token_hash == hash && is_live now s) ≡ true
    → ((s.access_token_hash == hash) ≡ true) × (is_some s.revoked_at ≡ false) × (now < s.expires_at)
live_facts hash now s h = ground arith

not-eq-false : (b : Bool) → not b ≡ false → b ≡ true
not-eq-false true e = refl
not-eq-false false e = cc

module _ (outside : Outside) (token : String) where
  pub context_of_token-Authentic :
      (w : World) {ctx : AuthContext} {w' : World}
      → respond (context_of_token outside token) w ≡ (ok ctx, w')
      → Authentic outside token (outside.clock w.calls) w.committed ctx
  unfolding context_of_token
  context_of_token-Authentic w {ctx} e =
      let (v, ran, _) = respond-eq-ok (context_of_token outside token) w e in
      let now = outside.clock w.calls in
      let (session, found, k1) =
        fetch-eq-ok (session_of (hash_token outside token) now) 401 "Invalid or expired session" _ _
          ran in
      let (user, user_found, k2) =
        fetch-eq-ok (λ (db : Db). find (λ u. u.id == session.user_id) db.users) 401 "User not found"
          _ _ k1 in
      let (active, k3) =
        guard-eq-ok (not (is_active user.status)) 401 "Account is not active" _ _ k2 in
      let (hashed, unrevoked, unexpired) =
        live_facts (hash_token outside token) now session
          (find-eq-some _ w.committed.sessions found) in
      let built : ctx
          ≡ record { session = session; user = user; roles = roles_of user.id w.committed } =
        cc in
      rw built (record {
        session_found = found;
        token_matches = eq_of_== _ _ hashed;
        unrevoked = unrevoked;
        unexpired = unexpired;
        user_found = user_found;
        owner =
            (nat_beq_iff _ _).0
              (find-eq-some (λ u. u.id == session.user_id) w.committed.users user_found);
        user_active = not-eq-false _ active;
        roles = refl;
      })

-- No token speaks for the user.
abbrev pub LockedOut : Outside → Uuid → World → Type 0
LockedOut outside id w =
    (token : String) (ctx : AuthContext) (w' : World)
    → respond (context_of_token outside token) w ≡ (ok ctx, w')
    → ctx.user.id ≢ id

-- Every session of the user is revoked.
abbrev pub AllRevoked : Uuid → Db → Type 0
AllRevoked id db = All (λ s. s.user_id ≡ id → is_some s.revoked_at ≡ true) db.sessions

pub AllRevoked-LockedOut :
    (outside : Outside) (id : Uuid) (w : World) → AllRevoked id w.committed → LockedOut outside id w
AllRevoked-LockedOut outside id w gone token ctx w' e same =
    let a = context_of_token-Authentic outside token w e in
    let revoked =
      find-All (λ s. s.user_id ≡ id → is_some s.revoked_at ≡ true) _ w.committed.sessions gone
        a.session_found (sym a.owner ∙ same) in
    cc (a.unrevoked)

require_roles-eq-ok :
    (allowed : List String) (ctx : AuthContext) (w : World) {ctx' : AuthContext} {w' : World}
    → require_roles allowed ctx w ≡ (ok ctx', w')
    → (intersects allowed ctx.roles ≡ true) × (ctx' ≡ ctx) × (w' ≡ w)
unfolding require_roles
require_roles-eq-ok allowed ctx w e = elim (Bool-cases (intersects allowed ctx.roles)) [
  | inl has ↦ (has, cc (rw has at e), cc (rw has at e))
  | inr lacks ↦ cc (rw lacks at e)
]

-- The header is the scheme "Bearer", in any case, and the token, which is not empty.
abbrev pub Presents : Outside → HttpRequest → String → Type 0
Presents outside req token =
    (scheme : String) × (req.authorization ≡ some (scheme ∷ token ∷ []))
    × (outside.lower scheme ≡ "bearer")
    × ((token == "") ≡ false)

header_facts :
    (outside : Outside) (header : Option (List String)) (w : World) {token : String} {w' : World}
    → bearer_token outside header w ≡ (ok token, w')
    → ((scheme : String) × (header ≡ some (scheme ∷ token ∷ []))
        × (outside.lower scheme ≡ "bearer")
        × ((token == "") ≡ false))
      × (w' ≡ w)
unfolding bearer_token
header_facts outside none w e = cc
header_facts outside (some []) w e = cc
header_facts outside (some (a ∷ [])) w e = cc
header_facts outside (some (a ∷ b ∷ c ∷ l)) w e = cc
header_facts outside (some (scheme ∷ text ∷ [])) w {token} e =
    elim (Bool-cases (outside.lower scheme == "bearer")) [
      | inl bearer ↦
          let (given, passed) =
            guard-eq-ok (text == "") 401 "Token is empty" _ _ (rw bearer at e) in
          let same : text ≡ token = cc (passed) in
          (
            (
              scheme,
              ap (λ t. some (scheme ∷ t ∷ [])) same,
              eq_of_== _ _ bearer,
              subst (λ t. (t == "") ≡ false) same given,
            ),
            cc (passed),
          )
      | inr other ↦ cc (rw other at e)
    ]

bearer_token-eq-ok :
    (outside : Outside) (req : HttpRequest) (w : World) {token : String} {w' : World}
    → bearer_token outside req.authorization w ≡ (ok token, w')
    → Presents outside req token × (w' ≡ w)
bearer_token-eq-ok outside req w e = header_facts outside req.authorization w e

-- A handler behind `require_roles(allowed)` runs only for a caller whose Authorization header is
-- "Bearer" and a token that names a session that is not revoked and has not expired, of a user who
-- is active and who holds one of the allowed roles in the database at that moment.
pub guarded_caller :
    (outside : Outside) (allowed : List String) (req : HttpRequest) (w : World) {ctx : AuthContext}
    {w' : World}
    → respond (guarded outside allowed req) w ≡ (ok ctx, w')
    → (token : String) × Presents outside req token
      × Authentic outside token (outside.clock w.calls) w.committed ctx
      × (intersects allowed (roles_of ctx.user.id w.committed) ≡ true)
unfolding guarded get_current_auth_context
guarded_caller outside allowed req w {ctx} e =
    let (v, ran, ended) = respond-eq-ok (guarded outside allowed req) w e in
    let opened : World = record w { working = w.committed } in
    let (ctx0, w1, e1, k1) =
      >>=-eq-ok (get_current_auth_context outside req) (require_roles allowed) opened ran in
    let (token, w2, e2, k2) =
      >>=-eq-ok (bearer_token outside req.authorization) (context_of_token outside) opened e1 in
    let (presented, same) = bearer_token-eq-ok outside req opened e2 in
    let (has, kept, _) = require_roles-eq-ok allowed ctx0 w1 k1 in
    let here : context_of_token outside token opened ≡ (ok ctx0, w1) = rw same at k2 in
    let authentic =
      context_of_token-Authentic outside token w {ctx = ctx0}
        {w' = record w1 { working = w1.committed }} (rw here) in
    rw kept (token, presented, authentic, rw (← authentic.roles) has)
