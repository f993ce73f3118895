-- ===== src/Auth/Login/Outcomes.antt =====
-- What `login` does from its first check to its answer.
use sentinel_auth.Prelude.{
  ℕ, String, Bool, false, ◌||◌, ◌≡◌, refl, sym, ap, ◌∙◌, Option, none, some, inl, inr, arith,
  Bool-cases, find, ◌==◌, nat_eq, string_eq, if◌then◌else◌, subst, subst₂,
}
use sentinel_auth.Core.{
  Time, Uuid, is_locked, User, RateLimit, Db, Outside, verified, HttpRequest, get_client_ip, ok,
  World, >>=-eq-ok,
}
use sentinel_auth.Auth.RateLimits.{rate_of, is_exceeded, count_request}
use sentinel_auth.Auth.Sessions.{LoginResponse}
use sentinel_auth.Auth.Login.{
  LoginRequest, check_rate_limit, authenticate, check_status, risk_gate, issue_challenge,
  open_session, login_at,
}
use sentinel_auth.Auth.Login.Steps.{
  check_rate_limit-exceeded, check_rate_limit-counted, authenticate-eq-ok, check_status-eq-ok,
  risk_gate-eq-ok, Ungated, SignedIn, Challenged, open_session_lem, issue_challenge_lem,
}

count_request-frame :
    (ip action : String) (now : Time) (rate : Option RateLimit) (db : Db)
    → ((count_request ip action now rate db).users ≡ db.users)
      × ((count_request ip action now rate db).sessions ≡ db.sessions)
      × ((count_request ip action now rate db).mfa_transactions ≡ db.mfa_transactions)
unfolding count_request
count_request-frame ip action now none db = (refl, refl, refl)
count_request-frame ip action now (some _) db = (refl, refl, refl)

-- The credentials of the request are those of an account that may log in.
pub record Cleared (outside : Outside) (request : LoginRequest) (db : Db) (user : User)
    : Type 0 where
  pub found : find (λ u. u.username == request.username) db.users ≡ some user
  pub password : outside.argon2_verify user.password_hash request.password ≡ verified
  pub unlocked : is_locked user.status ≡ false

-- What a successful login has done.
pub data Outcome (outside : Outside) (asked : ℕ) (user : User) (w : World) (r : LoginResponse)
    (w' : World) : Type 0 where
  signed_in :
      user.admin_mfa_required ≡ false
      → user.detection_mfa_once ≡ false
      → Ungated outside asked
      → SignedIn user w r w'
      → Outcome outside asked user w r w'
  challenged : Challenged user w r w' → Outcome outside asked user w r w'

module _ (outside : Outside) (request : LoginRequest) (req : HttpRequest) (request_id : Uuid)
    (now : Time) where
  finish-Outcome :
      (asked : ℕ) (user : User) (demand : Bool) (w : World) {r : LoginResponse} {w' : World}
      → (demand ≡ false → (user.detection_mfa_once ≡ false) × Ungated outside asked)
      → (if user.admin_mfa_required || demand
            then issue_challenge outside request req request_id now user
            else open_session outside request req request_id now user)
          w
        ≡ (ok r, w')
      → Outcome outside asked user w r w'
  finish-Outcome asked user demand w {r} {w'} only e =
      elim (Bool-cases (user.admin_mfa_required || demand)) [
        | inl mfa ↦
            let (r0, w0, ran, done) =
              issue_challenge_lem outside request req request_id now user w in
            let here : issue_challenge outside request req request_id now user w ≡ (ok r, w') =
              rw mfa at e in
            let pairs : (r0 ≡ r) × (w0 ≡ w') = (cc, cc) in
            challenged (subst₂ (Challenged user w) pairs.0 pairs.1 done)
        | inr free ↦
            let (r0, w0, ran, done) = open_session_lem outside request req request_id now user w in
            let here : open_session outside request req request_id now user w ≡ (ok r, w') =
              rw free at e in
            let pairs : (r0 ≡ r) × (w0 ≡ w') = (cc, cc) in
            let off : (user.admin_mfa_required ≡ false) × (demand ≡ false) = ground arith in
            signed_in off.0 (only off.1).0 (only off.1).1
              (subst₂ (SignedIn user w) pairs.0 pairs.1 done)
      ]

  -- The stages before the session or the challenge.
  pub record Passed (w : World) (r : LoginResponse) (w' : World) : Type 0 where
    pub user : User
    pub cleared : Cleared outside request w.working user
    pub before : World
    pub outcome : Outcome outside w.calls user before r w'
    pub sessions : before.working.sessions ≡ w.working.sessions
    pub transactions : before.working.mfa_transactions ≡ w.working.mfa_transactions

  check_rate_limit-eq-ok :
      (w : World) {a : Unit {0}} {w' : World}
      → check_rate_limit outside request req request_id now w ≡ (ok a, w')
      → (is_exceeded now (rate_of (get_client_ip req) "login" w.working) ≡ false)
        × (w'.working
            ≡ count_request
                (get_client_ip req)
                "login"
                now
                (rate_of (get_client_ip req) "login" w.working)
                w.working)
        × (w'.calls ≡ w.calls)
  check_rate_limit-eq-ok w e =
      elim (Bool-cases (is_exceeded now (rate_of (get_client_ip req) "login" w.working))) [
        | inl over ↦
            let (v, ran, _) = check_rate_limit-exceeded outside request req request_id now w over in
            cc ran
        | inr under ↦
            let ran = check_rate_limit-counted outside request req request_id now w under in
            (under, cc ran, cc ran)
      ]

  pub login_at-Passed :
      (w : World) {r : LoginResponse} {w' : World}
      → login_at outside request req request_id now w ≡ (ok r, w')
      → Passed w r w'
  unfolding login_at
  login_at-Passed w e =
      let (_, w1, e1, k1) = >>=-eq-ok (check_rate_limit outside request req request_id now) _ w e in
      let (_, counted, uncalled) = check_rate_limit-eq-ok w e1 in
      let frame =
        count_request-frame (get_client_ip req) "login" now
          (rate_of (get_client_ip req) "login" w.working) w.working in
      let (user, w2, e2, k2) =
        >>=-eq-ok (authenticate outside request req request_id now) _ w1 k1 in
      let (found, password, s2) = authenticate-eq-ok outside request req request_id now w1 e2 in
      let (_, w3, e3, k3) =
        >>=-eq-ok (check_status outside request req request_id now user) _ w2 k2 in
      let (unlocked, s3) = check_status-eq-ok outside request req request_id now user w2 e3 in
      let (demand, w4, e4, k4) =
        >>=-eq-ok (risk_gate outside request req request_id now user) _ w3 k3 in
      let (only, _, rows, view) = risk_gate-eq-ok outside request req request_id now user w3 e4 in
      let same : w3 ≡ w1 = s3 ∙ s2 in
      record {
        user = user;
        cleared = record {
          found =
              ap (find (λ u. u.username == request.username))
                (sym (ap (λ (d : Db). d.users) counted ∙ frame.0))
              ∙ found;
          password = password;
          unlocked = unlocked;
        };
        before = w4;
        outcome =
            finish-Outcome w.calls user demand w4
              (λ h. (
                (only h).0,
                subst (Ungated outside) (ap (λ (v : World). v.calls) same ∙ uncalled) (only h).1,
              ))
              k4;
        sessions =
            ap (λ (d : Db). d.sessions) view
            ∙ ap (λ (v : World). v.working.sessions) same
            ∙ ap (λ (d : Db). d.sessions) counted
            ∙ frame.1;
        transactions =
            ap (λ (d : Db). d.mfa_transactions) view
            ∙ ap (λ (v : World). v.working.mfa_transactions) same
            ∙ ap (λ (d : Db). d.mfa_transactions) counted
            ∙ frame.2;
      }
