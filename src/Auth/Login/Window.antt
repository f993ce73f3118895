-- ===== src/Auth/Login/Window.antt =====
-- The rate limit of `login`: how many attempts one address has in a window.
use sentinel_auth.Prelude.{
  String, true, false, ◌≡◌, refl, sym, ap, ◌∙◌, inl, inr, Bool-cases, nat_eq, string_eq,
}
use sentinel_auth.Core.{
  Time, Uuid, Db, Outside, HttpRequest, get_client_ip, Result, World, Action, ◌>>=◌, ◌>>◌,
}
use sentinel_auth.Auth.RateLimits.{rate_of, is_exceeded, count_request}
use sentinel_auth.Auth.Sessions.{LoginResponse}
use sentinel_auth.Auth.Login.{LoginRequest, authenticate, check_status, risk_gate, login_at}
use sentinel_auth.Auth.Login.Steps.{check_rate_limit-exceeded, check_rate_limit-counted}
use sentinel_auth.Auth.Login.Rates.{
  is_counted, Ended, crashed, answered, Stage-then, Ended-from, authenticate-Stage,
  check_status-Stage, risk_gate-Stage, demanded, demanded-Ended,
}

-- What a login does to the row of its address.
pub data Limited (ip : String) (now : Time) (db db' : Db) (res : Result LoginResponse)
    : Type 0 where
  spared : db'.rate_limits ≡ db.rate_limits → is_counted res ≡ false → Limited ip now db db' res
  spent :
      is_exceeded now (rate_of ip "login" db) ≡ false
      → db'.rate_limits ≡ (count_request ip "login" now (rate_of ip "login" db) db).rate_limits
      → is_counted res ≡ true
      → Limited ip now db db' res

module _ (outside : Outside) (request : LoginRequest) (req : HttpRequest) (request_id : Uuid)
    (now : Time) where
  -- The login after its rate limit.
  abbrev attempt : Action LoginResponse
  attempt = authenticate outside request req request_id now >>= λ user.
      (check_status outside request req request_id now user
        >> (risk_gate outside request req request_id now user >>= λ demand.
            demanded outside request req request_id now user demand))

  attempt-Ended : (w : World) → Ended w (attempt w)
  attempt-Ended w =
      Stage-then (authenticate outside request req request_id now) _ w
        (authenticate-Stage outside request req request_id now w)
        (λ user w1 c1 r1. Ended-from w1 w _ c1 r1 (
          Stage-then (check_status outside request req request_id now user) _ w1
            (check_status-Stage outside request req request_id now user w1)
            (λ a w2 c2 r2. Ended-from w2 w1 _ c2 r2 (
              Stage-then (risk_gate outside request req request_id now user) _ w2
                (risk_gate-Stage outside request req request_id now user w2)
                (λ demand w3 c3 r3.
                  Ended-from w3 w2 _ c3 r3
                    (demanded-Ended outside request req request_id now user demand w3))))))

  pub login_at-Limited :
      (w : World)
      → w.committed ≡ w.working
      → Limited
          (get_client_ip req)
          now
          w.committed
          (login_at outside request req request_id now w).1.committed
          (login_at outside request req request_id now w).0
  unfolding login_at
  login_at-Limited w clean =
      elim (Bool-cases (is_exceeded now (rate_of (get_client_ip req) "login" w.working))) [
        | inl over ↦
            let (w1, ran, committed) =
              check_rate_limit-exceeded outside request req request_id now w over in
            rw ran (spared (ap (λ (d : Db). d.rate_limits) (committed ∙ sym clean)) refl)
        | inr under ↦
            let ran = check_rate_limit-counted outside request req request_id now w under in
            rw ran (counted under (attempt-Ended _))
      ]
    where
      counted :
          {p : Result LoginResponse × World}
          → is_exceeded now (rate_of (get_client_ip req) "login" w.working) ≡ false
          → Ended
              (record w {
                working =
                    count_request
                      (get_client_ip req)
                      "login"
                      now
                      (rate_of (get_client_ip req) "login" w.working)
                      w.working;
              })
              p
          → Limited (get_client_ip req) now w.committed p.1.committed p.0
      counted under (crashed c h) = spared (ap (λ (d : Db). d.rate_limits) c) h
      counted under (answered c h) =
          spent (rw clean under)
            (c
              ∙ ap
                  (λ (d : Db).
                    (count_request (get_client_ip req) "login" now
                      (rate_of (get_client_ip req) "login" d) d).rate_limits)
                  (sym clean))
            h
