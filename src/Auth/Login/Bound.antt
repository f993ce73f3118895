-- ===== src/Auth/Login/Bound.antt =====
-- A bound on the attempts that one address has in a window of the rate limit.
use sentinel_auth.Prelude.{
  ℕ, ◌+◌, ◌-◌, ◌≤◌, ◌<◌, String, Bool, true, false, ◌&&◌, ◌≡◌, refl, ap, ◌∙◌, some, inl, inr, arith,
  Bool-cases, Option-cases, find, ◌==◌, nat_eq, string_eq, eq_of_==, ltb, List, [], ◌∷◌,
  find-update_hit, find-update_miss, find-append_hit,
}
use sentinel_auth.Core.{
  Time, minute, RateLimit, Db, Outside, HttpRequest, get_client_ip, Result, World, respond,
}
use sentinel_auth.Auth.RateLimits.{is_key, rate_of, is_exceeded, bump, count_request}
use sentinel_auth.Auth.Sessions.{LoginResponse}
use sentinel_auth.Auth.Login.{LoginRequest, login}
use sentinel_auth.Auth.Login.Rates.{is_counted}
use sentinel_auth.Auth.Login.Window.{Limited, spared, spent, login_at-Limited}

key-bump :
    (ip action : String) (now : Time) (r : RateLimit)
    → is_key ip action (bump now r) ≡ is_key ip action r
key-bump ip action now r = ground arith

-- The row of an address after a counted request of it, inside the window.
own_row :
    (ip : String) (now : Time) (db : Db) {rate : RateLimit}
    → rate_of ip "login" db ≡ some rate
    → now ≤ rate.window_start + minute
    → rate_of ip "login" (count_request ip "login" now (some rate) db)
      ≡ some (record rate { count = rate.count + 1 })
unfolding count_request
own_row ip now db {rate} found inside =
    find-update_hit (is_key ip "login") (bump now) db.rate_limits
      (λ r h. key-bump ip "login" now r ∙ h) found
    ∙ ap some (same rate inside)
  where
    same :
        (r : RateLimit)
        → now ≤ r.window_start + minute
        → bump now r ≡ record r { count = r.count + 1 }
    same r h = rw (late r h)
      where
        late :
            (r : RateLimit)
            → now ≤ r.window_start + minute
            → ltb r.window_start (now - minute) ≡ false
        late r h = ground arith

-- A counted request of another address leaves the row.
other_row :
    (ip ip' : String) (now : Time) (db : Db) {rate : RateLimit}
    → (ip' == ip) ≡ false
    → rate_of ip "login" db ≡ some rate
    → rate_of ip "login" (count_request ip' "login" now (rate_of ip' "login" db) db) ≡ some rate
unfolding count_request
other_row ip ip' now db {rate} ne found = elim (Option-cases (rate_of ip' "login" db)) [
  | inl new ↦ rw new (find-append_hit (is_key ip "login") db.rate_limits _ found)
  | inr (r, known) ↦ rw known (
      find-update_miss (is_key ip "login") (is_key ip' "login") (bump now) db.rate_limits
        (λ x h. (apart x h, key-bump ip "login" now x ∙ apart x h))
      ∙ found)
]
  where
    apart : (x : RateLimit) → is_key ip' "login" x ≡ true → is_key ip "login" x ≡ false
    apart x h =
        let named : x.ip_address ≡ ip' = eq_of_== x.ip_address ip' (ground arith) in
        rw (named, ne) refl

room-left :
    (now : Time) (rate : RateLimit)
    → is_exceeded now (some rate) ≡ false
    → now ≤ rate.window_start + minute
    → rate.count < rate.max_count
unfolding is_exceeded
room-left now rate h inside = ground arith

abbrev pub one_if : Bool → ℕ
one_if true = 1
one_if false = 0

-- The row of the address after a request: in the same window, with what the request has spent.
data After (ip : String) (cost : ℕ) (rate : RateLimit) (db : Db) : Type 0 where
  after :
      (rate' : RateLimit)
      → rate_of ip "login" db ≡ some rate'
      → rate'.window_start ≡ rate.window_start
      → rate'.max_count ≡ rate.max_count
      → cost + (rate'.max_count - rate'.count) ≤ rate.max_count - rate.count
      → After ip cost rate db

-- What a request costs the address.
abbrev pub cost {ℓ} : {A : Type ℓ} → String → HttpRequest → Result A → ℕ
cost ip req res = one_if (get_client_ip req == ip && is_counted res)

same_rates :
    (ip : String) (db db' : Db)
    → db'.rate_limits ≡ db.rate_limits
    → rate_of ip "login" db' ≡ rate_of ip "login" db
same_rates ip db db' e = ap (find (is_key ip "login")) e

Limited-After :
    (ip : String) (req : HttpRequest) (now : Time) (db db' : Db) (res : Result LoginResponse)
    {rate : RateLimit}
    → rate_of ip "login" db ≡ some rate
    → now ≤ rate.window_start + minute
    → Limited (get_client_ip req) now db db' res
    → After ip (cost ip req res) rate db'
Limited-After ip req now db db' res {rate} found inside (spared same free) =
    after rate (same_rates ip db db' same ∙ found) refl refl
      (rw free (none_spent (get_client_ip req == ip)))
  where
    none_spent :
        (b : Bool)
        → one_if (b && false) + (rate.max_count - rate.count) ≤ rate.max_count - rate.count
    none_spent b = ground arith
Limited-After ip req now db db' res {rate} found inside (spent under rates paid) =
    elim (Bool-cases (get_client_ip req == ip)) [
      | inl hit ↦
          let mine : get_client_ip req ≡ ip = eq_of_== (get_client_ip req) ip hit in
          let here : rate_of (get_client_ip req) "login" db ≡ some rate = rw mine found in
          let open_ = room-left now rate (rw here at under) inside in
          after (record rate { count = rate.count + 1 })
            (same_rates ip
                (count_request (get_client_ip req) "login" now
                  (rate_of (get_client_ip req) "login" db) db)
                db' rates
              ∙ rw (here, mine) (own_row ip now db found inside))
            refl refl (rw (hit, paid) (omega (arith, open_)))
      | inr miss ↦
          after rate
            (same_rates ip
                (count_request (get_client_ip req) "login" now
                  (rate_of (get_client_ip req) "login" db) db)
                db' rates
              ∙ other_row ip (get_client_ip req) now db miss found)
            refl refl (rw miss (omega arith))
    ]

-- The attempts of an address in a run of logins: its requests that were answered, and neither
-- refused as too many nor lost in a crash.
unfoldable pub attempts : String → Outside → List (LoginRequest × HttpRequest) → World → ℕ
attempts ip outside [] w = 0
attempts ip outside ((request, req) ∷ rest) w =
    let (res, w') = respond (login outside request req) w in
    cost ip req res + attempts ip outside rest w'

login-After :
    (ip : String) (outside : Outside) (request : LoginRequest) (req : HttpRequest) (w : World)
    {rate : RateLimit}
    → rate_of ip "login" w.committed ≡ some rate
    → ((n : ℕ) → outside.clock n ≤ rate.window_start + minute)
    → After ip
        (cost ip req (respond (login outside request req) w).0)
        rate
        (respond (login outside request req) w).1.committed
unfolding login
login-After ip outside request req w found inside =
    Limited-After ip req (outside.clock (w.calls + 1)) w.committed _ _ found (inside (w.calls + 1))
      (login_at-Limited outside request req (outside.uuid4 w.calls) (outside.clock (w.calls + 1))
        (record w { working = w.committed; calls = w.calls + 1 + 1 }) refl)

-- While the clock stays within the minute of an address's window, the address has no more counted
-- attempts than the window has left, over any run of logins from any addresses. Counted are the
-- logins that get an answer other than 429; a login that ends in an unhandled error, which can roll
-- the count back, is not counted.
pub attempts-le-room :
    (ip : String) (outside : Outside) (requests : List (LoginRequest × HttpRequest)) (w : World)
    {rate : RateLimit}
    → rate_of ip "login" w.committed ≡ some rate
    → ((n : ℕ) → outside.clock n ≤ rate.window_start + minute)
    → attempts ip outside requests w ≤ rate.max_count - rate.count
unfolding attempts
attempts-le-room ip outside [] w found inside = omega arith
attempts-le-room ip outside ((request, req) ∷ rest) w {rate} found inside =
    elim (login-After ip outside request req w found inside) [
      | after rate' there same_window same_max room ↦
          let later =
            attempts-le-room ip outside rest (respond (login outside request req) w).1
              {rate = rate'} there (λ n. rw same_window (inside n)) in
          omega (arith, room, later)
    ]
