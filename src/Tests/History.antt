-- ===== src/Tests/History.antt =====
-- A search over three login attempts, in pages of one row.
use sentinel_auth.Prelude.{
  Bool, none, some, List, [], ◌∷◌, map, ◌≡◌, refl, where_, count, ◌+◌, ◌*◌, ◌≤◌, arith,
}
use sentinel_auth.Core.{ok, WorldOf, respond}
use sentinel_auth.Detection.Tables.{LoginAttempt, DetectionDb}
use sentinel_auth.LoginHistory.{
  Search, attempt_to_dict, matches, newest_first, list_login_attempts, check_search,
}
use sentinel_auth.LoginHistory.Order.{IsNewestFirst}
use sentinel_auth.LoginHistory.Pages.{read_pages, read_pages_complete}
use sentinel_auth.Tests.Sample.{start, outside}
use sentinel_auth.Tests.Soc.{attempt}

abbrev later_attempt : LoginAttempt
later_attempt = record attempt { id = 66; event_id = 67; timestamp = start + 5 }

abbrev failed_attempt : LoginAttempt
failed_attempt = record attempt { id = 68; event_id = 69; outcome = "mfa_failed" }

abbrev db : DetectionDb
db = record {
  login_attempts = attempt ∷ failed_attempt ∷ later_attempt ∷ [];
  soc_analysts = [];
  alerts = [];
  alert_timeline = [];
}

abbrev world : WorldOf DetectionDb
world = record { committed = db; working = db; calls = 0; posted = [] }

abbrev search_success : Search
search_success = record {
  user_id = some 1;
  username = none;
  from_date = some start;
  to_date = none;
  ip_address = none;
  outcome = some "success";
  risk_level = none;
  page = 1;
  limit = 1;
}

two_fit : count (matches search_success) db.login_attempts ≤ 2 * 1
unfolding matches
two_fit = omega arith

read_pages_complete_example :
    (rows : List LoginAttempt) × (respond (read_pages outside search_success 1 2) world
      ≡ (ok (map (attempt_to_dict outside) rows), record world { working = world.committed }))
    × IsNewestFirst rows
    × ((p : LoginAttempt → Bool)
        → count p rows ≡ count p (where_ (matches search_success) db.login_attempts))
read_pages_complete_example =
    read_pages_complete outside search_success (refl, refl, refl) 2 world two_fit

second-page :
    (respond (list_login_attempts outside (record search_success { page = 2 })) world).0
    ≡ ok
        (record { attempts = attempt_to_dict outside attempt ∷ []; total = 2; page = 2; limit = 1 })
unfolding list_login_attempts check_search matches newest_first
second-page = refl

failures :
    newest_first
      (where_ (matches (record search_success { outcome = some "failure" })) db.login_attempts)
    ≡ failed_attempt ∷ []
unfolding matches newest_first
failures = refl
