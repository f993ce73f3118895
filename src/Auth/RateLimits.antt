-- ===== src/Auth/RateLimits.antt =====
-- The counter per address and action (app/auth.py, login; app/devices.py,
-- request_trusted_device_approval).
use sentinel_auth.Prelude.{
  ℕ, ◌+◌, ◌-◌, String, Bool, false, ◌&&◌, Option, none, some, [], ◌∷◌, ◌++◌, ltb, leb,
  if◌then◌else◌, ◌==◌, string_eq, find, update,
}
use sentinel_auth.Core.{Time, minute, RateLimit, Db}

abbrev pub max_count : ℕ
max_count = 5

abbrev pub is_key : String → String → RateLimit → Bool
is_key ip action r = r.ip_address == ip && r.action == action

abbrev pub rate_of : String → String → Db → Option RateLimit
rate_of ip action db = find (is_key ip action) db.rate_limits

-- `rate and rate.window_start >= window_start and rate.count >= rate.max_count`
unfoldable pub is_exceeded : Time → Option RateLimit → Bool
is_exceeded now none = false
is_exceeded now (some rate) = leb (now - minute) rate.window_start && leb rate.max_count rate.count

abbrev pub bump : Time → RateLimit → RateLimit
bump now rate =
    if ltb rate.window_start (now - minute)
    then record rate { window_start = now; count = 1 }
    else record rate { count = rate.count + 1 }

-- Count the request: reset the row when its window has elapsed, or create it.
unfoldable pub count_request : String → String → Time → Option RateLimit → Db → Db
count_request ip action now (some _) db = record db {
  rate_limits = update (is_key ip action) (bump now) db.rate_limits;
}
count_request ip action now none db = record db {
  rate_limits =
      db.rate_limits
      ++ record {
        ip_address = ip;
        action = action;
        count = 1;
        max_count = max_count;
        window_start = now;
      }
        ∷ [];
}
