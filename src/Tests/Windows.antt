-- ===== src/Tests/Windows.antt =====
-- Windows of the analytics and their buckets.
use sentinel_auth.Prelude.{
  ◌+◌, ◌-◌, ◌*◌, ◌≤◌, ◌<◌, none, some, [], ◌∷◌, length, find, or_else, All, ◌==◌, nat_eq, ◌≡◌, refl,
  arith,
}
use sentinel_auth.Core.{Time, day, ok, raise, http}
use sentinel_auth.Pipeline.Features.{hour}
use sentinel_auth.Manager.{
  Bucket, WindowSpec, bucket_step, floor_bucket, starts_from, bucket_starts, bucket_count,
  max_buckets, resolve_window, resolve_source_window,
}
use sentinel_auth.Manager.Grid.{datetime_max, bucket_starts_cover, bucket_starts_terminates}
use sentinel_auth.Manager.Agreement.{resolve_window_bounds, source_takes_window}

-- From ten minutes past an hour to three hours later.
abbrev begin : Time
begin = 20_000 * day + 600_000_000

abbrev finish_at : Time
finish_at = begin + 3 * hour

abbrev window : WindowSpec
window = record { start = begin; end = finish_at; bucket = Bucket.hourly }

resolved : resolve_window finish_at none none (some "auto") 3 ≡ ok window
unfolding resolve_window bucket_count floor_bucket
resolved = refl

four_hours :
    bucket_starts begin finish_at Bucket.hourly
    ≡ (20_000 * day)
      ∷ (20_000 * day + hour)
      ∷ (20_000 * day + 2 * hour)
      ∷ (20_000 * day + 3 * hour)
      ∷ []
unfolding bucket_starts floor_bucket
four_hours = refl

-- The limit of 400 buckets refuses a window of 17 days although 31 days are allowed.
seventeen_days :
    resolve_window begin (some (begin - 17 * day)) none (some "hour") 24
    ≡ raise (http 400 "window produces more than 400 hour buckets")
unfolding resolve_window bucket_count floor_bucket
seventeen_days = refl

bucket_starts_cover_example :
    (find
        (λ c. c == floor_bucket (begin + 5) Bucket.hourly)
        (bucket_starts begin finish_at Bucket.hourly)
      ≡ some (floor_bucket (begin + 5) Bucket.hourly))
    × All
        (λ (c : Time).
          ((floor_bucket c Bucket.hourly ≡ c) × (floor_bucket begin Bucket.hourly ≤ c))
          × (c < finish_at))
        (bucket_starts begin finish_at Bucket.hourly)
bucket_starts_cover_example =
    bucket_starts_cover begin finish_at (begin + 5) Bucket.hourly (omega arith) (omega arith)

fifty_reach : finish_at ≤ floor_bucket begin Bucket.hourly + 50 * bucket_step Bucket.hourly
unfolding floor_bucket
fifty_reach = omega arith

bucket_starts_terminates_example :
    All
      (λ (c : Time). c + bucket_step Bucket.hourly ≤ datetime_max)
      (bucket_starts begin finish_at Bucket.hourly)
    × (starts_from 50 (bucket_step Bucket.hourly) (floor_bucket begin Bucket.hourly) finish_at
        ≡ bucket_starts begin finish_at Bucket.hourly)
    × (length
          (starts_from 50 (bucket_step Bucket.hourly) (floor_bucket begin Bucket.hourly) finish_at)
        ≡ bucket_count begin finish_at Bucket.hourly)
bucket_starts_terminates_example =
    bucket_starts_terminates begin finish_at Bucket.hourly 50 (omega arith) fifty_reach

resolve_window_bounds_example :
    (finish_at ≡ window.end)
    × (or_else none (window.end - 3 * hour) ≡ window.start)
    × (window.start < window.end)
    × (window.end - window.start ≤ 366 * day)
    × (length (bucket_starts window.start window.end window.bucket) ≤ max_buckets window.bucket)
resolve_window_bounds_example = resolve_window_bounds finish_at none none (some "auto") 3 resolved

source_takes_window_example :
    resolve_source_window (finish_at + 7) (some begin) (some finish_at) (some "hour") ≡ ok window
source_takes_window_example =
    source_takes_window finish_at (finish_at + 7) none none (some "auto") 3 {spec = window} resolved
