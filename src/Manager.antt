-- ===== src/Manager.antt =====
-- app/manager.py: the window of a request for analytics and its buckets; app/core_analytics.py and
-- app/detection_analytics.py have their own copies of both. Times are UTC, as `as_utc` makes them.
pub mod Grid
pub mod Agreement
use sentinel_auth.Prelude.{
  ℕ, zero, suc, ◌+◌, ◌-◌, ◌*◌, ◌/◌, ◌%◌, String, Bool, true, false, ◌&&◌, Option, none, some, List,
  [], ◌∷◌, if◌then◌else◌, ◌==◌, string_eq, leb, ltb, length, or_else,
}
use sentinel_auth.Core.{Time, day, Result, ok, raise, http}
use sentinel_auth.Pipeline.Features.{hour}

pub data Bucket : Type 0 where
  hourly daily : Bucket

pub record WindowSpec : Type 0 where
  pub start : Time
  pub end : Time
  pub bucket : Bucket

abbrev pub bucket_name : Bucket → String
bucket_name Bucket.hourly = "hour"
bucket_name Bucket.daily = "day"

abbrev pub bucket_step : Bucket → Time
bucket_step Bucket.hourly = hour
bucket_step Bucket.daily = day

unfoldable pub floor_bucket : Time → Bucket → Time
floor_bucket ts bucket = ts - ts % bucket_step bucket

-- The loop `while cursor < end`, on fuel.
abbrev pub starts_from : (fuel step cursor end : ℕ) → List Time
starts_from zero step cursor end = []
starts_from (suc fuel) step cursor end =
    let rest = starts_from fuel step (cursor + step) end in
    if ltb cursor end then cursor ∷ rest else []

abbrev pub count_from : (fuel step cursor end : ℕ) → ℕ
count_from zero step cursor end = 0
count_from (suc fuel) step cursor end =
    let rest = count_from fuel step (cursor + step) end in if ltb cursor end then rest + 1 else 0

-- As many rounds as there are steps to the end, a broken one included.
abbrev pub rounds : Time → Time → Bucket → ℕ
rounds start end bucket =
    (end - floor_bucket start bucket + bucket_step bucket - 1) / bucket_step bucket

-- For windows that end a bucket or more before datetime.max: nearer to it the source's `cursor += step`
-- raises OverflowError, and so does that of bucket_count.
unfoldable pub bucket_starts : Time → Time → Bucket → List Time
bucket_starts start end bucket =
    starts_from (rounds start end bucket) (bucket_step bucket) (floor_bucket start bucket) end

unfoldable pub bucket_count : Time → Time → Bucket → ℕ
bucket_count start end bucket =
    count_from (rounds start end bucket) (bucket_step bucket) (floor_bucket start bucket) end

abbrev pub max_window : Time
max_window = 366 * day

abbrev max_hour_window : Time
max_hour_window = 31 * day

abbrev auto_limit : Time
auto_limit = 72 * hour

abbrev pub max_buckets : Bucket → ℕ
max_buckets Bucket.hourly = 400
max_buckets Bucket.daily = 366

abbrev auto_bucket : Time → Bucket
auto_bucket span = if ltb auto_limit span then Bucket.daily else Bucket.hourly

-- none for a bucket that is not in the vocabulary.
abbrev pub chosen_bucket : Time → Option String → Option Bucket
chosen_bucket span none = some (auto_bucket span)
chosen_bucket span (some s) =
    if s == "hour"
    then some Bucket.hourly
    else if s == "day"
    then some Bucket.daily
    else if s == "auto"
    then some (auto_bucket span)
    else none

abbrev bad_request {ℓ} : {A : Type ℓ} → String → Result A
bad_request detail = raise (http 400 detail)

abbrev pub is_too_long : Time → Bucket → Bool
is_too_long span Bucket.hourly = ltb max_hour_window span
is_too_long span Bucket.daily = false

abbrev too_many : Bucket → String
too_many Bucket.hourly = "window produces more than 400 hour buckets"
too_many Bucket.daily = "window produces more than 366 day buckets"

-- The checks, given how the buckets are counted.
module _ (count : Time → Time → Bucket → ℕ) where
  abbrev pub check_buckets : Time → Time → Option Bucket → Result WindowSpec
  check_buckets start end none = bad_request "'bucket' must be one of: hour, day, auto"
  check_buckets start end (some bucket) =
      if is_too_long (end - start) bucket
      then bad_request "bucket=hour requires a window of at most 31 days"
      else if ltb (max_buckets bucket) (count start end bucket)
      then bad_request (too_many bucket)
      else ok (record { start = start; end = end; bucket = bucket })

  abbrev pub check_window : Time → Time → Option String → Result WindowSpec
  check_window start end bucket =
      if leb end start
      then bad_request "'from' must be strictly earlier than 'to'"
      else if ltb max_window (end - start)
      then bad_request "window must not exceed 366 days"
      else check_buckets start end (chosen_bucket (end - start) bucket)

  abbrev pub resolve_with :
      (now : Time) (from_ to : Option Time)
      → Option String
      → (default_hours : ℕ) → Result WindowSpec
  resolve_with now from_ to bucket default_hours =
      let end = or_else to now in
      check_window (or_else from_ (end - default_hours * hour)) end bucket

unfoldable pub resolve_window :
    (now : Time) (from_ to : Option Time) → Option String → (default_hours : ℕ) → Result WindowSpec
resolve_window = resolve_with bucket_count

-- `_resolve_window` of the two sources.
unfoldable pub resolve_source_window :
    (now : Time) (from_ to : Option Time) → Option String → Result WindowSpec
resolve_source_window now from_ to bucket =
    resolve_with (λ start end b. length (bucket_starts start end b)) now from_ to bucket 24
