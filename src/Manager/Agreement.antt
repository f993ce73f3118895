-- ===== src/Manager/Agreement.antt =====
-- app/manager.py: a window that the manager's service has resolved, at the two sources.
use sentinel_auth.Prelude.{
  ℕ, ◌-◌, ◌*◌, ◌≤◌, ◌<◌, String, false, Option, none, some, length, leb, ltb, or_else, ◌≡◌, refl,
  subst, Bool-cases, inl, inr, arith,
}
use sentinel_auth.Core.{Time, day, ok}
use sentinel_auth.Pipeline.Features.{hour}
use sentinel_auth.Manager.{
  is_too_long, max_window, Bucket, WindowSpec, bucket_name, max_buckets, chosen_bucket,
  check_buckets, check_window, bucket_starts, bucket_count, resolve_window, resolve_source_window,
}
use sentinel_auth.Manager.Grid.{length-bucket_starts}

chosen_again : (span : Time) (b : Bucket) → chosen_bucket span (some (bucket_name b)) ≡ some b
chosen_again span Bucket.hourly = refl
chosen_again span Bucket.daily = refl

-- What the checks let through: the window as it was asked for, with a bucket of its own.
abbrev Checked : Time → Time → WindowSpec → Type 0
Checked start end spec =
    (start ≡ spec.start)
    × (end ≡ spec.end)
    × (spec.start < spec.end)
    × (spec.end - spec.start ≤ 366 * day)
    × (bucket_count spec.start spec.end spec.bucket ≤ max_buckets spec.bucket)
    × (check_window (λ s e b. length (bucket_starts s e b)) spec.start spec.end
          (some (bucket_name spec.bucket))
        ≡ ok spec)

record-Checked :
    (start end : Time) (b : Bucket)
    → leb end start ≡ false
    → ltb max_window (end - start) ≡ false
    → is_too_long (end - start) b ≡ false
    → ltb (max_buckets b) (bucket_count start end b) ≡ false
    → Checked start end (record { start = start; end = end; bucket = b })
record-Checked start end b order short fits few = (
  refl,
  refl,
  ground arith,
  ground arith,
  ground arith,
  rw (order, short, chosen_again (end - start) b, fits, length-bucket_starts start end b, few) refl,
)

check_buckets-Checked :
    (start end : Time) (bucket : Option Bucket) {spec : WindowSpec}
    → leb end start ≡ false
    → ltb max_window (end - start) ≡ false
    → check_buckets bucket_count start end bucket ≡ ok spec
    → Checked start end spec
check_buckets-Checked start end none order short ran = cc
check_buckets-Checked start end (some b) {spec} order short ran =
    elim (Bool-cases (is_too_long (end - start) b)) [
      | inl long ↦ cc (rw long at ran)
      | inr fits ↦ elim (Bool-cases (ltb (max_buckets b) (bucket_count start end b))) [
        | inl many ↦ cc (rw (fits, many) at ran)
        | inr few ↦
            let own : record { start = start; end = end; bucket = b } ≡ spec =
              cc (rw (fits, few) at ran) in
            subst (Checked start end) own (record-Checked start end b order short fits few)
      ]
    ]

check_window-Checked :
    (start end : Time) (bucket : Option String) {spec : WindowSpec}
    → check_window bucket_count start end bucket ≡ ok spec
    → Checked start end spec
check_window-Checked start end bucket ran = elim (Bool-cases (leb end start)) [
  | inl empty ↦ cc (rw empty at ran)
  | inr order ↦ elim (Bool-cases (ltb max_window (end - start))) [
    | inl long ↦ cc (rw (order, long) at ran)
    | inr short ↦
        check_buckets-Checked start end (chosen_bucket (end - start) bucket) order short
          (rw (order, short) at ran)
  ]
]

-- A window that is resolved is the one that was asked for or the default one, is not empty, is at
-- most 366 days long and has at most 400 hours or 366 days as buckets.
pub resolve_window_bounds :
    (now : Time) (from_ to : Option Time) (bucket : Option String) (default_hours : ℕ)
    {spec : WindowSpec}
    → resolve_window now from_ to bucket default_hours ≡ ok spec
    → (or_else to now ≡ spec.end)
      × (or_else from_ (spec.end - default_hours * hour) ≡ spec.start)
      × (spec.start < spec.end)
      × (spec.end - spec.start ≤ 366 * day)
      × (length (bucket_starts spec.start spec.end spec.bucket) ≤ max_buckets spec.bucket)
unfolding resolve_window
resolve_window_bounds now from_ to bucket default_hours {spec} ran =
    let end = or_else to now in
    let (starts, ends, order, short, few, _) =
      check_window-Checked (or_else from_ (end - default_hours * hour)) end bucket ran in
    (
      ends,
      subst (λ (e : Time). or_else from_ (e - default_hours * hour) ≡ spec.start) ends starts,
      order,
      short,
      rw (length-bucket_starts spec.start spec.end spec.bucket) few,
    )

-- Both sources take a window that the manager's service has resolved, at whatever time it reaches
-- them, and resolve it to the same window and bucket.
pub source_takes_window :
    (now later : Time) (from_ to : Option Time) (bucket : Option String) (default_hours : ℕ)
    {spec : WindowSpec}
    → resolve_window now from_ to bucket default_hours ≡ ok spec
    → resolve_source_window later (some spec.start) (some spec.end) (some (bucket_name spec.bucket))
      ≡ ok spec
unfolding resolve_window resolve_source_window
source_takes_window now later from_ to bucket default_hours {spec} ran =
    let end = or_else to now in
    let (_, _, _, _, _, taken) =
      check_window-Checked (or_else from_ (end - default_hours * hour)) end bucket {spec = spec}
        ran in
    taken
