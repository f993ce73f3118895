-- ===== src/Manager/Grid.antt =====
-- app/manager.py: the buckets of a window.
use sentinel_auth.Prelude.{
  ℕ, zero, suc, ◌+◌, ◌-◌, ◌*◌, ◌/◌, ◌≤◌, ◌<◌, List, [], ◌∷◌, if◌then◌else◌, length, ltb, ◌==◌,
  nat_eq, find, some, All, ◌≡◌, refl, ap, sym, ◌∙◌, ◌⊎◌, Bool-cases, inl, inr, arith,
}
use sentinel_auth.Core.{Time}
use sentinel_auth.Manager.{
  Bucket, bucket_step, floor_bucket, starts_from, count_from, rounds, bucket_starts, bucket_count,
}

suc-add : (m n : ℕ) → suc m + n ≡ suc (m + n)
suc-add m n = omega arith

add_comm : (m n : ℕ) → m + n ≡ n + m
add_comm m n = omega arith

suc-mul : (m n : ℕ) → suc m * n ≡ n + m * n
suc-mul m n = grind arith

shifted :
    (n step cursor : ℕ) {end : ℕ} → end ≤ cursor + suc n * step → end ≤ cursor + step + n * step
shifted n step cursor h = grind arith

length-starts_from :
    (n step cursor end : ℕ) → length (starts_from n step cursor end) ≡ count_from n step cursor end
length-starts_from zero step cursor end = refl
length-starts_from (suc n) step cursor end = elim (Bool-cases (ltb cursor end)) [
  | inl more ↦ rw (more, length-starts_from n step (cursor + step) end) (omega arith)
  | inr over ↦ rw over refl
]

starts_from-over : (n step cursor end : ℕ) → end ≤ cursor → starts_from n step cursor end ≡ []
starts_from-over zero step cursor end h = refl
starts_from-over (suc n) step cursor end h = ground arith

-- More rounds than it takes to pass the end change nothing.
starts_from-enough :
    (n k step cursor end : ℕ)
    → end ≤ cursor + n * step
    → starts_from (n + k) step cursor end ≡ starts_from n step cursor end
starts_from-enough zero k step cursor end h = starts_from-over (0 + k) step cursor end (omega arith)
starts_from-enough (suc n) k step cursor end h =
    rw (suc-add n k, starts_from-enough n k step (cursor + step) end (shifted n step cursor h)) refl

first-hit :
    (f : ℕ) (cursor end : ℕ) (rest : List ℕ)
    → cursor < end
    → (cursor ≡ f) ⊎ (find (λ c. c == f) rest ≡ some f)
    → find (λ c. c == f) (if ltb cursor end then cursor ∷ rest else []) ≡ some f
first-hit f cursor end rest below (inl same) = ground arith
first-hit f cursor end rest below (inr later) = elim (Bool-cases (cursor == f)) [
  | inl e ↦ ground arith
  | inr e ↦ ground arith
]

starts_from-hit :
    (n k step cursor end : ℕ) {f : ℕ}
    → f ≡ cursor + k * step
    → end ≤ cursor + n * step
    → f < end
    → find (λ c. c == f) (starts_from n step cursor end) ≡ some f
starts_from-hit zero k step cursor end e h below = ground arith
starts_from-hit (suc n) zero step cursor end {f} e h below =
    first-hit f cursor end _ (omega arith) (inl (omega arith))
starts_from-hit (suc n) (suc k) step cursor end {f} e h below =
    first-hit f cursor end _ (grind arith) (
      inr (
        starts_from-hit n k step (cursor + step) end (grind arith) (shifted n step cursor h) below))

starts_from-All {ℓ} :
    (P : ℕ → Type ℓ) (n step cursor end : ℕ)
    → ((c : ℕ) → P c → P (c + step))
    → P cursor
    → All (λ (c : ℕ). P c × (c < end)) (starts_from n step cursor end)
starts_from-All P zero step cursor end next h = tt
starts_from-All P (suc n) step cursor end next h = elim (Bool-cases (ltb cursor end)) [
  | inl more ↦
      rw more ((h, ground arith), starts_from-All P n step (cursor + step) end next (next cursor h))
  | inr over ↦ rw over tt
]

enough_rounds :
    (start end : Time) (b : Bucket)
    → end ≤ floor_bucket start b + rounds start end b * bucket_step b
unfolding floor_bucket
enough_rounds start end Bucket.hourly = omega arith
enough_rounds start end Bucket.daily = omega arith

floor_grid :
    (start t : Time) (b : Bucket)
    → start ≤ t
    → floor_bucket start b + (t / bucket_step b - start / bucket_step b) * bucket_step b
      ≡ floor_bucket t b
unfolding floor_bucket
floor_grid start t Bucket.hourly h = omega arith
floor_grid start t Bucket.daily h = omega arith

floor_below : (t : Time) (b : Bucket) → floor_bucket t b ≤ t
unfolding floor_bucket
floor_below t b = omega arith

floor_next :
    (c : Time) (b : Bucket)
    → floor_bucket c b ≡ c
    → floor_bucket (c + bucket_step b) b ≡ c + bucket_step b
unfolding floor_bucket
floor_next c Bucket.hourly h = omega arith
floor_next c Bucket.daily h = omega arith

floor_idem : (t : Time) (b : Bucket) → floor_bucket (floor_bucket t b) b ≡ floor_bucket t b
unfolding floor_bucket
floor_idem t Bucket.hourly = omega arith
floor_idem t Bucket.daily = omega arith

-- Every bucket begins on the clock's hour or day, not before the one that the window begins in, and
-- before the window ends.
bucket_starts_aligned :
    (start end : Time) (b : Bucket)
    → All
        (λ (c : Time). ((floor_bucket c b ≡ c) × (floor_bucket start b ≤ c)) × (c < end))
        (bucket_starts start end b)
unfolding bucket_starts
bucket_starts_aligned start end b =
    starts_from-All (λ c. (floor_bucket c b ≡ c) × (floor_bucket start b ≤ c)) (rounds start end b)
      (bucket_step b) (floor_bucket start b) end (λ c h. (floor_next c b h.0, omega arith))
      (floor_idem start b, omega arith)

-- The grid of a window has the bucket of every time in the window, and each of its buckets begins on
-- the clock's hour or day, not before the one that the window begins in, and before the window ends.
pub bucket_starts_cover :
    (start end t : Time) (b : Bucket)
    → start ≤ t
    → t < end
    → (find (λ c. c == floor_bucket t b) (bucket_starts start end b) ≡ some (floor_bucket t b))
      × All
          (λ (c : Time). ((floor_bucket c b ≡ c) × (floor_bucket start b ≤ c)) × (c < end))
          (bucket_starts start end b)
unfolding bucket_starts
bucket_starts_cover start end t b from_start below = (
  starts_from-hit (rounds start end b) (t / bucket_step b - start / bucket_step b) (bucket_step b)
      (floor_bucket start b) end (sym (floor_grid start t b from_start)) (enough_rounds start end b)
      (omega (arith, floor_below t b)),
  bucket_starts_aligned start end b,
)

pub length-bucket_starts :
    (start end : Time) (b : Bucket) → length (bucket_starts start end b) ≡ bucket_count start end b
unfolding bucket_starts bucket_count
length-bucket_starts start end b =
    length-starts_from (rounds start end b) (bucket_step b) (floor_bucket start b) end

-- 9999-12-31, one microsecond before midnight.
abbrev pub datetime_max : Time
datetime_max = 253_402_300_799_999_999

starts_from-fits :
    (n step cursor end bound : ℕ)
    → end + step ≤ bound
    → All (λ (c : ℕ). c + step ≤ bound) (starts_from n step cursor end)
starts_from-fits zero step cursor end bound h = tt
starts_from-fits (suc n) step cursor end bound h = elim (Bool-cases (ltb cursor end)) [
  | inl more ↦ rw more (ground arith, starts_from-fits n step (cursor + step) end bound h)
  | inr over ↦ rw over tt
]

-- For a window that ends a bucket or more before datetime.max the loop ends by its own test: no sum
-- that it forms, the last one included, exceeds datetime.max, and any number of rounds that reaches
-- the end of the window gives the same buckets, and as many as are counted.
pub bucket_starts_terminates :
    (start end : Time) (b : Bucket) (n : ℕ)
    → end + bucket_step b ≤ datetime_max
    → end ≤ floor_bucket start b + n * bucket_step b
    → All (λ (c : Time). c + bucket_step b ≤ datetime_max) (bucket_starts start end b)
      × (starts_from n (bucket_step b) (floor_bucket start b) end ≡ bucket_starts start end b)
      × (length (starts_from n (bucket_step b) (floor_bucket start b) end)
          ≡ bucket_count start end b)
unfolding bucket_starts
bucket_starts_terminates start end b n fits h =
    let r = rounds start end b in
    let first = floor_bucket start b in
    let same : starts_from n (bucket_step b) first end ≡ bucket_starts start end b =
      sym (starts_from-enough n r (bucket_step b) first end h)
      ∙ ap (λ m. starts_from m (bucket_step b) first end) (add_comm n r)
      ∙ starts_from-enough r n (bucket_step b) first end (enough_rounds start end b) in
    (
      starts_from-fits r (bucket_step b) first end datetime_max fits,
      same,
      ap length same ∙ length-bucket_starts start end b,
    )
